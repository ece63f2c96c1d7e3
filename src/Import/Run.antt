-- ===== src/Import/Run.antt =====
-- The two imports of media_service/controllers/transfer_import.py: `_import_manifest` and
-- `_import_open_archive`, over the manifest that was parsed and the entries of the archive.
use media_service_m.Import.Entries.{
  EntryMap, ImportOutcome, assert_archive_within_ceilings, entry_at, file_entries, filing_for,
  paths_of, tallied,
}
use media_service_m.Prelude.{ℕ, Option, none, some, List, [], ◌∷◌, ◌++◌, Text}
use media_service_m.Effect.{Exec, Result, ok, err}
use media_service_m.Model.Rows.{MediaObject, Category, Db, UserModel}
use media_service_m.Model.Store.{ObjectStorage, Externals, Settings, World, commit}
use media_service_m.Import.Paths.{ImportObjectEntry, ImportManifest}
use media_service_m.Import.Tree.{RecreatedTree, recreate_tree, categories_for}
use media_service_m.Import.Rows.{
  ImportObjectResult, ZipInfo, Match, absent, held, usable, importable_match, file_into,
  id_conflict, refused_row, linked_row, bytes_missing, RowOutcome,
}
use media_service_m.Import.OneFile.{import_one_file}

module _ {S : Type 0} (conf : Settings) (ext : Externals) (fresh : Db → ℕ) where
  abbrev pub manifest_row :
      ImportObjectEntry → List Category × List Text → ℕ → Match → Exec (World S) ImportObjectResult
  manifest_row entry (categories, paths) now absent w = (ok (bytes_missing entry paths), w)
  manifest_row entry (categories, paths) now held w = (ok (refused_row entry paths id_conflict), w)
  manifest_row entry (categories, paths) now (usable o) w =
      (ok (linked_row entry paths o.id), commit (file_into o categories now w.db) w)

  abbrev pub manifest_entry :
      UserModel
      → ImportObjectEntry
      → ℕ
      → Result (List Category × List Text)
      → Exec (World S) ImportObjectResult
  manifest_entry u entry now (err e) w = (err e, w)
  manifest_entry u entry now (ok filing) w =
      manifest_row entry filing now (importable_match u entry.id w.db) w

  -- The loop of `_import_manifest`, with the rows reported so far.
  unfoldable pub manifest_rows :
      UserModel
      → RecreatedTree
      → List ImportObjectEntry
      → ℕ
      → List ImportObjectResult
      → Exec (World S) (List ImportObjectResult)
  unfolding importable_match file_into categories_for paths_of
  manifest_rows u tree [] now rows w = (ok rows, w)
  manifest_rows u tree (entry ∷ entries) now rows w =
      let (done, v) = manifest_entry u entry now (filing_for conf ext tree entry) w in
      elim done [
        | err e ↦ (err e, v)
        | ok row ↦ manifest_rows u tree entries now (rows ++ row ∷ []) v
      ]

  abbrev pub manifest_report :
      RecreatedTree → Result (List ImportObjectResult) × World S → Result ImportOutcome × World S
  manifest_report tree (err e, w) = (err e, w)
  manifest_report tree (ok rows, w) =
      (ok (record { report = tallied tree rows; created_objects = [] }), w)

  abbrev pub manifest_under :
      UserModel
      → List ImportObjectEntry
      → ℕ
      → World S
      → Result RecreatedTree × Db
      → Result ImportOutcome × World S
  manifest_under u entries now w (err e, d) = (err e, commit d w)
  manifest_under u entries now w (ok tree, d) =
      manifest_report tree (manifest_rows u tree entries now [] (commit d w))

  -- `_import_manifest`, of the manifest that was parsed.
  unfoldable pub import_manifest : UserModel → ImportManifest → ℕ → Exec (World S) ImportOutcome
  unfolding manifest_rows recreate_tree tallied
  import_manifest u manifest now w =
      manifest_under u manifest.objects now w (recreate_tree fresh conf ext u manifest w.db)

module _ {S : Type 0} (storage : ObjectStorage S) (conf : Settings) (ext : Externals)
    (fresh : Db → ℕ) where
  abbrev pub archive_entry :
      UserModel
      → Option ZipInfo
      → ImportObjectEntry
      → ℕ
      → Result (List Category × List Text)
      → Exec (World S) RowOutcome
  archive_entry u info entry now (err e) w = (err e, w)
  archive_entry u info entry now (ok (categories, paths)) w =
      import_one_file storage conf ext u info entry categories paths now w

  abbrev pub with_created : Option MediaObject → List MediaObject → List MediaObject
  with_created none objects = objects
  with_created (some o) objects = objects ++ o ∷ []

  -- The loop of `_import_open_archive`, with the rows and the objects so far.
  unfoldable pub archive_rows :
      UserModel
      → RecreatedTree
      → EntryMap
      → List ImportObjectEntry
      → ℕ
      → List ImportObjectResult
      → List MediaObject
      → Exec (World S) (List ImportObjectResult × List MediaObject)
  unfolding import_one_file categories_for paths_of
  archive_rows u tree files [] now rows objects w = (ok (rows, objects), w)
  archive_rows u tree files (entry ∷ entries) now rows objects w =
      let (done, v) =
        archive_entry u (entry_at entry.id files) entry now (filing_for conf ext tree entry) w in
      elim done [
        | err e ↦ (err e, v)
        | ok outcome ↦
            archive_rows u tree files entries now (rows ++ outcome.0 ∷ [])
              (with_created outcome.1 objects) v
      ]

  abbrev pub archive_report :
      RecreatedTree
      → Result (List ImportObjectResult × List MediaObject) × World S
      → Result ImportOutcome × World S
  archive_report tree (err e, w) = (err e, w)
  archive_report tree (ok (rows, objects), w) =
      (ok (record { report = tallied tree rows; created_objects = objects }), w)

  abbrev pub archive_under :
      UserModel
      → EntryMap
      → List ImportObjectEntry
      → ℕ
      → World S
      → Result RecreatedTree × Db
      → Result ImportOutcome × World S
  archive_under u files entries now w (err e, d) = (err e, commit d w)
  archive_under u files entries now w (ok tree, d) =
      archive_report tree (archive_rows u tree files entries now [] [] (commit d w))

  abbrev pub archive_within :
      UserModel → ImportManifest → EntryMap → ℕ → Result (Unit {0}) → Exec (World S) ImportOutcome
  archive_within u manifest files now (err e) w = (err e, w)
  archive_within u manifest files now (ok _) w =
      archive_under u files manifest.objects now w (recreate_tree fresh conf ext u manifest w.db)

  -- `_import_open_archive`, of the manifest that was parsed and the archive's entries.
  unfoldable pub import_open_archive :
      UserModel → ImportManifest → List ZipInfo → ℕ → Exec (World S) ImportOutcome
  unfolding archive_rows recreate_tree tallied file_entries assert_archive_within_ceilings
  import_open_archive u manifest infos now w =
      let files = file_entries ext infos [] in
      archive_within u manifest files now (assert_archive_within_ceilings conf manifest files) w
