-- ===== src/Import/Ledger/Runs.antt =====
-- A whole import of media_service/controllers/transfer_import.py in the ledger of Quota/Accounting.
use media_service_m.Prelude.{ℕ, Option, List, [], ◌∷◌, ◌++◌, Text, ◌≡◌, refl, ◌∙◌, arith}
use media_service_m.Effect.{Result, ok, err}
use media_service_m.Model.Rows.{MediaObject, Category, Db, UserModel}
use media_service_m.Model.Store.{ObjectStorage, Externals, Settings, World, commit}
use media_service_m.Uploads.Ledger.{SameLedger}
use media_service_m.Quota.Accounting.{IsAccounted, same-IsAccounted}
use media_service_m.Import.Paths.{ImportObjectEntry, ImportManifest}
use media_service_m.Import.Tree.{RecreatedTree, recreate_tree}
use media_service_m.Import.Growth.{recreate_tree-grows}
use media_service_m.Import.Rows.{ImportObjectResult, ZipInfo, RowOutcome}
use media_service_m.Import.Run.{
  archive_entry, with_created, archive_rows, archive_report, archive_under, archive_within,
  import_open_archive,
}
use media_service_m.Import.Entries.{
  EntryMap, entry_at, filing_for, file_entries, assert_archive_within_ceilings,
}
use media_service_m.Import.Ledger.{import_one_file-IsAccounted}

pub SameLedger-self : (d : Db) → SameLedger d d
SameLedger-self d = (refl, refl)

pub SameLedger-trans : (d e f : Db) → SameLedger d e → SameLedger e f → SameLedger d f
SameLedger-trans d e f h k = (k.0 ∙ h.0, k.1 ∙ h.1)

pub SameLedger-one_more :
    (d : Db) (c : Category) → SameLedger d (record d { categories = d.categories ++ c ∷ [] })
SameLedger-one_more d c = (refl, refl)

pub recreate_tree-SameLedger :
    (fresh : Db → ℕ) (conf : Settings) (ext : Externals) (u : UserModel) (manifest : ImportManifest)
    (d : Db)
    → SameLedger d (recreate_tree fresh conf ext u manifest d).1
recreate_tree-SameLedger fresh conf ext u manifest d =
    recreate_tree-grows fresh SameLedger SameLedger-self SameLedger-trans SameLedger-one_more conf
      ext u manifest d

pub tree-IsAccounted :
    (fresh : Db → ℕ) (conf : Settings) (ext : Externals) (u : UserModel) (manifest : ImportManifest)
    (d : Db)
    → IsAccounted d
    → IsAccounted (recreate_tree fresh conf ext u manifest d).1
tree-IsAccounted fresh conf ext u manifest d h =
    let same = recreate_tree-SameLedger fresh conf ext u manifest d in
    same-IsAccounted d (recreate_tree fresh conf ext u manifest d).1 same.0
      (λ owner tenant. ground (arith, same.1)) h

module _ {S : Type 0} (storage : ObjectStorage S) (conf : Settings) (ext : Externals)
    (fresh : Db → ℕ) where
  archive_entry-IsAccounted :
      (u : UserModel) (info : Option ZipInfo) (entry : ImportObjectEntry) (now : ℕ)
      (filing : Result (List Category × List Text)) (w : World S)
      → IsAccounted w.db
      → IsAccounted (archive_entry storage conf ext fresh u info entry now filing w).1.db
  archive_entry-IsAccounted u info entry now (err e) w h = h
  archive_entry-IsAccounted u info entry now (ok (categories, paths)) w h =
      import_one_file-IsAccounted storage conf ext u info entry categories paths now w h

  abbrev Rows : Type 0
  Rows = Result (List ImportObjectResult × List MediaObject) × World S

  -- The loop after an entry that gave `r`.
  abbrev pub entry_on :
      UserModel
      → RecreatedTree
      → EntryMap
      → List ImportObjectEntry
      → ℕ
      → List ImportObjectResult
      → List MediaObject
      → Result RowOutcome × World S
      → Rows
  entry_on u tree files entries now rows objects (err e, v) = (err e, v)
  entry_on u tree files entries now rows objects (ok outcome, v) =
      archive_rows storage conf ext fresh u tree files entries now (rows ++ outcome.0 ∷ [])
        (with_created storage conf ext fresh outcome.1 objects) v

  pub archive_rows-onward :
      (u : UserModel) (tree : RecreatedTree) (files : EntryMap) (entry : ImportObjectEntry)
      (entries : List ImportObjectEntry) (now : ℕ) (rows : List ImportObjectResult)
      (objects : List MediaObject) (w : World S)
      → archive_rows storage conf ext fresh u tree files (entry ∷ entries) now rows objects w
        ≡ entry_on u tree files entries now rows objects (
            archive_entry storage conf ext fresh u
              (entry_at entry.id files)
              entry
              now
              (filing_for conf ext tree entry)
              w)
  unfolding archive_rows
  archive_rows-onward u tree files entry entries now rows objects w =
      case_of
        (archive_entry storage conf ext fresh u (entry_at entry.id files) entry now
          (filing_for conf ext tree entry) w).0
        (archive_entry storage conf ext fresh u (entry_at entry.id files) entry now
          (filing_for conf ext tree entry) w).1
    where
      case_of :
          (r : Result RowOutcome) (v : World S)
          → elim r [
            | err e ↦ (err e, v)
            | ok outcome ↦
                archive_rows storage conf ext fresh u tree files entries now
                  (rows ++ outcome.0 ∷ [])
                  (with_created storage conf ext fresh outcome.1 objects)
                  v
          ]
            ≡ entry_on u tree files entries now rows objects (r, v)
      case_of (ok outcome) v = refl
      case_of (err e) v = refl

  entry_on-IsAccounted :
      (u : UserModel) (tree : RecreatedTree) (files : EntryMap) (entries : List ImportObjectEntry)
      (now : ℕ) (rows : List ImportObjectResult) (objects : List MediaObject)
      (r : Result RowOutcome) (v : World S)
      → IsAccounted v.db
      → ((rows : List ImportObjectResult) (objects : List MediaObject)
          → IsAccounted
              (archive_rows storage conf ext fresh u tree files entries now rows objects v).1.db)
      → IsAccounted (entry_on u tree files entries now rows objects (r, v)).1.db
  entry_on-IsAccounted u tree files entries now rows objects (err e) v h k = h
  entry_on-IsAccounted u tree files entries now rows objects (ok outcome) v h k =
      k (rows ++ outcome.0 ∷ []) (with_created storage conf ext fresh outcome.1 objects)

  archive_rows-IsAccounted :
      (u : UserModel) (tree : RecreatedTree) (files : EntryMap) (entries : List ImportObjectEntry)
      (now : ℕ) (rows : List ImportObjectResult) (objects : List MediaObject) (w : World S)
      → IsAccounted w.db
      → IsAccounted
          (archive_rows storage conf ext fresh u tree files entries now rows objects w).1.db
  unfolding archive_rows
  archive_rows-IsAccounted u tree files [] now rows objects w h = h
  archive_rows-IsAccounted u tree files (entry ∷ entries) now rows objects w h =
      let call =
        archive_entry storage conf ext fresh u (entry_at entry.id files) entry now
          (filing_for conf ext tree entry) w in
      let after : IsAccounted call.1.db =
        archive_entry-IsAccounted u (entry_at entry.id files) entry now
          (filing_for conf ext tree entry) w h in
      rw (archive_rows-onward u tree files entry entries now rows objects w) (
        entry_on-IsAccounted u tree files entries now rows objects call.0 call.1 after
          (λ more created.
            archive_rows-IsAccounted u tree files entries now more created call.1 after))

  reported-IsAccounted :
      (tree : RecreatedTree) (r : Result (List ImportObjectResult × List MediaObject)) (v : World S)
      → IsAccounted v.db
      → IsAccounted (archive_report storage conf ext fresh tree (r, v)).1.db
  reported-IsAccounted tree (err e) v h = h
  reported-IsAccounted tree (ok rows) v h = h

  under-IsAccounted :
      (u : UserModel) (files : EntryMap) (entries : List ImportObjectEntry) (now : ℕ) (w : World S)
      (r : Result RecreatedTree) (d : Db)
      → IsAccounted d
      → IsAccounted (archive_under storage conf ext fresh u files entries now w (r, d)).1.db
  under-IsAccounted u files entries now w (err e) d h = h
  under-IsAccounted u files entries now w (ok tree) d h =
      let call = archive_rows storage conf ext fresh u tree files entries now [] [] (commit d w) in
      reported-IsAccounted tree call.0 call.1
        (archive_rows-IsAccounted u tree files entries now [] [] (commit d w) h)

  within-IsAccounted :
      (u : UserModel) (manifest : ImportManifest) (files : EntryMap) (now : ℕ)
      (r : Result (Unit {0})) (w : World S)
      → IsAccounted w.db
      → IsAccounted (archive_within storage conf ext fresh u manifest files now r w).1.db
  within-IsAccounted u manifest files now (err e) w h = h
  within-IsAccounted u manifest files now (ok _) w h =
      let made = recreate_tree fresh conf ext u manifest w.db in
      under-IsAccounted u files manifest.objects now w made.0 made.1
        (tree-IsAccounted fresh conf ext u manifest w.db h)

  -- Importing an archive, whatever happens to each of its files and even when it stops midway,
  -- leaves every scope's total the sum of the sizes of its objects that are neither deleted nor
  -- rejected, if it was so before.
  pub import_open_archive-IsAccounted :
      (u : UserModel) (manifest : ImportManifest) (infos : List ZipInfo) (now : ℕ) (w : World S)
      → IsAccounted w.db
      → IsAccounted (import_open_archive storage conf ext fresh u manifest infos now w).1.db
  unfolding import_open_archive
  import_open_archive-IsAccounted u manifest infos now w h =
      within-IsAccounted u manifest (file_entries ext infos []) now
        (assert_archive_within_ceilings conf manifest (file_entries ext infos [])) w h
