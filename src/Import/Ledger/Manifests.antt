-- ===== src/Import/Ledger/Manifests.antt =====
-- An import of a manifest alone: what `_import_manifest` of
-- media_service/controllers/transfer_import.py may change.
use media_service_m.Prelude.{
  ℕ, some, List, [], ◌∷◌, ◌++◌, Text, ◌≡◌, refl, sym, ap, ◌∙◌, inl, inr, arith, ◌==◌, Bool-cases,
  ==_iff,
}
use media_service_m.Effect.{Result, ok, err}
use media_service_m.Model.Rows.{MediaObject, Category, Db, UserModel, object_is}
use media_service_m.Model.Table.{find_row, save_row}
use media_service_m.Model.Store.{Externals, Settings, World, commit}
use media_service_m.Quota.Accounting.{IsAccounted}
use media_service_m.Import.Paths.{ImportObjectEntry, ImportManifest}
use media_service_m.Import.Tree.{RecreatedTree, recreate_tree}
use media_service_m.Import.Growth.{recreate_tree-grows}
use media_service_m.Import.Rows.{
  ImportObjectResult, Match, absent, held, usable, importable_match, filed, unfiled, file_into,
}
use media_service_m.Import.Run.{
  manifest_row, manifest_entry, manifest_rows, manifest_report, manifest_under, import_manifest,
}
use media_service_m.Import.Entries.{filing_for}
use media_service_m.Import.Ledger.{importable_match-found, file_into-IsAccounted}
use media_service_m.Import.Ledger.Runs.{tree-IsAccounted}

module _ {S : Type 0} (conf : Settings) (ext : Externals) (fresh : Db → ℕ) where
  -- Anything that a filing of a stored object keeps is kept by the rows of the import.
  module _ (P : World S → Type 0)
      (files : (o : MediaObject) (categories : List Category) (now : ℕ) (w : World S)
        → find_row (object_is o.id) w.db.objects ≡ some o
        → P w
        → P (commit (file_into o categories now w.db) w)) where
    row-kept :
        (u : UserModel) (entry : ImportObjectEntry) (filing : List Category × List Text) (now : ℕ)
        (m : Match) (w : World S)
        → ((o : MediaObject) → m ≡ usable o → find_row (object_is o.id) w.db.objects ≡ some o)
        → P w
        → P (manifest_row conf ext fresh entry filing now m w).1
    row-kept u entry (categories, paths) now absent w found h = h
    row-kept u entry (categories, paths) now held w found h = h
    row-kept u entry (categories, paths) now (usable o) w found h =
        files o categories now w (found o refl) h

    entry-kept :
        (u : UserModel) (entry : ImportObjectEntry) (now : ℕ)
        (filing : Result (List Category × List Text)) (w : World S)
        → P w
        → P (manifest_entry conf ext fresh u entry now filing w).1
    entry-kept u entry now (err e) w h = h
    entry-kept u entry now (ok filing) w h =
        row-kept u entry filing now (importable_match u entry.id w.db) w
          (importable_match-found u entry.id w.db) h

    abbrev after_entry :
        UserModel
        → RecreatedTree
        → List ImportObjectEntry
        → ℕ
        → List ImportObjectResult
        → Result ImportObjectResult × World S
        → Result (List ImportObjectResult) × World S
    after_entry u tree entries now rows (err e, v) = (err e, v)
    after_entry u tree entries now rows (ok row, v) =
        manifest_rows conf ext fresh u tree entries now (rows ++ row ∷ []) v

    manifest_rows-onward :
        (u : UserModel) (tree : RecreatedTree) (entry : ImportObjectEntry)
        (entries : List ImportObjectEntry) (now : ℕ) (rows : List ImportObjectResult) (w : World S)
        → manifest_rows conf ext fresh u tree (entry ∷ entries) now rows w
          ≡ after_entry u tree entries now rows
              (manifest_entry conf ext fresh u entry now (filing_for conf ext tree entry) w)
    unfolding manifest_rows
    manifest_rows-onward u tree entry entries now rows w =
        case_of (manifest_entry conf ext fresh u entry now (filing_for conf ext tree entry) w).0
          (manifest_entry conf ext fresh u entry now (filing_for conf ext tree entry) w).1
      where
        case_of :
            (r : Result ImportObjectResult) (v : World S)
            → elim r [
              | err e ↦ (err e, v)
              | ok row ↦ manifest_rows conf ext fresh u tree entries now (rows ++ row ∷ []) v
            ]
              ≡ after_entry u tree entries now rows (r, v)
        case_of (ok row) v = refl
        case_of (err e) v = refl

    after_entry-kept :
        (u : UserModel) (tree : RecreatedTree) (entries : List ImportObjectEntry) (now : ℕ)
        (rows : List ImportObjectResult) (r : Result ImportObjectResult) (v : World S)
        → P v
        → ((more : List ImportObjectResult)
            → P (manifest_rows conf ext fresh u tree entries now more v).1)
        → P (after_entry u tree entries now rows (r, v)).1
    after_entry-kept u tree entries now rows (err e) v h k = h
    after_entry-kept u tree entries now rows (ok row) v h k = k (rows ++ row ∷ [])

    rows-kept :
        (u : UserModel) (tree : RecreatedTree) (entries : List ImportObjectEntry) (now : ℕ)
        (rows : List ImportObjectResult) (w : World S)
        → P w
        → P (manifest_rows conf ext fresh u tree entries now rows w).1
    unfolding manifest_rows
    rows-kept u tree [] now rows w h = h
    rows-kept u tree (entry ∷ entries) now rows w h =
        let call = manifest_entry conf ext fresh u entry now (filing_for conf ext tree entry) w in
        let after : P call.1 = entry-kept u entry now (filing_for conf ext tree entry) w h in
        rw (manifest_rows-onward u tree entry entries now rows w) (
          after_entry-kept u tree entries now rows call.0 call.1 after
            (λ more. rows-kept u tree entries now more call.1 after))

    report-kept :
        (tree : RecreatedTree) (r : Result (List ImportObjectResult)) (v : World S)
        → P v
        → P (manifest_report conf ext fresh tree (r, v)).1
    report-kept tree (err e) v h = h
    report-kept tree (ok rows) v h = h

    under-kept :
        (u : UserModel) (entries : List ImportObjectEntry) (now : ℕ) (w : World S)
        (r : Result RecreatedTree) (d : Db)
        → P (commit d w)
        → P (manifest_under conf ext fresh u entries now w (r, d)).1
    under-kept u entries now w (err e) d h = h
    under-kept u entries now w (ok tree) d h =
        let call = manifest_rows conf ext fresh u tree entries now [] (commit d w) in
        report-kept tree call.0 call.1 (rows-kept u tree entries now [] (commit d w) h)

    import_manifest-kept :
        (u : UserModel) (manifest : ImportManifest) (now : ℕ) (w : World S)
        → P (commit (recreate_tree fresh conf ext u manifest w.db).1 w)
        → P (import_manifest conf ext fresh u manifest now w).1
    unfolding import_manifest
    import_manifest-kept u manifest now w h =
        let made = recreate_tree fresh conf ext u manifest w.db in
        under-kept u manifest.objects now w made.0 made.1 h

  pub import_manifest-IsAccounted :
      (u : UserModel) (manifest : ImportManifest) (now : ℕ) (w : World S)
      → IsAccounted w.db
      → IsAccounted (import_manifest conf ext fresh u manifest now w).1.db
  import_manifest-IsAccounted u manifest now w h =
      import_manifest-kept (λ v. IsAccounted v.db)
        (λ o categories now v found. file_into-IsAccounted o categories now v.db found) u manifest
        now w (tree-IsAccounted fresh conf ext u manifest w.db h)

abbrev pub object_ids : List MediaObject → List ℕ
object_ids [] = []
object_ids (o ∷ objects) = o.id ∷ object_ids objects

-- No object, upload or total has come or gone.
abbrev pub SameContent : Db → Db → Type 0
SameContent d e =
    (object_ids e.objects ≡ object_ids d.objects) × (e.uploads ≡ d.uploads) × (e.usages ≡ d.usages)

SameContent-trans : (d e f : Db) → SameContent d e → SameContent e f → SameContent d f
SameContent-trans d e f h k = (k.0 ∙ h.0, k.1 ∙ h.1, k.2 ∙ h.2)

object_ids-save_row :
    (o old : MediaObject) (objects : List MediaObject)
    → find_row (object_is o.id) objects ≡ some old
    → object_ids (save_row (object_is o.id) o objects) ≡ object_ids objects
object_ids-save_row o old [] h = ground arith
object_ids-save_row o old (x ∷ objects) h = elim (Bool-cases (x.id == o.id)) [
  | inl here ↦ rw here (ap (λ (k : ℕ). k ∷ object_ids objects) (sym ((==_iff x.id o.id).0 here)))
  | inr later ↦
      rw later (ap (λ ks. x.id ∷ ks) (object_ids-save_row o old objects (ground (arith, later, h))))
]

filed-SameContent :
    (o : MediaObject) (now : ℕ) (added : List Category) (d : Db)
    → find_row (object_is o.id) d.objects ≡ some o
    → SameContent d (filed o now added d)
filed-SameContent o now [] d found = (refl, refl, refl)
filed-SameContent o now (c ∷ more) d found =
    (object_ids-save_row (record o { updated_at = now }) o d.objects found, refl, refl)

file_into-SameContent :
    (o : MediaObject) (categories : List Category) (now : ℕ) (d : Db)
    → find_row (object_is o.id) d.objects ≡ some o
    → SameContent d (file_into o categories now d)
unfolding file_into
file_into-SameContent o categories now d found =
    filed-SameContent o now (unfiled o.id d categories) d found

-- A manifest carries no bytes, and importing it, whether it returns or raises, creates no object and
-- no upload session, credits and debits nobody, and leaves the storage as it was.
pub import_manifest-SameContent :
    {S : Type 0} (conf : Settings) (ext : Externals) (fresh : Db → ℕ) (u : UserModel)
    (manifest : ImportManifest) (now : ℕ) (w : World S)
    → ((import_manifest conf ext fresh u manifest now w).1.store ≡ w.store)
      × SameContent w.db (import_manifest conf ext fresh u manifest now w).1.db
import_manifest-SameContent conf ext fresh u manifest now w =
    import_manifest-kept conf ext fresh (λ v. (v.store ≡ w.store) × SameContent w.db v.db)
      (λ o categories now v found h. (
        h.0,
        SameContent-trans w.db v.db (file_into o categories now v.db) h.1
            (file_into-SameContent o categories now v.db found),
      ))
      u manifest now w
      (
        refl,
        recreate_tree-grows fresh SameContent (λ d. (refl, refl, refl)) SameContent-trans
            (λ d c. (refl, refl, refl)) conf ext u manifest w.db,
      )
