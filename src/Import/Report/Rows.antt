-- ===== src/Import/Report/Rows.antt =====
-- The rows and the objects that `_import_open_archive` of media_service/controllers/transfer_import.py
-- gathers.
use media_service_m.Prelude.{
  ℕ, suc, ◌+◌, Option, none, some, List, [], ◌∷◌, ◌++◌, length, length-append, Text, ◌≡◌, refl, ap,
  ◌∙◌, arith, Bool-cases, All, inl, inr,
}
use media_service_m.Effect.{Result, ok, err}
use media_service_m.Model.Rows.{MediaObject, Category, Db, UserModel}
use media_service_m.Model.Store.{ObjectStorage, Externals, Settings, World}
use media_service_m.Import.Paths.{ImportObjectEntry}
use media_service_m.Import.Tree.{RecreatedTree}
use media_service_m.Import.Rows.{ImportRowStatus, created, ImportObjectResult, ZipInfo, RowOutcome}
use media_service_m.Import.Run.{archive_entry, with_created, archive_rows}
use media_service_m.Import.Entries.{status_eq, count_status, EntryMap, entry_at, filing_for}
use media_service_m.Import.Ledger.Runs.{entry_on, archive_rows-onward}
use media_service_m.Import.Report.Created.{IsImported, Creates, IsRow, import_one_file-IsRow}

abbrev pub sources : List ImportObjectResult → List ℕ
sources [] = []
sources (row ∷ rows) = row.source_id ∷ sources rows

abbrev pub keys : List ImportObjectEntry → List ℕ
keys [] = []
keys (entry ∷ entries) = entry.id ∷ keys entries

sources-append : (xs ys : List ImportObjectResult) → sources (xs ++ ys) ≡ sources xs ++ sources ys
sources-append [] ys = refl
sources-append (x ∷ xs) ys = ap (λ rest. x.source_id ∷ rest) (sources-append xs ys)

append_one : (xs ys : List ℕ) (k : ℕ) → (xs ++ k ∷ []) ++ ys ≡ xs ++ k ∷ ys
append_one [] ys k = refl
append_one (x ∷ xs) ys k = ap (λ rest. x ∷ rest) (append_one xs ys k)

pub length-sources : (rows : List ImportObjectResult) → length (sources rows) ≡ length rows
length-sources [] = refl
length-sources (x ∷ rows) = ap suc (length-sources rows)

pub length-keys : (entries : List ImportObjectEntry) → length (keys entries) ≡ length entries
length-keys [] = refl
length-keys (x ∷ entries) = ap suc (length-keys entries)

count_status-append :
    (s : ImportRowStatus) (xs ys : List ImportObjectResult)
    → count_status s (xs ++ ys) ≡ count_status s xs + count_status s ys
count_status-append s [] ys = omega arith
count_status-append s (x ∷ xs) ys = elim (Bool-cases (status_eq x.status s)) [
  | inl counted ↦ rw counted (omega (arith, count_status-append s xs ys))
  | inr other ↦ rw other (count_status-append s xs ys)
]

All-append :
    (P : MediaObject → Type 0) (xs ys : List MediaObject) → All P xs → All P ys → All P (xs ++ ys)
All-append P [] ys h k = k
All-append P (x ∷ xs) ys h k = (h.0, All-append P xs ys h.1 k)

-- What the loop adds to the rows and the objects that it started with.
abbrev pub Reports :
    UserModel
    → List ImportObjectEntry
    → List ImportObjectResult
    → List MediaObject
    → Result (List ImportObjectResult × List MediaObject)
    → Type 0
Reports u entries rows objects (err e) = Unit
Reports u entries rows objects (ok (all_rows, all_objects)) =
    (sources all_rows ≡ sources rows ++ keys entries)
    × (length all_objects + count_status created rows
        ≡ length objects + count_status created all_rows)
    × (All (IsImported u) objects → All (IsImported u) all_objects)

append_nil : (xs : List ℕ) → xs ≡ xs ++ []
append_nil [] = refl
append_nil (x ∷ xs) = ap (λ rest. x ∷ rest) (append_nil xs)

module _ {S : Type 0} (storage : ObjectStorage S) (conf : Settings) (ext : Externals)
    (fresh : Db → ℕ) where
  archive_entry-IsRow :
      (u : UserModel) (info : Option ZipInfo) (entry : ImportObjectEntry) (now : ℕ)
      (filing : Result (List Category × List Text)) (w : World S)
      → IsRow u entry (archive_entry storage conf ext fresh u info entry now filing w).0
  archive_entry-IsRow u info entry now (err e) w = tt
  archive_entry-IsRow u info entry now (ok (categories, paths)) w =
      import_one_file-IsRow storage conf ext u info entry categories paths now w

  -- One more row, and its object if it has one.
  one_more_object :
      (u : UserModel) (row : ImportObjectResult) (o : Option MediaObject)
      (objects : List MediaObject)
      → Creates u row.status o
      → (length (with_created storage conf ext fresh o objects)
          ≡ length objects + count_status created (row ∷ []))
        × (All (IsImported u) objects
            → All (IsImported u) (with_created storage conf ext fresh o objects))
  one_more_object u row none objects c = rw c (omega arith, λ h. h)
  one_more_object u row (some o) objects c =
      rw c.0 (
        length-append objects (o ∷ []),
        λ h. All-append (IsImported u) objects (o ∷ []) h (c.1, tt),
      )

  carry_on :
      (u : UserModel) (entry : ImportObjectEntry) (entries : List ImportObjectEntry)
      (rows : List ImportObjectResult) (objects : List MediaObject) (row : ImportObjectResult)
      (o : Option MediaObject) (r : Result (List ImportObjectResult × List MediaObject))
      → IsRow u entry (ok (row, o))
      → Reports u entries (rows ++ row ∷ []) (with_created storage conf ext fresh o objects) r
      → Reports u (entry ∷ entries) rows objects r
  carry_on u entry entries rows objects row o (err e) h k = tt
  carry_on u entry entries rows objects row o (ok (all_rows, all_objects)) h k =
      let more = one_more_object u row o objects h.1 in
      (
        k.0
            ∙ ap (λ (ks : List ℕ). ks ++ keys entries) (sources-append rows (row ∷ []))
            ∙ append_one (sources rows) (keys entries) row.source_id
            ∙ ap (λ (i : ℕ). sources rows ++ i ∷ keys entries) h.0,
        omega (arith, k.1, more.0, count_status-append created rows (row ∷ [])),
        λ imported. k.2 (more.1 imported),
      )

  entry_on-Reports :
      (u : UserModel) (tree : RecreatedTree) (files : EntryMap) (entry : ImportObjectEntry)
      (entries : List ImportObjectEntry) (now : ℕ) (rows : List ImportObjectResult)
      (objects : List MediaObject) (r : Result RowOutcome) (v : World S)
      → IsRow u entry r
      → ((rows : List ImportObjectResult) (objects : List MediaObject)
          → Reports u entries rows objects
              (archive_rows storage conf ext fresh u tree files entries now rows objects v).0)
      → Reports u
          (entry ∷ entries)
          rows
          objects
          (entry_on storage conf ext fresh u tree files entries now rows objects (r, v)).0
  entry_on-Reports u tree files entry entries now rows objects (err e) v h k = tt
  entry_on-Reports u tree files entry entries now rows objects (ok (row, o)) v h k =
      carry_on u entry entries rows objects row o
        (archive_rows storage conf ext fresh u tree files entries now (rows ++ row ∷ [])
          (with_created storage conf ext fresh o objects) v).0
        h (k (rows ++ row ∷ []) (with_created storage conf ext fresh o objects))

  pub archive_rows-Reports :
      (u : UserModel) (tree : RecreatedTree) (files : EntryMap) (entries : List ImportObjectEntry)
      (now : ℕ) (rows : List ImportObjectResult) (objects : List MediaObject) (w : World S)
      → Reports u entries rows objects
          (archive_rows storage conf ext fresh u tree files entries now rows objects w).0
  unfolding archive_rows
  archive_rows-Reports u tree files [] now rows objects w =
      (append_nil (sources rows), refl, λ h. h)
  archive_rows-Reports u tree files (entry ∷ entries) now rows objects w =
      let call =
        archive_entry storage conf ext fresh u (entry_at entry.id files) entry now
          (filing_for conf ext tree entry) w in
      rw (archive_rows-onward storage conf ext fresh u tree files entry entries now rows objects w)
        (entry_on-Reports u tree files entry entries now rows objects call.0 call.1
          (archive_entry-IsRow u (entry_at entry.id files) entry now
            (filing_for conf ext tree entry) w)
          (λ more created. archive_rows-Reports u tree files entries now more created call.1))
