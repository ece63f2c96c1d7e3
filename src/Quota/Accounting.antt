-- ===== src/Quota/Accounting.antt =====
-- What the totals of a scope should be: the sizes of its objects that are neither deleted nor
-- rejected.
use media_service_m.Prelude.{
  ℕ, ◌+◌, ◌≤◌, Bool-cases, inl, inr, ap, Bool, false, not, ◌&&◌, Option, some, List, [], ◌∷◌, ◌++◌,
  ◌≡◌, arith, if◌then◌else◌, sum_by, sum_by-append, is_none,
}
use media_service_m.Model.Enums.{MediaObjectStatus, object_status_eq}
use media_service_m.Model.Rows.{MediaObject, Db, object_is}
use media_service_m.Model.Table.{find_row, save_row, sum_by-save_row}
use media_service_m.Quota.{bytes_of}
use media_service_m.Quota.Checks.{same_scope}

abbrev pub is_rejected : MediaObject → Bool
is_rejected o = object_status_eq o.status MediaObjectStatus.rejected

-- What an object counts for in a scope.
abbrev pub weight : ℕ → Option ℕ → MediaObject → ℕ
weight owner tenant o =
    if is_none o.deleted_at
      && (not (is_rejected o) && same_scope o.owner_user_id o.tenant_id owner tenant)
    then o.size_bytes
    else 0

abbrev pub stored_bytes : ℕ → Option ℕ → Db → ℕ
stored_bytes owner tenant d = sum_by (weight owner tenant) d.objects

-- Every scope's total is what it stores.
abbrev pub IsAccounted : Db → Type 0
IsAccounted d =
    (owner : ℕ) (tenant : Option ℕ) → bytes_of owner tenant d ≡ stored_bytes owner tenant d

-- The object `k`, if it is there, was credited when it was promoted, which a rejected one was not.
abbrev pub IsCredited : ℕ → Db → Type 0
IsCredited k d =
    (o : MediaObject) → find_row (object_is k) d.objects ≡ some o → is_rejected o ≡ false

-- Neither the objects nor the totals have changed.
pub same-IsAccounted :
    (d e : Db)
    → e.objects ≡ d.objects
    → ((owner : ℕ) (tenant : Option ℕ) → bytes_of owner tenant e ≡ bytes_of owner tenant d)
    → IsAccounted d
    → IsAccounted e
same-IsAccounted d e objects totals h owner tenant =
    ground (arith, totals owner tenant, h owner tenant)

-- One more object, whose weight is credited.
pub added-IsAccounted :
    (d e : Db) (o : MediaObject)
    → e.objects ≡ d.objects ++ o ∷ []
    → ((owner : ℕ) (tenant : Option ℕ)
        → bytes_of owner tenant e ≡ bytes_of owner tenant d + weight owner tenant o)
    → IsAccounted d
    → IsAccounted e
added-IsAccounted d e o objects totals h owner tenant = rw objects (
    omega (
      arith,
      totals owner tenant,
      h owner tenant,
      sum_by-append (weight owner tenant) d.objects (o ∷ []),
    ))

-- An object in another's place, where the totals move by the difference.
pub saved-IsAccounted :
    (d e : Db) (old o : MediaObject)
    → find_row (object_is o.id) d.objects ≡ some old
    → e.objects ≡ save_row (object_is o.id) o d.objects
    → ((owner : ℕ) (tenant : Option ℕ)
        → bytes_of owner tenant d ≡ stored_bytes owner tenant d
        → bytes_of owner tenant e + weight owner tenant old
          ≡ bytes_of owner tenant d + weight owner tenant o)
    → IsAccounted d
    → IsAccounted e
saved-IsAccounted d e old o found objects totals h owner tenant = rw objects (
    omega (
      arith,
      totals owner tenant (h owner tenant),
      h owner tenant,
      sum_by-save_row (weight owner tenant) (object_is o.id) o old d.objects found,
    ))

-- A stored row is part of what its scope stores.
pub weight-le :
    (owner : ℕ) (tenant : Option ℕ) (k : ℕ) (o : MediaObject) (d : Db)
    → find_row (object_is k) d.objects ≡ some o
    → weight owner tenant o ≤ stored_bytes owner tenant d
weight-le owner tenant k o d = in_rows d.objects
  where
    in_rows :
        (rows : List MediaObject)
        → find_row (object_is k) rows ≡ some o
        → weight owner tenant o ≤ sum_by (weight owner tenant) rows
    in_rows [] h = absurd (ground arith)
    in_rows (x ∷ rows) h = elim (Bool-cases (object_is k x)) [
      | inl here ↦ let same : x ≡ o = ground arith in omega (arith, ap (weight owner tenant) same)
      | inr later ↦ omega (arith, in_rows rows (ground arith))
    ]
