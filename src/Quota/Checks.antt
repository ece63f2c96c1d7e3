-- ===== src/Quota/Checks.antt =====
-- The usage row of a scope under the staged writes, and the two quota checks of
-- media_service/core/quotas.py.
use media_service_m.Prelude.{
  ℕ, ◌+◌, ◌-◌, ◌≤◌, Option, none, some, List, [], ◌∷◌, ◌≡◌, refl, arith, if◌then◌else◌, opt_eq_iff,
  ◌↔◌, ◌==◌, ◌&&◌, opt_eq, Bool, Option-cases, inl, inr,
}
use media_service_m.Effect.{ok, is_ok}
use media_service_m.Model.Rows.{StorageUsage, Db, scope_is}
use media_service_m.Model.Table.{find_row, save_row, find_row-passes}
use media_service_m.Model.Store.{Settings}
use media_service_m.Quota.{
  find_usage, get_or_create_usage, effective_quota_bytes, effective_quota_objects, check_quota,
  reserve_storage_for_object, record_object_removed, bytes_of, count_of, override_bytes,
  override_objects, credit, debit, add_usage,
}

-- An amount that a ceiling allows; no ceiling allows every amount.
abbrev pub Fits : ℕ → Option ℕ → Type 0
Fits amount none = Unit
Fits amount (some quota) = amount ≤ quota

find_row-save_row_scope :
    (owner : ℕ) (tenant : Option ℕ) (u : StorageUsage) (rows : List StorageUsage)
    → find_row (scope_is owner tenant) (save_row (scope_is u.owner_user_id u.tenant_id) u rows)
      ≡ (if scope_is owner tenant u then some u else find_row (scope_is owner tenant) rows)
find_row-save_row_scope owner tenant u [] = refl
find_row-save_row_scope owner tenant u (x ∷ rows) = ground (
  arith,
  opt_eq_iff u.tenant_id tenant,
  opt_eq_iff x.tenant_id tenant,
  opt_eq_iff x.tenant_id u.tenant_id,
  find_row-save_row_scope owner tenant u rows,
)

-- A staged usage row is what its own scope finds; every other scope finds what it found.
pub find_usage-add_usage :
    (owner : ℕ) (tenant : Option ℕ) (u : StorageUsage) (d : Db)
    → find_usage owner tenant (add_usage u d)
      ≡ (if scope_is owner tenant u then some u else find_usage owner tenant d)
find_usage-add_usage owner tenant u d = find_row-save_row_scope owner tenant u d.usages

-- Two scopes are one.
abbrev pub same_scope : ℕ → Option ℕ → ℕ → Option ℕ → Bool
same_scope owner tenant owner' tenant' = owner == owner' && opt_eq tenant tenant'

pub scope_get_or_create_usage :
    (owner : ℕ) (tenant : Option ℕ) (now : ℕ) (d : Db)
    → ((get_or_create_usage owner tenant now d).owner_user_id ≡ owner)
      × ((get_or_create_usage owner tenant now d).tenant_id ≡ tenant)
      × ((get_or_create_usage owner tenant now d).total_bytes ≡ bytes_of owner tenant d)
      × ((get_or_create_usage owner tenant now d).object_count ≡ count_of owner tenant d)
scope_get_or_create_usage owner tenant now d = elim (Option-cases (find_usage owner tenant d)) [
  | inl missing ↦ ground arith
  | inr (u, e) ↦
      ground
        (arith, find_row-passes (scope_is owner tenant) d.usages u e, opt_eq_iff u.tenant_id tenant)
]

module _ (owner : ℕ) (tenant : Option ℕ) (size_bytes now : ℕ) (d : Db) where
  -- A debit lowers its own scope's totals, stopping at zero, and no other scope's.
  pub record_object_removed-totals :
      (owner' : ℕ) (tenant' : Option ℕ)
      → (bytes_of owner' tenant' (record_object_removed owner tenant size_bytes now d) ≡ (
          if same_scope owner tenant owner' tenant'
          then bytes_of owner' tenant' d - size_bytes
          else bytes_of owner' tenant' d))
        × (count_of owner' tenant' (record_object_removed owner tenant size_bytes now d) ≡ (
            if same_scope owner tenant owner' tenant'
            then count_of owner' tenant' d - 1
            else count_of owner' tenant' d))
  unfolding record_object_removed
  record_object_removed-totals owner' tenant' = ground (
    arith,
    scope_get_or_create_usage owner tenant now d,
    find_usage-add_usage owner' tenant'
        (debit size_bytes now (get_or_create_usage owner tenant now d)) d,
    opt_eq_iff tenant tenant',
  )

  -- A staged row with the scope's own key and totals changes nobody's totals.
  add_usage-totals :
      (owner' : ℕ) (tenant' : Option ℕ)
      → (bytes_of owner' tenant' (add_usage (get_or_create_usage owner tenant now d) d)
          ≡ bytes_of owner' tenant' d)
        × (count_of owner' tenant' (add_usage (get_or_create_usage owner tenant now d) d)
            ≡ count_of owner' tenant' d)
  add_usage-totals owner' tenant' = ground (
    arith,
    scope_get_or_create_usage owner tenant now d,
    find_usage-add_usage owner' tenant' (get_or_create_usage owner tenant now d) d,
    opt_eq_iff tenant tenant',
  )

  -- A credit on top of the locked row raises its own scope's totals and no other scope's.
  credit-totals :
      (owner' : ℕ) (tenant' : Option ℕ)
      → let u = get_or_create_usage owner tenant now d in
        let after = add_usage (credit size_bytes now u) (add_usage u d) in
        (bytes_of owner' tenant' after ≡ (
          if same_scope owner tenant owner' tenant'
          then bytes_of owner' tenant' d + size_bytes
          else bytes_of owner' tenant' d))
        × (count_of owner' tenant' after ≡ (
            if same_scope owner tenant owner' tenant'
            then count_of owner' tenant' d + 1
            else count_of owner' tenant' d))
  credit-totals owner' tenant' =
      let u = get_or_create_usage owner tenant now d in
      ground (
        arith,
        scope_get_or_create_usage owner tenant now d,
        find_usage-add_usage owner' tenant' u d,
        find_usage-add_usage owner' tenant' (credit size_bytes now u) (add_usage u d),
        opt_eq_iff tenant tenant',
      )

  -- The quota that binds a scope is that of its row, found or fresh.
  quota_get_or_create_usage :
      (conf : Settings)
      → (effective_quota_bytes conf (some (get_or_create_usage owner tenant now d))
          ≡ effective_quota_bytes conf (find_usage owner tenant d))
        × (effective_quota_objects conf (some (get_or_create_usage owner tenant now d))
            ≡ effective_quota_objects conf (find_usage owner tenant d))
  unfolding effective_quota_bytes effective_quota_objects
  quota_get_or_create_usage conf = elim (Option-cases (find_usage owner tenant d)) [
    | inl missing ↦ (rw missing, rw missing)
    | inr (u, e) ↦ (rw e, rw e)
  ]

  -- One more object of `size_bytes` keeps the scope within its ceilings.
  abbrev pub HasRoom : Settings → Type 0
  HasRoom conf =
      Fits (bytes_of owner tenant d + size_bytes)
        (effective_quota_bytes conf (find_usage owner tenant d))
      × Fits (count_of owner tenant d + 1)
          (effective_quota_objects conf (find_usage owner tenant d))

  -- The pre-check of an upload and the reservation at its completion are one test.
  pub check_quota-HasRoom :
      (conf : Settings) → (check_quota conf owner tenant size_bytes d ≡ ok tt) ↔ HasRoom conf
  unfolding check_quota
  check_quota-HasRoom conf = (λ h. ground arith, λ h. ground arith)

  pub reserve-HasRoom :
      (conf : Settings)
      → ((reserve_storage_for_object conf owner tenant size_bytes now d).0 ≡ ok tt) ↔ HasRoom conf
  unfolding reserve_storage_for_object
  reserve-HasRoom conf =
      let scope = scope_get_or_create_usage owner tenant now d in
      let quota = quota_get_or_create_usage conf in
      (λ h. ground (arith, scope, quota), λ h. ground (arith, scope, quota))

  -- What a reservation leaves, whether it returned or was refused.
  abbrev pub reserved : Settings → Db
  reserved conf = (reserve_storage_for_object conf owner tenant size_bytes now d).1

  -- A reservation that returns credits its own scope; one that is refused credits nobody.
  pub reserve-totals :
      (conf : Settings) (owner' : ℕ) (tenant' : Option ℕ)
      → let mine =
          same_scope owner tenant owner' tenant'
          && is_ok (reserve_storage_for_object conf owner tenant size_bytes now d).0 in
        (bytes_of owner' tenant' (reserved conf)
          ≡ (if mine then bytes_of owner' tenant' d + size_bytes else bytes_of owner' tenant' d))
        × (count_of owner' tenant' (reserved conf)
            ≡ (if mine then count_of owner' tenant' d + 1 else count_of owner' tenant' d))
  unfolding reserve_storage_for_object
  reserve-totals conf owner' tenant' =
      ground (arith, add_usage-totals owner' tenant', credit-totals owner' tenant')

-- Neither a reservation nor a debit moves a ceiling: the row that they write keeps its overrides.
module _ (owner : ℕ) (tenant : Option ℕ) (size_bytes now : ℕ) (d : Db) where
  overrides_get_or_create_usage :
      ((get_or_create_usage owner tenant now d).quota_bytes
        ≡ override_bytes (find_usage owner tenant d))
      × ((get_or_create_usage owner tenant now d).quota_objects
          ≡ override_objects (find_usage owner tenant d))
  overrides_get_or_create_usage = elim (Option-cases (find_usage owner tenant d)) [
    | inl missing ↦ (rw missing, rw missing)
    | inr (u, e) ↦ (rw e, rw e)
  ]

  overrides_add_usage :
      (v : StorageUsage) (e : Db)
      → (owner' : ℕ) (tenant' : Option ℕ) → v.owner_user_id ≡ owner
      → v.tenant_id ≡ tenant
      → v.quota_bytes ≡ override_bytes (find_usage owner tenant e)
      → v.quota_objects ≡ override_objects (find_usage owner tenant e)
      → (override_bytes (find_usage owner' tenant' (add_usage v e))
          ≡ override_bytes (find_usage owner' tenant' e))
        × (override_objects (find_usage owner' tenant' (add_usage v e))
            ≡ override_objects (find_usage owner' tenant' e))
  overrides_add_usage v e owner' tenant' ho ht hb hc =
      ground (arith, find_usage-add_usage owner' tenant' v e, opt_eq_iff tenant tenant')

  pub record_object_removed-overrides :
      (owner' : ℕ) (tenant' : Option ℕ)
      → let after = record_object_removed owner tenant size_bytes now d in
        (override_bytes (find_usage owner' tenant' after)
          ≡ override_bytes (find_usage owner' tenant' d))
        × (override_objects (find_usage owner' tenant' after)
            ≡ override_objects (find_usage owner' tenant' d))
  unfolding record_object_removed
  record_object_removed-overrides owner' tenant' =
      let u = get_or_create_usage owner tenant now d in
      let scope = scope_get_or_create_usage owner tenant now d in
      let same = overrides_get_or_create_usage in
      overrides_add_usage (debit size_bytes now u) d owner' tenant' scope.0 scope.1 same.0 same.1

  pub reserve-overrides :
      (conf : Settings) (owner' : ℕ) (tenant' : Option ℕ)
      → let after = (reserve_storage_for_object conf owner tenant size_bytes now d).1 in
        (override_bytes (find_usage owner' tenant' after)
          ≡ override_bytes (find_usage owner' tenant' d))
        × (override_objects (find_usage owner' tenant' after)
            ≡ override_objects (find_usage owner' tenant' d))
  unfolding reserve_storage_for_object
  reserve-overrides conf owner' tenant' =
      let u = get_or_create_usage owner tenant now d in
      let scope = scope_get_or_create_usage owner tenant now d in
      let same = overrides_get_or_create_usage in
      let locked = add_usage u d in
      let once = overrides_add_usage u d in
      let twice = overrides_add_usage (credit size_bytes now u) locked in
      ground (arith, scope, same, once owner tenant, once owner' tenant', twice owner' tenant')

-- The accounting touches no other table.
abbrev pub with_usages : Db → Db → Db
with_usages d e = record d { usages = e.usages }

pub reserve-with_usages :
    (conf : Settings) (owner : ℕ) (tenant : Option ℕ) (size_bytes now : ℕ) (d : Db)
    → let e = (reserve_storage_for_object conf owner tenant size_bytes now d).1 in
      e ≡ with_usages d e
unfolding reserve_storage_for_object
reserve-with_usages conf owner tenant size_bytes now d = ground arith

pub record_object_removed-with_usages :
    (owner : ℕ) (tenant : Option ℕ) (size_bytes now : ℕ) (d : Db)
    → let e = record_object_removed owner tenant size_bytes now d in e ≡ with_usages d e
unfolding record_object_removed
record_object_removed-with_usages owner tenant size_bytes now d = refl
