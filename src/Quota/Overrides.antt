-- ===== src/Quota/Overrides.antt =====
-- `get_quota` and `set_quota` of media_service/controllers/admin.py in the ledger of Accounting.
use media_service_m.Prelude.{ℕ, Option, ◌≡◌, refl, arith, opt_eq_iff}
use media_service_m.Model.Rows.{StorageUsage, Db}
use media_service_m.Quota.{
  bytes_of, get_or_create_usage, add_usage, QuotaUpdateRequest, updated, get_quota, set_quota,
}
use media_service_m.Quota.Checks.{find_usage-add_usage, scope_get_or_create_usage}
use media_service_m.Quota.Accounting.{IsAccounted, same-IsAccounted}

-- A row of the scope itself, with its totals, changes nobody's totals.
same_totals :
    (owner : ℕ) (tenant : Option ℕ) (u : StorageUsage) (d : Db)
    → u.owner_user_id ≡ owner
    → u.tenant_id ≡ tenant
    → u.total_bytes ≡ bytes_of owner tenant d
    → (owner' : ℕ) (tenant' : Option ℕ)
    → bytes_of owner' tenant' (add_usage u d) ≡ bytes_of owner' tenant' d
same_totals owner tenant u d mine ours total owner' tenant' =
    ground
      (arith, find_usage-add_usage owner' tenant' u d, mine, ours, total, opt_eq_iff tenant tenant')

pub get_quota-IsAccounted :
    (owner : ℕ) (tenant : Option ℕ) (now : ℕ) (d : Db)
    → IsAccounted d
    → IsAccounted (get_quota owner tenant now d)
unfolding get_quota
get_quota-IsAccounted owner tenant now d h =
    let u = get_or_create_usage owner tenant now d in
    let (mine, ours, total, count) = scope_get_or_create_usage owner tenant now d in
    same-IsAccounted d (add_usage u d) refl (same_totals owner tenant u d mine ours total) h

pub set_quota-IsAccounted :
    (owner : ℕ) (tenant : Option ℕ) (update : QuotaUpdateRequest) (now : ℕ) (d : Db)
    → IsAccounted d
    → IsAccounted (set_quota owner tenant update now d)
unfolding set_quota
set_quota-IsAccounted owner tenant update now d h =
    let u : StorageUsage = record (get_or_create_usage owner tenant now d) {
      quota_bytes =
          updated update.new_quota_bytes (get_or_create_usage owner tenant now d).quota_bytes;
      quota_objects =
          updated update.new_quota_objects (get_or_create_usage owner tenant now d).quota_objects;
      updated_at = now;
    } in
    let (mine, ours, total, count) = scope_get_or_create_usage owner tenant now d in
    same-IsAccounted d (add_usage u d) refl (same_totals owner tenant u d mine ours total) h
