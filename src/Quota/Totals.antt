-- ===== src/Quota/Totals.antt =====
-- Interleavings of the transactions that touch a usage row: `reserve_storage_for_object` and
-- `record_object_removed` of media_service/core/quotas.py run under the row lock, so a history
-- is a sequence of them.
use media_service_m.Prelude.{ℕ, Option, arith}
use media_service_m.Model.Rows.{Db}
use media_service_m.Model.Store.{Settings}
use media_service_m.Quota.{
  find_usage, effective_quota_bytes, effective_quota_objects, bytes_of, count_of,
  reserve_storage_for_object, record_object_removed,
}
use media_service_m.Quota.Checks.{
  Fits, reserve-HasRoom, reserve-totals, reserve-overrides, record_object_removed-totals,
  record_object_removed-overrides,
}

-- Every scope's totals are within the ceilings that bind it.
abbrev pub IsWithinQuota : Settings → Db → Type 0
IsWithinQuota conf d =
    (owner : ℕ) (tenant : Option ℕ)
    → Fits (bytes_of owner tenant d) (effective_quota_bytes conf (find_usage owner tenant d))
      × Fits (count_of owner tenant d) (effective_quota_objects conf (find_usage owner tenant d))

-- One locked transaction: a completion's reservation, refused or not, or a delete's debit.
pub data QuotaStep (conf : Settings) (d : Db) : Db → Type 0 where
  reserve :
      (owner : ℕ) (tenant : Option ℕ) (size_bytes now : ℕ)
      → QuotaStep conf d (reserve_storage_for_object conf owner tenant size_bytes now d).1
  remove :
      (owner : ℕ) (tenant : Option ℕ) (size_bytes now : ℕ)
      → QuotaStep conf d (record_object_removed owner tenant size_bytes now d)

pub data QuotaHistory (conf : Settings) (d : Db) : Db → Type 0 where
  start : QuotaHistory conf d d
  next : {e f : Db} → QuotaHistory conf d e → QuotaStep conf e f → QuotaHistory conf d f

reserve-IsWithinQuota :
    (conf : Settings) (owner : ℕ) (tenant : Option ℕ) (size_bytes now : ℕ) (d : Db)
    → IsWithinQuota conf d
    → IsWithinQuota conf (reserve_storage_for_object conf owner tenant size_bytes now d).1
unfolding effective_quota_bytes effective_quota_objects
reserve-IsWithinQuota conf owner tenant size_bytes now d h owner' tenant' = ground (
  arith,
  h owner' tenant',
  reserve-HasRoom owner tenant size_bytes now d conf,
  reserve-totals owner tenant size_bytes now d conf owner' tenant',
  reserve-overrides owner tenant size_bytes now d conf owner' tenant',
)

remove-IsWithinQuota :
    (conf : Settings) (owner : ℕ) (tenant : Option ℕ) (size_bytes now : ℕ) (d : Db)
    → IsWithinQuota conf d
    → IsWithinQuota conf (record_object_removed owner tenant size_bytes now d)
unfolding effective_quota_bytes effective_quota_objects
remove-IsWithinQuota conf owner tenant size_bytes now d h owner' tenant' = ground (
  arith,
  h owner' tenant',
  record_object_removed-totals owner tenant size_bytes now d owner' tenant',
  record_object_removed-overrides owner tenant size_bytes now d owner' tenant',
)

step-IsWithinQuota :
    (conf : Settings) (d e : Db) → QuotaStep conf d e → IsWithinQuota conf d → IsWithinQuota conf e
step-IsWithinQuota conf d e (reserve owner tenant size_bytes now) h =
    reserve-IsWithinQuota conf owner tenant size_bytes now d h
step-IsWithinQuota conf d e (remove owner tenant size_bytes now) h =
    remove-IsWithinQuota conf owner tenant size_bytes now d h

-- Whatever the order of reservations, refused or not, and debits, by any scopes and of any sizes, a
-- database whose totals are within every scope's ceilings stays so.
pub history-IsWithinQuota :
    (conf : Settings) (d e : Db)
    → QuotaHistory conf d e
    → IsWithinQuota conf d
    → IsWithinQuota conf e
history-IsWithinQuota conf d e start h = h
history-IsWithinQuota conf d e (next {e = m} before step) h =
    step-IsWithinQuota conf m e step (history-IsWithinQuota conf d m before h)
