-- ===== src/Tests/QuotaTests.antt =====
-- The quota theorems on Alice's row: 4 bytes and one object of 100 and 3.
use media_service_m.Prelude.{none, some, arith}
use media_service_m.Model.Rows.{Db}
use media_service_m.Quota.{
  reserve_storage_for_object, record_object_removed, effective_quota_bytes, effective_quota_objects,
}
use media_service_m.Quota.Totals.{
  IsWithinQuota, start, next, reserve, remove, history-IsWithinQuota,
}
use media_service_m.Tests.Data.{conf, rows}

rows-IsWithinQuota : IsWithinQuota conf rows
unfolding effective_quota_bytes effective_quota_objects
rows-IsWithinQuota owner none = ground arith
rows-IsWithinQuota owner (some tenant) = ground arith

abbrev after_refusal : Db
after_refusal = (reserve_storage_for_object conf 1 none 97 2 rows).1

abbrev after_credit : Db
after_credit = (reserve_storage_for_object conf 1 none 96 3 after_refusal).1

abbrev after_debit : Db
after_debit = record_object_removed 1 none 4 4 after_credit

-- A refused reservation, one that fills the scope, and a debit.
history-IsWithinQuota_example : IsWithinQuota conf after_debit
history-IsWithinQuota_example =
    history-IsWithinQuota conf rows after_debit
      (next (next (next start (reserve 1 none 97 2)) (reserve 1 none 96 3)) (remove 1 none 4 4))
      rows-IsWithinQuota
