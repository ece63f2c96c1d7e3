-- ===== src/Quota.antt =====
-- media_service/core/quotas.py and the quota surface of media_service/controllers/admin.py: the
-- usage row of a scope, the two quota checks, and the credits and debits of stored bytes.
pub mod Checks
pub mod Totals
pub mod Accounting
pub mod Overrides
use media_service_m.Prelude.{ℕ, ◌+◌, ◌-◌, Bool, Option, none, some, List, ltb, if◌then◌else◌}
use media_service_m.Effect.{
  Exec, Result, ok, err, pure, raise, raise_if, lift, gets, modify, ◌>>=◌, ◌>>◌, Detail,
  byte_quota_exceeded, object_quota_exceeded, rejected, quota_bytes_exceeded,
  quota_objects_exceeded,
}
use media_service_m.Model.Rows.{StorageUsage, Db, scope_is}
use media_service_m.Model.Table.{find_row, save_row}
use media_service_m.Model.Store.{Settings}

-- `_find_usage`; the two branches on `tenant_id IS NULL` are the two cases of `opt_eq`.
abbrev pub find_usage : ℕ → Option ℕ → Db → Option StorageUsage
find_usage owner tenant d = find_row (scope_is owner tenant) d.usages

-- `StorageUsage(owner_user_id=…, tenant_id=…)`: zero totals and no overrides.
abbrev pub fresh_usage : ℕ → Option ℕ → ℕ → StorageUsage
fresh_usage owner tenant now = record {
  owner_user_id = owner;
  tenant_id = tenant;
  total_bytes = 0;
  object_count = 0;
  quota_bytes = none;
  quota_objects = none;
  updated_at = now;
}

abbrev or_fresh : ℕ → Option ℕ → ℕ → Option StorageUsage → StorageUsage
or_fresh owner tenant now none = fresh_usage owner tenant now
or_fresh owner tenant now (some u) = u

-- The row that `get_or_create_usage` and `_lock_or_create_usage` return.
abbrev pub get_or_create_usage : ℕ → Option ℕ → ℕ → Db → StorageUsage
get_or_create_usage owner tenant now d = or_fresh owner tenant now (find_usage owner tenant d)

-- `session.add(usage)`: the row is staged in place of the one it was read from.
abbrev pub add_usage : StorageUsage → Db → Db
add_usage u d = record d { usages = save_row (scope_is u.owner_user_id u.tenant_id) u d.usages }

abbrev or_default : Option ℕ → Option ℕ → Option ℕ
or_default none default = default
or_default (some q) default = some q

abbrev override_bytes : Option StorageUsage → Option ℕ
override_bytes none = none
override_bytes (some u) = u.quota_bytes

abbrev override_objects : Option StorageUsage → Option ℕ
override_objects none = none
override_objects (some u) = u.quota_objects

unfoldable pub effective_quota_bytes : Settings → Option StorageUsage → Option ℕ
effective_quota_bytes conf u = or_default (override_bytes u) conf.default_quota_bytes

unfoldable pub effective_quota_objects : Settings → Option StorageUsage → Option ℕ
effective_quota_objects conf u = or_default (override_objects u) conf.default_quota_objects

-- `quota is not None and amount > quota`.
abbrev pub exceeds : ℕ → Option ℕ → Bool
exceeds amount none = Bool.false
exceeds amount (some quota) = ltb quota amount

abbrev current_bytes : Option StorageUsage → ℕ
current_bytes none = 0
current_bytes (some u) = u.total_bytes

abbrev current_count : Option StorageUsage → ℕ
current_count none = 0
current_count (some u) = u.object_count

-- The totals of a scope; a missing row counts as zero.
abbrev pub bytes_of : ℕ → Option ℕ → Db → ℕ
bytes_of owner tenant d = current_bytes (find_usage owner tenant d)

abbrev pub count_of : ℕ → Option ℕ → Db → ℕ
count_of owner tenant d = current_count (find_usage owner tenant d)

unfoldable pub check_quota : Settings → ℕ → Option ℕ → ℕ → Db → Result (Unit {0})
unfolding effective_quota_bytes effective_quota_objects
check_quota conf owner tenant additional_bytes d =
    let usage = find_usage owner tenant d in
    if exceeds (current_bytes usage + additional_bytes) (effective_quota_bytes conf usage)
    then err (record { status_code = 413; detail = byte_quota_exceeded })
    else if exceeds (current_count usage + 1) (effective_quota_objects conf usage)
    then err (record { status_code = 409; detail = object_quota_exceeded })
    else ok tt

-- The credit that `record_object_added` and `reserve_storage_for_object` stage.
abbrev pub credit : ℕ → ℕ → StorageUsage → StorageUsage
credit size_bytes now u = record u {
  total_bytes = u.total_bytes + size_bytes;
  object_count = u.object_count + 1;
  updated_at = now;
}

unfoldable pub record_object_added : ℕ → Option ℕ → ℕ → ℕ → Db → Db
record_object_added owner tenant size_bytes now d =
    add_usage (credit size_bytes now (get_or_create_usage owner tenant now d)) d

-- `QuotaExceededError` carries its reason. A row that `_lock_or_create_usage` created is flushed, so
-- it stays staged beside the refusal.
unfoldable pub reserve_storage_for_object : Settings → ℕ → Option ℕ → ℕ → ℕ → Exec Db (Unit {0})
unfolding effective_quota_bytes effective_quota_objects
reserve_storage_for_object conf owner tenant size_bytes now d =
    let usage = get_or_create_usage owner tenant now d in
    let locked = add_usage usage d in
    if exceeds (usage.total_bytes + size_bytes) (effective_quota_bytes conf (some usage))
    then raise 422 (rejected quota_bytes_exceeded) locked
    else if exceeds (usage.object_count + 1) (effective_quota_objects conf (some usage))
    then raise 422 (rejected quota_objects_exceeded) locked
    else (ok tt, add_usage (credit size_bytes now usage) locked)

-- `max(0, a - b)` is the subtraction of the naturals.
abbrev pub debit : ℕ → ℕ → StorageUsage → StorageUsage
debit size_bytes now u = record u {
  total_bytes = u.total_bytes - size_bytes;
  object_count = u.object_count - 1;
  updated_at = now;
}

unfoldable pub record_object_removed : ℕ → Option ℕ → ℕ → ℕ → Db → Db
record_object_removed owner tenant size_bytes now d =
    add_usage (debit size_bytes now (get_or_create_usage owner tenant now d)) d

-- The fields of a `QuotaUpdateRequest` that are set: the outer `none` is a field left out.
pub record QuotaUpdateRequest : Type 0 where
  pub new_quota_bytes : Option (Option ℕ)
  pub new_quota_objects : Option (Option ℕ)

abbrev updated : Option (Option ℕ) → Option ℕ → Option ℕ
updated none old = old
updated (some new) old = new

-- `AdminController.get_quota`: a missing row is created and committed.
unfoldable pub get_quota : ℕ → Option ℕ → ℕ → Db → Db
get_quota owner tenant now d = add_usage (get_or_create_usage owner tenant now d) d

-- `AdminController.set_quota`.
unfoldable pub set_quota : ℕ → Option ℕ → QuotaUpdateRequest → ℕ → Db → Db
set_quota owner tenant update now d =
    let usage = get_or_create_usage owner tenant now d in
    add_usage
      (record usage {
        quota_bytes = updated update.new_quota_bytes usage.quota_bytes;
        quota_objects = updated update.new_quota_objects usage.quota_objects;
        updated_at = now;
      })
      d
