-- ===== src/Model/Enums.antt =====
-- The enumerations of media_service/db_models. A `StrEnum` member is compared by its value; here two
-- members are compared by their places in the class.
use media_service_m.Prelude.{ℕ, Bool, true, ◌==◌, ◌≡◌, ◌↔◌, arith}

pub data MediaCategory : Type 0 where
  avatar document asset chat_attachment export receipt : MediaCategory

pub data MediaVisibility : Type 0 where
  public private tenant sensitive : MediaVisibility

pub data MediaObjectStatus : Type 0 where
  pending_upload uploaded processing ready failed deleted rejected : MediaObjectStatus

pub data ScanStatus : Type 0 where
  pending clean infected quarantined skipped : ScanStatus

pub data UploadSessionStatus : Type 0 where
  initiated completed aborted expired : UploadSessionStatus

pub data OutboxStatus : Type 0 where
  pending delivered failed : OutboxStatus

pub data VariantJobStatus : Type 0 where
  queued processing completed failed : VariantJobStatus

pub data ExportJobStatus : Type 0 where
  queued processing completed failed : ExportJobStatus

abbrev pub visibility_code : MediaVisibility → ℕ
visibility_code public = 0
visibility_code private = 1
visibility_code tenant = 2
visibility_code sensitive = 3

abbrev pub visibility_eq : MediaVisibility → MediaVisibility → Bool
visibility_eq a b = visibility_code a == visibility_code b

abbrev pub category_code : MediaCategory → ℕ
category_code avatar = 0
category_code document = 1
category_code asset = 2
category_code chat_attachment = 3
category_code export = 4
category_code receipt = 5

abbrev pub category_eq : MediaCategory → MediaCategory → Bool
category_eq a b = category_code a == category_code b

abbrev pub object_status_code : MediaObjectStatus → ℕ
object_status_code pending_upload = 0
object_status_code uploaded = 1
object_status_code processing = 2
object_status_code ready = 3
object_status_code failed = 4
object_status_code deleted = 5
object_status_code rejected = 6

abbrev pub object_status_eq : MediaObjectStatus → MediaObjectStatus → Bool
object_status_eq a b = object_status_code a == object_status_code b

abbrev pub scan_code : ScanStatus → ℕ
scan_code pending = 0
scan_code clean = 1
scan_code infected = 2
scan_code quarantined = 3
scan_code skipped = 4

abbrev pub scan_eq : ScanStatus → ScanStatus → Bool
scan_eq a b = scan_code a == scan_code b

abbrev pub session_status_code : UploadSessionStatus → ℕ
session_status_code initiated = 0
session_status_code completed = 1
session_status_code aborted = 2
session_status_code expired = 3

abbrev pub session_status_eq : UploadSessionStatus → UploadSessionStatus → Bool
session_status_eq a b = session_status_code a == session_status_code b

abbrev pub outbox_status_code : OutboxStatus → ℕ
outbox_status_code pending = 0
outbox_status_code delivered = 1
outbox_status_code failed = 2

abbrev pub outbox_status_eq : OutboxStatus → OutboxStatus → Bool
outbox_status_eq a b = outbox_status_code a == outbox_status_code b

abbrev pub export_status_code : ExportJobStatus → ℕ
export_status_code queued = 0
export_status_code processing = 1
export_status_code completed = 2
export_status_code failed = 3

abbrev pub export_status_eq : ExportJobStatus → ExportJobStatus → Bool
export_status_eq a b = export_status_code a == export_status_code b

pub visibility_eq_iff : (a b : MediaVisibility) → (visibility_eq a b ≡ true) ↔ (a ≡ b)
visibility_eq_iff a b = ground arith

pub object_status_eq_iff : (a b : MediaObjectStatus) → (object_status_eq a b ≡ true) ↔ (a ≡ b)
object_status_eq_iff a b = ground arith

pub scan_eq_iff : (a b : ScanStatus) → (scan_eq a b ≡ true) ↔ (a ≡ b)
scan_eq_iff a b = ground arith

pub session_status_eq_iff : (a b : UploadSessionStatus) → (session_status_eq a b ≡ true) ↔ (a ≡ b)
session_status_eq_iff a b = ground arith
