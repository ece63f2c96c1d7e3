-- ===== src/Tests/Data.antt =====
-- Two users, their rows, and the settings that the tests run under.
use media_service_m.Prelude.{ℕ, true, false, Option, none, some, [], ◌∷◌, ◌==◌, ltb, Text, codes}
use media_service_m.Model.Enums.{
  MediaCategory, MediaVisibility, MediaObjectStatus, ScanStatus, UploadSessionStatus, OutboxStatus,
}
use media_service_m.Model.Rows.{
  MediaObject, UploadSession, StorageUsage, ShareToken, Category, OutboxEvent, Subscription, Db,
  UserModel,
}
use media_service_m.Model.Store.{Externals, Settings}

abbrev pub alice : UserModel
alice = record { id = 1; is_superuser = false; tenant_id = none }

abbrev pub bob : UserModel
bob = record { id = 2; is_superuser = false; tenant_id = none }

abbrev pub conf : Settings
conf = record {
  default_quota_bytes = some 100;
  default_quota_objects = some 3;
  max_upload_size_bytes = 50;
  max_upload_size_per_category = [];
  bucket_public = 10;
  bucket_private = 20;
  bucket_sensitive = 30;
  bucket_temp = 40;
  bucket_archive = 50;
  presigned_url_expire_seconds = 600;
  sha256_verify_chunk_size = 4;
  share_max_expires_seconds = 900;
  share_default_expires_seconds = 300;
  import_max_category_depth = 4;
  import_max_objects = 5;
  import_max_categories = 6;
  import_max_total_bytes = 90;
}

abbrev zeros_35 : Text
zeros_35 = codes "00000000000000000000000000000000000"

-- A text of 36 characters that tells ids apart.
abbrev uuid_text : ℕ → Text
uuid_text k = k ∷ zeros_35

abbrev first_code : Text → Option ℕ
first_code [] = none
first_code (k ∷ t) = some k

abbrev pub ext : Externals
ext = record {
  guess = λ head. none;
  sha256_hexdigest = λ t. t;
  lower = λ t. t;
  is_space = λ c. c == 32;
  nfc = λ t. t;
  is_other = λ c. ltb c 32;
  uuid_text = uuid_text;
  parse_uuid = first_code;
  slugify = λ t. t;
}

abbrev pub photo : MediaObject
photo = record {
  id = 7;
  tenant_id = none;
  owner_user_id = 1;
  category = MediaCategory.asset;
  visibility = MediaVisibility.private;
  storage_bucket = 20;
  object_key = codes "k7";
  original_filename = some (codes "cv.txt");
  mime_type = codes "text/plain";
  size_bytes = 4;
  sha256 = none;
  etag = none;
  status = MediaObjectStatus.ready;
  scan_status = ScanStatus.clean;
  created_at = 1;
  updated_at = 1;
  deleted_at = none;
}

abbrev pub upload : UploadSession
upload = record {
  id = 9;
  tenant_id = none;
  owner_user_id = 1;
  category = MediaCategory.document;
  visibility = MediaVisibility.private;
  storage_bucket = 20;
  object_key = codes "k9";
  original_filename = some (codes "notes.txt");
  expected_mime_type = codes "text/plain";
  expected_size_bytes = 6;
  status = UploadSessionStatus.initiated;
  created_at = 1;
  expires_at = 1000;
  completed_at = none;
  category_ids = some (2 ∷ []);
}

abbrev pub usage : StorageUsage
usage = record {
  owner_user_id = 1;
  tenant_id = none;
  total_bytes = 4;
  object_count = 1;
  quota_bytes = none;
  quota_objects = none;
  updated_at = 1;
}

-- The tree 2 over 3.
abbrev pub root_category : Category
root_category = record {
  id = 2;
  name = codes "Work";
  slug = codes "work";
  parent_id = none;
  owner_id = 1;
  tenant_id = none;
}

abbrev pub leaf_category : Category
leaf_category = record {
  id = 3;
  name = codes "Jobs";
  slug = codes "jobs";
  parent_id = some 2;
  owner_id = 1;
  tenant_id = none;
}

abbrev pub link : ShareToken
link = record {
  id = 5;
  media_object_id = 7;
  owner_user_id = 1;
  tenant_id = none;
  expires_at = 500;
  max_uses = some 2;
  uses = 1;
  revoked = false;
  created_at = 1;
}

abbrev pub event : OutboxEvent
event = record {
  id = 11;
  event_type = codes "object.ready";
  object_id = 7;
  payload = [];
  status = OutboxStatus.pending;
  attempts = 0;
  next_attempt_at = 5;
  created_at = 1;
  delivered_at = none;
}

abbrev pub later_event : OutboxEvent
later_event = record event { id = 12; next_attempt_at = 900 }

abbrev pub hook : Subscription
hook = record {
  id = 1;
  url = codes "https://a";
  secret = codes "s";
  event_types = [];
  active = true;
  created_at = 1;
}

abbrev pub rows : Db
rows = record {
  objects = photo ∷ [];
  uploads = upload ∷ [];
  usages = usage ∷ [];
  shares = link ∷ [];
  categories = root_category ∷ leaf_category ∷ [];
  links = [];
  events = event ∷ later_event ∷ [];
  subscriptions = hook ∷ [];
  variants = [];
  variant_jobs = [];
  presets = [];
  export_jobs = [];
}
