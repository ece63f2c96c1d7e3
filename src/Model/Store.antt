-- ===== src/Model/Store.antt =====
-- What the controllers call and do not implement: the object-storage SDK behind
-- media_service/storage/client.py, the sniffing and hashing libraries, and the values of
-- media_service/core/config.py. A storage call that raises answers `none`, or `false` beside the
-- state that it left.
use media_service_m.Prelude.{ℕ, Bool, Option, List, Text}
use media_service_m.Model.Enums.{MediaCategory}
use media_service_m.Model.Rows.{Db}

pub record ObjectStat : Type 0 where
  pub size : ℕ
  pub etag : Option Text

pub record ObjectStorage (S : Type 0) : Type 0 where
  pub stat_object : S → ℕ → Text → Option ObjectStat
  pub get_object_head : S → ℕ → Text → Option Text
  pub stream_object : S → ℕ → Text → ℕ → Option (List Text)
  pub list_object_keys : S → ℕ → List Text
  pub set_object_content_type : ℕ → Text → Text → S → Bool × S
  pub put_object_stream : ℕ → Text → Option Text → ℕ → Text → S → Bool × S
  pub copy_object : ℕ → Text → ℕ → Text → S → Bool × S
  pub remove_object : ℕ → Text → S → Bool × S
  pub presigned_get_object : ℕ → Text → ℕ → Option Text → Option Text
  pub presigned_post_object : ℕ → Text → Text → ℕ → ℕ → Option (Text × List (Text × Text))

-- `filetype.guess(head).mime`, `hashlib.sha256(…).hexdigest()`, `str.lower`, `str.isspace`,
-- `unicodedata.normalize("NFC", …)`, `unicodedata.category(…).startswith("C")`, the text of a UUID,
-- `uuid.UUID(text)` and `slugify`.
pub record Externals : Type 0 where
  pub guess : Text → Option Text
  pub sha256_hexdigest : Text → Text
  pub lower : Text → Text
  pub is_space : ℕ → Bool
  pub nfc : Text → Text
  pub is_other : ℕ → Bool
  pub uuid_text : ℕ → Text
  pub parse_uuid : Text → Option ℕ
  pub slugify : Text → Text

pub record Settings : Type 0 where
  pub default_quota_bytes : Option ℕ
  pub default_quota_objects : Option ℕ
  pub max_upload_size_bytes : ℕ
  pub max_upload_size_per_category : List (MediaCategory × ℕ)
  pub bucket_public : ℕ
  pub bucket_private : ℕ
  pub bucket_sensitive : ℕ
  pub bucket_temp : ℕ
  pub bucket_archive : ℕ
  pub presigned_url_expire_seconds : ℕ
  pub sha256_verify_chunk_size : ℕ
  pub share_max_expires_seconds : ℕ
  pub share_default_expires_seconds : ℕ
  pub import_max_category_depth : ℕ
  pub import_max_objects : ℕ
  pub import_max_categories : ℕ
  pub import_max_total_bytes : ℕ

-- The committed rows and the bytes in storage.
pub record World (S : Type 0) : Type 0 where
  pub db : Db
  pub store : S

-- `session.commit()` of the rows staged so far.
abbrev pub commit : {S : Type 0} → Db → World S → World S
commit d w = record w { db = d }

-- A storage call whose exception is logged and swallowed: only what it left in storage is kept.
abbrev pub best_effort : {S : Type 0} → (S → Bool × S) → World S → World S
best_effort call w = record w { store = (call w.store).1 }
