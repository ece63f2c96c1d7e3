-- ===== src/Model/Rows.antt =====
-- The tables of media_service/db_models. Ids are naturals (a UUID is only compared), times are
-- seconds on one clock, bucket names are naturals, texts are code points. Columns that no modelled
-- operation reads (`extension`, `moderation_status`, the surrogate ids of link tables) are left out.
use media_service_m.Prelude.{ℕ, Bool, Option, List, ◌==◌, opt_eq, ◌&&◌, Text}
use media_service_m.Model.Enums.{
  MediaCategory, MediaVisibility, MediaObjectStatus, ScanStatus, UploadSessionStatus, OutboxStatus,
  VariantJobStatus, ExportJobStatus,
}

pub data ImageFormat : Type 0 where
  webp jpeg png gif avif : ImageFormat

pub record FormatSpec : Type 0 where
  pub ext : ImageFormat
  pub quality : ℕ

pub record ImageSizeSpec : Type 0 where
  pub fixed_width : Option ℕ
  pub fixed_height : Option ℕ
  pub fixed_size : Option ℕ

pub record PresetSpec : Type 0 where
  pub image_size : ImageSizeSpec
  pub formats : List FormatSpec
  pub allow_upscale : Bool
  pub max_byte_size : Option ℕ

pub record MediaObject : Type 0 where
  pub id : ℕ
  pub tenant_id : Option ℕ
  pub owner_user_id : ℕ
  pub category : MediaCategory
  pub visibility : MediaVisibility
  pub storage_bucket : ℕ
  pub object_key : Text
  pub original_filename : Option Text
  pub mime_type : Text
  pub size_bytes : ℕ
  pub sha256 : Option Text
  pub etag : Option Text
  pub status : MediaObjectStatus
  pub scan_status : ScanStatus
  pub created_at : ℕ
  pub updated_at : ℕ
  pub deleted_at : Option ℕ

pub record UploadSession : Type 0 where
  pub id : ℕ
  pub tenant_id : Option ℕ
  pub owner_user_id : ℕ
  pub category : MediaCategory
  pub visibility : MediaVisibility
  pub storage_bucket : ℕ
  pub object_key : Text
  pub original_filename : Option Text
  pub expected_mime_type : Text
  pub expected_size_bytes : ℕ
  pub status : UploadSessionStatus
  pub created_at : ℕ
  pub expires_at : ℕ
  pub completed_at : Option ℕ
  pub category_ids : Option (List ℕ)

-- One row for each (owner_user_id, tenant_id); the columns are integers that the code never lets
-- fall below zero.
pub record StorageUsage : Type 0 where
  pub owner_user_id : ℕ
  pub tenant_id : Option ℕ
  pub total_bytes : ℕ
  pub object_count : ℕ
  pub quota_bytes : Option ℕ
  pub quota_objects : Option ℕ
  pub updated_at : ℕ

pub record ShareToken : Type 0 where
  pub id : ℕ
  pub media_object_id : ℕ
  pub owner_user_id : ℕ
  pub tenant_id : Option ℕ
  pub expires_at : ℕ
  pub max_uses : Option ℕ
  pub uses : ℕ
  pub revoked : Bool
  pub created_at : ℕ

pub record Category : Type 0 where
  pub id : ℕ
  pub name : Text
  pub slug : Text
  pub parent_id : Option ℕ
  pub owner_id : ℕ
  pub tenant_id : Option ℕ

pub record MediaObjectCategoryLink : Type 0 where
  pub media_object_id : ℕ
  pub category_id : ℕ

-- The `payload` is a JSON object whose values are the texts that the code puts there.
pub record OutboxEvent : Type 0 where
  pub id : ℕ
  pub event_type : Text
  pub object_id : ℕ
  pub payload : List (Text × Text)
  pub status : OutboxStatus
  pub attempts : ℕ
  pub next_attempt_at : ℕ
  pub created_at : ℕ
  pub delivered_at : Option ℕ

pub record Subscription : Type 0 where
  pub id : ℕ
  pub url : Text
  pub secret : Text
  pub event_types : List Text
  pub active : Bool
  pub created_at : ℕ

pub record MediaVariant : Type 0 where
  pub id : ℕ
  pub media_object_id : ℕ
  pub variant_name : Text
  pub storage_bucket : ℕ
  pub object_key : Text
  pub width : Option ℕ
  pub height : Option ℕ
  pub size_bytes : ℕ
  pub format : Text

pub record VariantJob : Type 0 where
  pub id : ℕ
  pub media_object_id : ℕ
  pub owner_user_id : ℕ
  pub tenant_id : Option ℕ
  pub status : VariantJobStatus
  pub requested_presets : List Text
  pub variants_expected : ℕ
  pub variants_created : ℕ
  pub error : Option Text
  pub updated_at : ℕ

-- The stored recipe is the JSON of a `PresetSpec`.
pub record ImagePreset : Type 0 where
  pub id : ℕ
  pub owner_user_id : ℕ
  pub tenant_id : Option ℕ
  pub name : Text
  pub spec : PresetSpec
  pub created_at : ℕ
  pub updated_at : ℕ

pub record ExportJob : Type 0 where
  pub id : ℕ
  pub owner_user_id : ℕ
  pub tenant_id : Option ℕ
  pub is_superuser : Bool
  pub status : ExportJobStatus
  pub object_count : ℕ
  pub total_size_bytes : ℕ
  pub storage_bucket : Option ℕ
  pub object_key : Option Text
  pub size_bytes : Option ℕ
  pub expires_at : Option ℕ
  pub error : Option Text
  pub created_at : ℕ
  pub updated_at : ℕ

pub record Db : Type 0 where
  pub objects : List MediaObject
  pub uploads : List UploadSession
  pub usages : List StorageUsage
  pub shares : List ShareToken
  pub categories : List Category
  pub links : List MediaObjectCategoryLink
  pub events : List OutboxEvent
  pub subscriptions : List Subscription
  pub variants : List MediaVariant
  pub variant_jobs : List VariantJob
  pub presets : List ImagePreset
  pub export_jobs : List ExportJob

-- `UserModel`: the authenticated principal.
pub record UserModel : Type 0 where
  pub id : ℕ
  pub is_superuser : Bool
  pub tenant_id : Option ℕ

abbrev pub object_is : ℕ → MediaObject → Bool
object_is k o = o.id == k

abbrev pub upload_is : ℕ → UploadSession → Bool
upload_is k s = s.id == k

abbrev pub share_is : ℕ → ShareToken → Bool
share_is k s = s.id == k

abbrev pub category_is : ℕ → Category → Bool
category_is k c = c.id == k

abbrev pub scope_is : ℕ → Option ℕ → StorageUsage → Bool
scope_is owner tenant u = u.owner_user_id == owner && opt_eq u.tenant_id tenant
