-- ===== src/Variants.antt =====
-- `VariantsController` of media_service/controllers/variants.py: jobs, variants and the worker's
-- callbacks.
pub mod Generate
pub mod Register
use media_service_m.Prelude.{
  ℕ, Bool, true, false, not, ◌&&◌, ◌||◌, Option, none, some, List, [], ◌∷◌, ◌++◌, length, ◌==◌,
  if◌then◌else◌, Text, codes, text_eq, text_elem, filter, any,
}
use media_service_m.Effect.{
  Result, Exec, ◌>>=◌, ◌>>◌, pure, lift, modify, raise_if, or_raise, gets, not_ready,
  not_processable, variant_not_found, variant_job_not_found, integrity_error,
}
use media_service_m.Model.Enums.{
  MediaObjectStatus, ScanStatus, VariantJobStatus, object_status_eq, scan_eq,
}
use media_service_m.Model.Rows.{MediaObject, MediaVariant, VariantJob, Db, UserModel}
use media_service_m.Model.Table.{find_row, save_row, delete_row}
use media_service_m.Model.Store.{Externals, ObjectStorage, World, commit, best_effort}
use media_service_m.Access.{fetch_object, load_object, load_object_for_read}
use media_service_m.Outbox.{record_event}
use media_service_m.Presets.Expand.{VariantSpec, resolve_presets}

-- `VariantGenerateRequest` after its validator: each name once, in the order of the request.
unfoldable pub dedupe_presets : List Text → List Text → List Text
dedupe_presets seen [] = []
dedupe_presets seen (name ∷ names) =
    let rest = dedupe_presets (name ∷ seen) names in
    let again = dedupe_presets seen names in if text_elem name seen then again else name ∷ rest

abbrev pub processable_images : List Text
processable_images =
    codes "image/jpeg"
    ∷ codes "image/png"
    ∷ codes "image/gif"
    ∷ codes "image/webp"
    ∷ codes "image/bmp"
    ∷ codes "image/tiff"
    ∷ codes "image/heic"
    ∷ codes "image/avif"
    ∷ []

abbrev pub is_processable_image : Text → Bool
is_processable_image mime = text_elem mime processable_images

-- `VariantJobPayload`, the work that is queued.
pub record VariantJobPayload : Type 0 where
  pub job_id : ℕ
  pub media_object_id : ℕ
  pub source_bucket : ℕ
  pub source_object_key : Text
  pub specs : List VariantSpec

abbrev pub is_ready : MediaObject → Bool
is_ready o =
    object_status_eq o.status MediaObjectStatus.ready && scan_eq o.scan_status ScanStatus.clean

abbrev pub queued_job : MediaObject → List Text → List VariantSpec → ℕ → ℕ → VariantJob
queued_job o presets specs job_id now = record {
  id = job_id;
  media_object_id = o.id;
  owner_user_id = o.owner_user_id;
  tenant_id = o.tenant_id;
  status = VariantJobStatus.queued;
  requested_presets = presets;
  variants_expected = length specs;
  variants_created = 0;
  error = none;
  updated_at = now;
}

abbrev pub payload_of : MediaObject → List VariantSpec → ℕ → VariantJobPayload
payload_of o specs job_id = record {
  job_id = job_id;
  media_object_id = o.id;
  source_bucket = o.storage_bucket;
  source_object_key = o.object_key;
  specs = specs;
}

-- `generate`, with the job's new id.
unfoldable pub generate :
    Externals → UserModel → ℕ → List Text → ℕ → ℕ → Exec Db (VariantJob × VariantJobPayload)
generate ext u object_id requested job_id now = do
  loaded ← gets (load_object u object_id false)
  o ← lift loaded
  raise_if (not (is_ready o)) 409 not_ready
  raise_if (not (is_processable_image o.mime_type)) 422 not_processable
  let presets = dedupe_presets [] requested
  resolved ← gets (resolve_presets ext u presets o)
  specs ← lift resolved
  let job = queued_job o presets specs job_id now
  modify (λ (d : Db). record d { variant_jobs = d.variant_jobs ++ job ∷ [] })
  pure (job, payload_of o specs job_id)

abbrev pub job_is : ℕ → VariantJob → Bool
job_is k j = j.id == k

-- `_load_variant_job`.
unfoldable pub load_variant_job : ℕ → ℕ → Exec Db VariantJob
load_variant_job object_id job_id = do
  found ← gets (λ (d : Db). find_row (job_is job_id) d.variant_jobs)
  job ← or_raise found 404 variant_job_not_found
  raise_if (not (job.media_object_id == object_id)) 404 variant_job_not_found
  pure job

unfoldable pub get_job : UserModel → ℕ → ℕ → Exec Db VariantJob
unfolding load_variant_job
get_job u object_id job_id = do
  loaded ← gets (load_object u object_id false)
  o ← lift loaded
  load_variant_job object_id job_id

abbrev pub is_variant_of : ℕ → MediaVariant → Bool
is_variant_of k v = v.media_object_id == k

unfoldable pub list_variants : Option UserModel → ℕ → Exec Db (List MediaVariant)
list_variants u object_id = do
  loaded ← gets (load_object_for_read u object_id)
  o ← lift loaded
  gets (λ (d : Db). filter (is_variant_of object_id) d.variants)

abbrev pub variant_is : ℕ → MediaVariant → Bool
variant_is k v = v.id == k

-- `delete_variant`: the row first, then its bytes as well as can be.
unfoldable pub delete_variant :
    {S : Type 0} → ObjectStorage S → UserModel → ℕ → ℕ → Exec (World S) (Unit {0})
delete_variant {S} storage u object_id variant_id = do
  loaded ← gets (λ (w : World S). load_object u object_id false w.db)
  o ← lift loaded
  found ← gets (λ (w : World S). find_row (variant_is variant_id) w.db.variants)
  v ← or_raise found 404 variant_not_found
  raise_if (not (v.media_object_id == object_id)) 404 variant_not_found
  modify (λ (w : World S).
      best_effort (storage.remove_object v.storage_bucket v.object_key)
        (commit (record w.db { variants = delete_row (variant_is variant_id) w.db.variants }) w))

pub record VariantRegisterRequest : Type 0 where
  pub variant_name : Text
  pub storage_bucket : ℕ
  pub object_key : Text
  pub width : Option ℕ
  pub height : Option ℕ
  pub size_bytes : ℕ
  pub format : Text

abbrev pub named : ℕ → Text → MediaVariant → Bool
named object_id name v = v.media_object_id == object_id && text_eq v.variant_name name

abbrev pub row_id : Option MediaVariant → ℕ → ℕ
row_id none new_id = new_id
row_id (some v) new_id = v.id

-- The row with the fields of the request, of a new row as of one that is there.
abbrev pub registered : ℕ → VariantRegisterRequest → ℕ → MediaVariant
registered object_id req k = record {
  id = k;
  media_object_id = object_id;
  variant_name = req.variant_name;
  storage_bucket = req.storage_bucket;
  object_key = req.object_key;
  width = req.width;
  height = req.height;
  size_bytes = req.size_bytes;
  format = req.format;
}

-- `uq_media_variant_key`, which the database checks at the commit: another row has the key.
abbrev pub has_key_of : ℕ → VariantRegisterRequest → MediaVariant → Bool
has_key_of object_id req v =
    not (named object_id req.variant_name v)
    && (v.storage_bucket == req.storage_bucket && text_eq v.object_key req.object_key)

abbrev pub ready_payload : VariantRegisterRequest → List (Text × Text)
ready_payload req = (codes "variant_name", req.variant_name) ∷ (codes "format", req.format) ∷ []

-- `register_variant`, with the ids of a new row and of the event.
unfoldable pub register_variant : ℕ → VariantRegisterRequest → ℕ → ℕ → ℕ → Exec Db MediaVariant
register_variant object_id req new_id event_id now = do
  fetched ← gets (fetch_object object_id true)
  o ← lift fetched
  existing ← gets (λ (d : Db). find_row (named object_id req.variant_name) d.variants)
  let v = registered object_id req (row_id existing new_id)
  taken ← gets (λ (d : Db). any (has_key_of object_id req) d.variants)
  raise_if taken 500 integrity_error
  modify (λ (d : Db).
      record_event (codes "variant.ready") object_id (ready_payload req) event_id now
        (record d { variants = save_row (named object_id req.variant_name) v d.variants }))
  pure v

pub record VariantJobUpdate : Type 0 where
  pub status : VariantJobStatus
  pub variants_created : Option ℕ
  pub error : Option Text

abbrev pub given : {A : Type 0} → Option A → A → A
given none old = old
given (some new) old = new

abbrev pub given_text : Option Text → Option Text → Option Text
given_text none old = old
given_text (some new) old = some new

unfoldable pub update_job_status : ℕ → VariantJobUpdate → ℕ → Exec Db VariantJob
update_job_status job_id req now = do
  found ← gets (λ (d : Db). find_row (job_is job_id) d.variant_jobs)
  job ← or_raise found 404 variant_job_not_found
  let changed = record job {
    status = req.status;
    variants_created = given req.variants_created job.variants_created;
    error = given_text req.error job.error;
    updated_at = now;
  }
  modify (λ (d : Db). record d { variant_jobs = save_row (job_is job_id) changed d.variant_jobs })
  pure changed
