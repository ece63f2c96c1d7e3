-- ===== src/Import/Rows.antt =====
-- One row of an import: `_importable_match`, `_file_into`, `_reason_for`, `_link_existing` and
-- the request that an entry makes, of media_service/controllers/transfer_import.py.
use media_service_m.Prelude.{
  ℕ, Bool, not, ◌&&◌, ◌||◌, Option, none, some, List, [], ◌∷◌, ◌++◌, map, filter, length, ◌==◌, ltb,
  if◌then◌else◌, Text, elem, is_none,
}
use media_service_m.Effect.{
  Error, Detail, RejectReason, quota_bytes_exceeded, quota_objects_exceeded, rejected,
}
use media_service_m.Model.Enums.{MediaObjectStatus, object_status_eq}
use media_service_m.Model.Rows.{
  MediaObject, Category, MediaObjectCategoryLink, Db, UserModel, object_is,
}
use media_service_m.Model.Table.{find_row, save_row}
use media_service_m.Model.Store.{Externals, Settings}
use media_service_m.Validation.{max_size_for_category}
use media_service_m.Filenames.{Validated, valid, invalid, validate_filename, sanitize_filename}
use media_service_m.Uploads.{UploadInitiateRequest}
use media_service_m.Uploads.Complete.{link_to}
use media_service_m.Import.Paths.{ImportObjectEntry}

-- `ImportRowStatus` and `ImportRowReason` of media_service/schemas/transfer.py.
pub data ImportRowStatus : Type 0 where
  created linked skipped failed : ImportRowStatus

pub data ImportRowReason : Type 0 where
  already_exists id_conflict missing_bytes unsupported_mime invalid_metadata storage_error :
      ImportRowReason
  -- a token of `UploadRejectReason`
  upload_reason : RejectReason → ImportRowReason

pub record ImportObjectResult : Type 0 where
  pub source_id : ℕ
  pub filename : Option Text
  pub status : ImportRowStatus
  pub reason : Option ImportRowReason
  pub media_object_id : Option ℕ
  pub category_paths : List Text

-- `zipfile.ZipInfo`, with the bytes that reading the entry gives, if it can be read.
pub record ZipInfo : Type 0 where
  pub filename : Text
  pub is_dir : Bool
  pub file_size : ℕ
  pub content : Option Text

-- `_IMPORTABLE_STATUSES`.
unfoldable pub is_importable : MediaObjectStatus → Bool
is_importable s =
    object_status_eq s MediaObjectStatus.pending_upload
    || (object_status_eq s MediaObjectStatus.uploaded
        || (object_status_eq s MediaObjectStatus.processing
            || object_status_eq s MediaObjectStatus.ready))

abbrev pub usable_by : UserModel → MediaObject → Bool
usable_by u o = o.owner_user_id == u.id && (is_none o.deleted_at && is_importable o.status)

-- What `_importable_match` answers: no row, a row that must be left alone, or a usable one.
pub data Match : Type 0 where
  absent held : Match
  usable : MediaObject → Match

abbrev pub match_of : UserModel → Option MediaObject → Match
match_of u none = absent
match_of u (some o) = if usable_by u o then usable o else held

unfoldable pub importable_match : UserModel → ℕ → Db → Match
unfolding is_importable
importable_match u source_id d = match_of u (find_row (object_is source_id) d.objects)

-- `{row.id for row in media_object.user_categories}`.
abbrev filed_in : ℕ → List MediaObjectCategoryLink → List ℕ
filed_in k [] = []
filed_in k (l ∷ links) =
    let rest = filed_in k links in if l.media_object_id == k then l.category_id ∷ rest else rest

abbrev pub unfiled : ℕ → Db → List Category → List Category
unfiled k d categories =
    let existing = filed_in k d.links in
    filter (λ (c : Category). not (elem c.id existing)) categories

abbrev pub filed : MediaObject → ℕ → List Category → Db → Db
filed o now [] d = d
filed o now (c ∷ more) d = record d {
  objects = save_row (object_is o.id) (record o { updated_at = now }) d.objects;
  links = d.links ++ map (link_to o.id) (c ∷ more);
}

-- `_file_into`: nothing is written when nothing is added.
unfoldable pub file_into : MediaObject → List Category → ℕ → Db → Db
file_into o categories now d = filed o now (unfiled o.id d categories) d

abbrev by_status : ℕ → ImportRowReason
by_status code =
    if code == 413
    then upload_reason quota_bytes_exceeded
    else if code == 409
    then upload_reason quota_objects_exceeded
    else storage_error

abbrev reason_of_detail : ℕ → Detail → ImportRowReason
reason_of_detail code (rejected reason) = upload_reason reason
reason_of_detail code _ = by_status code

-- `_reason_for`, without its message.
unfoldable pub reason_for : Error → ImportRowReason
reason_for e = reason_of_detail e.status_code e.detail

-- `_result`.
abbrev pub result_of :
    ImportObjectEntry
    → ImportRowStatus
    → Option ImportRowReason
    → Option ℕ
    → List Text
    → ImportObjectResult
result_of entry status reason media_object_id paths = record {
  source_id = entry.id;
  filename = entry.filename;
  status = status;
  reason = reason;
  media_object_id = media_object_id;
  category_paths = paths;
}

abbrev pub refused_row : ImportObjectEntry → List Text → ImportRowReason → ImportObjectResult
refused_row entry paths reason = result_of entry failed (some reason) none paths

abbrev pub linked_row : ImportObjectEntry → List Text → ℕ → ImportObjectResult
linked_row entry paths k = result_of entry linked (some already_exists) (some k) paths

abbrev pub bytes_missing : ImportObjectEntry → List Text → ImportObjectResult
bytes_missing entry paths = result_of entry skipped (some missing_bytes) none paths

-- A row of the report, and the object to scan that it created.
abbrev pub RowOutcome : Type 0
RowOutcome = ImportObjectResult × Option MediaObject

abbrev max_category_assignments : ℕ
max_category_assignments = 50

abbrev named : Settings → ImportObjectEntry → ℕ → List ℕ → Validated → Option UploadInitiateRequest
named conf entry size ids (invalid _) = none
named conf entry size ids (valid name) =
    if size == 0
      || (ltb max_category_assignments (length ids)
          || ltb (max_size_for_category conf entry.category) size)
    then none
    else some (record {
      category = entry.category;
      visibility = entry.visibility;
      original_filename = name;
      mime_type = entry.mime_type;
      expected_size_bytes = size;
      category_ids = ids;
    })

-- The request that an entry makes, or the `ValidationError` of its shape.
unfoldable pub upload_request :
    Settings → Externals → ImportObjectEntry → ℕ → List ℕ → Option UploadInitiateRequest
unfolding validate_filename sanitize_filename max_size_for_category
upload_request conf ext entry size ids =
    named conf entry size ids (validate_filename ext (sanitize_filename ext entry.filename))
