-- ===== src/Uploads.antt =====
-- The presigned upload flow of media_service/controllers/uploads.py and the stale purge of
-- media_service/controllers/admin.py. `Complete` has the completion; here are the loaders, the
-- initiation, the abort and the purge.
pub mod Complete
pub mod Moves
pub mod Lifecycle
pub mod Ledger
use media_service_m.Prelude.{
  ℕ, ◌+◌, Bool, true, false, not, ◌&&◌, ◌||◌, Option, none, some, List, [], ◌∷◌, ◌++◌, map, min,
  ◌==◌, ltb, if◌then◌else◌, filter, length, Text,
}
use media_service_m.Effect.{
  Exec, Result, ok, err, http, pure, raise, raise_if, or_raise, lift, gets, modify, ◌>>=◌, ◌>>◌,
  session_not_found, not_enough_permissions, session_already_settled, session_expired,
  unsupported_content_type, completed_cannot_abort, presign_failed,
}
use media_service_m.Model.Enums.{
  MediaCategory, MediaVisibility, UploadSessionStatus, session_status_eq,
}
use media_service_m.Model.Rows.{UploadSession, Db, UserModel, upload_is}
use media_service_m.Model.Table.{find_row, save_row}
use media_service_m.Model.Store.{ObjectStorage, Externals, Settings, World, commit, best_effort}
use media_service_m.Validation.{is_allowed_declared_mime, max_size_for_category}
use media_service_m.Quota.{check_quota}
use media_service_m.Category.Walk.{category_id}
use media_service_m.Category.Scope.{resolve_category_ids}
use media_service_m.Keys.{build_object_key, bucket_for_visibility}

abbrev pub find_upload : ℕ → Db → Option UploadSession
find_upload k d = find_row (upload_is k) d.uploads

abbrev status_of : Option UploadSession → Option UploadSessionStatus
status_of none = none
status_of (some s) = some s.status

abbrev pub status_of_upload : ℕ → Db → Option UploadSessionStatus
status_of_upload k d = status_of (find_upload k d)

abbrev pub save_upload : UploadSession → Db → Db
save_upload s d = record d { uploads = save_row (upload_is s.id) s d.uploads }

abbrev owned : UserModel → Option UploadSession → Result UploadSession
owned u none = err (http 404 session_not_found)
owned u (some s) =
    if not u.is_superuser && not (s.owner_user_id == u.id)
    then err (http 403 not_enough_permissions)
    else ok s

-- `_load_owned_session`.
unfoldable pub load_owned_session : UserModel → ℕ → Db → Result UploadSession
load_owned_session u session_id d = owned u (find_upload session_id d)

abbrev pub with_status : UploadSessionStatus → UploadSession → UploadSession
with_status status s = record s { status = status }

-- `_ensure_completable`: an expired session is marked, and the mark is committed, before the 409.
unfoldable pub ensure_completable : {S : Type 0} → UploadSession → ℕ → Exec (World S) (Unit {0})
ensure_completable s now w =
    if not (session_status_eq s.status UploadSessionStatus.initiated)
    then raise 409 session_already_settled w
    else if ltb s.expires_at now
    then raise 409 session_expired
        (commit (save_upload (with_status UploadSessionStatus.expired s) w.db) w)
    else pure tt w

pub record UploadInitiateRequest : Type 0 where
  pub category : MediaCategory
  pub visibility : MediaVisibility
  pub original_filename : Text
  pub mime_type : Text
  pub expected_size_bytes : ℕ
  pub category_ids : List ℕ

pub record StagedUpload : Type 0 where
  pub media_id : ℕ
  pub owner_id : ℕ
  pub tenant_id : Option ℕ
  pub bucket : ℕ
  pub object_key : Text
  pub category_ids : List ℕ

module _ (conf : Settings) (ext : Externals) where
  -- `stage_upload`, with the id that it mints or is given. It reads and writes nothing.
  unfoldable pub stage_upload : UserModel → UploadInitiateRequest → ℕ → Exec Db StagedUpload
  stage_upload u req media_id = do
    raise_if (not (is_allowed_declared_mime req.mime_type)) 422 unsupported_content_type
    d ← gets (λ (d : Db). d)
    lift (check_quota conf u.id u.tenant_id req.expected_size_bytes d)
    categories ← lift (resolve_category_ids u req.category_ids d)
    pure (record {
      media_id = media_id;
      owner_id = u.id;
      tenant_id = u.tenant_id;
      bucket = bucket_for_visibility conf req.visibility;
      object_key =
          build_object_key ext u.id media_id req.category req.original_filename u.tenant_id;
      category_ids = map category_id categories;
    })

  -- The row of `record_upload_session`.
  abbrev pub session_of : StagedUpload → UploadInitiateRequest → ℕ → ℕ → UploadSession
  session_of staged req expires_at now = record {
    id = staged.media_id;
    tenant_id = staged.tenant_id;
    owner_user_id = staged.owner_id;
    category = req.category;
    visibility = req.visibility;
    storage_bucket = staged.bucket;
    object_key = staged.object_key;
    original_filename = some req.original_filename;
    expected_mime_type = req.mime_type;
    expected_size_bytes = req.expected_size_bytes;
    status = UploadSessionStatus.initiated;
    created_at = now;
    expires_at = expires_at;
    completed_at = none;
    category_ids = some staged.category_ids;
  }

  abbrev pub record_upload_session : StagedUpload → UploadInitiateRequest → ℕ → ℕ → Db → Db
  record_upload_session staged req expires_at now d = record d {
    uploads = d.uploads ++ session_of staged req expires_at now ∷ [];
  }

  -- The size that the POST policy is signed for.
  abbrev pub signed_max_bytes : UploadInitiateRequest → ℕ
  signed_max_bytes req = min req.expected_size_bytes (max_size_for_category conf req.category)

pub record UploadInitiateResponse : Type 0 where
  pub session_id : ℕ
  pub upload_url : Text
  pub upload_fields : List (Text × Text)
  pub expires_at : ℕ

module _ {S : Type 0} (storage : ObjectStorage S) (conf : Settings) (ext : Externals) where
  -- `UploadsController.initiate_upload`; the session is recorded only after the form is signed.
  unfoldable pub initiate_upload :
      UserModel → UploadInitiateRequest → ℕ → ℕ → Exec (World S) UploadInitiateResponse
  initiate_upload u req media_id now = do
    w ← gets (λ (w : World S). w)
    staged ← lift (stage_upload conf ext u req media_id w.db).0
    form ←
        or_raise
          (storage.presigned_post_object staged.bucket staged.object_key req.mime_type
            (signed_max_bytes conf ext req) conf.presigned_url_expire_seconds)
          500 presign_failed
    let expires_at = now + conf.presigned_url_expire_seconds
    modify (commit (record_upload_session conf ext staged req expires_at now w.db))
    pure (record {
      session_id = staged.media_id;
      upload_url = form.0;
      upload_fields = form.1;
      expires_at = expires_at;
    })

  abbrev removed_if_initiated : UploadSession → World S → World S
  removed_if_initiated s w =
      if session_status_eq s.status UploadSessionStatus.initiated
      then best_effort (storage.remove_object s.storage_bucket s.object_key) w
      else w

  -- `UploadsController.abort_upload`.
  unfoldable pub abort_upload : UserModel → ℕ → Exec (World S) (Unit {0})
  unfolding load_owned_session
  abort_upload u session_id = do
    w ← gets (λ (w : World S). w)
    s ← lift (load_owned_session u session_id w.db)
    raise_if (session_status_eq s.status UploadSessionStatus.completed) 409 completed_cannot_abort
    modify (removed_if_initiated s)
    modify
        (λ (v : World S). commit (save_upload (with_status UploadSessionStatus.aborted s) v.db) v)

  abbrev is_stale : ℕ → UploadSession → Bool
  is_stale now s = session_status_eq s.status UploadSessionStatus.initiated && ltb s.expires_at now

  -- The loop of `purge_stale_uploads` over the selected sessions, on the staged rows and the bytes.
  unfoldable pub purge_each : List UploadSession → Db → S → Db × S
  purge_each [] d store = (d, store)
  purge_each (s ∷ stale) d store =
      purge_each stale (save_upload (with_status UploadSessionStatus.expired s) d)
        (storage.remove_object s.storage_bucket s.object_key store).1

  -- `AdminController.purge_stale_uploads`; returns the number purged.
  unfoldable pub purge_stale_uploads : ℕ → World S → ℕ × World S
  purge_stale_uploads now w =
      let stale = filter (is_stale now) w.db.uploads in
      let (d, store) = purge_each stale w.db w.store in
      (length stale, record { db = d; store = store })
