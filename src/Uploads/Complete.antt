-- ===== src/Uploads/Complete.antt =====
-- `UploadsController.complete_upload` of media_service/controllers/uploads.py: the checks against
-- the stored bytes, the reservation, and the promotion of the session to a media object.
pub mod Outcome
pub mod Checks
pub mod Refusal
pub mod Move
pub mod Credit
use media_service_m.Prelude.{
  ℕ, ◌+◌, Bool, true, false, not, ◌&&◌, Option, none, some, List, [], ◌∷◌, ◌++◌, map, min, ltb,
  if◌then◌else◌, Text,
}
use media_service_m.Effect.{
  Exec, Result, ok, err, http, pure, raise, or_raise, lift, gets, modify, ◌>>=◌, ◌>>◌, Error,
  Detail, quota_bytes_exceeded, RejectReason, size_exceeded, mime_mismatch, sha256_mismatch,
  rejected, object_not_in_storage, sha256_read_failed, content_type_failed,
}
use media_service_m.Model.Enums.{MediaObjectStatus, ScanStatus, UploadSessionStatus}
use media_service_m.Model.Rows.{
  MediaObject, UploadSession, Category, MediaObjectCategoryLink, Db, UserModel,
}
use media_service_m.Model.Store.{
  ObjectStorage, ObjectStat, Externals, Settings, World, commit, best_effort,
}
use media_service_m.Validation.{
  mime_consistent, sniff_mime, verify_sha256_stream, max_size_for_category,
}
use media_service_m.Quota.{reserve_storage_for_object}
use media_service_m.Category.Scope.{resolve_category_ids, categories_in_scope}
use media_service_m.Uploads.{load_owned_session, ensure_completable, save_upload, with_status}

-- The body of the request: `sha256`, and `category_ids`, whose `none` keeps the filing declared at
-- the initiation.
pub record UploadCompleteRequest : Type 0 where
  pub sha256 : Option Text
  pub category_ids : Option (List ℕ)

-- The object that a session turns into, accepted or rejected.
abbrev pub object_of :
    UploadSession → MediaObjectStatus → ObjectStat → Option Text → ℕ → MediaObject
object_of s status stat sha256 now = record {
  id = s.id;
  tenant_id = s.tenant_id;
  owner_user_id = s.owner_user_id;
  category = s.category;
  visibility = s.visibility;
  storage_bucket = s.storage_bucket;
  object_key = s.object_key;
  original_filename = s.original_filename;
  mime_type = s.expected_mime_type;
  size_bytes = stat.size;
  sha256 = sha256;
  etag = stat.etag;
  status = status;
  scan_status = ScanStatus.pending;
  created_at = now;
  updated_at = now;
  deleted_at = none;
}

abbrev pub add_object : MediaObject → Db → Db
add_object o d = record d { objects = d.objects ++ o ∷ [] }

-- What the three content checks conclude.
pub data Verdict : Type 0 where
  accepted : Verdict
  refused : RejectReason → Verdict
  failed : Error → Verdict

-- `exc.reason` of the `QuotaExceededError`.
abbrev reason_of : Detail → RejectReason
reason_of (rejected reason) = reason
reason_of _ = quota_bytes_exceeded

abbrev head_of : Option Text → Text
head_of none = []
head_of (some head) = head

abbrev digest_verdict : Externals → Text → Option (List Text) → Verdict
digest_verdict ext expected none = failed (http 422 sha256_read_failed)
digest_verdict ext expected (some chunks) =
    if verify_sha256_stream ext chunks expected then accepted else refused sha256_mismatch

abbrev pub link_to : ℕ → Category → MediaObjectCategoryLink
link_to object_id c = record { media_object_id = object_id; category_id = c.id }

abbrev filing_of : UserModel → Option (List ℕ) → Option (List ℕ) → Db → Result (List Category)
filing_of u (some ids) declared d = resolve_category_ids u ids d
filing_of u none none d = ok (categories_in_scope u [] d)
filing_of u none (some ids) d = ok (categories_in_scope u ids d)

module _ {S : Type 0} (storage : ObjectStorage S) (conf : Settings) (ext : Externals) where
  -- `if req.sha256:` skips an empty digest too.
  abbrev digest_check : UploadSession → Option Text → S → Verdict
  digest_check s none store = accepted
  digest_check s (some []) store = accepted
  digest_check s (some (c ∷ t)) store =
      digest_verdict ext (c ∷ t)
        (storage.stream_object store s.storage_bucket s.object_key conf.sha256_verify_chunk_size)

  abbrev pub size_ceiling : UploadSession → ℕ
  size_ceiling s = min s.expected_size_bytes (max_size_for_category conf s.category)

  -- Steps 1 to 3: the size, the magic bytes, the digest. A head that cannot be read counts as empty.
  unfoldable pub inspect : UploadSession → Option Text → ObjectStat → S → Verdict
  inspect s sha256 stat store =
      let head = head_of (storage.get_object_head store s.storage_bucket s.object_key) in
      if ltb (size_ceiling s) stat.size
      then refused size_exceeded
      else if not (mime_consistent s.expected_mime_type (sniff_mime ext head))
      then refused mime_mismatch
      else digest_check s sha256 store

  -- `_reject_upload`, on the rows staged so far.
  unfoldable pub reject_upload :
      {A : Type 0} → UploadSession → RejectReason → ObjectStat → ℕ → Db → Exec (World S) A
  reject_upload s reason stat now staged w =
      let rows =
        save_upload (with_status UploadSessionStatus.aborted s)
          (add_object (object_of s MediaObjectStatus.rejected stat none now) staged) in
      raise 422 (rejected reason)
        (best_effort (storage.remove_object s.storage_bucket s.object_key) (commit rows w))

  -- The rows of a promotion.
  abbrev pub promoted : UploadSession → Option Text → ObjectStat → List Category → ℕ → Db → Db
  promoted s sha256 stat categories now staged =
      let o = object_of s MediaObjectStatus.uploaded stat sha256 now in
      let filed = record (add_object o staged) {
        links = staged.links ++ map (link_to s.id) categories;
      } in
      save_upload (record s { status = UploadSessionStatus.completed; completed_at = some now })
        filed

  abbrev settled :
      UploadSession
      → Option Text
      → ObjectStat
      → List Category
      → ℕ
      → Result (Unit {0}) × Db
      → Exec (World S) MediaObject
  settled s sha256 stat categories now (ok _, staged) w = (
    ok (object_of s MediaObjectStatus.uploaded stat sha256 now),
    commit (promoted s sha256 stat categories now staged) w,
  )
  settled s sha256 stat categories now (err e, staged) w =
      reject_upload s (reason_of e.detail) stat now staged w

  -- Steps 4 and 5, after the checks have passed.
  unfoldable pub finalize :
      UploadSession → Option Text → ObjectStat → List Category → ℕ → Exec (World S) MediaObject
  finalize s sha256 stat categories now w =
      let (done, store) =
        storage.set_object_content_type s.storage_bucket s.object_key s.expected_mime_type
          w.store in
      let pinned = record w { store = store } in
      if done
      then settled s sha256 stat categories now
          (reserve_storage_for_object conf s.owner_user_id s.tenant_id stat.size now pinned.db)
          pinned
      else raise 422 content_type_failed pinned

  abbrev concluded :
      UploadSession
      → Option Text
      → ObjectStat
      → List Category
      → ℕ
      → Verdict
      → Exec (World S) MediaObject
  concluded s sha256 stat categories now accepted w = finalize s sha256 stat categories now w
  concluded s sha256 stat categories now (refused reason) w = reject_upload s reason stat now w.db w
  concluded s sha256 stat categories now (failed e) w = (err e, w)

  unfoldable pub complete_upload :
      UserModel → ℕ → UploadCompleteRequest → ℕ → Exec (World S) MediaObject
  complete_upload u session_id req now = do
    w ← gets (λ (w : World S). w)
    s ← lift (load_owned_session u session_id w.db)
    ensure_completable s now
    categories ← lift (filing_of u req.category_ids s.category_ids w.db)
    stat ←
        or_raise (storage.stat_object w.store s.storage_bucket s.object_key) 422
          object_not_in_storage
    concluded s req.sha256 stat categories now (inspect s req.sha256 stat w.store)
