-- ===== src/Import/OneFile.antt =====
-- One file of an archive, driven through the upload pipeline: `_import_one_file` of
-- media_service/controllers/transfer_import.py.
use media_service_m.Prelude.{
  ℕ, ◌+◌, not, Option, none, some, List, map, ltb, if◌then◌else◌, Text, is_some,
}
use media_service_m.Effect.{Exec, Result, ok, err, http, size_exceeded, integrity_error}
use media_service_m.Model.Rows.{MediaObject, Category, Db, UserModel}
use media_service_m.Model.Store.{ObjectStorage, Externals, Settings, World, commit, best_effort}
use media_service_m.Validation.{is_allowed_declared_mime, max_size_for_category}
use media_service_m.Category.Walk.{category_id}
use media_service_m.Uploads.{
  find_upload, UploadInitiateRequest, StagedUpload, stage_upload, record_upload_session,
}
use media_service_m.Uploads.Complete.{UploadCompleteRequest, complete_upload}
use media_service_m.Import.Paths.{ImportObjectEntry}
use media_service_m.Import.Rows.{
  Match, RowOutcome, ZipInfo, absent, bytes_missing, created, file_into, held, id_conflict,
  importable_match, invalid_metadata, linked_row, reason_for, refused_row, result_of, storage_error,
  unsupported_mime, upload_reason, upload_request, usable,
}

module _ {S : Type 0} (storage : ObjectStorage S) (conf : Settings) (ext : Externals) where
  abbrev pub complete_request : ImportObjectEntry → List Category → UploadCompleteRequest
  complete_request entry categories = record {
    sha256 = entry.sha256;
    category_ids = some (map category_id categories);
  }

  abbrev pub reported : ImportObjectEntry → List Text → Result MediaObject → Result RowOutcome
  reported entry paths (ok o) = ok (result_of entry created none (some o.id) paths, some o)
  reported entry paths (err e) = ok (refused_row entry paths (reason_for e), none)

  -- The session is recorded under the key of the entry, which an earlier session may hold.
  abbrev pub stored :
      UserModel
      → ImportObjectEntry
      → List Category
      → List Text
      → ℕ
      → UploadInitiateRequest
      → StagedUpload
      → Option ℕ
      → Exec (World S) RowOutcome
  stored u entry categories paths now req staged (some _) w = (err (http 500 integrity_error), w)
  stored u entry categories paths now req staged none w =
      let expires_at = now + conf.presigned_url_expire_seconds in
      let recorded = commit (record_upload_session conf ext staged req expires_at now w.db) w in
      let (completed, v) =
        complete_upload storage conf ext u staged.media_id (complete_request entry categories) now
          recorded in
      (reported entry paths completed, v)

  abbrev pub held_session : StagedUpload → Db → Option ℕ
  held_session staged d =
      if is_some (find_upload staged.media_id d) then some staged.media_id else none

  -- From the staged upload on: the put, and what follows it.
  abbrev pub put_and_complete :
      UserModel
      → ZipInfo
      → ImportObjectEntry
      → List Category
      → List Text
      → ℕ
      → UploadInitiateRequest
      → StagedUpload
      → Exec (World S) RowOutcome
  put_and_complete u info entry categories paths now req staged w =
      let (done, store) =
        storage.put_object_stream staged.bucket staged.object_key info.content info.file_size
          entry.mime_type w.store in
      let put = record w { store = store } in
      if done
      then stored u entry categories paths now req staged (held_session staged w.db) put
      else (
        ok (refused_row entry paths storage_error, none),
        best_effort (storage.remove_object staged.bucket staged.object_key) put,
      )

  abbrev pub staged_row :
      UserModel
      → ZipInfo
      → ImportObjectEntry
      → List Category
      → List Text
      → ℕ
      → UploadInitiateRequest
      → Result StagedUpload
      → Exec (World S) RowOutcome
  staged_row u info entry categories paths now req (err e) w =
      (ok (refused_row entry paths (reason_for e), none), w)
  staged_row u info entry categories paths now req (ok staged) w =
      put_and_complete u info entry categories paths now req staged w

  abbrev pub requested_row :
      UserModel
      → ZipInfo
      → ImportObjectEntry
      → List Category
      → List Text
      → ℕ
      → Option UploadInitiateRequest
      → Exec (World S) RowOutcome
  requested_row u info entry categories paths now none w =
      (ok (refused_row entry paths invalid_metadata, none), w)
  requested_row u info entry categories paths now (some req) w =
      staged_row u info entry categories paths now req (stage_upload conf ext u req entry.id w.db).0
        w

  abbrev pub carried_row :
      UserModel
      → Option ZipInfo
      → ImportObjectEntry
      → List Category
      → List Text
      → ℕ
      → Exec (World S) RowOutcome
  carried_row u none entry categories paths now w = (ok (bytes_missing entry paths, none), w)
  carried_row u (some info) entry categories paths now w =
      if not (is_allowed_declared_mime entry.mime_type)
      then (ok (refused_row entry paths unsupported_mime, none), w)
      else if ltb (max_size_for_category conf entry.category) info.file_size
      then (ok (refused_row entry paths (upload_reason size_exceeded), none), w)
      else requested_row u info entry categories paths now
          (upload_request conf ext entry info.file_size (map category_id categories)) w

  abbrev pub matched_row :
      UserModel
      → Option ZipInfo
      → ImportObjectEntry
      → List Category
      → List Text
      → ℕ
      → Match
      → Exec (World S) RowOutcome
  matched_row u info entry categories paths now held w =
      (ok (refused_row entry paths id_conflict, none), w)
  matched_row u info entry categories paths now (usable o) w =
      (ok (linked_row entry paths o.id, none), commit (file_into o categories now w.db) w)
  matched_row u info entry categories paths now absent w =
      carried_row u info entry categories paths now w

  -- `_import_one_file`.
  unfoldable pub import_one_file :
      UserModel
      → Option ZipInfo
      → ImportObjectEntry
      → List Category
      → List Text
      → ℕ
      → Exec (World S) RowOutcome
  unfolding importable_match
  import_one_file u info entry categories paths now w =
      matched_row u info entry categories paths now (importable_match u entry.id w.db) w
