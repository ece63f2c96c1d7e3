-- ===== src/Tests/UploadTests.antt =====
-- The upload theorems on Alice's open session, whose 5 bytes are in the storage.
use media_service_m.Prelude.{refl, none, some, codes, arith, text_eq, text_elem}
use media_service_m.Effect.{Result}
use media_service_m.Model.Enums.{MediaObjectStatus, UploadSessionStatus}
use media_service_m.Model.Rows.{MediaObject}
use media_service_m.Model.Store.{ObjectStat, World}
use media_service_m.Validation.{mime_consistent, is_allowed_declared_mime, max_size_for_category}
use media_service_m.Quota.{
  reserve_storage_for_object, effective_quota_bytes, effective_quota_objects,
}
use media_service_m.Category.Scope.{
  scoped_query, categories_in_scope, unique_ids, unique_loop, keep_found,
}
use media_service_m.Uploads.{load_owned_session, ensure_completable}
use media_service_m.Uploads.Moves.{IsFrom}
use media_service_m.Uploads.Lifecycle.{IsKeyed, completes, step-IsFrom}
use media_service_m.Uploads.Complete.{
  UploadCompleteRequest, object_of, inspect, finalize, complete_upload,
}
use media_service_m.Uploads.Complete.Outcome.{IsCompletion, complete_upload-IsCompletion}
use media_service_m.Tests.Data.{alice, conf, ext, rows, upload}
use media_service_m.Tests.Storage.{Blobs, blobs_storage, world}

abbrev plain : UploadCompleteRequest
plain = record { sha256 = none; category_ids = none }

abbrev digest_of_other_bytes : UploadCompleteRequest
digest_of_other_bytes = record { sha256 = some (codes "xxxxx"); category_ids = none }

abbrev stored : ObjectStat
stored = record { size = 5; etag = none }

abbrev notes : MediaObject
notes = object_of upload MediaObjectStatus.uploaded stored none 100

abbrev completion : Result MediaObject × World Blobs
completion = complete_upload blobs_storage conf ext alice 9 plain 100 world

complete_upload-IsCompletion_example :
    IsCompletion blobs_storage conf ext alice 9 100 world notes completion.1.db
unfolding complete_upload load_owned_session ensure_completable categories_in_scope unique_ids
    unique_loop keep_found scoped_query inspect mime_consistent is_allowed_declared_mime text_elem
    text_eq max_size_for_category finalize reserve_storage_for_object effective_quota_bytes
    effective_quota_objects
complete_upload-IsCompletion_example =
    complete_upload-IsCompletion blobs_storage conf ext alice 9 plain 100 world notes refl

abbrev mismatch : Result MediaObject × World Blobs
mismatch = complete_upload blobs_storage conf ext alice 9 digest_of_other_bytes 100 world

uploads-IsKeyed : IsKeyed rows.uploads
uploads-IsKeyed s m = ground arith

step-IsFrom_example : IsFrom 9 UploadSessionStatus.initiated completion.1.db
step-IsFrom_example =
    step-IsFrom blobs_storage conf ext world completion.1 9 UploadSessionStatus.initiated
      (completes alice 9 plain 100) uploads-IsKeyed refl
