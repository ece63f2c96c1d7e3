-- ===== src/Tests/AccountingTests.antt =====
-- The ledger over a deletion, a purge and a completion, and the deletion of a rejected upload.
use media_service_m.Prelude.{text_eq, ◌<◌, In, ◌≡◌, refl, some, none, [], ◌∷◌, arith}
use media_service_m.Model.Enums.{MediaObjectStatus}
use media_service_m.Model.Rows.{MediaObject}
use media_service_m.Model.Store.{World}
use media_service_m.Access.{load_object, fetch_object}
use media_service_m.Quota.{bytes_of, set_quota, record_object_removed}
use media_service_m.Quota.Accounting.{IsAccounted, stored_bytes}
use media_service_m.Uploads.Complete.{UploadCompleteRequest, complete_upload}
use media_service_m.Objects.{
  delete_object, delete_live, clean_deleted, archive_deleted_bytes, deletion_rows,
}
use media_service_m.Objects.Deletion.Debit.{delete_object-undercounts}
use media_service_m.Accounting.{
  completes, deletes, purges, sets_quota, start, next, history-IsAccounted,
}
use media_service_m.Tests.Data.{alice, conf, ext, rows, photo}
use media_service_m.Maintenance.{hard_purge_expired}
use media_service_m.Tests.Storage.{Blobs, blobs_storage, world}

rows-IsAccounted : IsAccounted rows
rows-IsAccounted owner none = ground arith
rows-IsAccounted owner (some tenant) = ground arith

abbrev plain : UploadCompleteRequest
plain = record { sha256 = none; category_ids = none }

abbrev after_deletion : World Blobs
after_deletion = (delete_object blobs_storage conf alice 7 13 60 world).1

abbrev after_purge : World Blobs
after_purge = (hard_purge_expired blobs_storage 1000 10 5 after_deletion).1

one-keyed : (o a b : MediaObject) → In a (o ∷ []) → In b (o ∷ []) → a.id ≡ b.id → a ≡ b
one-keyed o a b m n e = ground arith

rows-keyed :
    (a b : MediaObject)
    → In a after_deletion.db.objects
    → In b after_deletion.db.objects
    → a.id ≡ b.id
    → a ≡ b
unfolding delete_object load_object fetch_object delete_live clean_deleted archive_deleted_bytes
    text_eq deletion_rows record_object_removed
rows-keyed = one-keyed _

purge-deletes : after_purge.db.objects ≡ []
unfolding hard_purge_expired delete_object load_object fetch_object delete_live clean_deleted
    archive_deleted_bytes text_eq deletion_rows record_object_removed
purge-deletes = refl

abbrev after_completion : World Blobs
after_completion = (complete_upload blobs_storage conf ext alice 9 plain 2000 after_purge).1

abbrev after_override : World Blobs
after_override = record after_completion {
  db =
      set_quota 1 none (record { new_quota_bytes = some (some 9); new_quota_objects = none }) 2001
        after_completion.db;
}

history-IsAccounted_example : IsAccounted after_override.db
unfolding delete_object load_object fetch_object
history-IsAccounted_example =
    history-IsAccounted blobs_storage conf ext world after_override
      (next
        (next
          (next (next start (deletes alice 7 13 60 (λ o found. ground arith)))
            (purges 1000 10 5 rows-keyed))
          (completes alice 9 plain 2000))
        (sets_quota 1 none (record { new_quota_bytes = some (some 9); new_quota_objects = none })
          2001))
      rows-IsAccounted

-- A rejected upload, which was not credited.
abbrev spam : MediaObject
spam = record photo { id = 30; status = MediaObjectStatus.rejected; size_bytes = 3 }

abbrev spam_world : World Blobs
spam_world = record world { db = record rows { objects = photo ∷ spam ∷ [] } }

spam-IsAccounted : IsAccounted spam_world.db
spam-IsAccounted owner none = ground arith
spam-IsAccounted owner (some tenant) = ground arith

delete_object-undercounts_example :
    bytes_of 1 none (delete_object blobs_storage conf alice 30 14 60 spam_world).1.db
    < stored_bytes 1 none (delete_object blobs_storage conf alice 30 14 60 spam_world).1.db
unfolding load_object fetch_object
delete_object-undercounts_example =
    delete_object-undercounts blobs_storage conf alice 30 14 60 spam_world spam refl refl refl
      (omega arith) spam-IsAccounted (omega arith)
