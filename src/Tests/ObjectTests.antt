-- ===== src/Tests/ObjectTests.antt =====
-- The object theorems on Alice's photo: published, deleted, scanned and downloaded.
use media_service_m.Prelude.{false, ◌≡◌, ◌⊎◌, refl, none, some, codes, text_eq}
use media_service_m.Effect.{Result, ok, err, http, media_not_found}
use media_service_m.Model.Enums.{MediaVisibility, ScanStatus}
use media_service_m.Model.Rows.{MediaObject}
use media_service_m.Model.Store.{World}
use media_service_m.Access.{
  find_object, fetch_object, load_object, load_object_for_read, require_visibility_access,
}
use media_service_m.Disposition.{create_download_url}
use media_service_m.Quota.{record_object_removed}
use media_service_m.Objects.{
  MediaObjectUpdate, update_object, delete_object, delete_live, archive_deleted_bytes,
  clean_deleted, deletion_rows, deleted_row,
}
use media_service_m.Objects.Scans.{apply_scan_result, DownloadUrlResponse, download_url}
use media_service_m.Objects.Bytes.{HasBytes, IsKept, update_object-IsKept}
use media_service_m.Objects.Deletion.{IsDeletion, delete_object-IsDeletion}
use media_service_m.Objects.Deletion.Archive.{delete_object-HasBytes}
use media_service_m.Objects.Downloads.{
  IsServed, IsVerdict, download_url-IsServed, apply_scan_result-IsVerdict,
}
use media_service_m.Tests.Data.{alice, conf, ext, rows, photo}
use media_service_m.Tests.Storage.{Blobs, blobs_storage, blobs_storage-IsStorage, holds, world}

abbrev publish : MediaObjectUpdate
publish = record {
  new_visibility = some (some MediaVisibility.public);
  new_filename = none;
  new_category = none;
  category_ids = none;
}

-- The database refuses the commit after the bytes have been copied.
update_object-IsKept_example :
    IsKept blobs_storage conf holds blobs_storage-IsStorage 7 photo
      (update_object blobs_storage conf alice 7 publish 60 false world).1
unfolding text_eq
update_object-IsKept_example =
    update_object-IsKept blobs_storage conf holds blobs_storage-IsStorage alice 7 publish 60 false
      world photo refl refl

abbrev deletion : Result (Unit {0}) × World Blobs
deletion = delete_object blobs_storage conf alice 7 13 60 world

delete_object-IsDeletion_example :
    (deletion.0 ≡ ok tt) × IsDeletion 7 photo 13 60 world.db deletion.1.db
unfolding load_object fetch_object
delete_object-IsDeletion_example =
    delete_object-IsDeletion blobs_storage conf alice 7 13 60 world photo refl refl

delete_object-HasBytes_example :
    HasBytes holds
      (deleted_row 60 (record photo { storage_bucket = 50 }))
      (delete_object blobs_storage conf alice 7 13 60 world).1.store
unfolding load_object fetch_object delete_object delete_live archive_deleted_bytes clean_deleted
    deletion_rows text_eq record_object_removed
delete_object-HasBytes_example =
    delete_object-HasBytes blobs_storage conf holds blobs_storage-IsStorage photo alice 7 13 60
      world (deleted_row 60 (record photo { storage_bucket = 50 })) refl refl refl refl refl refl

abbrev served : DownloadUrlResponse
served = record { url = codes "k7"; expires_at = 660 }

download_url-IsServed_example : IsServed blobs_storage conf ext (some alice) 7 60 rows served
unfolding download_url load_object_for_read fetch_object require_visibility_access
    create_download_url
download_url-IsServed_example =
    download_url-IsServed blobs_storage conf ext (some alice) 7 60 rows served refl

apply_scan_result-IsVerdict_example :
    ((o : MediaObject) × ((apply_scan_result 7 ScanStatus.infected 13 60 rows).0 ≡ ok o)
      × IsVerdict 7 ScanStatus.infected rows
          (apply_scan_result 7 ScanStatus.infected 13 60 rows).1
          o)
    ⊎ ((find_object 7 rows ≡ none)
        × (apply_scan_result 7 ScanStatus.infected 13 60 rows
            ≡ (err (http 404 media_not_found), rows)))
apply_scan_result-IsVerdict_example = apply_scan_result-IsVerdict 7 ScanStatus.infected 13 60 rows
