-- ===== src/Tests/ReconcileTests.antt =====
-- A repair over an orphan, a photo, an open upload and a thumbnail.
use media_service_m.Prelude.{
  ℕ, true, false, ◌≡◌, refl, some, [], ◌∷◌, In, inl, arith, codes, Text, text_eq,
}
use media_service_m.Prelude.Sorting.{sort_rows, insert_row}
use media_service_m.Model.Rows.{MediaObject, MediaVariant}
use media_service_m.Model.Store.{World}
use media_service_m.Maintenance.Reconcile.{
  reconcile_orphans, storage_orphan, is_excluded, db_orphan, live_rows, missing_bytes,
}
use media_service_m.Maintenance.Reconcile.Orphans.{
  IsReconciled, report, store_after, reconcile_orphans-IsReport, reconcile_orphans-HasBytes,
}
use media_service_m.Maintenance.Reconcile.Sweeps.{IsOwned}
use media_service_m.Maintenance.Reconcile.Variants.{reconcile_orphans-removes_variant}
use media_service_m.Tests.Data.{rows, photo}
use media_service_m.Tests.Storage.{Blobs, blobs_storage, blobs_storage-IsEraser, holds, world}

abbrev thumbnail : MediaVariant
thumbnail = record {
  id = 1;
  media_object_id = 7;
  variant_name = codes "thumb_webp";
  storage_bucket = 20;
  object_key = codes "v7";
  width = some 1;
  height = some 1;
  size_bytes = 1;
  format = codes "webp";
}

-- An old row without bytes.
abbrev ghost : MediaObject
ghost = record photo { id = 31; object_key = codes "gone" }

-- One that is still within the grace period.
abbrev young_ghost : MediaObject
young_ghost = record photo { id = 32; object_key = codes "soon"; created_at = 60 }

abbrev littered : World Blobs
littered = record {
  db = record rows { objects = photo ∷ ghost ∷ young_ghost ∷ []; variants = thumbnail ∷ [] };
  store =
      record { bucket = 20; key = codes "v7"; bytes = codes "t" }
      ∷ record { bucket = 20; key = codes "lost"; bytes = codes "x" }
      ∷ world.store;
}

-- The photo and the upload stay, the thumbnail goes with the orphan.
littered-report :
    (report blobs_storage 100 (20 ∷ 10 ∷ []) 50 10 true littered).storage_orphans
    ≡ storage_orphan 20 (codes "v7") ∷ storage_orphan 20 (codes "lost") ∷ []
unfolding reconcile_orphans is_excluded text_eq
littered-report = refl

littered-rows :
    (report blobs_storage 100 (20 ∷ 10 ∷ []) 50 10 true littered).db_orphans
    ≡ db_orphan blobs_storage ghost ∷ []
unfolding reconcile_orphans live_rows missing_bytes sort_rows insert_row is_excluded text_eq
littered-rows = refl

reconcile_orphans-IsReport_example :
    IsReconciled blobs_storage 100 50 10 true littered
      (report blobs_storage 100 (20 ∷ []) 50 10 true littered)
      (store_after blobs_storage 100 (20 ∷ []) 50 10 true littered)
reconcile_orphans-IsReport_example =
    reconcile_orphans-IsReport blobs_storage 100 (20 ∷ []) 50 10 true littered

reconcile_orphans-HasBytes_example :
    ((o : MediaObject)
      → In o littered.db.objects
      → holds littered.store o.storage_bucket o.object_key ≡ true
      → holds
          (store_after blobs_storage 100 (20 ∷ []) 50 10 true littered)
          o.storage_bucket
          o.object_key
        ≡ true)
    × ((bucket : ℕ) (key : Text)
        → IsOwned 100 littered.db bucket key
        → holds littered.store bucket key ≡ true
        → holds (store_after blobs_storage 100 (20 ∷ []) 50 10 true littered) bucket key ≡ true)
reconcile_orphans-HasBytes_example =
    reconcile_orphans-HasBytes blobs_storage 100 (20 ∷ []) 50 10 true littered holds
      blobs_storage-IsEraser

reconcile_orphans-removes_variant_example :
    In
      (storage_orphan 20 (codes "v7"))
      (report blobs_storage 100 (20 ∷ 10 ∷ []) 50 10 true littered).storage_orphans
    × (holds (store_after blobs_storage 100 (20 ∷ 10 ∷ []) 50 10 true littered) 20 (codes "v7")
        ≡ false)
unfolding is_excluded text_eq
reconcile_orphans-removes_variant_example =
    reconcile_orphans-removes_variant blobs_storage holds 100 (10 ∷ []) 50 10 littered thumbnail
      blobs_storage-IsEraser (inl refl) (inl refl) refl (omega arith) (λ s. refl)
