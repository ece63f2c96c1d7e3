-- ===== src/Tests/MaintenanceTests.antt =====
-- The purge on a database with one object whose grace period is over and one whose is not.
use media_service_m.Prelude.{
  ℕ, ◌-◌, ◌≤◌, In, Option, none, ◌≡◌, refl, some, [], ◌∷◌, inl, inr, arith, codes,
}
use media_service_m.Model.Enums.{MediaObjectStatus}
use media_service_m.Model.Rows.{MediaObject, MediaVariant, Db}
use media_service_m.Model.Store.{World}
use media_service_m.Access.{find_object}
use media_service_m.Maintenance.{hard_purge_expired, purge_candidates}
use media_service_m.Quota.{bytes_of, count_of}
use media_service_m.Maintenance.Purge.{hard_purge_expired-spares, hard_purge_expired-purges}
use media_service_m.Maintenance.Integrity.{IsReferential, hard_purge_expired-IsReferential}
use media_service_m.Tests.Data.{rows, photo}
use media_service_m.Tests.Storage.{Blobs, blobs_storage, world}

abbrev old_photo : MediaObject
old_photo = record photo {
  id = 21;
  status = MediaObjectStatus.deleted;
  storage_bucket = 50;
  deleted_at = some 10;
}

abbrev new_photo : MediaObject
new_photo = record photo {
  id = 22;
  status = MediaObjectStatus.deleted;
  storage_bucket = 50;
  deleted_at = some 90;
}

abbrev thumbnail : MediaVariant
thumbnail = record {
  id = 1;
  media_object_id = 21;
  variant_name = codes "thumb";
  storage_bucket = 50;
  object_key = codes "v21";
  width = some 1;
  height = some 1;
  size_bytes = 1;
  format = codes "webp";
}

abbrev full_rows : Db
full_rows = record rows { objects = photo ∷ old_photo ∷ new_photo ∷ []; variants = thumbnail ∷ [] }

abbrev full_world : World Blobs
full_world = record world { db = full_rows }

hard_purge_expired-spares_example :
    find_object 22 (hard_purge_expired blobs_storage 100 50 10 full_world).1.db
    ≡ find_object 22 full_rows
hard_purge_expired-spares_example =
    hard_purge_expired-spares blobs_storage 100 50 10 full_world new_photo
      (λ a b ha hb h. ground arith) (inr (inr (inl refl))) refl

full_rows-IsReferential : IsReferential full_rows
full_rows-IsReferential = record {
  variants = λ v m. ground arith;
  variant_jobs = λ j m. absurd m;
  links = λ l m. absurd m;
  shares = λ s m. ground arith;
}

hard_purge_expired-IsReferential_example :
    IsReferential (hard_purge_expired blobs_storage 100 50 10 full_world).1.db
hard_purge_expired-IsReferential_example =
    hard_purge_expired-IsReferential blobs_storage 100 50 10 full_world full_rows-IsReferential

hard_purge_expired-purges_example :
    ((o : MediaObject)
      → In o (purge_candidates (100 - 50) 10 full_rows.objects)
      → find_object o.id (hard_purge_expired blobs_storage 100 50 10 full_world).1.db ≡ none)
    × ((owner : ℕ) (tenant : Option ℕ)
        → (bytes_of owner tenant (hard_purge_expired blobs_storage 100 50 10 full_world).1.db
            ≡ bytes_of owner tenant full_rows)
          × (count_of owner tenant (hard_purge_expired blobs_storage 100 50 10 full_world).1.db
              ≡ count_of owner tenant full_rows))
    × ((hard_purge_expired blobs_storage 100 50 10 full_world).0 ≤ 10)
hard_purge_expired-purges_example = hard_purge_expired-purges blobs_storage 100 50 10 full_world
