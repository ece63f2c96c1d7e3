-- ===== src/Maintenance/Reconcile/Orphans.antt =====
-- What a reconciliation of media_service/controllers/maintenance.py spares, reports and removes.
use media_service_m.Maintenance.Reconcile.Sweeps.{
  IsEraser, IsUnowned, length-missing_bytes, missing_bytes-In, owned-is_excluded, IsOwned,
  by_object, sweep_buckets-IsSweep, sweep_buckets-keeps,
}
use media_service_m.Prelude.{
  ℕ, ◌+◌, ◌-◌, ◌≤◌, ◌<◌, ltb→lt, Option, none, some, Bool, true, false, List, [], ◌≡◌, refl, arith,
  Text, All, In, if◌then◌else◌, filter, take, In-take, In-filter, is_none, length-take-le,
}
use media_service_m.Prelude.Sorting.{sort_rows, In-sort_rows}
use media_service_m.Model.Rows.{MediaObject}
use media_service_m.Model.Store.{ObjectStorage, World}
use media_service_m.Maintenance.Reconcile.{
  OrphanRecord, OrphanReport, Sweep, is_candidate, older, live_rows, db_orphan, reconcile_orphans,
}

none-eq : {A : Type 0} (o : Option A) → is_none o ≡ true → o ≡ none
none-eq none h = refl
none-eq (some a) h = cc

-- What a report and the storage after it say of the world that was reconciled.
pub record IsReconciled {S : Type 0} (storage : ObjectStorage S) (now grace limit : ℕ)
    (repair : Bool) (w : World S) (report : OrphanReport) (after : S) : Type 0 where
  -- each row is live, was created before the grace period began, and has no bytes
  pub rows :
      (r : OrphanRecord)
      → In r report.db_orphans
      → (o : MediaObject) × In o w.db.objects
        × (r ≡ db_orphan storage o)
        × (o.deleted_at ≡ none)
        × (o.created_at + grace < now)
        × (storage.stat_object w.store o.storage_bucket o.object_key ≡ none)
  -- each key belongs to no object, no open upload and no export that may still be fetched
  pub places : All (IsUnowned now w.db) report.storage_orphans
  pub row_count : report.db_orphan_count ≤ limit
  pub key_count : report.storage_orphan_count ≤ limit
  pub repairs : report.repaired ≡ (if repair then report.storage_orphan_count else 0)
  pub dry : repair ≡ false → after ≡ w.store

-- A candidate, in the words of the report.
candidate-live :
    (now grace : ℕ) (o : MediaObject)
    → is_candidate (now - grace) o ≡ true
    → (o.deleted_at ≡ none) × (o.created_at + grace < now)
candidate-live now grace o h = (
  none-eq o.deleted_at (ground arith),
  omega (arith, ltb→lt o.created_at (now - grace) (ground arith)),
)

module _ {S : Type 0} (storage : ObjectStorage S) (now : ℕ) (buckets : List ℕ) (grace limit : ℕ)
    (repair : Bool) (w : World S) where
  abbrev pub report : OrphanReport
  report = (reconcile_orphans storage now buckets grace limit repair w).0

  abbrev pub store_after : S
  store_after = (reconcile_orphans storage now buckets grace limit repair w).1

  -- Each row that is reported is live, older than the grace period and has no bytes; each key that is
  -- reported belongs to no object, no upload that is still open and no export that may still be
  -- fetched; neither list is longer than the limit. Without repair the storage is as it was.
  pub reconcile_orphans-IsReport : IsReconciled storage now grace limit repair w report store_after
  unfolding reconcile_orphans live_rows
  reconcile_orphans-IsReport =
      let start : Sweep S = record { found = []; repaired = 0; store = w.store } in
      let sweep =
        sweep_buckets-IsSweep storage now w.db limit repair w.store buckets start (record {
          bounded = omega arith;
          unowned = tt;
          counted = nothing repair;
          dry = λ e. refl;
        }) in
      let candidates = filter (is_candidate (now - grace)) w.db.objects in
      let oldest = take limit (sort_rows older candidates) in
      record {
        rows = λ r m.
            let (o, there, e, gone) = missing_bytes-In storage w.store oldest r m in
            let picked = In-filter (is_candidate (now - grace)) o w.db.objects (
              In-sort_rows older o candidates
                (In-take limit o (sort_rows older candidates) there)) in
            let (live, old) = candidate-live now grace o picked.1 in
            (
              o,
              picked.0,
              e,
              live,
              old,
              none-eq (storage.stat_object w.store o.storage_bucket o.object_key) gone,
            );
        places = sweep.unowned;
        row_count = omega (
          arith,
          length-missing_bytes storage w.store oldest,
          length-take-le limit (sort_rows older candidates),
        );
        key_count = sweep.bounded;
        repairs = sweep.counted;
        dry = sweep.dry;
      }
    where
      nothing : (r : Bool) → ◌≡◌ {A = ℕ} 0 (if r then 0 else 0)
      nothing true = refl
      nothing false = refl

  -- Whatever is repaired, the bytes of every object, of every upload that is still open and of every
  -- export that may still be fetched stay in the storage.
  pub reconcile_orphans-HasBytes :
      (holds : S → ℕ → Text → Bool)
      → IsEraser storage holds
      → ((o : MediaObject)
          → In o w.db.objects
          → holds w.store o.storage_bucket o.object_key ≡ true
          → holds store_after o.storage_bucket o.object_key ≡ true)
        × ((bucket : ℕ) (key : Text)
            → IsOwned now w.db bucket key
            → holds w.store bucket key ≡ true
            → holds store_after bucket key ≡ true)
  unfolding reconcile_orphans
  reconcile_orphans-HasBytes holds laws =
      let start : Sweep S = record { found = []; repaired = 0; store = w.store } in
      (
        λ o m h.
            sweep_buckets-keeps storage now w.db limit repair holds laws o.storage_bucket
              o.object_key
              (owned-is_excluded now w.db o.storage_bucket o.object_key (by_object o m refl refl))
              buckets start h,
        λ bucket key owned h.
            sweep_buckets-keeps storage now w.db limit repair holds laws bucket key
              (owned-is_excluded now w.db bucket key owned) buckets start h,
      )
