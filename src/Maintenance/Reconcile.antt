-- ===== src/Maintenance/Reconcile.antt =====
-- `reconcile_orphans` of media_service/controllers/maintenance.py, in both directions.
pub mod Orphans
pub mod Sweeps
pub mod Variants
use media_service_m.Prelude.{
  ℕ, suc, ◌+◌, ◌-◌, Bool, true, false, not, ◌&&◌, ◌||◌, Option, none, some, List, [], ◌∷◌, ◌++◌,
  take, filter, length, ◌==◌, ltb, leb, is_none, any, if◌then◌else◌, Text, text_eq,
}
use media_service_m.Prelude.Sorting.{sort_rows}
use media_service_m.Model.Enums.{
  UploadSessionStatus, ExportJobStatus, session_status_eq, export_status_eq,
}
use media_service_m.Model.Rows.{MediaObject, UploadSession, ExportJob, Db}
use media_service_m.Model.Store.{ObjectStorage, World}

pub record OrphanRecord : Type 0 where
  pub bucket : ℕ
  pub object_key : Text
  pub object_id : Option ℕ
  pub owner_user_id : Option ℕ

abbrev pub is_candidate : ℕ → MediaObject → Bool
is_candidate cutoff o = is_none o.deleted_at && ltb o.created_at cutoff

abbrev pub older : MediaObject → MediaObject → Bool
older a b = leb a.created_at b.created_at

-- The query of `_find_db_orphans`, oldest rows first.
unfoldable pub live_rows : ℕ → ℕ → List MediaObject → List MediaObject
live_rows cutoff limit rows = take limit (sort_rows older (filter (is_candidate cutoff) rows))

-- A row's key at its place in the storage.
abbrev pub is_at : ℕ → Text → MediaObject → Bool
is_at bucket key o = o.storage_bucket == bucket && text_eq o.object_key key

-- `pending_keys`, of the sessions that are still initiated.
abbrev pub is_pending_at : ℕ → Text → UploadSession → Bool
is_pending_at bucket key s =
    session_status_eq s.status UploadSessionStatus.initiated
    && (s.storage_bucket == bucket && text_eq s.object_key key)

abbrev expires_after : ℕ → Option ℕ → Bool
expires_after now none = false
expires_after now (some t) = ltb now t

abbrev is_place : ℕ → Text → Option ℕ → Option Text → Bool
is_place bucket key (some b) (some k) = b == bucket && text_eq k key
is_place bucket key (some b) none = false
is_place bucket key none k = false

-- `_live_export_keys`.
abbrev pub is_live_export_at : ℕ → ℕ → Text → ExportJob → Bool
is_live_export_at now bucket key job =
    export_status_eq job.status ExportJobStatus.completed
    && (expires_after now job.expires_at && is_place bucket key job.storage_bucket job.object_key)

-- The keys that the storage direction passes over: on their way in, on their way out, or with a row.
unfoldable pub is_excluded : ℕ → Db → ℕ → Text → Bool
is_excluded now d bucket key =
    any (is_pending_at bucket key) d.uploads
    || (any (is_live_export_at now bucket key) d.export_jobs || any (is_at bucket key) d.objects)

pub record Sweep (S : Type 0) : Type 0 where
  pub found : List OrphanRecord
  pub repaired : ℕ
  pub store : S

abbrev pub storage_orphan : ℕ → Text → OrphanRecord
storage_orphan bucket key = record {
  bucket = bucket;
  object_key = key;
  object_id = none;
  owner_user_id = none;
}

pub record OrphanReport : Type 0 where
  pub db_orphans : List OrphanRecord
  pub storage_orphans : List OrphanRecord
  pub db_orphan_count : ℕ
  pub storage_orphan_count : ℕ
  pub repaired : ℕ

module _ {S : Type 0} (storage : ObjectStorage S) where
  abbrev has_no_bytes : S → MediaObject → Bool
  has_no_bytes store o = is_none (storage.stat_object store o.storage_bucket o.object_key)

  abbrev pub db_orphan : MediaObject → OrphanRecord
  db_orphan o = record {
    bucket = o.storage_bucket;
    object_key = o.object_key;
    object_id = some o.id;
    owner_user_id = some o.owner_user_id;
  }

  -- The loop of `_find_db_orphans`.
  unfoldable pub missing_bytes : S → List MediaObject → List OrphanRecord
  missing_bytes store [] = []
  missing_bytes store (o ∷ rows) =
      let rest = missing_bytes store rows in
      if has_no_bytes store o then db_orphan o ∷ rest else rest

  -- An orphan is recorded and, under `repair`, its bytes are removed as well as can be.
  abbrev pub swept : Bool → ℕ → Text → Sweep S → Sweep S
  swept repair bucket key sweep = record {
    found = sweep.found ++ storage_orphan bucket key ∷ [];
    repaired = if repair then suc sweep.repaired else sweep.repaired;
    store = if repair then (storage.remove_object bucket key sweep.store).1 else sweep.store;
  }

  -- The keys of one bucket; the bucket is left when the limit is reached.
  unfoldable pub sweep_keys : ℕ → Db → ℕ → Bool → ℕ → List Text → Sweep S → Sweep S
  sweep_keys now d limit repair bucket [] sweep = sweep
  sweep_keys now d limit repair bucket (key ∷ keys) sweep =
      let next = if is_excluded now d bucket key then sweep else swept repair bucket key sweep in
      let rest = sweep_keys now d limit repair bucket keys next in
      if leb limit (length sweep.found) then sweep else rest

  -- The loop of `_find_storage_orphans` over the buckets, each listed as the sweep reaches it.
  unfoldable pub sweep_buckets : ℕ → Db → ℕ → Bool → List ℕ → Sweep S → Sweep S
  unfolding sweep_keys
  sweep_buckets now d limit repair [] sweep = sweep
  sweep_buckets now d limit repair (bucket ∷ buckets) sweep =
      sweep_buckets now d limit repair buckets
        (sweep_keys now d limit repair bucket (storage.list_object_keys sweep.store bucket) sweep)

  -- `reconcile_orphans`: the rows are only read.
  unfoldable pub reconcile_orphans : ℕ → List ℕ → ℕ → ℕ → Bool → World S → OrphanReport × S
  unfolding live_rows missing_bytes sweep_buckets
  reconcile_orphans now buckets grace limit repair w =
      let db_orphans = missing_bytes w.store (live_rows (now - grace) limit w.db.objects) in
      let sweep =
        sweep_buckets now w.db limit repair buckets
          (record { found = []; repaired = 0; store = w.store }) in
      (
        record {
          db_orphans = db_orphans;
          storage_orphans = sweep.found;
          db_orphan_count = length db_orphans;
          storage_orphan_count = length sweep.found;
          repaired = sweep.repaired;
        },
        sweep.store,
      )
