-- ===== src/Maintenance/Reconcile/Variants.antt =====
-- The bytes of the image variants under `reconcile_orphans` of
-- media_service/controllers/maintenance.py, which reads no row of theirs.
use media_service_m.Prelude.{
  ℕ, ◌+◌, ◌≤◌, Bool, true, false, List, [], ◌∷◌, ◌++◌, length, leb, ◌≡◌, refl, inl, inr, arith,
  Text, Bool-cases, In, length-append,
}
use media_service_m.Model.Rows.{MediaVariant, Db}
use media_service_m.Model.Store.{ObjectStorage, World}
use media_service_m.Maintenance.Reconcile.{
  OrphanRecord, Sweep, is_excluded, storage_orphan, swept, sweep_keys, sweep_buckets,
  reconcile_orphans,
}
use media_service_m.Maintenance.Reconcile.Orphans.{report, store_after}
use media_service_m.Maintenance.Reconcile.Sweeps.{IsEraser}

In-append_left : (r : OrphanRecord) (xs ys : List OrphanRecord) → In r xs → In r (xs ++ ys)
In-append_left r [] ys m = absurd m
In-append_left r (x ∷ xs) ys (inl here) = inl here
In-append_left r (x ∷ xs) ys (inr later) = inr (In-append_left r xs ys later)

In-append_last : (r : OrphanRecord) (xs : List OrphanRecord) → In r (xs ++ r ∷ [])
In-append_last r [] = inl refl
In-append_last r (x ∷ xs) = inr (In-append_last r xs)

module _ {S : Type 0} (storage : ObjectStorage S) (now : ℕ) (d : Db) (limit : ℕ)
    (repair : Bool) where
  -- What a sweep has found it keeps.
  sweep_keys-keeps_found :
      (r : OrphanRecord) (bucket : ℕ) (keys : List Text) (sweep : Sweep S)
      → In r sweep.found
      → In r (sweep_keys storage now d limit repair bucket keys sweep).found
  unfolding sweep_keys
  sweep_keys-keeps_found r bucket [] sweep m = m
  sweep_keys-keeps_found r bucket (key ∷ keys) sweep m =
      elim (Bool-cases (leb limit (length sweep.found))) [
        | inl full ↦ rw full m
        | inr room ↦ elim (Bool-cases (is_excluded now d bucket key)) [
          | inl owned ↦ rw (room, owned) (sweep_keys-keeps_found r bucket keys sweep m)
          | inr orphan ↦
              rw (room, orphan)
                (sweep_keys-keeps_found r bucket keys (swept storage repair bucket key sweep)
                  (In-append_left r sweep.found (storage_orphan bucket key ∷ []) m))
        ]
      ]

  sweep_buckets-keeps_found :
      (r : OrphanRecord) (buckets : List ℕ) (sweep : Sweep S)
      → In r sweep.found
      → In r (sweep_buckets storage now d limit repair buckets sweep).found
  unfolding sweep_buckets
  sweep_buckets-keeps_found r [] sweep m = m
  sweep_buckets-keeps_found r (bucket ∷ buckets) sweep m =
      sweep_buckets-keeps_found r buckets
        (sweep_keys storage now d limit repair bucket (storage.list_object_keys sweep.store bucket)
          sweep)
        (sweep_keys-keeps_found r bucket (storage.list_object_keys sweep.store bucket) sweep m)

  -- Below the limit no listed key without an owner is missed.
  sweep_keys-finds :
      (bucket : ℕ) (key : Text) (keys : List Text) (sweep : Sweep S)
      → In key keys
      → is_excluded now d bucket key ≡ false
      → length sweep.found + length keys ≤ limit
      → In
          (storage_orphan bucket key)
          (sweep_keys storage now d limit repair bucket keys sweep).found
  unfolding sweep_keys
  sweep_keys-finds bucket key [] sweep m orphan h = absurd m
  sweep_keys-finds bucket key (x ∷ keys) sweep (inl here) orphan h =
      let room : leb limit (length sweep.found) ≡ false = ground arith in
      rw (← here) (
        rw (room, orphan)
          (sweep_keys-keeps_found (storage_orphan bucket key) bucket keys
            (swept storage repair bucket key sweep)
            (In-append_last (storage_orphan bucket key) sweep.found)))
  sweep_keys-finds bucket key (x ∷ keys) sweep (inr later) orphan h =
      let room : leb limit (length sweep.found) ≡ false = ground arith in
      elim (Bool-cases (is_excluded now d bucket x)) [
        | inl owned ↦
            rw (room, owned) (sweep_keys-finds bucket key keys sweep later orphan (omega arith))
        | inr other ↦
            rw (room, other)
              (sweep_keys-finds bucket key keys (swept storage repair bucket x sweep) later orphan
                (omega (arith, h, length-append sweep.found (storage_orphan bucket x ∷ []))))
      ]

module _ {S : Type 0} (storage : ObjectStorage S) (holds : S → ℕ → Text → Bool)
    (laws : IsEraser storage holds) (now : ℕ) (d : Db) (limit : ℕ) where
  sweep_keys-stays_gone :
      (b : ℕ) (k : Text) (bucket : ℕ) (keys : List Text) (sweep : Sweep S)
      → holds sweep.store b k ≡ false
      → holds (sweep_keys storage now d limit true bucket keys sweep).store b k ≡ false
  unfolding sweep_keys
  sweep_keys-stays_gone b k bucket [] sweep h = h
  sweep_keys-stays_gone b k bucket (key ∷ keys) sweep h =
      elim (Bool-cases (leb limit (length sweep.found))) [
        | inl full ↦ rw full h
        | inr room ↦ elim (Bool-cases (is_excluded now d bucket key)) [
          | inl owned ↦ rw (room, owned) (sweep_keys-stays_gone b k bucket keys sweep h)
          | inr orphan ↦
              rw (room, orphan)
                (sweep_keys-stays_gone b k bucket keys (swept storage true bucket key sweep)
                  (laws.adds_nothing bucket key sweep.store b k h))
        ]
      ]

  sweep_buckets-stays_gone :
      (b : ℕ) (k : Text) (buckets : List ℕ) (sweep : Sweep S)
      → holds sweep.store b k ≡ false
      → holds (sweep_buckets storage now d limit true buckets sweep).store b k ≡ false
  unfolding sweep_buckets
  sweep_buckets-stays_gone b k [] sweep h = h
  sweep_buckets-stays_gone b k (bucket ∷ buckets) sweep h =
      sweep_buckets-stays_gone b k buckets
        (sweep_keys storage now d limit true bucket (storage.list_object_keys sweep.store bucket)
          sweep)
        (sweep_keys-stays_gone b k bucket (storage.list_object_keys sweep.store bucket) sweep h)

  sweep_keys-removes :
      (bucket : ℕ) (key : Text) (keys : List Text) (sweep : Sweep S)
      → ((s : S) → (storage.remove_object bucket key s).0 ≡ true)
      → In key keys
      → is_excluded now d bucket key ≡ false
      → length sweep.found + length keys ≤ limit
      → holds (sweep_keys storage now d limit true bucket keys sweep).store bucket key ≡ false
  unfolding sweep_keys
  sweep_keys-removes bucket key [] sweep returns m orphan h = absurd m
  sweep_keys-removes bucket key (x ∷ keys) sweep returns (inl here) orphan h =
      let room : leb limit (length sweep.found) ≡ false = ground arith in
      rw (← here) (
        rw (room, orphan)
          (sweep_keys-stays_gone bucket key bucket keys (swept storage true bucket key sweep)
            (laws.removes bucket key sweep.store (returns sweep.store))))
  sweep_keys-removes bucket key (x ∷ keys) sweep returns (inr later) orphan h =
      let room : leb limit (length sweep.found) ≡ false = ground arith in
      elim (Bool-cases (is_excluded now d bucket x)) [
        | inl owned ↦
            rw (room, owned)
              (sweep_keys-removes bucket key keys sweep returns later orphan (omega arith))
        | inr other ↦
            rw (room, other)
              (sweep_keys-removes bucket key keys (swept storage true bucket x sweep) returns later
                orphan (omega (arith, h, length-append sweep.found (storage_orphan bucket x ∷ []))))
      ]

-- A variant that the worker registered is no object: unless an object, an open upload or an export
-- happens to have its key, it is reported as a storage orphan, and a repair deletes its bytes while
-- its row stays. So it is where its bucket is the first of the sweep and holds no more keys than
-- the limit, and its removal does not fail.
pub reconcile_orphans-removes_variant :
    {S : Type 0} (storage : ObjectStorage S) (holds : S → ℕ → Text → Bool) (now : ℕ)
    (buckets : List ℕ) (grace limit : ℕ) (w : World S) (v : MediaVariant)
    → IsEraser storage holds
    → In v w.db.variants
    → In v.object_key (storage.list_object_keys w.store v.storage_bucket)
    → is_excluded now w.db v.storage_bucket v.object_key ≡ false
    → length (storage.list_object_keys w.store v.storage_bucket) ≤ limit
    → ((s : S) → (storage.remove_object v.storage_bucket v.object_key s).0 ≡ true)
    → In
        (storage_orphan v.storage_bucket v.object_key)
        (report storage now (v.storage_bucket ∷ buckets) grace limit true w).storage_orphans
      × (holds
            (store_after storage now (v.storage_bucket ∷ buckets) grace limit true w)
            v.storage_bucket
            v.object_key
          ≡ false)
unfolding reconcile_orphans sweep_buckets
reconcile_orphans-removes_variant storage holds now buckets grace limit w v laws there listed orphan
      room returns =
    let d = w.db in
    let start : Sweep _ = record { found = []; repaired = 0; store = w.store } in
    let bucket = v.storage_bucket in
    let key = v.object_key in
    let keys = storage.list_object_keys w.store bucket in
    let first = sweep_keys storage now d limit true bucket keys start in
    let fits : length start.found + length keys ≤ limit = omega arith in
    (
      sweep_buckets-keeps_found storage now d limit true (storage_orphan bucket key) buckets first
          (sweep_keys-finds storage now d limit true bucket key keys start listed orphan fits),
      sweep_buckets-stays_gone storage holds laws now d limit bucket key buckets first (
          sweep_keys-removes storage holds laws now d limit bucket key keys start returns listed
            orphan fits),
    )
