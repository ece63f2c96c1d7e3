-- ===== src/Maintenance/Reconcile/Sweeps.antt =====
-- The sweep of one bucket by `_find_storage_orphans` of media_service/controllers/maintenance.py.
use media_service_m.Prelude.{
  ℕ, ◌≤◌, ◌<◌, lt→ltb, some, Bool, true, false, ◌&&◌, ◌==◌, List, [], ◌∷◌, ◌++◌, length, leb, ◌≡◌,
  refl, ap, ◌∙◌, inl, inr, arith, Text, text_eq, text_eq_iff, All, Bool-cases, In, if◌then◌else◌,
  length-append, is_none, any, ==-refl, text_eq_refl,
}
use media_service_m.Model.Enums.{UploadSessionStatus, ExportJobStatus}
use media_service_m.Model.Rows.{MediaObject, UploadSession, ExportJob, Db}
use media_service_m.Model.Store.{ObjectStorage}
use media_service_m.Maintenance.Reconcile.{
  OrphanRecord, Sweep, is_excluded, storage_orphan, db_orphan, missing_bytes, is_at, is_pending_at,
  is_live_export_at, swept, sweep_keys, sweep_buckets,
}

-- `remove_object` touches nothing but the bytes that it is called for, and a call that returned has
-- removed them.
pub record IsEraser {S : Type 0} (storage : ObjectStorage S) (holds : S → ℕ → Text → Bool)
    : Type 0 where
  pub keeps :
      (b : ℕ) (k : Text) (s : S) (other : ℕ) (key : Text)
      → (b == other && text_eq k key) ≡ false
      → holds (storage.remove_object b k s).1 other key ≡ holds s other key
  pub removes :
      (b : ℕ) (k : Text) (s : S)
      → (storage.remove_object b k s).0 ≡ true
      → holds (storage.remove_object b k s).1 b k ≡ false
  pub adds_nothing :
      (b : ℕ) (k : Text) (s : S) (other : ℕ) (key : Text)
      → holds s other key ≡ false
      → holds (storage.remove_object b k s).1 other key ≡ false

-- The place of a key is taken by an object, by the bytes of an upload that is still open, or by the
-- archive of an export that is done and has not expired.
pub data IsOwned (now : ℕ) (d : Db) (bucket : ℕ) (key : Text) : Type 0 where
  by_object :
      (o : MediaObject)
      → In o d.objects
      → o.storage_bucket ≡ bucket
      → o.object_key ≡ key
      → IsOwned now d bucket key
  by_upload :
      (s : UploadSession)
      → In s d.uploads
      → s.status ≡ UploadSessionStatus.initiated
      → s.storage_bucket ≡ bucket
      → s.object_key ≡ key
      → IsOwned now d bucket key
  by_export :
      (job : ExportJob) (expires : ℕ)
      → In job d.export_jobs
      → job.status ≡ ExportJobStatus.completed
      → job.expires_at ≡ some expires
      → now < expires
      → job.storage_bucket ≡ some bucket
      → job.object_key ≡ some key
      → IsOwned now d bucket key

any-In : {A : Type 0} (p : A → Bool) (a : A) (xs : List A) → In a xs → p a ≡ true → any p xs ≡ true
any-In p a [] m h = absurd m
any-In p a (x ∷ xs) (inl here) h = rw (← here) (rw h refl)
any-In p a (x ∷ xs) (inr later) h = ground (arith, any-In p a xs later h)

-- The sweep passes over every place that is taken.
pub owned-is_excluded :
    (now : ℕ) (d : Db) (bucket : ℕ) (key : Text)
    → IsOwned now d bucket key
    → is_excluded now d bucket key ≡ true
unfolding is_excluded
owned-is_excluded now d bucket key (by_object o m same_bucket same_key) =
    let found : any (is_at bucket key) d.objects ≡ true =
      any-In (is_at bucket key) o d.objects m
        (rw (same_bucket, same_key, ==-refl bucket, text_eq_refl key) refl) in
    ground (arith, found)
owned-is_excluded now d bucket key (by_upload s m status same_bucket same_key) =
    let found : any (is_pending_at bucket key) d.uploads ≡ true =
      any-In (is_pending_at bucket key) s d.uploads m
        (rw (status, same_bucket, same_key, ==-refl bucket, text_eq_refl key) refl) in
    ground (arith, found)
owned-is_excluded now d bucket key
      (by_export job expires m status until later same_bucket same_key) =
    let found : any (is_live_export_at now bucket key) d.export_jobs ≡ true =
      any-In (is_live_export_at now bucket key) job d.export_jobs m (
        rw
          (
            status,
            until,
            same_bucket,
            same_key,
            lt→ltb now expires later,
            ==-refl bucket,
            text_eq_refl key,
          )
          refl) in
    ground (arith, found)

-- Nothing takes the place of the key that is reported.
abbrev pub IsUnowned : ℕ → Db → OrphanRecord → Type 0
IsUnowned now d r = ¬ IsOwned now d r.bucket r.object_key

orphan-IsUnowned :
    (now : ℕ) (d : Db) (bucket : ℕ) (key : Text)
    → is_excluded now d bucket key ≡ false
    → IsUnowned now d (storage_orphan bucket key)
orphan-IsUnowned now d bucket key orphan owned =
    cc (owned-is_excluded now d bucket key owned, orphan)

module _ {S : Type 0} (storage : ObjectStorage S) (now : ℕ) (d : Db) (limit : ℕ)
    (repair : Bool) where
  -- What holds of a sweep at each step.
  pub record IsSweep (first : S) (sweep : Sweep S) : Type 0 where
    pub bounded : length sweep.found ≤ limit
    pub unowned : All (IsUnowned now d) sweep.found
    pub counted : sweep.repaired ≡ (if repair then length sweep.found else 0)
    pub dry : repair ≡ false → sweep.store ≡ first

  All-snoc :
      (rs : List OrphanRecord) (r : OrphanRecord)
      → All (IsUnowned now d) rs
      → IsUnowned now d r
      → All (IsUnowned now d) (rs ++ r ∷ [])
  All-snoc [] r h k = (k, tt)
  All-snoc (x ∷ rs) r h k = (h.0, All-snoc rs r h.1 k)

  swept-IsSweep :
      (first : S) (bucket : ℕ) (key : Text) (sweep : Sweep S)
      → is_excluded now d bucket key ≡ false
      → leb limit (length sweep.found) ≡ false
      → IsSweep first sweep
      → IsSweep first (swept storage repair bucket key sweep)
  swept-IsSweep first bucket key sweep orphan room h =
      let longer = length-append sweep.found (storage_orphan bucket key ∷ []) in
      record {
        bounded = ground (arith, longer);
        unowned =
            All-snoc sweep.found (storage_orphan bucket key) h.unowned
              (orphan-IsUnowned now d bucket key orphan);
        counted = ground (arith, longer, h.counted);
        dry = λ e. rw e (h.dry e);
      }

  sweep_keys-IsSweep :
      (first : S) (bucket : ℕ) (keys : List Text) (sweep : Sweep S)
      → IsSweep first sweep
      → IsSweep first (sweep_keys storage now d limit repair bucket keys sweep)
  unfolding sweep_keys
  sweep_keys-IsSweep first bucket [] sweep h = h
  sweep_keys-IsSweep first bucket (key ∷ keys) sweep h =
      elim (Bool-cases (leb limit (length sweep.found))) [
        | inl full ↦ rw full h
        | inr room ↦ elim (Bool-cases (is_excluded now d bucket key)) [
          | inl owned ↦ rw (room, owned) (sweep_keys-IsSweep first bucket keys sweep h)
          | inr orphan ↦
              rw (room, orphan)
                (sweep_keys-IsSweep first bucket keys (swept storage repair bucket key sweep)
                  (swept-IsSweep first bucket key sweep orphan room h))
        ]
      ]

  pub sweep_buckets-IsSweep :
      (first : S) (buckets : List ℕ) (sweep : Sweep S)
      → IsSweep first sweep
      → IsSweep first (sweep_buckets storage now d limit repair buckets sweep)
  unfolding sweep_buckets
  sweep_buckets-IsSweep first [] sweep h = h
  sweep_buckets-IsSweep first (bucket ∷ buckets) sweep h =
      sweep_buckets-IsSweep first buckets
        (sweep_keys storage now d limit repair bucket (storage.list_object_keys sweep.store bucket)
          sweep)
        (sweep_keys-IsSweep first bucket (storage.list_object_keys sweep.store bucket) sweep h)

  module _ (holds : S → ℕ → Text → Bool) (laws : IsEraser storage holds) (b : ℕ) (k : Text)
      (owned : is_excluded now d b k ≡ true) where
    spared :
        (bucket : ℕ) (key : Text)
        → is_excluded now d bucket key ≡ false
        → (bucket == b && text_eq key k) ≡ false
    spared bucket key orphan = elim (Bool-cases (bucket == b && text_eq key k)) [
      | inr other ↦ other
      | inl same ↦
          let e : bucket ≡ b = ground arith in
          let f : key ≡ k = (text_eq_iff key k).0 (ground arith) in
          cc (ap (λ (c : ℕ). is_excluded now d c key) e, ap (is_excluded now d b) f, orphan, owned)
    ]

    sweep_keys-keeps :
        (bucket : ℕ) (keys : List Text) (sweep : Sweep S)
        → holds sweep.store b k ≡ true
        → holds (sweep_keys storage now d limit repair bucket keys sweep).store b k ≡ true
    unfolding sweep_keys
    sweep_keys-keeps bucket [] sweep h = h
    sweep_keys-keeps bucket (key ∷ keys) sweep h =
        elim (Bool-cases (leb limit (length sweep.found))) [
          | inl full ↦ rw full h
          | inr room ↦ elim (Bool-cases (is_excluded now d bucket key)) [
            | inl excluded ↦ rw (room, excluded) (sweep_keys-keeps bucket keys sweep h)
            | inr orphan ↦
                rw (room, orphan)
                  (sweep_keys-keeps bucket keys (swept storage repair bucket key sweep) (
                    kept (storage.remove_object bucket key sweep.store).1 repair
                      (laws.keeps bucket key sweep.store b k (spared bucket key orphan) ∙ h)))
          ]
        ]
      where
        kept :
            (after : S) (r : Bool)
            → holds after b k ≡ true
            → holds (if r then after else sweep.store) b k ≡ true
        kept after true g = g
        kept after false g = h

    pub sweep_buckets-keeps :
        (buckets : List ℕ) (sweep : Sweep S)
        → holds sweep.store b k ≡ true
        → holds (sweep_buckets storage now d limit repair buckets sweep).store b k ≡ true
    unfolding sweep_buckets
    sweep_buckets-keeps [] sweep h = h
    sweep_buckets-keeps (bucket ∷ buckets) sweep h =
        sweep_buckets-keeps buckets
          (sweep_keys storage now d limit repair bucket
            (storage.list_object_keys sweep.store bucket) sweep)
          (sweep_keys-keeps bucket (storage.list_object_keys sweep.store bucket) sweep h)

pub missing_bytes-In :
    {S : Type 0} (storage : ObjectStorage S) (store : S) (rows : List MediaObject)
    (r : OrphanRecord)
    → In r (missing_bytes storage store rows)
    → (o : MediaObject) × In o rows
      × (r ≡ db_orphan storage o)
      × (is_none (storage.stat_object store o.storage_bucket o.object_key) ≡ true)
unfolding missing_bytes
missing_bytes-In storage store [] r m = absurd m
missing_bytes-In storage store (o ∷ rows) r m =
    elim (Bool-cases (is_none (storage.stat_object store o.storage_bucket o.object_key))) [
      | inr there ↦
          let (x, y, e, g) = missing_bytes-In storage store rows r (rw there at m) in
          (x, inr y, e, g)
      | inl gone ↦ elim (rw gone at m) [
        | inl here ↦ (o, inl refl, here, gone)
        | inr later ↦
            let (x, y, e, g) = missing_bytes-In storage store rows r later in (x, inr y, e, g)
      ]
    ]

pub length-missing_bytes :
    {S : Type 0} (storage : ObjectStorage S) (store : S) (rows : List MediaObject)
    → length (missing_bytes storage store rows) ≤ length rows
unfolding missing_bytes
length-missing_bytes storage store [] = omega arith
length-missing_bytes storage store (o ∷ rows) =
    ground (arith, length-missing_bytes storage store rows)
