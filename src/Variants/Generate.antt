-- ===== src/Variants/Generate.antt =====
-- `generate` of media_service/controllers/variants.py: when a job is queued, and what for.
use media_service_m.Prelude.{
  ℕ, ◌≤◌, true, false, List, [], ◌∷◌, ◌++◌, length, ◌≡◌, refl, inl, inr, arith, Text, All, sum_by,
  Bool-cases,
}
use media_service_m.Effect.{Result, ok, err, Result-cases}
use media_service_m.Model.Enums.{MediaObjectStatus, ScanStatus, VariantJobStatus}
use media_service_m.Model.Rows.{MediaObject, VariantJob, Db, UserModel}
use media_service_m.Model.Store.{Externals}
use media_service_m.Access.{load_object}
use media_service_m.Presets.{max_outputs_per_job, max_job_pixel_area}
use media_service_m.Presets.Expand.{VariantSpec, resolve_presets}
use media_service_m.Presets.Bounds.{cost_of, IsOutputOf, resolve_presets-IsBounded}
use media_service_m.Variants.{
  VariantJobPayload, generate, is_ready, is_processable_image, dedupe_presets, payload_of,
}

-- A job that was queued, and the object that it is for.
pub record IsQueued (u : UserModel) (k job_id : ℕ) (d : Db) (job : VariantJob)
    (payload : VariantJobPayload) (after : Db) : Type 0 where
  pub object : MediaObject
  pub loaded : load_object u k false d ≡ ok object
  pub status : object.status ≡ MediaObjectStatus.ready
  pub scanned : object.scan_status ≡ ScanStatus.clean
  pub image : is_processable_image object.mime_type ≡ true
  pub source : payload ≡ payload_of object payload.specs job_id
  pub expected : job.variants_expected ≡ length payload.specs
  pub queued : job.status ≡ VariantJobStatus.queued
  pub owner : job.owner_user_id ≡ object.owner_user_id
  pub outputs : length payload.specs ≤ max_outputs_per_job
  pub area : sum_by cost_of payload.specs ≤ max_job_pixel_area
  pub targets : All (IsOutputOf object) payload.specs
  pub written : after ≡ record d { variant_jobs = d.variant_jobs ++ job ∷ [] }

abbrev pub IsGenerated :
    UserModel → ℕ → ℕ → Db → Result (VariantJob × VariantJobPayload) × Db → Type 0
IsGenerated u k job_id d (err e, after) = after ≡ d
IsGenerated u k job_id d (ok (job, payload), after) = IsQueued u k job_id d job payload after

module _ (ext : Externals) (u : UserModel) (k : ℕ) (requested : List Text) (job_id now : ℕ)
    (d : Db) where
  module _ (o : MediaObject) (loaded : load_object u k false d ≡ ok o) (ready : is_ready o ≡ true)
      (image : is_processable_image o.mime_type ≡ true) where
    generate-queued :
        (specs : List VariantSpec)
        → resolve_presets ext u (dedupe_presets [] requested) o d ≡ ok specs
        → IsGenerated u k job_id d (generate ext u k requested job_id now d)
    unfolding generate
    generate-queued specs r =
        let bounds = resolve_presets-IsBounded ext o u (dedupe_presets [] requested) d specs r in
        rw (loaded, ready, image, r)
          (record {
            object = o;
            loaded = loaded;
            status = ground arith;
            scanned = ground arith;
            image = image;
            source = refl;
            expected = refl;
            queued = refl;
            owner = refl;
            outputs = bounds.0;
            area = bounds.1;
            targets = bounds.2;
            written = refl;
          })

  -- A job is queued only for a live object of the caller's (or of anyone, for a superuser) that is
  -- ready, scanned and a raster image; it expects as many variants as its payload asks for, within the
  -- bounds on outputs and area, all of them in the object's own bucket; the job's row is all that is
  -- written. A request that is refused, for whatever reason, writes nothing.
  pub generate-IsGenerated : IsGenerated u k job_id d (generate ext u k requested job_id now d)
  unfolding generate
  generate-IsGenerated = elim (Result-cases (load_object u k false d)) [
    | inr (e, refused) ↦ rw refused refl
    | inl (o, loaded) ↦ elim (Bool-cases (is_ready o)) [
      | inr early ↦ rw (loaded, early) refl
      | inl ready ↦ elim (Bool-cases (is_processable_image o.mime_type)) [
        | inr other ↦ rw (loaded, ready, other) refl
        | inl image ↦
            elim (Result-cases (resolve_presets ext u (dedupe_presets [] requested) o d)) [
              | inr (e, unresolved) ↦ rw (loaded, ready, image, unresolved) refl
              | inl (specs, r) ↦ generate-queued o loaded ready image specs r
            ]
      ]
    ]
  ]
