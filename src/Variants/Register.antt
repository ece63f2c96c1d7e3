-- ===== src/Variants/Register.antt =====
-- `register_variant` of media_service/controllers/variants.py, the worker's upsert.
use media_service_m.Prelude.{
  ℕ, Bool, true, false, ◌&&◌, ◌==◌, ==-refl, some, List, [], ◌∷◌, ◌≡◌, refl, sym, ap, ◌∙◌, inl, inr,
  arith, Text, text_eq, text_eq_refl, text_eq_iff, any, Bool-cases, codes, length,
}
use media_service_m.Effect.{ok, err, http, integrity_error, Result-cases, Error}
use media_service_m.Model.Rows.{MediaObject, MediaVariant, FormatSpec, PresetSpec, Db}
use media_service_m.Model.Store.{Externals}
use media_service_m.Model.Table.{
  find_row, save_row, find_row-save_row_self, find_row-save_row_other,
}
use media_service_m.Access.{fetch_object}
use media_service_m.Outbox.{record_event}
use media_service_m.Keys.{
  build_variant_key, safe_category, key_segment, safe_filename, strip, lstrip,
}
use media_service_m.Presets.Expand.{VariantSpec, variant_name_of, expand_format}
use media_service_m.Variants.{
  VariantRegisterRequest, named, row_id, registered, has_key_of, ready_payload, register_variant,
}

-- A row saved again in its own place changes nothing.
save_row-again :
    (p : MediaVariant → Bool) (v : MediaVariant) (rows : List MediaVariant)
    → p v ≡ true
    → save_row p v (save_row p v rows) ≡ save_row p v rows
save_row-again p v [] h = rw h refl
save_row-again p v (x ∷ rows) h = elim (Bool-cases (p x)) [
  | inl here ↦ rw (here, h) refl
  | inr other ↦ rw (other, other) (ap (◌∷◌ x) (save_row-again p v rows h))
]

any-save_row :
    (p q : MediaVariant → Bool) (v : MediaVariant) (rows : List MediaVariant)
    → q v ≡ false
    → any q rows ≡ false
    → any q (save_row p v rows) ≡ false
any-save_row p q v [] h k = rw h refl
any-save_row p q v (x ∷ rows) h k = ground (arith, any-save_row p q v rows)

module _ (object_id : ℕ) (req : VariantRegisterRequest) where
  abbrev slot : MediaVariant → Bool
  slot = named object_id req.variant_name

  slot-registered : (k : ℕ) → slot (registered object_id req k) ≡ true
  slot-registered k = rw (==-refl object_id, text_eq_refl req.variant_name) refl

  abbrev written : ℕ → ℕ → ℕ → Db → Db
  written new_id event_id now d =
      record_event (codes "variant.ready") object_id (ready_payload req) event_id now (record d {
        variants =
            save_row slot (registered object_id req (row_id (find_row slot d.variants) new_id))
              d.variants;
      })

  register_variant-free :
      (new_id event_id now : ℕ) (d : Db) (o : MediaObject)
      → fetch_object object_id true d ≡ ok o
      → any (has_key_of object_id req) d.variants ≡ false
      → register_variant object_id req new_id event_id now d ≡ (
        ok (registered object_id req (row_id (find_row slot d.variants) new_id)),
        written new_id event_id now d,
      )
  unfolding register_variant
  register_variant-free new_id event_id now d o found free = ground arith

  register_variant-taken :
      (new_id event_id now : ℕ) (d : Db) (o : MediaObject)
      → fetch_object object_id true d ≡ ok o
      → any (has_key_of object_id req) d.variants ≡ true
      → register_variant object_id req new_id event_id now d ≡ (err (http 500 integrity_error), d)
  unfolding register_variant
  register_variant-taken new_id event_id now d o found taken = ground arith

  register_variant-missing :
      (new_id event_id now : ℕ) (d : Db) {e : Error}
      → fetch_object object_id true d ≡ err e
      → register_variant object_id req new_id event_id now d ≡ (err e, d)
  unfolding register_variant
  register_variant-missing new_id event_id now d missing = rw missing refl

  -- A registration that returned found the object and no other row with its key.
  register_variant-ran :
      (new_id event_id now : ℕ) (d after : Db) (v : MediaVariant)
      → register_variant object_id req new_id event_id now d ≡ (ok v, after)
      → (o : MediaObject) × (fetch_object object_id true d ≡ ok o)
        × (any (has_key_of object_id req) d.variants ≡ false)
        × (v ≡ registered object_id req (row_id (find_row slot d.variants) new_id))
        × (after ≡ written new_id event_id now d)
  register_variant-ran new_id event_id now d after v h =
      elim (Result-cases (fetch_object object_id true d)) [
        | inr (e, missing) ↦
            absurd (cc (sym (register_variant-missing new_id event_id now d missing) ∙ h))
        | inl (o, found) ↦ elim (Bool-cases (any (has_key_of object_id req) d.variants)) [
          | inl taken ↦
              absurd (cc (sym (register_variant-taken new_id event_id now d o found taken) ∙ h))
          | inr free ↦
              let ran = sym (register_variant-free new_id event_id now d o found free) ∙ h in
              (o, found, free, cc ran, cc ran)
        ]
      ]

  fetch_object-objects :
      (d e : Db)
      → d.objects ≡ e.objects
      → fetch_object object_id true d ≡ fetch_object object_id true e
  unfolding fetch_object
  fetch_object-objects d e same = rw same refl

  slot-apart : (v : MediaVariant) → slot v ≡ true → has_key_of object_id req v ≡ false
  slot-apart v h = rw h refl

  slot-other :
      (k : ℕ) (name : Text) (v : MediaVariant)
      → (k == object_id && text_eq req.variant_name name) ≡ false
      → slot v ≡ true
      → named k name v ≡ false
  slot-other k name v other h =
      let e : v.variant_name ≡ req.variant_name =
        (text_eq_iff v.variant_name req.variant_name).0 (ground arith) in
      rw e (ground arith)

  -- A registration that returned is stored under the object and the variant's name as the worker sent
  -- it, and other variants stay as they were. Registering it again, whatever ids and time the second
  -- call has, returns the same row and changes no variant.
  pub register_variant-again :
      (new_id event_id now new_id' event_id' now' : ℕ) (d after : Db) (v : MediaVariant)
      → register_variant object_id req new_id event_id now d ≡ (ok v, after)
      → (find_row slot after.variants ≡ some v)
        × ((k : ℕ) (name : Text)
            → (k == object_id && text_eq req.variant_name name) ≡ false
            → find_row (named k name) after.variants ≡ find_row (named k name) d.variants)
        × ((register_variant object_id req new_id' event_id' now' after).0 ≡ ok v)
        × ((register_variant object_id req new_id' event_id' now' after).1.variants
            ≡ after.variants)
  register_variant-again new_id event_id now new_id' event_id' now' d after v h =
      let (o, found, free, row, wrote) = register_variant-ran new_id event_id now d after v h in
      let w = registered object_id req (row_id (find_row slot d.variants) new_id) in
      let stored : after.variants ≡ save_row slot w d.variants = rw wrote refl in
      let passes = slot-registered (row_id (find_row slot d.variants) new_id) in
      let finds : find_row slot after.variants ≡ some v =
        rw (stored, row) (find_row-save_row_self slot w d.variants passes) in
      let still : fetch_object object_id true after ≡ ok o =
        fetch_object-objects after d (rw wrote refl) ∙ found in
      let free' : any (has_key_of object_id req) after.variants ≡ false =
        rw stored
          (any-save_row slot (has_key_of object_id req) w d.variants (slot-apart w passes) free) in
      let again = register_variant-free new_id' event_id' now' after o still free' in
      let same : registered object_id req (row_id (find_row slot after.variants) new_id') ≡ w =
        rw finds (ap (λ (t : MediaVariant). registered object_id req t.id) row) in
      (
        finds,
        λ k name other. rw stored (
            find_row-save_row_other slot (named k name) w d.variants
              (λ x. slot-other k name x other) (slot-other k name w other passes)),
        rw again (ap (λ (t : MediaVariant). ok t) (same ∙ sym row)),
        rw again (
            ap (λ (t : MediaVariant). save_row slot t after.variants) same
            ∙ (ap (save_row slot w) stored
                ∙ (save_row-again slot w d.variants passes ∙ sym stored))),
      )

-- The key of an output is the same where the preset's name begins with white space.
target_key-space :
    (ext : Externals) (o : MediaObject) (c : ℕ) (name : Text) (spec other : PresetSpec)
    (fmt : FormatSpec)
    → ext.is_space c ≡ true
    → (expand_format ext (c ∷ name) other o fmt).target_key
      ≡ (expand_format ext name spec o fmt).target_key
unfolding expand_format build_variant_key safe_category key_segment safe_filename strip lstrip
target_key-space ext o c name spec other fmt space = rw space refl

-- What the worker reports of an output that it wrote.
pub record IsReportOf (s : VariantSpec) (req : VariantRegisterRequest) : Type 0 where
  pub name : req.variant_name ≡ s.variant_name
  pub bucket : req.storage_bucket ≡ s.target_bucket
  pub key : req.object_key ≡ s.target_key

any-find_row :
    (p q : MediaVariant → Bool) (rows : List MediaVariant) (v : MediaVariant)
    → find_row p rows ≡ some v
    → q v ≡ true
    → any q rows ≡ true
any-find_row p q [] v h k = cc
any-find_row p q (x ∷ rows) v h k = ground (arith, any-find_row p q rows v)

cons-ne : (c : ℕ) (t : Text) → text_eq t (c ∷ t) ≡ false
cons-ne c t = elim (Bool-cases (text_eq t (c ∷ t))) [
  | inr other ↦ other
  | inl same ↦ absurd (omega (arith, ap length ((text_eq_iff t (c ∷ t)).0 same)))
]

module _ (ext : Externals) (o : MediaObject) (c : ℕ) (name : Text) (spec other : PresetSpec)
    (fmt : FormatSpec) (first second : VariantRegisterRequest) where
  -- Two presets of one caller whose names differ by a white space in front give one storage key, so
  -- that the second variant of the job cannot be registered: the database refuses it, every time that
  -- the worker reports it.
  pub register_variant-collides :
      (new_id event_id now new_id' event_id' now' : ℕ) (d after : Db) (v : MediaVariant)
      → ext.is_space c ≡ true
      → IsReportOf (expand_format ext name spec o fmt) first
      → IsReportOf (expand_format ext (c ∷ name) other o fmt) second
      → register_variant o.id first new_id event_id now d ≡ (ok v, after)
      → register_variant o.id second new_id' event_id' now' after
        ≡ (err (http 500 integrity_error), after)
  unfolding expand_format
  register_variant-collides new_id event_id now new_id' event_id' now' d after v space a b h =
      let (x, found, free, row, wrote) =
        register_variant-ran o.id first new_id event_id now d after v h in
      let stored =
        register_variant-again o.id first new_id event_id now new_id' event_id' now' d after v h in
      let key : v.object_key ≡ second.object_key =
        ap (λ (t : MediaVariant). t.object_key) row
        ∙ (a.key ∙ (sym (target_key-space ext o c name spec other fmt space) ∙ sym b.key)) in
      let bucket : v.storage_bucket ≡ second.storage_bucket =
        ap (λ (t : MediaVariant). t.storage_bucket) row ∙ (a.bucket ∙ sym b.bucket) in
      let name_is : v.variant_name ≡ variant_name_of name fmt =
        ap (λ (t : MediaVariant). t.variant_name) row ∙ a.name in
      let names : text_eq v.variant_name second.variant_name ≡ false =
        rw (name_is, b.name) (cons-ne c (variant_name_of name fmt)) in
      let keys : text_eq v.object_key second.object_key ≡ true =
        (text_eq_iff v.object_key second.object_key).1 key in
      register_variant-taken o.id second new_id' event_id' now' after x
        (fetch_object-objects o.id second after d (rw wrote refl) ∙ found)
        (any-find_row (named o.id first.variant_name) (has_key_of o.id second) after.variants v
          stored.0 (ground (arith, names, bucket, keys)))
