-- ===== src/Presets/Bounds.antt =====
-- The cost bounds of a variant job: `resolve_presets` of media_service/core/presets.py.
use media_service_m.Prelude.{
  ℕ, ◌+◌, ◌*◌, ◌≤◌, true, some, List, [], ◌∷◌, ◌++◌, map, length, ◌≡◌, refl, ap, ◌∙◌, inl, inr,
  arith, Text, text_eq, All, sum_by, sum_by-append, Bool-cases, Option-cases, filter,
}
use media_service_m.Effect.{ok, Result-cases}
use media_service_m.Model.Rows.{MediaObject, FormatSpec, PresetSpec, ImagePreset, Db, UserModel}
use media_service_m.Model.Store.{Externals}
use media_service_m.Presets.{
  Catalog, is_valid_spec, check_dimensions, check_pixel_area, set_item, get_item, overlay,
  merged_presets, builtin_presets, in_preset_scope, max_outputs_per_job, max_job_pixel_area,
}
use media_service_m.Presets.Expand.{
  VariantSpec, expand, expand_format, geometry_cost, resolve_loop, resolve_presets, within_ceilings,
}

abbrev IsCatalog : Catalog → Type 0
IsCatalog catalog = All (λ (p : Text × PresetSpec). is_valid_spec p.1 ≡ true) catalog

set_item-IsCatalog :
    (name : Text) (spec : PresetSpec) (catalog : Catalog)
    → is_valid_spec spec ≡ true
    → IsCatalog catalog
    → IsCatalog (set_item name spec catalog)
unfolding set_item
set_item-IsCatalog name spec [] valid h = (valid, h)
set_item-IsCatalog name spec ((n, s) ∷ rest) valid h = elim (Bool-cases (text_eq n name)) [
  | inl here ↦ rw here (valid, h.1)
  | inr other ↦ rw other (h.0, set_item-IsCatalog name spec rest valid h.1)
]

get_item-IsCatalog :
    (name : Text) (catalog : Catalog) (spec : PresetSpec)
    → IsCatalog catalog
    → get_item name catalog ≡ some spec
    → is_valid_spec spec ≡ true
unfolding get_item
get_item-IsCatalog name [] spec h e = cc
get_item-IsCatalog name ((n, s) ∷ rest) spec h e =
    ground (arith, h.0, get_item-IsCatalog name rest spec h.1)

overlay-IsCatalog :
    (rows : List ImagePreset) (catalog after : Catalog)
    → IsCatalog catalog
    → overlay rows catalog ≡ ok after
    → IsCatalog after
unfolding overlay
overlay-IsCatalog [] catalog after h e = subst_ok e h
  where
    subst_ok : ok catalog ≡ ok after → IsCatalog catalog → IsCatalog after
    subst_ok p k = let same : catalog ≡ after = cc in rw (← same) k
overlay-IsCatalog (row ∷ rows) catalog after h e = elim (Bool-cases (is_valid_spec row.spec)) [
  | inl valid ↦
      overlay-IsCatalog rows (set_item row.name row.spec catalog) after
        (set_item-IsCatalog row.name row.spec catalog valid h) (rw valid at e)
  | inr stale ↦ absurd (cc (rw stale at e))
]

-- Every recipe that a name resolves to is valid, whether built in or stored.
pub merged_presets-IsCatalog :
    (u : UserModel) (d : Db) (catalog : Catalog)
    → merged_presets u d ≡ ok catalog
    → IsCatalog catalog
unfolding merged_presets is_valid_spec
merged_presets-IsCatalog u d catalog e =
    overlay-IsCatalog (filter (in_preset_scope u) d.presets) builtin_presets catalog
      (refl, (refl, (refl, (refl, tt)))) e

abbrev pub cost_of : VariantSpec → ℕ
cost_of s = geometry_cost s.output_options.image_size

-- An output of the object: it goes to the object's bucket, and its geometry is within the bounds of
-- a single preset.
pub record IsOutputOf (o : MediaObject) (s : VariantSpec) : Type 0 where
  pub bucket : s.target_bucket ≡ o.storage_bucket
  pub dimensions : check_dimensions s.output_options.image_size ≡ true
  pub area : check_pixel_area s.output_options.image_size ≡ true

module _ (ext : Externals) (o : MediaObject) where
  expand-cost :
      (name : Text) (spec : PresetSpec) (formats : List FormatSpec)
      → sum_by cost_of (map (expand_format ext name spec o) formats)
        ≡ geometry_cost spec.image_size * length (map (expand_format ext name spec o) formats)
  unfolding expand_format
  expand-cost name spec [] = grind arith
  expand-cost name spec (f ∷ formats) = grind (arith, expand-cost name spec formats)

  expand-IsOutputOf :
      (name : Text) (spec : PresetSpec) (formats : List FormatSpec)
      → is_valid_spec spec ≡ true
      → All (IsOutputOf o) (map (expand_format ext name spec o) formats)
  unfolding expand_format is_valid_spec
  expand-IsOutputOf name spec [] h = tt
  expand-IsOutputOf name spec (f ∷ formats) h = (
    record { bucket = refl; dimensions = ground arith; area = ground arith },
    expand-IsOutputOf name spec formats h,
  )

  expand_cost :
      (name : Text) (spec : PresetSpec)
      → sum_by cost_of (expand ext name spec o)
        ≡ geometry_cost spec.image_size * length (expand ext name spec o)
  unfolding expand
  expand_cost name spec = expand-cost name spec spec.formats

  expand_outputs :
      (name : Text) (spec : PresetSpec)
      → is_valid_spec spec ≡ true
      → All (IsOutputOf o) (expand ext name spec o)
  unfolding expand
  expand_outputs name spec h = expand-IsOutputOf name spec spec.formats h

  All-append :
      (xs ys : List VariantSpec)
      → All (IsOutputOf o) xs
      → All (IsOutputOf o) ys
      → All (IsOutputOf o) (xs ++ ys)
  All-append [] ys h k = k
  All-append (x ∷ xs) ys h k = (h.0, All-append xs ys h.1 k)

  -- What the loop has collected stays bounded by what it has counted.
  resolve_loop-counts :
      (available : Catalog) (names : List Text) (specs : List VariantSpec) (total : ℕ)
      (out : List VariantSpec) (cost : ℕ)
      → IsCatalog available
      → sum_by cost_of specs ≡ total
      → All (IsOutputOf o) specs
      → resolve_loop ext available o names specs total ≡ ok (out, cost)
      → (sum_by cost_of out ≡ cost) × All (IsOutputOf o) out
  unfolding resolve_loop
  resolve_loop-counts available [] specs total out cost valid counted outputs e =
      let same : specs ≡ out = cc in
      let total_is : total ≡ cost = cc in rw (← same, ← total_is) (counted, outputs)
  resolve_loop-counts available (name ∷ names) specs total out cost valid counted outputs e =
      elim (Option-cases (get_item name available)) [
        | inl unknown ↦ absurd (cc (rw unknown at e))
        | inr (spec, found) ↦
            let more = expand ext name spec o in
            resolve_loop-counts available names (specs ++ more)
              (total + geometry_cost spec.image_size * length more) out cost valid
              (sum_by-append cost_of specs more
                ∙ (ap (λ (n : ℕ). n + sum_by cost_of more) counted
                    ∙ ap (λ (n : ℕ). total + n) (expand_cost name spec)))
              (All-append specs more outputs
                (expand_outputs name spec (get_item-IsCatalog name available spec valid found)))
              (rw found at e)
      ]

  -- A job that is accepted has at most the outputs and the pixel area of the policy, counted output by
  -- output over its recipes; and each output goes to the object's own bucket and keeps the bounds of a
  -- single preset, also where a stored recipe shadows a built-in one.
  pub resolve_presets-IsBounded :
      (u : UserModel) (names : List Text) (d : Db) (specs : List VariantSpec)
      → resolve_presets ext u names o d ≡ ok specs
      → (length specs ≤ max_outputs_per_job)
        × (sum_by cost_of specs ≤ max_job_pixel_area)
        × All (IsOutputOf o) specs
  unfolding resolve_presets
  resolve_presets-IsBounded u names d specs e = elim (Result-cases (merged_presets u d)) [
    | inr (raised, refused) ↦ absurd (cc (rw refused at e))
    | inl (available, merged) ↦ elim (Result-cases (resolve_loop ext available o names [] 0)) [
      | inr (raised, unknown) ↦ absurd (cc (rw (merged, unknown) at e))
      | inl ((out, cost), looped) ↦
          let counts =
            resolve_loop-counts available names [] 0 out cost
              (merged_presets-IsCatalog u d available merged) refl tt looped in
          let checked : within_ceilings (ok (out, cost)) ≡ ok specs = rw (merged, looped) at e in
          let same : out ≡ specs = ground arith in
          rw (← same) (ground arith, ground (arith, counts.0), counts.1)
    ]
  ]
