-- ===== src/Presets/Expand.antt =====
-- From the names of presets to the outputs of a job: `resolve_presets` and `_expand` of
-- media_service/core/presets.py.
use media_service_m.Prelude.{
  ℕ, zero, suc, ◌+◌, ◌*◌, Bool, Option, none, some, List, [], ◌∷◌, ◌++◌, map, length, ltb,
  if◌then◌else◌, Text, codes,
}
use media_service_m.Effect.{Result, ok, err, http, unknown_preset, too_many_outputs, too_much_area}
use media_service_m.Model.Rows.{MediaObject, FormatSpec, ImageSizeSpec, PresetSpec, Db, UserModel}
use media_service_m.Model.Store.{Externals}
use media_service_m.Keys.{build_variant_key}
use media_service_m.Presets.{
  Catalog, ext_lower, get_item, max_job_pixel_area, max_outputs_per_job, max_preset_dimension,
  merged_presets,
}

-- `_output_options`.
pub record OutputOptions : Type 0 where
  pub name : Text
  pub image_size : ImageSizeSpec
  pub format : FormatSpec
  pub allow_upscale : Bool
  pub max_byte_size : Option ℕ

pub record VariantSpec : Type 0 where
  pub variant_name : Text
  pub output_options : OutputOptions
  pub target_bucket : ℕ
  pub target_key : Text

abbrev pub variant_name_of : Text → FormatSpec → Text
variant_name_of name fmt = name ++ (codes "_" ++ ext_lower fmt.ext)

unfoldable pub expand_format :
    Externals → Text → PresetSpec → MediaObject → FormatSpec → VariantSpec
expand_format ext name spec o fmt =
    let variant_name = variant_name_of name fmt in
    record {
      variant_name = variant_name;
      output_options = record {
        name = variant_name;
        image_size = spec.image_size;
        format = fmt;
        allow_upscale = spec.allow_upscale;
        max_byte_size = spec.max_byte_size;
      };
      target_bucket = o.storage_bucket;
      target_key =
          build_variant_key ext o.owner_user_id o.id o.category variant_name
            (variant_name ++ (codes "." ++ ext_lower fmt.ext)) o.tenant_id;
    }

-- `_expand`.
unfoldable pub expand : Externals → Text → PresetSpec → MediaObject → List VariantSpec
unfolding expand_format
expand ext name spec o = map (expand_format ext name spec o) spec.formats

-- `a or b`, where a zero is falsy too.
abbrev pub or_else : Option ℕ → ℕ → ℕ
or_else none b = b
or_else (some zero) b = b
or_else (some (suc n)) b = suc n

-- `_geometry_cost`.
unfoldable pub geometry_cost : ImageSizeSpec → ℕ
geometry_cost size =
    or_else size.fixed_width (or_else size.fixed_size max_preset_dimension)
    * or_else size.fixed_height (or_else size.fixed_size max_preset_dimension)

abbrev if_known : {A : Type 0} → (PresetSpec → Result A) → Option PresetSpec → Result A
if_known rest none = err (http 422 unknown_preset)
if_known rest (some spec) = rest spec

-- The loop of `resolve_presets`, over what it has collected.
unfoldable pub resolve_loop :
    Externals
    → Catalog
    → MediaObject
    → List Text
    → List VariantSpec
    → ℕ
    → Result (List VariantSpec × ℕ)
resolve_loop ext available o [] specs total = ok (specs, total)
resolve_loop ext available o (name ∷ names) specs total =
    if_known
      (λ spec.
        resolve_loop ext available o names (specs ++ expand ext name spec o)
          (total + geometry_cost spec.image_size * length (expand ext name spec o)))
      (get_item name available)

abbrev pub within_ceilings : Result (List VariantSpec × ℕ) → Result (List VariantSpec)
within_ceilings (err e) = err e
within_ceilings (ok (specs, total)) =
    if ltb max_outputs_per_job (length specs)
    then err (http 422 too_many_outputs)
    else if ltb max_job_pixel_area total
    then err (http 422 too_much_area)
    else ok specs

abbrev resolved : Externals → List Text → MediaObject → Result Catalog → Result (List VariantSpec)
resolved ext names o (err e) = err e
resolved ext names o (ok available) = within_ceilings (resolve_loop ext available o names [] 0)

unfoldable pub resolve_presets :
    Externals → UserModel → List Text → MediaObject → Db → Result (List VariantSpec)
unfolding resolve_loop
resolve_presets ext u names o d = resolved ext names o (merged_presets u d)
