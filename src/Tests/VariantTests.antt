-- ===== src/Tests/VariantTests.antt =====
-- Thumbnails of a picture, and two presets whose names differ by a space.
use media_service_m.Prelude.{
  ℕ, ◌≤◌, false, ◌&&◌, ◌==◌, some, List, [], ◌∷◌, ◌++◌, ◌≡◌, refl, length, Text, codes, text_eq,
  All, sum_by,
}
use media_service_m.Effect.{ok, err, http, integrity_error}
use media_service_m.Model.Rows.{MediaObject, MediaVariant, FormatSpec, ImageFormat, Db}
use media_service_m.Model.Table.{find_row}
use media_service_m.Access.{fetch_object}
use media_service_m.Presets.{
  webp_of_width, get_item, merged_presets, max_outputs_per_job, max_job_pixel_area,
}
use media_service_m.Presets.Expand.{
  VariantSpec, expand, expand_format, resolve_presets, geometry_cost,
}
use media_service_m.Presets.Bounds.{cost_of, IsOutputOf, resolve_presets-IsBounded}
use media_service_m.Variants.{VariantRegisterRequest, generate, register_variant, named}
use media_service_m.Variants.Generate.{IsGenerated, generate-IsGenerated}
use media_service_m.Variants.Register.{register_variant-again, register_variant-collides}
use media_service_m.Tests.Data.{alice, ext, photo, rows}

abbrev picture : MediaObject
picture = record photo { mime_type = codes "image/png" }

abbrev picture_rows : Db
picture_rows = record rows { objects = picture ∷ [] }

abbrev names : List Text
names = codes "thumb" ∷ codes "small" ∷ []

abbrev two_specs : List VariantSpec
two_specs =
    expand ext (codes "thumb") (webp_of_width 150) picture
    ++ expand ext (codes "small") (webp_of_width 320) picture

two_specs_are : resolve_presets ext alice names picture picture_rows ≡ ok two_specs
unfolding resolve_presets merged_presets get_item expand geometry_cost text_eq
two_specs_are = refl

resolve_presets-IsBounded_example :
    (length two_specs ≤ max_outputs_per_job)
    × (sum_by cost_of two_specs ≤ max_job_pixel_area)
    × All (IsOutputOf picture) two_specs
resolve_presets-IsBounded_example =
    resolve_presets-IsBounded ext picture alice names picture_rows two_specs two_specs_are

generate-IsGenerated_example :
    IsGenerated alice 7 40 picture_rows (generate ext alice 7 names 40 60 picture_rows)
generate-IsGenerated_example = generate-IsGenerated ext alice 7 names 40 60 picture_rows

abbrev webp_fmt : FormatSpec
webp_fmt = record { ext = ImageFormat.webp; quality = 80 }

abbrev report_of : VariantSpec → VariantRegisterRequest
report_of s = record {
  variant_name = s.variant_name;
  storage_bucket = s.target_bucket;
  object_key = s.target_key;
  width = some 150;
  height = some 90;
  size_bytes = 2;
  format = codes "webp";
}

abbrev spec_named : Text → VariantSpec
spec_named name = expand_format ext name (webp_of_width 150) picture webp_fmt

abbrev first_row : MediaVariant
first_row = record {
  id = 31;
  media_object_id = 7;
  variant_name = codes "hero_webp";
  storage_bucket = 20;
  object_key = (spec_named (codes "hero")).target_key;
  width = some 150;
  height = some 90;
  size_bytes = 2;
  format = codes "webp";
}

abbrev after_first : Db
after_first = (register_variant 7 (report_of (spec_named (codes "hero"))) 31 14 60 picture_rows).1

first_registered :
    register_variant 7 (report_of (spec_named (codes "hero"))) 31 14 60 picture_rows
    ≡ (ok first_row, after_first)
unfolding register_variant fetch_object expand_format
first_registered = refl

register_variant-again_example :
    (find_row (named 7 (spec_named (codes "hero")).variant_name) after_first.variants
      ≡ some first_row)
    × ((k : ℕ) (name : Text)
        → (k == 7 && text_eq (spec_named (codes "hero")).variant_name name) ≡ false
        → find_row (named k name) after_first.variants
          ≡ find_row (named k name) picture_rows.variants)
    × ((register_variant 7 (report_of (spec_named (codes "hero"))) 32 15 70 after_first).0
        ≡ ok first_row)
    × ((register_variant 7 (report_of (spec_named (codes "hero"))) 32 15 70 after_first).1.variants
        ≡ after_first.variants)
register_variant-again_example =
    register_variant-again 7 (report_of (spec_named (codes "hero"))) 31 14 60 32 15 70 picture_rows
      after_first first_row first_registered

register_variant-collides_example :
    register_variant 7 (report_of (spec_named (codes " hero"))) 33 16 80 after_first
    ≡ (err (http 500 integrity_error), after_first)
register_variant-collides_example =
    register_variant-collides ext picture b' ' (codes "hero") (webp_of_width 150)
      (webp_of_width 150) webp_fmt (report_of (spec_named (codes "hero")))
      (report_of (spec_named (codes " hero"))) 31 14 60 33 16 80 picture_rows after_first first_row
      refl (record { name = refl; bucket = refl; key = refl })
      (record { name = refl; bucket = refl; key = refl }) first_registered
