-- ===== src/Presets.antt =====
-- Image presets: the recipe and its bounds of media_service/schemas/presets.py, and the
-- catalogue of media_service/core/presets.py. `Expand` has its expansion into outputs, and `Owned` a
-- user's own presets.
pub mod Bounds
pub mod Owned
pub mod Expand
use media_service_m.Prelude.{
  ℕ, zero, suc, ◌+◌, ◌*◌, Bool, true, false, not, ◌&&◌, ◌||◌, Option, none, some, List, [], ◌∷◌,
  ◌++◌, map, length, ◌==◌, ltb, leb, opt_eq, is_none, if◌then◌else◌, Text, codes, text_eq,
  text_elem, filter, elem, no_repeats,
}
use media_service_m.Effect.{
  Result, ok, err, Exec, ◌>>=◌, ◌>>◌, pure, lift, modify, raise_if, or_raise, gets, http,
  preset_not_found, preset_exists, not_enough_permissions, unknown_preset, too_many_outputs,
  too_much_area, invalid_spec,
}
use media_service_m.Model.Rows.{
  MediaObject, ImagePreset, ImageFormat, FormatSpec, ImageSizeSpec, PresetSpec, Db, UserModel,
}
use media_service_m.Model.Store.{Externals}
use media_service_m.Model.Table.{find_row, save_row, delete_row}
use media_service_m.Keys.{build_variant_key}

abbrev pub max_preset_dimension : ℕ
max_preset_dimension = 8192

abbrev pub max_preset_pixel_area : ℕ
max_preset_pixel_area = 33554432

abbrev pub max_preset_max_byte_size : ℕ
max_preset_max_byte_size = 26214400

abbrev pub max_formats_per_preset : ℕ
max_formats_per_preset = 5

abbrev pub max_outputs_per_job : ℕ
max_outputs_per_job = 32

abbrev pub max_job_pixel_area : ℕ
max_job_pixel_area = 268435456

abbrev pub format_code : ImageFormat → ℕ
format_code ImageFormat.webp = 0
format_code ImageFormat.jpeg = 1
format_code ImageFormat.png = 2
format_code ImageFormat.gif = 3
format_code ImageFormat.avif = 4

-- `fmt.ext.lower()`.
abbrev pub ext_lower : ImageFormat → Text
ext_lower ImageFormat.webp = codes "webp"
ext_lower ImageFormat.jpeg = codes "jpeg"
ext_lower ImageFormat.png = codes "png"
ext_lower ImageFormat.gif = codes "gif"
ext_lower ImageFormat.avif = codes "avif"

-- A field with `ge=1`, which may be left out.
abbrev pub is_positive : Option ℕ → Bool
is_positive none = true
is_positive (some n) = leb 1 n

abbrev pub at_most : ℕ → Option ℕ → Bool
at_most bound none = true
at_most bound (some n) = leb n bound

abbrev pub check_dimensions : ImageSizeSpec → Bool
check_dimensions size =
    at_most max_preset_dimension size.fixed_width
    && (at_most max_preset_dimension size.fixed_height
        && at_most max_preset_dimension size.fixed_size)

abbrev pub area_within : Option ℕ → Option ℕ → Bool
area_within none h = true
area_within (some w) none = true
area_within (some w) (some h) = leb (w * h) max_preset_pixel_area

abbrev pub check_pixel_area : ImageSizeSpec → Bool
check_pixel_area size = area_within size.fixed_width size.fixed_height

abbrev pub check_byte_size : PresetSpec → Bool
check_byte_size spec = at_most max_preset_max_byte_size spec.max_byte_size

abbrev pub ext_codes : List FormatSpec → List ℕ
ext_codes [] = []
ext_codes (f ∷ formats) = format_code f.ext ∷ ext_codes formats

abbrev pub check_unique_formats : PresetSpec → Bool
check_unique_formats spec = no_repeats (ext_codes spec.formats)

-- The bounds of the fields.
abbrev has_positive_size : ImageSizeSpec → Bool
has_positive_size size =
    is_positive size.fixed_width && (is_positive size.fixed_height && is_positive size.fixed_size)

abbrev has_valid_qualities : List FormatSpec → Bool
has_valid_qualities [] = true
has_valid_qualities (f ∷ formats) =
    (leb 1 f.quality && leb f.quality 100) && has_valid_qualities formats

abbrev has_valid_fields : PresetSpec → Bool
has_valid_fields spec =
    has_positive_size spec.image_size
    && (has_valid_qualities spec.formats
        && (leb 1 (length spec.formats)
            && (leb (length spec.formats) max_formats_per_preset
                && is_positive spec.max_byte_size)))

-- `PresetSpec.model_validate`, on every way to a recipe.
unfoldable pub is_valid_spec : PresetSpec → Bool
is_valid_spec spec =
    has_valid_fields spec
    && (check_dimensions spec.image_size
        && (check_pixel_area spec.image_size
            && (check_byte_size spec && check_unique_formats spec)))

-- `_webp(width=…)`.
abbrev pub webp_of_width : ℕ → PresetSpec
webp_of_width width = record {
  image_size = record { fixed_width = some width; fixed_height = none; fixed_size = none };
  formats = record { ext = ImageFormat.webp; quality = 80 } ∷ [];
  allow_upscale = false;
  max_byte_size = none;
}

-- A `dict` from names to recipes, in the order of insertion.
abbrev pub Catalog : Type 0
Catalog = List (Text × PresetSpec)

-- `d[name] = spec`.
unfoldable pub set_item : Text → PresetSpec → Catalog → Catalog
set_item name spec [] = (name, spec) ∷ []
set_item name spec ((n, s) ∷ rest) =
    let deeper = (n, s) ∷ set_item name spec rest in
    if text_eq n name then (n, spec) ∷ rest else deeper

-- `d.get(name)`.
unfoldable pub get_item : Text → Catalog → Option PresetSpec
get_item name [] = none
get_item name ((n, s) ∷ rest) = if text_eq n name then some s else get_item name rest

abbrev pub builtin_presets : Catalog
builtin_presets =
    (codes "thumb", webp_of_width 150)
    ∷ (codes "small", webp_of_width 320)
    ∷ (codes "medium", webp_of_width 800)
    ∷ (codes "large", webp_of_width 1600)
    ∷ []

-- The rows of the owner and the tenant.
abbrev pub in_preset_scope : UserModel → ImagePreset → Bool
in_preset_scope u row = row.owner_user_id == u.id && opt_eq row.tenant_id u.tenant_id

-- A stored recipe that does not validate any more raises.
unfoldable pub overlay : List ImagePreset → Catalog → Result Catalog
unfolding set_item is_valid_spec
overlay [] catalog = ok catalog
overlay (row ∷ rows) catalog =
    let rest = overlay rows (set_item row.name row.spec catalog) in
    if is_valid_spec row.spec then rest else err (http 500 invalid_spec)

-- `_user_presets`, laid over the built-in ones by `merged_presets`.
unfoldable pub merged_presets : UserModel → Db → Result Catalog
unfolding overlay
merged_presets u d = overlay (filter (in_preset_scope u) d.presets) builtin_presets
