-- ===== src/Tests/KeyTests.antt =====
-- The key, header and type theorems on a hostile file name and on short types.
use media_service_m.Prelude.{◌≡◌, refl, All, Text, codes, arith}
use media_service_m.Model.Enums.{MediaCategory}
use media_service_m.Keys.Segments.{IsUuidText, build_object_key-injective}
use media_service_m.Disposition.{safe_content_disposition}
use media_service_m.Disposition.Header.{
  IsPrintable, quotations, safe_content_disposition-IsPrintable,
}
use media_service_m.Tests.Data.{alice, ext, upload}

ext-IsUuidText : IsUuidText ext
ext-IsUuidText = record { length_36 = λ k. refl; injective = λ j k e. ground arith }

-- Two slashes, a dot-dot and a quotation mark.
abbrev hostile : Text
hostile = codes "../a\\b/x?\".txt"

build_object_key-injective_example :
    (alice.id ≡ alice.id) × (alice.tenant_id ≡ alice.tenant_id) × (upload.id ≡ upload.id)
build_object_key-injective_example =
    build_object_key-injective ext ext-IsUuidText alice.id alice.id upload.id upload.id
      MediaCategory.asset hostile hostile alice.tenant_id alice.tenant_id refl

safe_content_disposition-IsPrintable_example :
    All IsPrintable (safe_content_disposition ext hostile)
    × (quotations (safe_content_disposition ext hostile) ≡ 2)
safe_content_disposition-IsPrintable_example =
    safe_content_disposition-IsPrintable ext hostile (ground arith)
