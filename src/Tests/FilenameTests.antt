-- ===== src/Tests/FilenameTests.antt =====
-- The file-name policy on a path with a question mark.
use media_service_m.Prelude.{◌≡◌, refl, some, codes, arith}
use media_service_m.Filenames.{validate_filename, sanitize_filename, valid}
use media_service_m.Filenames.Sanitized.{IsUnicode, validate_filename-sanitize_filename}
use media_service_m.Tests.Data.{ext}

ext-IsUnicode : IsUnicode ext
ext-IsUnicode = record {
  nfc_nfc = λ t. refl;
  nfc_beginning = λ a b h. refl;
  nfc_end = λ a b h. refl;
  nfc_underscore = λ a b c h. refl;
  nfc_ascii = λ t h. refl;
  underscore_other = refl;
  letter = λ c low high. ground arith;
}

validate_filename-sanitize_filename_example :
    validate_filename ext (sanitize_filename ext (some (codes "a/b?.txt ")))
    ≡ valid (sanitize_filename ext (some (codes "a/b?.txt ")))
validate_filename-sanitize_filename_example =
    validate_filename-sanitize_filename ext ext-IsUnicode (some (codes "a/b?.txt "))
