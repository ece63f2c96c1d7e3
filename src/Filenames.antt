-- ===== src/Filenames.antt =====
-- The policy on client-typed file names, of media_service/core/validation.py: the reject side and
-- the rewrite side.
pub mod Trimming
pub mod Sanitized
use media_service_m.Prelude.{
  ℕ, Bool, true, false, ◌||◌, Option, none, some, List, [], ◌∷◌, map, take, length, all, any, elem,
  ltb, ◌==◌, if◌then◌else◌, Text, codes,
}
use media_service_m.Model.Store.{Externals}
use media_service_m.Keys.{strip, replace, last_segment}

-- The three `ValueError`s of `validate_filename`.
pub data FilenameError : Type 0 where
  only_dots too_long forbidden_chars : FilenameError

pub data Validated : Type 0 where
  valid : Text → Validated
  invalid : FilenameError → Validated

-- `FORBIDDEN_FILENAME_CHARS`.
abbrev pub forbidden_filename_chars : Text
forbidden_filename_chars = codes "/\\<>:\"|?*"

abbrev pub max_filename_length : ℕ
max_filename_length = 255

abbrev pub fallback_filename : Text
fallback_filename = codes "file"

abbrev pub is_forbidden_filename_char : Externals → ℕ → Bool
is_forbidden_filename_char ext c = elem c forbidden_filename_chars || ext.is_other c

abbrev is_dot : ℕ → Bool
is_dot c = c == b'.'

-- `not name or set(name) <= {"."}`.
abbrev pub only_dots_in : Text → Bool
only_dots_in name = all is_dot name

abbrev pub checked : Externals → Text → Validated
checked ext name =
    if only_dots_in name
    then invalid only_dots
    else if ltb max_filename_length (length name)
    then invalid too_long
    else if any (is_forbidden_filename_char ext) name
    then invalid forbidden_chars
    else valid name

unfoldable pub validate_filename : Externals → Text → Validated
validate_filename ext value = checked ext (strip ext (ext.nfc value))

abbrev pub cleaned : Externals → ℕ → ℕ
cleaned ext c = if is_forbidden_filename_char ext c then b'_' else c

abbrev pub or_fallback : Text → Text
or_fallback name = if only_dots_in name then fallback_filename else name

-- `value or ""`.
abbrev or_empty : Option Text → Text
or_empty none = []
or_empty (some t) = t

-- The third line of `sanitize_filename`.
unfoldable pub trimmed : Externals → Text → Text
trimmed ext name = strip ext (take max_filename_length (strip ext name))

unfoldable pub sanitize_filename : Externals → Option Text → Text
unfolding trimmed
sanitize_filename ext value = or_fallback (
    trimmed ext (
      map (cleaned ext) (last_segment (replace b'\\' b'/' (strip ext (ext.nfc (or_empty value)))))))
