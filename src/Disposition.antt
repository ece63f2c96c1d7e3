-- ===== src/Disposition.antt =====
-- The Content-Disposition header of a download, of media_service/storage/presign.py. A name reaches
-- it without lone surrogates, which `validate_filename` refuses, so its UTF-8 encoding does not raise.
pub mod Header
use media_service_m.Prelude.{
  ℕ, ◌+◌, ◌/◌, ◌%◌, Bool, ◌&&◌, ◌||◌, Option, none, some, List, [], ◌∷◌, ◌++◌, map, ◌==◌, ltb, leb,
  if◌then◌else◌, filter, elem, Text, codes,
}
use media_service_m.Model.Store.{Externals, ObjectStorage}
use media_service_m.Keys.{strip, replace, last_segment}

-- `str.encode("utf-8")` of one character.
abbrev pub utf8 : ℕ → List ℕ
utf8 c =
    if ltb c 0x80
    then c ∷ []
    else if ltb c 0x800
    then (0xc0 + c / 64) ∷ (0x80 + c % 64) ∷ []
    else if ltb c 0x10000
    then (0xe0 + c / 4096) ∷ (0x80 + c / 64 % 64) ∷ (0x80 + c % 64) ∷ []
    else (0xf0 + c / 262144) ∷ (0x80 + c / 4096 % 64) ∷ (0x80 + c / 64 % 64) ∷ (0x80 + c % 64) ∷ []

-- A letter, a digit or one of `_.-~`: what `urllib.parse.quote(…, safe="")` keeps.
abbrev pub is_unreserved : ℕ → Bool
is_unreserved b =
    (leb 0x41 b && leb b 0x5a || leb 0x61 b && leb b 0x7a)
    || (leb 0x30 b && leb b 0x39 || (b == 0x5f || (b == 0x2e || (b == 0x2d || b == 0x7e))))

-- An upper-case hexadecimal digit.
abbrev pub hex_digit : ℕ → ℕ
hex_digit n = if ltb n 10 then 0x30 + n else 0x37 + n

-- `"%{:02X}"`.
abbrev pub quote_byte : ℕ → Text
quote_byte b =
    if is_unreserved b then b ∷ [] else 0x25 ∷ hex_digit (b / 16) ∷ hex_digit (b % 16) ∷ []

abbrev quote_bytes : List ℕ → Text
quote_bytes [] = []
quote_bytes (b ∷ bytes) = quote_byte b ++ quote_bytes bytes

abbrev encode : Text → List ℕ
encode [] = []
encode (c ∷ t) = utf8 c ++ encode t

-- `quote(text, safe="")`.
unfoldable pub quote : Text → Text
quote t = quote_bytes (encode t)

-- `_UNSAFE_DISPOSITION_CHARS`.
abbrev pub is_unsafe : ℕ → Bool
is_unsafe c = ltb c 0x20 || (c == 0x7f || (c == 0x22 || c == 0x5c))

abbrev pub disposition_char : ℕ → ℕ
disposition_char c = if is_unsafe c then b'_' else c

abbrev is_ascii : ℕ → Bool
is_ascii c = ltb c 0x80

abbrev or_download : Text → Text
or_download [] = codes "download"
or_download (c ∷ t) = c ∷ t

unfoldable pub ascii_fallback : Text → Text
ascii_fallback base = or_download (filter is_ascii (map disposition_char base))

-- `_safe_content_disposition`.
unfoldable pub safe_content_disposition : Externals → Text → Text
unfolding quote ascii_fallback
safe_content_disposition ext filename =
    let base = last_segment (replace b'\\' b'/' (strip ext filename)) in
    codes "attachment; filename=\""
    ++ (ascii_fallback base ++ (codes "\"; filename*=UTF-8''" ++ quote base))

-- `if filename`: an absent or an empty name sets no header.
abbrev disposition_of : Externals → Option Text → Option Text
disposition_of ext none = none
disposition_of ext (some []) = none
disposition_of ext (some (c ∷ t)) = some (safe_content_disposition ext (c ∷ t))

-- `create_download_url`.
unfoldable pub create_download_url :
    {S : Type 0} → ObjectStorage S → Externals → ℕ → Text → ℕ → Option Text → Option Text
create_download_url storage ext bucket object_key expires_seconds filename =
    storage.presigned_get_object bucket object_key expires_seconds (disposition_of ext filename)
