-- ===== src/Validation.antt =====
-- The upload gates of media_service/core/validation.py: the declared and sniffed content types, the
-- digest check and the size cap.
pub mod Mime
use media_service_m.Prelude.{
  ℕ, Bool, true, false, ◌&&◌, ◌||◌, Option, none, some, List, [], ◌∷◌, ◌++◌, ◌==◌, ltb,
  if◌then◌else◌, Text, codes, text_eq, text_elem,
}
use media_service_m.Model.Enums.{MediaCategory, category_eq}
use media_service_m.Model.Store.{Externals, Settings}

-- `ALLOWED_DECLARED_MIME`, a frozenset.
abbrev pub allowed_declared_mime : List Text
allowed_declared_mime =
    codes "image/jpeg"
    ∷ codes "image/png"
    ∷ codes "image/gif"
    ∷ codes "image/webp"
    ∷ codes "image/bmp"
    ∷ codes "image/tiff"
    ∷ codes "image/heic"
    ∷ codes "image/avif"
    ∷ codes "video/mp4"
    ∷ codes "video/webm"
    ∷ codes "video/quicktime"
    ∷ codes "audio/mpeg"
    ∷ codes "audio/ogg"
    ∷ codes "audio/wav"
    ∷ codes "audio/flac"
    ∷ codes "application/pdf"
    ∷ codes "application/zip"
    ∷ codes "text/plain"
    ∷ codes "text/csv"
    ∷ codes "application/json"
    ∷ []

-- `_UNSNIFFABLE_DECLARED`.
abbrev pub unsniffable_declared : List Text
unsniffable_declared = codes "text/plain" ∷ codes "text/csv" ∷ codes "application/json" ∷ []

-- `_MEDIA_MAJORS`.
abbrev pub media_majors : List Text
media_majors = codes "image" ∷ codes "video" ∷ codes "audio" ∷ []

unfoldable pub is_allowed_declared_mime : Text → Bool
is_allowed_declared_mime declared = text_elem declared allowed_declared_mime

-- `filetype.guess` on what is always `bytes` here.
abbrev pub sniff_mime : Externals → Text → Option Text
sniff_mime ext head = ext.guess head

-- `text.split("/")[0]`.
unfoldable pub major : Text → Text
major [] = []
major (c ∷ t) = let rest = c ∷ major t in if c == b'/' then [] else rest

abbrev consistent : Text → Option Text → Bool
consistent declared none = text_elem declared unsniffable_declared
consistent declared (some sniffed) =
    text_eq declared sniffed
    || (text_eq (major declared) (major sniffed) && text_elem (major declared) media_majors)

unfoldable pub mime_consistent : Text → Option Text → Bool
mime_consistent declared sniffed =
    if is_allowed_declared_mime declared then consistent declared sniffed else false

-- The bytes that `digest.update` was called with, in order.
abbrev concat : List Text → Text
concat [] = []
concat (chunk ∷ chunks) = chunk ++ concat chunks

unfoldable pub verify_sha256_stream : Externals → List Text → Text → Bool
verify_sha256_stream ext chunks expected =
    text_eq (ext.sha256_hexdigest (concat chunks)) (ext.lower expected)

abbrev size_of : ℕ → MediaCategory → List (MediaCategory × ℕ) → ℕ
size_of default category [] = default
size_of default category ((c, size) ∷ overrides) =
    if category_eq c category then size else size_of default category overrides

unfoldable pub max_size_for_category : Settings → MediaCategory → ℕ
max_size_for_category conf category =
    size_of conf.max_upload_size_bytes category conf.max_upload_size_per_category
