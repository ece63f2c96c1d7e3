-- ===== src/Keys.antt =====
-- Object keys and buckets: media_service/storage/keys.py and media_service/storage/buckets.py.
pub mod Segments
use media_service_m.Prelude.{
  ℕ, Bool, true, false, ◌||◌, Option, none, some, List, [], ◌∷◌, ◌++◌, map, ◌==◌, ltb,
  if◌then◌else◌, Text, codes, text_elem, text_eq, any,
}
use mathlib.Core.List.{reverse}
use media_service_m.Model.Enums.{MediaCategory, MediaVisibility}
use media_service_m.Model.Store.{Externals, Settings}

-- The value of a `MediaCategory` member.
abbrev pub category_text : MediaCategory → Text
category_text MediaCategory.avatar = codes "avatar"
category_text MediaCategory.document = codes "document"
category_text MediaCategory.asset = codes "asset"
category_text MediaCategory.chat_attachment = codes "chat_attachment"
category_text MediaCategory.export = codes "export"
category_text MediaCategory.receipt = codes "receipt"

-- `str.lstrip` and `str.strip`.
unfoldable pub lstrip : Externals → Text → Text
lstrip ext [] = []
lstrip ext (c ∷ t) = let rest = lstrip ext t in if ext.is_space c then rest else c ∷ t

unfoldable pub strip : Externals → Text → Text
unfolding lstrip
strip ext t = reverse (lstrip ext (reverse (lstrip ext t)))

-- `text.replace(old, new)` for two characters.
abbrev pub replace : ℕ → ℕ → Text → Text
replace old new t = map (λ (c : ℕ). if c == old then new else c) t

abbrev pub is_slash : ℕ → Bool
is_slash c = c == b'/'

-- `text.split("/")[-1]`.
unfoldable pub last_segment : Text → Text
last_segment [] = []
last_segment (c ∷ t) =
    let rest = last_segment t in if any is_slash t then rest else if is_slash c then t else c ∷ t

-- `_owner_prefix`; a UUID is truthy.
unfoldable pub owner_prefix : Externals → ℕ → Option ℕ → Text
owner_prefix ext owner none = codes "users/" ++ ext.uuid_text owner
owner_prefix ext owner (some tenant) =
    codes "tenants/" ++ (ext.uuid_text tenant ++ (codes "/users/" ++ ext.uuid_text owner))

abbrev or_file : Text → Text
or_file base = if text_elem base ([] ∷ codes "." ∷ codes ".." ∷ []) then codes "file" else base

unfoldable pub safe_filename : Externals → Text → Text
unfolding last_segment strip
safe_filename ext filename = or_file (last_segment (replace b'\\' b'/' (strip ext filename)))

-- `_KEY_UNSAFE_CHARS`, and the C0 and DEL controls.
abbrev pub is_key_unsafe : ℕ → Bool
is_key_unsafe c =
    (c == b';' || (c == b'%' || (c == b'?' || c == b'#'))) || (ltb c 0x20 || c == 0x7f)

abbrev key_char : ℕ → ℕ
key_char c = if is_key_unsafe c then b'_' else c

unfoldable pub key_segment : Externals → Text → Text
unfolding safe_filename
key_segment ext filename = map key_char (safe_filename ext filename)

unfoldable pub safe_category : Externals → Text → Text
unfolding strip
safe_category ext category = replace b' ' b'_' (ext.lower (strip ext category))

unfoldable pub build_object_key : Externals → ℕ → ℕ → MediaCategory → Text → Option ℕ → Text
build_object_key ext owner media_id category filename tenant =
    owner_prefix ext owner tenant
    ++ (codes "/"
        ++ (safe_category ext (category_text category)
            ++ (codes "/"
                ++ (ext.uuid_text media_id ++ (codes "/original/" ++ key_segment ext filename)))))

unfoldable pub build_variant_key : Externals → ℕ → ℕ → MediaCategory → Text → Text → Option ℕ → Text
build_variant_key ext owner media_id category variant_name filename tenant =
    owner_prefix ext owner tenant
    ++ (codes "/"
        ++ (safe_category ext (category_text category)
            ++ (codes "/"
                ++ (ext.uuid_text media_id
                    ++ (codes "/variants/"
                        ++ (safe_category ext variant_name
                            ++ (codes "/" ++ key_segment ext filename)))))))

unfoldable pub build_export_archive_key : Externals → ℕ → ℕ → Option ℕ → Text
build_export_archive_key ext owner job_id tenant =
    owner_prefix ext owner tenant ++ (codes "/exports/" ++ (ext.uuid_text job_id ++ codes ".zip"))

-- `bucket_for_visibility`.
abbrev pub bucket_for_visibility : Settings → MediaVisibility → ℕ
bucket_for_visibility conf MediaVisibility.public = conf.bucket_public
bucket_for_visibility conf MediaVisibility.private = conf.bucket_private
bucket_for_visibility conf MediaVisibility.sensitive = conf.bucket_sensitive
bucket_for_visibility conf MediaVisibility.tenant = conf.bucket_private
