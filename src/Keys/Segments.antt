-- ===== src/Keys/Segments.antt =====
-- The parts of an object key of media_service/storage/keys.py.
use media_service_m.Prelude.{
  ℕ, true, false, Option, none, some, [], ◌∷◌, ◌++◌, map, ◌==◌, ◌≡◌, ◌≢◌, refl, sym, ap, arith,
  Text, codes, text_elem, text_eq, any, All, length, Bool-cases, inl, inr,
}
use mathlib.Core.Path.{subst, ◌∙◌}
use mathlib.Core.List.{append_assoc}
use media_service_m.Model.Enums.{MediaCategory}
use media_service_m.Model.Store.{Externals}
use media_service_m.Keys.{
  replace, is_slash, last_segment, or_file, safe_filename, is_key_unsafe, key_char, key_segment,
  strip, owner_prefix, safe_category, category_text, build_object_key,
}

-- A character that the public route and the key's own structure allow.
abbrev pub IsSafe : ℕ → Type 0
IsSafe c = ((c == b'/') ≡ false) × ((c == b'\\') ≡ false) × (is_key_unsafe c ≡ false)

abbrev NoBackslash : Text → Type 0
NoBackslash t = All (λ c. (c == b'\\') ≡ false) t

NoBackslash-replace : (t : Text) → NoBackslash (replace b'\\' b'/' t)
NoBackslash-replace [] = tt
NoBackslash-replace (c ∷ t) = (ground arith, NoBackslash-replace t)

NoBackslash-last_segment : (t : Text) → NoBackslash t → NoBackslash (last_segment t)
unfolding last_segment
NoBackslash-last_segment [] h = tt
NoBackslash-last_segment (c ∷ t) h = ground (arith, NoBackslash-last_segment t h.1)

last_segment-no_slash : (t : Text) → any is_slash (last_segment t) ≡ false
unfolding last_segment
last_segment-no_slash [] = refl
last_segment-no_slash (c ∷ t) = ground (arith, last_segment-no_slash t)

key_char-All : (t : Text) → NoBackslash t → any is_slash t ≡ false → All IsSafe (map key_char t)
key_char-All [] hb hs = tt
key_char-All (c ∷ t) hb hs = (ground arith, key_char-All t hb.1 (ground arith))

map_ne_nil : (f : ℕ → ℕ) (t : Text) → t ≢ [] → map f t ≢ []
map_ne_nil f [] h = λ e. h refl
map_ne_nil f (c ∷ t) h = λ e. cc

file_IsSafe : All IsSafe (map key_char (codes "file"))
file_IsSafe =
    ((refl, refl, refl), ((refl, refl, refl), ((refl, refl, refl), ((refl, refl, refl), tt))))

empty_is_listed : text_elem [] ([] ∷ codes "." ∷ codes ".." ∷ []) ≡ true
unfolding text_elem text_eq
empty_is_listed = refl

or_file-IsSafe :
    (base : Text)
    → NoBackslash base
    → any is_slash base ≡ false
    → All IsSafe (map key_char (or_file base)) × (map key_char (or_file base) ≢ [])
or_file-IsSafe base hb hs = elim (Bool-cases (text_elem base ([] ∷ codes "." ∷ codes ".." ∷ []))) [
  | inl dots ↦ rw dots (file_IsSafe, λ e. cc)
  | inr name ↦
      rw name (
        key_char-All base hb hs,
        map_ne_nil key_char base (λ e. no_empty (subst not_listed e name)),
      )
]
  where
    not_listed : Text → Type 0
    not_listed t = text_elem t ([] ∷ codes "." ∷ codes ".." ∷ []) ≡ false

    no_empty : not_listed [] → ⊥
    no_empty h = cc (empty_is_listed, h)

-- Whatever name a client typed, the last segment of its key is not empty and holds no separator, no
-- control character and none of the four characters that the route answers with 400.
pub key_segment-IsSafe :
    (ext : Externals) (filename : Text)
    → All IsSafe (key_segment ext filename) × (key_segment ext filename ≢ [])
unfolding key_segment safe_filename
key_segment-IsSafe ext filename =
    let base = last_segment (replace b'\\' b'/' (strip ext filename)) in
    or_file-IsSafe base
      (NoBackslash-last_segment (replace b'\\' b'/' (strip ext filename))
        (NoBackslash-replace (strip ext filename)))
      (last_segment-no_slash (replace b'\\' b'/' (strip ext filename)))

-- What `str(uuid)` is: 36 characters that tell two ids apart.
pub record IsUuidText (ext : Externals) : Type 0 where
  pub length_36 : (k : ℕ) → length (ext.uuid_text k) ≡ 36
  pub injective : (j k : ℕ) → ext.uuid_text j ≡ ext.uuid_text k → j ≡ k

append_same :
    (xs ys us vs : Text) → length xs ≡ length ys → xs ++ us ≡ ys ++ vs → (xs ≡ ys) × (us ≡ vs)
append_same [] [] us vs l e = (refl, e)
append_same [] (y ∷ ys) us vs l e = absurd (omega arith)
append_same (x ∷ xs) [] us vs l e = absurd (omega arith)
append_same (x ∷ xs) (y ∷ ys) us vs l e =
    let rest = append_same xs ys us vs (omega arith) (ground arith) in ground arith

append_cancel : (xs us vs : Text) → xs ++ us ≡ xs ++ vs → us ≡ vs
append_cancel xs us vs e = (append_same xs xs us vs refl e).1

-- The part of a key that names its owner: no two scopes share it, even when more follows.
abbrev first : Text → ℕ
first [] = 0
first (c ∷ t) = c

module _ (ext : Externals) (uuid : IsUuidText ext) where
  uuid_text-append :
      (j k : ℕ) (us vs : Text) → ext.uuid_text j ++ us ≡ ext.uuid_text k ++ vs → (j ≡ k) × (us ≡ vs)
  uuid_text-append j k us vs e =
      let parts =
        append_same (ext.uuid_text j) (ext.uuid_text k) us vs
          (omega (arith, uuid.length_36 j, uuid.length_36 k)) e in
      (uuid.injective j k parts.0, parts.1)

  owner_prefix-append :
      (owner owner' : ℕ) (tenant tenant' : Option ℕ) (us vs : Text)
      → owner_prefix ext owner tenant ++ us ≡ owner_prefix ext owner' tenant' ++ vs
      → (owner ≡ owner') × (tenant ≡ tenant') × (us ≡ vs)
  unfolding owner_prefix
  owner_prefix-append owner owner' none none us vs e =
      let parts = uuid_text-append owner owner' us vs (
        append_cancel (codes "users/") (ext.uuid_text owner ++ us) (ext.uuid_text owner' ++ vs)
          e) in
      (parts.0, refl, parts.1)
  owner_prefix-append owner owner' none (some t') us vs e = absurd (omega (arith, ap first e))
  owner_prefix-append owner owner' (some t) none us vs e = absurd (omega (arith, ap first e))
  owner_prefix-append owner owner' (some t) (some t') us vs e =
      let rest = codes "/users/" ++ ext.uuid_text owner in
      let rest' = codes "/users/" ++ ext.uuid_text owner' in
      let scopes =
        append_cancel (codes "tenants/") ((ext.uuid_text t ++ rest) ++ us)
          ((ext.uuid_text t' ++ rest') ++ vs) e in
      let tenants = uuid_text-append t t' (rest ++ us) (rest' ++ vs) (
        sym (append_assoc (ext.uuid_text t) rest us)
        ∙ (scopes ∙ append_assoc (ext.uuid_text t') rest' vs)) in
      let owners = uuid_text-append owner owner' us vs (
        append_cancel (codes "/users/") (ext.uuid_text owner ++ us) (ext.uuid_text owner' ++ vs)
          tenants.1) in
      (owners.0, ap some tenants.0, owners.1)

  -- Two uploads of one category share an object key only if they are one upload of one owner in one
  -- tenant, whatever their file names.
  pub build_object_key-injective :
      (owner owner' media media' : ℕ) (category : MediaCategory) (name name' : Text)
      (tenant tenant' : Option ℕ)
      → build_object_key ext owner media category name tenant
        ≡ build_object_key ext owner' media' category name' tenant'
      → (owner ≡ owner') × (tenant ≡ tenant') × (media ≡ media')
  unfolding build_object_key
  build_object_key-injective owner owner' media media' category name name' tenant tenant' e =
      let tail =
        λ (k : ℕ) (n : Text). ext.uuid_text k ++ (codes "/original/" ++ key_segment ext n) in
      let folder = safe_category ext (category_text category) in
      let scope =
        owner_prefix-append owner owner' tenant tenant'
          (codes "/" ++ (folder ++ (codes "/" ++ tail media name)))
          (codes "/" ++ (folder ++ (codes "/" ++ tail media' name'))) e in
      let after =
        append_cancel folder (codes "/" ++ tail media name) (codes "/" ++ tail media' name') (
          append_cancel (codes "/") (folder ++ (codes "/" ++ tail media name))
            (folder ++ (codes "/" ++ tail media' name')) scope.2) in
      let ids =
        uuid_text-append media media' (codes "/original/" ++ key_segment ext name)
          (codes "/original/" ++ key_segment ext name')
          (append_cancel (codes "/") (tail media name) (tail media' name') after) in
      (scope.0, scope.1, ids.0)
