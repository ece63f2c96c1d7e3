-- ===== src/Filenames/Sanitized.antt =====
-- `sanitize_filename` against `validate_filename` of media_service/core/validation.py.
use media_service_m.Prelude.{
  ℕ, zero, suc, ◌≤◌, ◌<◌, Bool, false, ◌||◌, Option, [], ◌∷◌, ◌++◌, map, take, ◌==◌, ◌≡◌, refl, sym,
  ap, arith, if◌then◌else◌, Bool-cases, inl, inr, length, length-append, length-take-le, All, any,
  Text, codes,
}
use mathlib.Core.Path.{subst}
use mathlib.Core.List.{append_assoc}
use media_service_m.Model.Store.{Externals}
use media_service_m.Keys.{strip, replace, last_segment, is_slash}
use media_service_m.Filenames.{
  valid, is_forbidden_filename_char, only_dots_in, checked, validate_filename, cleaned, or_empty,
  trimmed, sanitize_filename, fallback_filename, max_filename_length,
}
use media_service_m.Filenames.Trimming.{strip-IsMiddle, strip-strip, lstrip-starts}

-- What Unicode says of normalisation and of a few characters: a text in NFC has its parts in NFC, and
-- stays in NFC where an underscore, which composes with nothing, takes a character's place; ASCII is
-- in NFC; and the underscore and the letters of the fallback are neither spaces nor of a category
-- "Other".
pub record IsUnicode (ext : Externals) : Type 0 where
  pub nfc_nfc : (t : Text) → ext.nfc (ext.nfc t) ≡ ext.nfc t
  pub nfc_beginning : (a b : Text) → ext.nfc (a ++ b) ≡ a ++ b → ext.nfc a ≡ a
  pub nfc_end : (a b : Text) → ext.nfc (a ++ b) ≡ a ++ b → ext.nfc b ≡ b
  pub nfc_underscore :
      (a b : Text) (c : ℕ)
      → ext.nfc (a ++ c ∷ b) ≡ a ++ c ∷ b
      → ext.nfc (a ++ b'_' ∷ b) ≡ a ++ b'_' ∷ b
  pub nfc_ascii : (t : Text) → All (λ (c : ℕ). c < 128) t → ext.nfc t ≡ t
  pub underscore_other : ext.is_other b'_' ≡ false
  pub letter : (c : ℕ) → 0x61 ≤ c → c ≤ 0x7a → (ext.is_space c ≡ false) × (ext.is_other c ≡ false)

-- In NFC.
abbrev IsNfc : Externals → Text → Type 0
IsNfc ext t = ext.nfc t ≡ t

any-append : (p : ℕ → Bool) (a b : Text) → any p (a ++ b) ≡ (any p a || any p b)
any-append p [] b = refl
any-append p (c ∷ a) b = ground (arith, any-append p a b)

any-take : (p : ℕ → Bool) (n : ℕ) (t : Text) → any p t ≡ false → any p (take n t) ≡ false
any-take p zero t h = refl
any-take p (suc n) [] h = refl
any-take p (suc n) (c ∷ t) h = ground (arith, any-take p n t)

-- What is left of a text that is cut after `n`.
record IsBeginning (n : ℕ) (t : Text) : Type 0 where
  rest : Text
  split : t ≡ take n t ++ rest

take-IsBeginning : (n : ℕ) (t : Text) → IsBeginning n t
take-IsBeginning zero t = record { rest = t; split = refl }
take-IsBeginning (suc n) [] = record { rest = []; split = refl }
take-IsBeginning (suc n) (c ∷ t) =
    let part = take-IsBeginning n t in
    record { rest = part.rest; split = ap (λ (s : Text). c ∷ s) part.split }

replace-same : (t : Text) → any is_slash (replace b'\\' b'/' t) ≡ false → replace b'\\' b'/' t ≡ t
replace-same [] h = refl
replace-same (c ∷ t) h = ground (arith, replace-same t)

-- The last segment is an end of the text itself: no separator in it was replaced.
record IsEnd (t : Text) : Type 0 where
  before : Text
  split : t ≡ before ++ last_segment (replace b'\\' b'/' t)

last_segment-IsEnd : (t : Text) → IsEnd t
unfolding last_segment
last_segment-IsEnd [] = record { before = []; split = refl }
last_segment-IsEnd (c ∷ t) = elim (Bool-cases (any is_slash (replace b'\\' b'/' t))) [
  | inl later ↦
      let rest = last_segment-IsEnd t in
      record { before = c ∷ rest.before; split = rw later (ap (λ (s : Text). c ∷ s) rest.split) }
  | inr here ↦ elim (Bool-cases (is_slash (if c == b'\\' then b'/' else c))) [
    | inl slash ↦ record {
      before = c ∷ [];
      split = rw (here, slash) (ap (λ (s : Text). c ∷ s) (sym (replace-same t here)));
    }
    | inr other ↦ record {
      before = [];
      split = rw (here, other) (ground (arith, replace-same t here));
    }
  ]
]

module _ (ext : Externals) (laws : IsUnicode ext) where
  strip-IsNfc : (t : Text) → IsNfc ext t → IsNfc ext (strip ext t)
  strip-IsNfc t h =
      let part = strip-IsMiddle ext t in
      laws.nfc_beginning (strip ext t) part.after
        (laws.nfc_end part.before (strip ext t ++ part.after) (subst (IsNfc ext) part.split h))

  take-IsNfc : (n : ℕ) (t : Text) → IsNfc ext t → IsNfc ext (take n t)
  take-IsNfc n t h =
      let part = take-IsBeginning n t in
      laws.nfc_beginning (take n t) part.rest (subst (IsNfc ext) part.split h)

  segment-IsNfc : (t : Text) → IsNfc ext t → IsNfc ext (last_segment (replace b'\\' b'/' t))
  segment-IsNfc t h =
      let part = last_segment-IsEnd t in
      laws.nfc_end part.before (last_segment (replace b'\\' b'/' t))
        (subst (IsNfc ext) part.split h)

  cleaned-step :
      (a : Text) (c : ℕ) (t : Text) → IsNfc ext (a ++ c ∷ t) → IsNfc ext (a ++ cleaned ext c ∷ t)
  cleaned-step a c t h = elim (Bool-cases (is_forbidden_filename_char ext c)) [
    | inl bad ↦ rw bad (laws.nfc_underscore a t c h)
    | inr fine ↦ rw fine h
  ]

  cleaned-IsNfc : (a t : Text) → IsNfc ext (a ++ t) → IsNfc ext (a ++ map (cleaned ext) t)
  cleaned-IsNfc a [] h = h
  cleaned-IsNfc a (c ∷ t) h =
      subst (IsNfc ext) (append_assoc a (cleaned ext c ∷ []) (map (cleaned ext) t)) (
        cleaned-IsNfc (a ++ cleaned ext c ∷ []) t
          (subst (IsNfc ext) (sym (append_assoc a (cleaned ext c ∷ []) t)) (cleaned-step a c t h)))

  trimmed-IsNfc : (t : Text) → IsNfc ext t → IsNfc ext (trimmed ext t)
  unfolding trimmed
  trimmed-IsNfc t h =
      strip-IsNfc (take max_filename_length (strip ext t))
        (take-IsNfc max_filename_length (strip ext t) (strip-IsNfc t h))

  abbrev is_bad : ℕ → Bool
  is_bad c = is_forbidden_filename_char ext c

  cleaned-fine : (t : Text) → any is_bad (map (cleaned ext) t) ≡ false
  cleaned-fine [] = refl
  cleaned-fine (c ∷ t) = ground (arith, laws.underscore_other, cleaned-fine t)

  strip-fine : (t : Text) → any is_bad t ≡ false → any is_bad (strip ext t) ≡ false
  strip-fine t h =
      let part = strip-IsMiddle ext t in
      ground (
        arith,
        ap (any is_bad) part.split,
        any-append is_bad part.before (strip ext t ++ part.after),
        any-append is_bad (strip ext t) part.after,
      )

  trimmed-fine : (t : Text) → any is_bad t ≡ false → any is_bad (trimmed ext t) ≡ false
  unfolding trimmed
  trimmed-fine t h =
      strip-fine (take max_filename_length (strip ext t))
        (any-take is_bad max_filename_length (strip ext t) (strip-fine t h))

  length-strip-le : (t : Text) → length (strip ext t) ≤ length t
  length-strip-le t =
      let part = strip-IsMiddle ext t in
      omega (
        arith,
        ap length part.split,
        length-append part.before (strip ext t ++ part.after),
        length-append (strip ext t) part.after,
      )

  length-trimmed-le : (t : Text) → length (trimmed ext t) ≤ max_filename_length
  unfolding trimmed
  length-trimmed-le t = omega (
    arith,
    length-strip-le (take max_filename_length (strip ext t)),
    length-take-le max_filename_length (strip ext t),
  )

  strip-trimmed : (t : Text) → strip ext (trimmed ext t) ≡ trimmed ext t
  unfolding trimmed
  strip-trimmed t = strip-strip ext (take max_filename_length (strip ext t))

  -- A trimmed name in NFC without forbidden characters passes, unless it is only dots.
  trimmed-valid :
      (t : Text)
      → IsNfc ext t
      → any is_bad t ≡ false
      → only_dots_in (trimmed ext t) ≡ false
      → validate_filename ext (trimmed ext t) ≡ valid (trimmed ext t)
  unfolding validate_filename
  trimmed-valid t nfc fine dots =
      rw (trimmed-IsNfc t nfc, strip-trimmed t, dots)
        (ground (arith, trimmed-fine t fine, length-trimmed-le t))

  strip-fallback : strip ext fallback_filename ≡ fallback_filename
  unfolding strip
  strip-fallback =
      rw
        (
          lstrip-starts ext b'f' (codes "ile") (laws.letter b'f' (omega arith) (omega arith)).0,
          lstrip-starts ext b'e' (codes "lif") (laws.letter b'e' (omega arith) (omega arith)).0,
        )
        refl

  fallback-valid : validate_filename ext fallback_filename ≡ valid fallback_filename
  unfolding validate_filename
  fallback-valid =
      rw (laws.nfc_ascii fallback_filename (ground arith), strip-fallback)
        (ground (arith, laws.letter b'f', laws.letter b'i', laws.letter b'l', laws.letter b'e'))

  -- Whatever name is rewritten, the result passes the check of a typed name and is not changed by
  -- it, given what Unicode says of normalisation.
  pub validate_filename-sanitize_filename :
      (value : Option Text)
      → validate_filename ext (sanitize_filename ext value) ≡ valid (sanitize_filename ext value)
  unfolding sanitize_filename
  validate_filename-sanitize_filename value =
      let typed = strip ext (ext.nfc (or_empty value)) in
      let segment = last_segment (replace b'\\' b'/' typed) in
      let clean = map (cleaned ext) segment in
      let nfc = cleaned-IsNfc [] segment (
        segment-IsNfc typed
          (strip-IsNfc (ext.nfc (or_empty value)) (laws.nfc_nfc (or_empty value)))) in
      elim (Bool-cases (only_dots_in (trimmed ext clean))) [
        | inl dots ↦ rw dots fallback-valid
        | inr named ↦ rw named (trimmed-valid clean nfc (cleaned-fine segment) named)
      ]

  checked-same : (t name : Text) → checked ext t ≡ valid name → t ≡ name
  checked-same t name h = ground arith

  -- A name that was accepted is accepted again and unchanged: what is stored can be sent back.
  pub validate_filename_again :
      (value name : Text)
      → validate_filename ext value ≡ valid name
      → validate_filename ext name ≡ valid name
  unfolding validate_filename
  validate_filename_again value name h =
      let typed = strip ext (ext.nfc value) in
      let same = checked-same typed name h in
      let again : checked ext (strip ext (ext.nfc typed)) ≡ valid name =
        rw (strip-IsNfc (ext.nfc value) (laws.nfc_nfc value), strip-strip ext (ext.nfc value)) h in
      subst (λ (s : Text). checked ext (strip ext (ext.nfc s)) ≡ valid name) same again
