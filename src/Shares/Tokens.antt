-- ===== src/Shares/Tokens.antt =====
-- `_sign` and `_verify` of media_service/controllers/shares.py.
use mathlib.Core.Path.{subst}
use media_service_m.Prelude.{
  ℕ, Bool, true, false, ◌&&◌, ◌∙◌, all, List, [], ◌∷◌, ◌++◌, ◌==◌, ◌≡◌, ◌≢◌, ap, ◌⊎◌, inl, inr,
  refl, arith, if◌then◌else◌, some, Option-cases, Bool-cases, All, Text, text_eq_iff, text_eq_refl,
}
use media_service_m.Effect.{Result, type_error, ok, err, Result-cases, Error, http, share_not_found}
use media_service_m.Shares.{
  Signer, cons_part, split, sign, verify, of_parts, compared, is_ascii, compare_digest, matched,
}

abbrev IsNoDot : ℕ → Type 0
IsNoDot c = (c == b'.') ≡ false

-- `uuid.UUID(hex=token_id.hex)` is the id, neither a hexadecimal text nor base64 has a dot, and base64
-- is ASCII.
pub record IsSigner (signer : Signer) : Type 0 where
  pub parse-hex : (k : ℕ) → signer.parse (signer.hex k) ≡ some k
  pub hex_no_dot : (k : ℕ) → All IsNoDot (signer.hex k)
  pub digest_no_dot : (t : Text) → All IsNoDot (signer.digest t)
  pub digest_ascii : (t : Text) → all is_ascii (signer.digest t) ≡ true

split-no_dot : (t : Text) → All IsNoDot t → split b'.' t ≡ t ∷ []
unfolding split
split-no_dot [] h = refl
split-no_dot (c ∷ t) h = rw (h.0, split-no_dot t h.1) refl

split-dot : (s t : Text) → All IsNoDot s → All IsNoDot t → split b'.' (s ++ b'.' ∷ t) ≡ s ∷ t ∷ []
unfolding split
split-dot [] t h k = rw (split-no_dot t k) refl
split-dot (c ∷ s) t h k = rw (h.0, split-dot s t h.1 k) refl

-- A token that the service signed verifies to the id that it was signed for.
pub verify-sign : (signer : Signer) (k : ℕ) → IsSigner signer → verify signer (sign signer k) ≡ ok k
unfolding verify sign
verify-sign signer k laws =
    let text = signer.digest (signer.hex k) in
    rw
      (
        split-dot (signer.hex k) text (laws.hex_no_dot k) (laws.digest_no_dot (signer.hex k)),
        laws.parse-hex k,
        laws.digest_ascii (signer.hex k),
        text_eq_refl text,
      )
      refl

-- `separator.join(parts)`.
abbrev join : ℕ → List Text → Text
join separator [] = []
join separator (part ∷ []) = part
join separator (part ∷ next ∷ parts) = part ++ separator ∷ join separator (next ∷ parts)

join-cons_part :
    (separator c : ℕ) (parts : List Text)
    → join separator (cons_part c parts) ≡ c ∷ join separator parts
join-cons_part separator c [] = refl
join-cons_part separator c (part ∷ []) = refl
join-cons_part separator c (part ∷ next ∷ parts) = refl

split-ne_nil : (separator : ℕ) (t : Text) → split separator t ≢ []
unfolding split
split-ne_nil separator [] h = cc
split-ne_nil separator (c ∷ t) h = elim (Bool-cases (c == separator)) [
  | inl here ↦ cc (
      subst
        (λ (x : Bool). (if x then [] ∷ split separator t else cons_part c (split separator t)) ≡ [])
        here h)
  | inr later ↦ cons_part-ne_nil c (split separator t) (
      subst
        (λ (x : Bool). (if x then [] ∷ split separator t else cons_part c (split separator t)) ≡ [])
        later h)
]
  where
    cons_part-ne_nil : (c : ℕ) (parts : List Text) → cons_part c parts ≢ []
    cons_part-ne_nil c [] h = cc
    cons_part-ne_nil c (part ∷ parts) h = cc

join_after :
    (separator : ℕ) (parts : List Text)
    → parts ≢ []
    → join separator ([] ∷ parts) ≡ separator ∷ join separator parts
join_after separator [] h = absurd (h refl)
join_after separator (part ∷ parts) h = refl

join-split : (separator : ℕ) (t : Text) → join separator (split separator t) ≡ t
unfolding split
join-split separator [] = refl
join-split separator (c ∷ t) = elim (Bool-cases (c == separator)) [
  | inl here ↦
      rw
        (
          here,
          join_after separator (split separator t) (split-ne_nil separator t),
          join-split separator t,
        )
        (ground arith)
  | inr later ↦
      rw (later, join-cons_part separator c (split separator t), join-split separator t) refl
]

-- What the id was read from, and the token as it was presented.
abbrev pub IsSigned : Signer → Text → ℕ → Type 0
IsSigned signer token k =
    (raw : Text) × (token ≡ raw ++ b'.' ∷ signer.digest (signer.hex k))
    × (signer.parse raw ≡ some k)

-- The two texts of a comparison that answered yes are one.
compare_digest-true : (a b : Text) → compare_digest a b ≡ ok true → a ≡ b
compare_digest-true a b h = elim (Bool-cases (all is_ascii a && all is_ascii b)) [
  | inr foreign ↦ absurd (ground arith)
  | inl ascii ↦ (text_eq_iff a b).0 (ground arith)
]

-- A comparison that raised had a text that is not ASCII.
compare_digest-err :
    (a b : Text) (e : Error)
    → compare_digest a b ≡ err e
    → (e ≡ http 500 type_error) × ((all is_ascii a && all is_ascii b) ≡ false)
compare_digest-err a b e h = elim (Bool-cases (all is_ascii a && all is_ascii b)) [
  | inr foreign ↦ (ground arith, foreign)
  | inl ascii ↦ absurd (ground arith)
]

matched-ok : (j k : ℕ) (r : Result Bool) → matched j r ≡ ok k → (r ≡ ok true) × (j ≡ k)
matched-ok j k (ok true) h = (refl, ground arith)
matched-ok j k (ok false) h = absurd (ground arith)
matched-ok j k (err e) h = absurd (ground arith)

compared-ok :
    (signer : Signer) (raw signature : Text) (k : ℕ)
    → compared signer signature (signer.parse raw) ≡ ok k
    → (signer.parse raw ≡ some k) × (signature ≡ signer.digest (signer.hex k))
compared-ok signer raw signature k h = elim (Option-cases (signer.parse raw)) [
  | inl bad ↦ absurd (ground arith)
  | inr (j, e) ↦
      let expected = signer.digest (signer.hex j) in
      let (answer, same) = matched-ok j k (compare_digest signature expected) (rw e at h) in
      let equal : signature ≡ expected = compare_digest-true signature expected answer in
      (e ∙ ap (λ (i : ℕ). some i) same, equal ∙ ap (λ (i : ℕ). signer.digest (signer.hex i)) same)
]

of_parts-ok :
    (signer : Signer) (parts : List Text) (k : ℕ)
    → of_parts signer parts ≡ ok k
    → IsSigned signer (join b'.' parts) k
of_parts-ok signer [] k h = absurd (ground arith)
of_parts-ok signer (_ ∷ []) k h = absurd (ground arith)
of_parts-ok signer (_ ∷ _ ∷ _ ∷ _) k h = absurd (ground arith)
of_parts-ok signer (raw ∷ signature ∷ []) k h =
    let (read, same) = compared-ok signer raw signature k h in
    (raw, ap (λ (t : Text). raw ++ b'.' ∷ t) same, read)

-- A token whose first part is an id and whose signature is not ASCII.
abbrev pub IsUncomparable : Signer → Text → Type 0
IsUncomparable signer token =
    (raw : Text) × (signature : Text) × (k : ℕ) × (token ≡ raw ++ b'.' ∷ signature)
    × (signer.parse raw ≡ some k)
    × (all is_ascii signature ≡ false)

-- How a token is refused: with a 404, or by a comparison that raises.
abbrev pub IsRefused : Signer → Text → Error → Type 0
IsRefused signer token e =
    (e ≡ http 404 share_not_found) ⊎ ((e ≡ http 500 type_error) × IsUncomparable signer token)

matched-err :
    (j : ℕ) (r : Result Bool) (e : Error)
    → matched j r ≡ err e
    → (e ≡ http 404 share_not_found) ⊎ (r ≡ err e)
matched-err j (ok true) e h = absurd (ground arith)
matched-err j (ok false) e h = inl (ground arith)
matched-err j (err x) e h = inr (ground arith)

of_parts-err :
    (signer : Signer) (parts : List Text) (e : Error)
    → IsSigner signer
    → of_parts signer parts ≡ err e
    → IsRefused signer (join b'.' parts) e
of_parts-err signer [] e laws h = inl (ground arith)
of_parts-err signer (_ ∷ []) e laws h = inl (ground arith)
of_parts-err signer (_ ∷ _ ∷ _ ∷ _) e laws h = inl (ground arith)
of_parts-err signer (raw ∷ signature ∷ []) e laws h = elim (Option-cases (signer.parse raw)) [
  | inl bad ↦ inl (ground arith)
  | inr (k, read) ↦
      let expected = signer.digest (signer.hex k) in
      elim (matched-err k (compare_digest signature expected) e (rw read at h)) [
        | inl unequal ↦ inl unequal
        | inr raised ↦
            let (kind, foreign) = compare_digest-err signature expected e raised in
            let not_ascii : all is_ascii signature ≡ false =
              ground (arith, laws.digest_ascii (signer.hex k), foreign) in
            inr (kind, (raw, signature, k, refl, read, not_ascii))
      ]
]

-- A token that verifies to an id carries the service's own digest of that id. Every other one gets
-- the same 404, or a 500 from the comparison, this only where its first part is an id and its
-- signature is not ASCII. The service's digests are ASCII.
pub verify-IsSigned :
    (signer : Signer) (token : Text)
    → IsSigner signer
    → ((k : ℕ) × (verify signer token ≡ ok k) × IsSigned signer token k)
      ⊎ ((e : Error) × (verify signer token ≡ err e) × IsRefused signer token e)
unfolding verify
verify-IsSigned signer token laws = elim (Result-cases (verify signer token)) [
  | inl (k, h) ↦ inl (
    k,
    h,
    subst (λ (t : Text). IsSigned signer t k) (join-split b'.' token)
        (of_parts-ok signer (split b'.' token) k h),
  )
  | inr (e, h) ↦ inr (
    e,
    h,
    subst (λ (t : Text). IsRefused signer t e) (join-split b'.' token)
        (of_parts-err signer (split b'.' token) e laws h),
  )
]
