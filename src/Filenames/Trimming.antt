-- ===== src/Filenames/Trimming.antt =====
-- `str.strip` as the file-name policy uses it.
use mathlib.Core.List.{reverse, reverse-append, reverse-reverse}
use media_service_m.Prelude.{
  ℕ, ◌≤◌, true, false, [], ◌∷◌, ◌++◌, ◌≡◌, refl, sym, ap, ◌∙◌, arith, Bool-cases, inl, inr, length,
  length-append, Text,
}
use media_service_m.Model.Store.{Externals}
use media_service_m.Keys.{lstrip, strip}

module _ (ext : Externals) where
  -- The spaces that are taken off at the left.
  record IsLeftPart (t : Text) : Type 0 where
    spaces : Text
    split : t ≡ spaces ++ lstrip ext t

  lstrip-IsLeftPart : (t : Text) → IsLeftPart t
  unfolding lstrip
  lstrip-IsLeftPart [] = record { spaces = []; split = refl }
  lstrip-IsLeftPart (c ∷ t) = elim (Bool-cases (ext.is_space c)) [
    | inl space ↦
        let rest = lstrip-IsLeftPart t in
        record { spaces = c ∷ rest.spaces; split = rw space (ap (λ (s : Text). c ∷ s) rest.split) }
    | inr other ↦ record { spaces = []; split = rw other refl }
  ]

  length-lstrip-le : (t : Text) → length (lstrip ext t) ≤ length t
  length-lstrip-le t =
      let part = lstrip-IsLeftPart t in
      omega (arith, ap length part.split, length-append part.spaces (lstrip ext t))

  lstrip-lstrip : (t : Text) → lstrip ext (lstrip ext t) ≡ lstrip ext t
  unfolding lstrip
  lstrip-lstrip [] = refl
  lstrip-lstrip (c ∷ t) = elim (Bool-cases (ext.is_space c)) [
    | inl space ↦ rw space (lstrip-lstrip t)
    | inr other ↦ rw (other, other) refl
  ]

  -- A text that loses nothing at the left starts with no space.
  lstrip-space : (c : ℕ) (t : Text) → ext.is_space c ≡ true → lstrip ext (c ∷ t) ≡ lstrip ext t
  unfolding lstrip
  lstrip-space c t h = rw h refl

  lstrip-fixed : (c : ℕ) (t : Text) → lstrip ext (c ∷ t) ≡ c ∷ t → ext.is_space c ≡ false
  lstrip-fixed c t h = elim (Bool-cases (ext.is_space c)) [
    | inr other ↦ other
    | inl space ↦
        absurd (omega (arith, length-lstrip-le t, ap length (sym (lstrip-space c t space) ∙ h)))
  ]

  pub lstrip-starts : (c : ℕ) (t : Text) → ext.is_space c ≡ false → lstrip ext (c ∷ t) ≡ c ∷ t
  unfolding lstrip
  lstrip-starts c t h = rw h refl

  -- A beginning of such a text loses nothing at the left either.
  lstrip-beginning : (s p : Text) → lstrip ext (s ++ p) ≡ s ++ p → lstrip ext s ≡ s
  unfolding lstrip
  lstrip-beginning [] p h = refl
  lstrip-beginning (c ∷ s) p h = lstrip-starts c s (lstrip-fixed c (s ++ p) h)

  -- What stripping leaves, beside what it takes off on either side.
  pub record IsMiddle (t : Text) : Type 0 where
    pub before : Text
    pub after : Text
    pub split : t ≡ before ++ (strip ext t ++ after)

  abbrev from_left : Text → Text
  from_left t = lstrip ext t

  abbrev backwards : Text → Text
  backwards t = lstrip ext (reverse (from_left t))

  -- The text that is left at the left, cut at its right end.
  from_left-split :
      (t : Text)
      → let part = lstrip-IsLeftPart (reverse (from_left t)) in
        from_left t ≡ reverse (backwards t) ++ reverse part.spaces
  from_left-split t =
      let part = lstrip-IsLeftPart (reverse (from_left t)) in
      sym (reverse-reverse (from_left t))
      ∙ ap reverse part.split
      ∙ reverse-append part.spaces (backwards t)

  pub strip-IsMiddle : (t : Text) → IsMiddle t
  unfolding strip
  strip-IsMiddle t =
      let part = lstrip-IsLeftPart (reverse (from_left t)) in
      let left = lstrip-IsLeftPart t in
      record {
        before = left.spaces;
        after = reverse part.spaces;
        split = left.split ∙ ap (λ (s : Text). left.spaces ++ s) (from_left-split t);
      }

  -- Stripping twice is stripping once.
  pub strip-strip : (t : Text) → strip ext (strip ext t) ≡ strip ext t
  unfolding strip
  strip-strip t =
      let b = backwards t in
      let part = lstrip-IsLeftPart (reverse (from_left t)) in
      let fixed = lstrip-lstrip t in
      let split = from_left-split t in
      let starts =
        lstrip-beginning (reverse b) (reverse part.spaces)
          (ap (lstrip ext) (sym split) ∙ fixed ∙ split) in
      let ends = lstrip-lstrip (reverse (from_left t)) in
      ap (λ (s : Text). reverse (lstrip ext (reverse s))) starts
      ∙ ap (λ (s : Text). reverse (lstrip ext s)) (reverse-reverse b)
      ∙ ap reverse ends
