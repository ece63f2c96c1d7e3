-- ===== src/Validation/Mime.antt =====
-- The content-type check of media_service/core/validation.py.
use mathlib.Core.Path.{subst}
use media_service_m.Prelude.{
  true, false, some, ◌≡◌, ◌⊎◌, arith, Text, text_eq, text_eq_iff, text_elem, Bool-cases, inl, inr,
}
use media_service_m.Validation.{media_majors, is_allowed_declared_mime, major, mime_consistent}

module _ (declared : Text) where
  -- Recognised bytes pass only under a type of the allowlist: the very type that they were recognised
  -- as, or another type of its family if that is images, video or audio.
  pub mime_consistent-recognised :
      (sniffed : Text)
      → mime_consistent declared (some sniffed) ≡ true
      → (is_allowed_declared_mime declared ≡ true)
        × ((declared ≡ sniffed)
            ⊎ ((major declared ≡ major sniffed) × (text_elem (major sniffed) media_majors ≡ true)))
  unfolding mime_consistent
  mime_consistent-recognised s h = (
    ground arith,
    elim (Bool-cases (text_eq declared s)) [
      | inl same ↦ inl ((text_eq_iff declared s).0 same)
      | inr other ↦ inr (
        same_family other,
        subst (λ m. text_elem m media_majors ≡ true) (same_family other) (ground arith),
      )
    ],
  )
    where
      same_family : text_eq declared s ≡ false → major declared ≡ major s
      same_family other = ground (arith, text_eq_iff (major declared) (major s))
