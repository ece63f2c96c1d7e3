-- ===== src/Listing/Like.antt =====
-- SQL `LIKE` over code points, with its default escape, and `contains(…, autoescape=True)`.
use media_service_m.Prelude.{ℕ, Bool, true, false, ◌&&◌, ◌||◌, [], ◌∷◌, ◌==◌, if◌then◌else◌, Text}

-- Whether some rest of the text passes.
abbrev some_suffix : (Text → Bool) → Text → Bool
some_suffix p [] = p []
some_suffix p (c ∷ t) = p (c ∷ t) || some_suffix p t

abbrev then_rest : (ℕ → Bool) → (Text → Bool) → Text → Bool
then_rest one rest [] = false
then_rest one rest (c ∷ t) = one c && rest t

-- Whether the whole text is as the pattern says: `%` is any text, `_` any character, and what
-- follows `\` is itself.
unfoldable pub like : Text → Text → Bool
like [] [] = true
like [] (c ∷ t) = false
like (p ∷ []) t =
    if p == b'%'
    then true
    else then_rest (λ c. p == b'_' || c == p) (λ rest. elim rest [ [] ↦ true | _ ↦ false ]) t
like (p ∷ q ∷ pattern) t =
    let rest = like (q ∷ pattern) in
    let after_escape = then_rest (λ c. c == q) (like pattern) t in
    if p == b'%'
    then some_suffix rest t
    else if p == b'\\'
    then after_escape
    else then_rest (λ c. p == b'_' || c == p) rest t

abbrev starts_with : Text → Text → Bool
starts_with [] t = true
starts_with (c ∷ s) [] = false
starts_with (c ∷ s) (b ∷ t) = c == b && starts_with s t

-- The escaped term is a plain substring.
unfoldable pub contains : Text → Text → Bool
contains q t = some_suffix (starts_with q) t
