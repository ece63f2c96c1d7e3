-- ===== src/Model/Table.antt =====
-- A table of the database: `session.get`, `session.exec(select(…)).first()`, `session.add` of a
-- changed row and `session.delete`, over rows picked by a Boolean test such as a key comparison.
use media_service_m.Prelude.{
  ℕ, Bool, true, false, Option, none, some, List, [], ◌∷◌, ◌++◌, ◌+◌, ◌≡◌, refl, arith,
  if◌then◌else◌, sum_by, In, ◌⊎◌,
}

module _ {R : Type 0} where
  abbrev pub find_row : (R → Bool) → List R → Option R
  find_row p [] = none
  find_row p (r ∷ rows) = if p r then some r else find_row p rows

  -- The changed row takes the place of the one it was read from; a new row goes to the end.
  abbrev pub save_row : (R → Bool) → R → List R → List R
  save_row p r [] = r ∷ []
  save_row p r (x ∷ rows) = let rest = save_row p r rows in if p x then r ∷ rows else x ∷ rest

  -- `DELETE … WHERE`: every row that passes goes.
  abbrev pub delete_row : (R → Bool) → List R → List R
  delete_row p [] = []
  delete_row p (x ∷ rows) = let rest = delete_row p rows in if p x then rest else x ∷ rest

  pub find_row-passes :
      (p : R → Bool) (rows : List R) (r : R) → find_row p rows ≡ some r → p r ≡ true
  find_row-passes p [] r h = ground arith
  find_row-passes p (x ∷ rows) r h = ground (arith, find_row-passes p rows r)

  pub find_row-save_row_self :
      (p : R → Bool) (r : R) (rows : List R) → p r ≡ true → find_row p (save_row p r rows) ≡ some r
  find_row-save_row_self p r [] h = ground arith
  find_row-save_row_self p r (x ∷ rows) h = ground (arith, find_row-save_row_self p r rows h)

  -- A row saved under one test leaves what another, disjoint test finds.
  pub find_row-save_row_other :
      (p q : R → Bool) (r : R) (rows : List R)
      → ((x : R) → p x ≡ true → q x ≡ false)
      → q r ≡ false
      → find_row q (save_row p r rows) ≡ find_row q rows
  find_row-save_row_other p q r [] apart h = ground arith
  find_row-save_row_other p q r (x ∷ rows) apart h =
      ground (arith, apart x, find_row-save_row_other p q r rows apart h)

  pub find_row-append_some :
      (p : R → Bool) (rows more : List R) (r : R)
      → find_row p rows ≡ some r
      → find_row p (rows ++ more) ≡ some r
  find_row-append_some p [] more r h = ground arith
  find_row-append_some p (x ∷ rows) more r h = ground (arith, find_row-append_some p rows more r)

  pub find_row-append_none :
      (p : R → Bool) (rows more : List R)
      → find_row p rows ≡ none
      → find_row p (rows ++ more) ≡ find_row p more
  find_row-append_none p [] more h = refl
  find_row-append_none p (x ∷ rows) more h = ground (arith, find_row-append_none p rows more)

  -- Replacing a row moves a total by the difference of the weights.
  pub sum_by-save_row :
      (f : R → ℕ) (p : R → Bool) (r old : R) (rows : List R)
      → find_row p rows ≡ some old
      → sum_by f (save_row p r rows) + f old ≡ sum_by f rows + f r
  sum_by-save_row f p r old [] h = ground arith
  sum_by-save_row f p r old (x ∷ rows) h = ground (arith, sum_by-save_row f p r old rows)

  pub find_row-delete_row :
      (p q : R → Bool) (rows : List R)
      → ((x : R) → q x ≡ true → p x ≡ true)
      → find_row q (delete_row p rows) ≡ none
  find_row-delete_row p q [] h = refl
  find_row-delete_row p q (x ∷ rows) h = ground (arith, h x, find_row-delete_row p q rows h)

  pub In-save_row :
      (x : R) (p : R → Bool) (r : R) (rows : List R)
      → In x (save_row p r rows)
      → (x ≡ r) ⊎ In x rows
  In-save_row x p r [] h = h
  In-save_row x p r (y ∷ rows) h = ground (arith, In-save_row x p r rows)

  pub In-delete_row : (x : R) (p : R → Bool) (rows : List R) → In x (delete_row p rows) → In x rows
  In-delete_row x p [] h = h
  In-delete_row x p (y ∷ rows) h = ground (arith, In-delete_row x p rows)

  pub In-find_row : (p : R → Bool) (rows : List R) (r : R) → find_row p rows ≡ some r → In r rows
  In-find_row p [] r h = cc
  In-find_row p (x ∷ rows) r h = ground (arith, In-find_row p rows r)

  -- Nothing that passes is missed.
  pub find_row-In-none :
      (p : R → Bool) (rows : List R) (x : R) → find_row p rows ≡ none → In x rows → p x ≡ false
  find_row-In-none p [] x h m = absurd m
  find_row-In-none p (y ∷ rows) x h m = ground (arith, find_row-In-none p rows x)
