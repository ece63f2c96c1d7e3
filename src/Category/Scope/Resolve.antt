-- ===== src/Category/Scope/Resolve.antt =====
-- The strict and the lenient resolver of media_service/controllers/category.py.
use mathlib.Core.Path.{subst}
use media_service_m.Prelude.{
  ℕ, Bool, true, ◌&&◌, none, some, List, [], ◌∷◌, map, ◌≡◌, refl, inl, inr, arith, filter, elem,
  All, Option-cases, ==-refl, not, no_repeats, ap,
}
use media_service_m.Effect.{Result, ok, err}
use media_service_m.Model.Rows.{Category, Db, UserModel, category_is}
use media_service_m.Model.Table.{find_row, find_row-passes}
use media_service_m.Category.Walk.{category_id}
use media_service_m.Category.Scope.{
  scoped_query, in_scope, find_category, load_category, unique_ids, wanted_rows, resolve_each,
  resolve_category_ids, keep_found, categories_in_scope, cons_result, found_or_load, unique_loop,
}

-- The query and the test on a row in hand are one scope.
pub scoped_query-in_scope : (u : UserModel) (row : Category) → scoped_query u row ≡ in_scope u row
unfolding scoped_query in_scope
scoped_query-in_scope u row = ground arith

find_row-filter :
    (k : ℕ) (p : Category → Bool) (rows : List Category) (row : Category)
    → find_row (category_is k) (filter p rows) ≡ some row
    → (p row ≡ true) × (row.id ≡ k)
find_row-filter k p [] row h = cc
find_row-filter k p (r ∷ rows) row h = ground (arith, find_row-filter k p rows row)

pub load_category-in_scope :
    (u : UserModel) (k : ℕ) (d : Db) (row : Category)
    → load_category u k d ≡ ok row
    → (in_scope u row ≡ true) × (row.id ≡ k) × (find_category k d ≡ some row)
unfolding load_category
load_category-in_scope u k d row h = elim (Option-cases (find_category k d)) [
  | inl missing ↦ ground arith
  | inr (r, e) ↦ ground (arith, find_row-passes (category_is k) d.categories r e)
]

cons_result-eq-ok :
    (a : Result Category) (b : Result (List Category)) (rows : List Category)
    → cons_result a b ≡ ok rows
    → (row : Category) × (rest : List Category) × (a ≡ ok row) × (b ≡ ok rest) × (rows ≡ row ∷ rest)
cons_result-eq-ok (err e) b rows h = cc
cons_result-eq-ok (ok row) (err e) rows h = cc
cons_result-eq-ok (ok row) (ok rest) rows h = (row, rest, refl, refl, ground arith)

find_row-filter-some :
    (k : ℕ) (p : Category → Bool) (rows : List Category) (row : Category)
    → find_row (category_is k) rows ≡ some row
    → p row ≡ true
    → find_row (category_is k) (filter p rows) ≡ some row
find_row-filter-some k p [] row h hp = cc
find_row-filter-some k p (r ∷ rows) row h hp = ground (arith, find_row-filter-some k p rows row)

-- What `found[category_id]` holds once the loop has passed: a row in scope that the query found.
found_or_load-ok :
    (u : UserModel) (d : Db) (all : List ℕ) (k : ℕ) (row : Category)
    → elem k all ≡ true
    → found_or_load u d k (find_row (category_is k) (wanted_rows u all d)) ≡ ok row
    → (in_scope u row ≡ true)
      × (row.id ≡ k)
      × (find_row (category_is k) (wanted_rows u all d) ≡ some row)
found_or_load-ok u d all k row hk h =
    elim (Option-cases (find_row (category_is k) (wanted_rows u all d))) [
      | inl missed ↦ absurd (not_missed missed)
      | inr (r, e) ↦
          ground (arith, find_row-filter k in_query d.categories r e, scoped_query-in_scope u r)
    ]
  where
    in_query : Category → Bool
    in_query row = scoped_query u row && elem row.id all

    not_missed : find_row (category_is k) (wanted_rows u all d) ≡ none → ⊥
    not_missed missed =
        let loaded =
          load_category-in_scope u k d row (subst (λ o. found_or_load u d k o ≡ ok row) missed h) in
        cc (
          missed,
          find_row-filter-some k in_query d.categories row loaded.2
              (ground (arith, loaded, scoped_query-in_scope u row)),
        )

-- The ids from `wanted` on are resolved one for one, and the lenient loop agrees.
abbrev IsResolved : UserModel → List Category → List ℕ → List Category → Type 0
IsResolved u found wanted rows =
    (map category_id rows ≡ wanted)
    × All (λ row. in_scope u row ≡ true) rows
    × (keep_found found wanted ≡ rows)

resolve_each-IsResolved :
    (u : UserModel) (d : Db) (all wanted : List ℕ) (rows : List Category)
    → ((k : ℕ) → elem k wanted ≡ true → elem k all ≡ true)
    → resolve_each u d (wanted_rows u all d) wanted ≡ ok rows
    → IsResolved u (wanted_rows u all d) wanted rows
unfolding resolve_each keep_found
resolve_each-IsResolved u d all [] rows sub h = (ground arith, ground arith, ground arith)
resolve_each-IsResolved u d all (k ∷ wanted) rows sub h =
    let step =
      cons_result-eq-ok (found_or_load u d k (find_row (category_is k) (wanted_rows u all d)))
        (resolve_each u d (wanted_rows u all d) wanted) rows h in
    let one = found_or_load-ok u d all k step.0 (sub k (ground (arith, ==-refl k))) step.2 in
    let rest =
      resolve_each-IsResolved u d all wanted step.1 (λ j hj. sub j (ground arith)) step.3 in
    (
      ground (arith, one, rest, step),
      ground (arith, one, rest, step),
      ground (arith, one, rest, step),
    )

elem-unique_loop :
    (k : ℕ) (seen ids : List ℕ) → elem k (unique_loop seen ids) ≡ (elem k ids && not (elem k seen))
unfolding unique_loop
elem-unique_loop k seen [] = refl
elem-unique_loop k seen (j ∷ ids) =
    ground (arith, elem-unique_loop k (j ∷ seen) ids, elem-unique_loop k seen ids)

unique_loop-no_repeats : (seen ids : List ℕ) → no_repeats (unique_loop seen ids) ≡ true
unfolding unique_loop
unique_loop-no_repeats seen [] = refl
unique_loop-no_repeats seen (j ∷ ids) = ground (
  arith,
  unique_loop-no_repeats (j ∷ seen) ids,
  unique_loop-no_repeats seen ids,
  elem-unique_loop j (j ∷ seen) ids,
  ==-refl j,
)

-- A filing that is accepted holds exactly the ids that were asked for, each once, every one a row in
-- the caller's scope; and the lenient resolver, asked for the same ids, gives the same rows.
pub resolve_category_ids-in_scope :
    (u : UserModel) (ids : List ℕ) (d : Db) (rows : List Category)
    → resolve_category_ids u ids d ≡ ok rows
    → ((k : ℕ) → elem k (map category_id rows) ≡ elem k ids)
      × (no_repeats (map category_id rows) ≡ true)
      × All (λ row. in_scope u row ≡ true) rows
      × (categories_in_scope u ids d ≡ rows)
unfolding resolve_category_ids categories_in_scope unique_ids
resolve_category_ids-in_scope u ids d rows h =
    let done = resolve_each-IsResolved u d (unique_ids ids) (unique_ids ids) rows (λ k hk. hk) h in
    (
      λ k. ground (arith, ap (elem k) done.0, elem-unique_loop k [] ids),
      ground (arith, ap no_repeats done.0, unique_loop-no_repeats [] ids),
      done.1,
      done.2,
    )
