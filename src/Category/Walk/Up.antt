-- ===== src/Category/Walk/Up.antt =====
-- The walk of `_reject_cycle` of media_service/controllers/category.py, and chains of parents.
use mathlib.Core.Path.{subst}
use media_service_m.Prelude.{
  ℕ, zero, suc, ◌+◌, ◌<◌, ◌≤◌, true, false, ◌||◌, Option, none, some, List, [], ◌∷◌, ◌==◌, ◌≡◌,
  refl, sym, inl, inr, ◌↔◌, arith, if◌then◌else◌, length, elem, Bool-cases, Option-cases, ==-refl,
  ==_iff, ◌∙◌, opt_eq, opt_eq_refl,
}
use media_service_m.Model.Rows.{Category, category_is}
use media_service_m.Model.Table.{find_row}
use media_service_m.Category.Walk.{parent_id_of, cycle_loop, would_cycle}

-- `m` is reached from `k` by zero or more stored `parent_id` steps.
pub data Chain (rows : List Category) : ℕ → ℕ → Type 0 where
  here : {k : ℕ} → Chain rows k k
  up : {k p m : ℕ} → parent_id_of rows k ≡ some p → Chain rows p m → Chain rows k m

module _ (fuel : ℕ) (rows : List Category) (category_id ancestor : ℕ) (seen : List ℕ) where
  cycle_loop-met :
      (ancestor == category_id) ≡ true
      → cycle_loop (suc fuel) rows category_id (some ancestor) seen ≡ true
  unfolding cycle_loop
  cycle_loop-met met = rw (met, cycle_loop)

  cycle_loop-again :
      (ancestor == category_id) ≡ false
      → elem ancestor seen ≡ true
      → cycle_loop (suc fuel) rows category_id (some ancestor) seen ≡ false
  unfolding cycle_loop
  cycle_loop-again other again = rw (other, again, cycle_loop)

  cycle_loop-new :
      (ancestor == category_id) ≡ false
      → elem ancestor seen ≡ false
      → cycle_loop (suc fuel) rows category_id (some ancestor) seen
        ≡ cycle_loop fuel rows category_id (parent_id_of rows ancestor) (ancestor ∷ seen)
  unfolding cycle_loop
  cycle_loop-new other new = rw (other, new, cycle_loop)

-- The walk stands at a row from which `m` is reached.
abbrev ChainFrom : List Category → Option ℕ → ℕ → Type 0
ChainFrom rows none m = ⊥
ChainFrom rows (some k) m = Chain rows k m

ChainFrom-up :
    (rows : List Category) (k m : ℕ) (o : Option ℕ)
    → parent_id_of rows k ≡ o
    → ChainFrom rows o m
    → Chain rows k m
ChainFrom-up rows k m none e h = absurd h
ChainFrom-up rows k m (some p) e h = up e h

cycle_loop_sound :
    (fuel : ℕ) (rows : List Category) (category_id : ℕ) (o : Option ℕ) (seen : List ℕ)
    → cycle_loop fuel rows category_id o seen ≡ true
    → ChainFrom rows o category_id
unfolding cycle_loop
cycle_loop_sound zero rows c o seen h = cc
cycle_loop_sound (suc fuel) rows c none seen h = cc
cycle_loop_sound (suc fuel) rows c (some k) seen h = elim (Bool-cases (k == c)) [
  | inl met ↦ subst (Chain rows k) ((==_iff k c).0 met) here
  | inr other ↦ elim (Bool-cases (elem k seen)) [
    | inl again ↦ cc (cycle_loop-again fuel rows c k seen other again)
    | inr new ↦ ChainFrom-up rows k c (parent_id_of rows k) refl (
        cycle_loop_sound fuel rows c (parent_id_of rows k) (k ∷ seen)
          (sym (cycle_loop-new fuel rows c k seen other new) ∙ h))
  ]
]

-- The rows that the walk has not met: it meets a new one in each round but the last two.
abbrev unseen : List ℕ → List Category → ℕ
unseen seen [] = 0
unseen seen (c ∷ rows) = (if elem c.id seen then 0 else 1) + unseen seen rows

unseen-le : (seen : List ℕ) (rows : List Category) → unseen seen rows ≤ length rows
unseen-le seen [] = omega arith
unseen-le seen (c ∷ rows) = ground (arith, unseen-le seen rows)

unseen_mono :
    (k : ℕ) (seen : List ℕ) (rows : List Category) → unseen (k ∷ seen) rows ≤ unseen seen rows
unseen_mono k seen [] = omega arith
unseen_mono k seen (c ∷ rows) = ground (arith, unseen_mono k seen rows)

unseen-visit :
    (k : ℕ) (seen : List ℕ) (rows : List Category) (r : Category)
    → find_row (category_is k) rows ≡ some r
    → elem k seen ≡ false
    → unseen (k ∷ seen) rows < unseen seen rows
unseen-visit k seen [] r e new = ground arith
unseen-visit k seen (c ∷ rows) r e new =
    ground (arith, unseen-visit k seen rows r, unseen_mono k seen rows)

-- The rounds that are still to come.
abbrev rounds : List Category → Option ℕ → List ℕ → ℕ
rounds rows none seen = 0
rounds rows (some k) seen = unseen seen rows + 1

rounds-visit :
    (rows : List Category) (k : ℕ) (seen : List ℕ)
    → elem k seen ≡ false
    → rounds rows (parent_id_of rows k) (k ∷ seen) < rounds rows (some k) seen
rounds-visit rows k seen new = elim (Option-cases (find_row (category_is k) rows)) [
  | inl missing ↦ ground arith
  | inr (r, e) ↦ ground (arith, unseen-visit k seen rows r e new)
]

-- What the walk has met is not the category, and leads to what it has met or where it stands.
abbrev IsTrail : List Category → ℕ → Option ℕ → List ℕ → Type 0
IsTrail rows c o seen =
    (s : ℕ)
    → elem s seen ≡ true
    → ((s == c) ≡ false)
      × ((q : ℕ) → parent_id_of rows s ≡ some q → (elem q seen || opt_eq o (some q)) ≡ true)

Trail-avoids :
    (rows : List Category) (c : ℕ) (seen : List ℕ)
    → IsTrail rows c none seen
    → (s : ℕ) → elem s seen ≡ true
    → ¬ Chain rows s c
Trail-avoids rows c seen h s hs here = cc ((h c hs).0, ==-refl c)
Trail-avoids rows c seen h s hs (up {p = p} e rest) =
    Trail-avoids rows c seen h p (ground (arith, (h s hs).1 p e)) rest

IsTrail-visit :
    (rows : List Category) (c k : ℕ) (seen : List ℕ)
    → (k == c) ≡ false
    → IsTrail rows c (some k) seen
    → IsTrail rows c (parent_id_of rows k) (k ∷ seen)
IsTrail-visit rows c k seen other h s hs = elim (Bool-cases (s == k)) [
  | inl now ↦ (ground arith, λ q hq. ground (arith, opt_eq_refl (some q)))
  | inr before ↦ let old = h s (ground arith) in (old.0, λ q hq. ground (arith, old.1 q hq))
]

-- Where the walk gives up without meeting the category, no chain leads there.
cycle_loop_complete :
    (fuel : ℕ) (rows : List Category) (c : ℕ) (o : Option ℕ) (seen : List ℕ)
    → rounds rows o seen < fuel
    → IsTrail rows c o seen
    → cycle_loop fuel rows c o seen ≡ false
    → (s : ℕ) → (elem s seen || opt_eq o (some s)) ≡ true
    → ¬ Chain rows s c
unfolding cycle_loop
cycle_loop_complete zero rows c o seen m h e s hs = absurd (omega arith)
cycle_loop_complete (suc fuel) rows c none seen m h e s hs =
    Trail-avoids rows c seen h s (ground arith)
cycle_loop_complete (suc fuel) rows c (some k) seen m h e s hs = elim (Bool-cases (k == c)) [
  | inl met ↦ cc (cycle_loop-met fuel rows c k seen met)
  | inr other ↦ elim (Bool-cases (elem k seen)) [
    | inl again ↦
        Trail-avoids rows c seen (λ x hx. ((h x hx).0, λ q hq. ground (arith, (h x hx).1 q hq))) s
          (ground arith)
    | inr new ↦
        cycle_loop_complete fuel rows c (parent_id_of rows k) (k ∷ seen)
          (omega (arith, rounds-visit rows k seen new)) (IsTrail-visit rows c k seen other h)
          (sym (cycle_loop-new fuel rows c k seen other new) ∙ e) s (ground arith)
  ]
]

-- A reparent is refused exactly where the category is the requested parent or one of its ancestors,
-- also among rows that already run in a circle.
pub would_cycle_iff :
    (rows : List Category) (c parent : ℕ) → (would_cycle rows c parent ≡ true) ↔ Chain rows parent c
unfolding would_cycle
would_cycle_iff rows c parent =
    (cycle_loop_sound (length rows + 2) rows c (some parent) [], complete)
  where
    complete : Chain rows parent c → would_cycle rows c parent ≡ true
    complete chain = elim (Bool-cases (would_cycle rows c parent)) [
      | inl met ↦ met
      | inr missed ↦ absurd (
          cycle_loop_complete (length rows + 2) rows c (some parent) []
            (omega (arith, unseen-le [] rows)) (λ s hs. cc) missed parent
            (ground (arith, opt_eq_refl (some parent))) chain)
    ]
