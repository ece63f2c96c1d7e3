-- ===== src/Category/Walk/Cycles.antt =====
-- Circles of stored `parent_id`s, and the row that a write of
-- media_service/controllers/category.py saves.
use mathlib.Core.Path.{subst}
use media_service_m.Prelude.{
  ℕ, false, some, List, [], ◌∷◌, ◌==◌, ◌≡◌, refl, sym, ◌⊎◌, inl, inr, arith, if◌then◌else◌,
  Bool-cases, ==_iff,
}
use media_service_m.Model.Rows.{Category, category_is}
use media_service_m.Model.Table.{find_row, save_row}
use media_service_m.Category.Walk.{parent_id_of, would_cycle}
use media_service_m.Category.Walk.Up.{Chain, here, up, would_cycle_iff}

-- No row is its own ancestor.
abbrev pub IsAcyclic : List Category → Type 0
IsAcyclic rows = (k p : ℕ) → parent_id_of rows k ≡ some p → ¬ Chain rows p k

pub find_row-save_row_category :
    (k : ℕ) (row : Category) (rows : List Category)
    → find_row (category_is k) (save_row (category_is row.id) row rows)
      ≡ (if row.id == k then some row else find_row (category_is k) rows)
find_row-save_row_category k row [] = refl
find_row-save_row_category k row (c ∷ rows) = ground (arith, find_row-save_row_category k row rows)

module _ (rows : List Category) (row : Category) where
  abbrev saved : List Category
  saved = save_row (category_is row.id) row rows

  parent_id_of-saved :
      (k : ℕ) → parent_id_of saved k ≡ (if row.id == k then row.parent_id else parent_id_of rows k)
  parent_id_of-saved k = ground (arith, find_row-save_row_category k row rows)

  -- A chain that ends at the saved row has an old chain beside it: it is cut where it first comes
  -- to the row.
  Chain-saved : {k m : ℕ} → Chain saved k m → m ≡ row.id → Chain rows k row.id
  Chain-saved {k} here e = subst (Chain rows k) e here
  Chain-saved {k} (up {p = p} step rest) e = elim (Bool-cases (row.id == k)) [
    | inl at_row ↦ subst (λ j. Chain rows j row.id) ((==_iff row.id k).0 at_row) here
    | inr elsewhere ↦ up (ground (arith, parent_id_of-saved k)) (Chain-saved rest e)
  ]

  -- Any other chain is an old one, or passes through the row and its new parent.
  ThroughRow : ℕ → ℕ → Type 0
  ThroughRow k m = (q : ℕ) × Chain saved k row.id × (row.parent_id ≡ some q) × Chain saved q m

  Chain-split : {k m : ℕ} → Chain saved k m → Chain rows k m ⊎ ThroughRow k m
  unfolding ThroughRow
  Chain-split here = inl here
  Chain-split {k} {m} (up {p = p} step rest) = elim (Bool-cases (row.id == k)) [
    | inl at_row ↦ inr (
      p,
      subst (λ j. Chain saved j row.id) ((==_iff row.id k).0 at_row) here,
      ground (arith, parent_id_of-saved k),
      rest,
    )
    | inr elsewhere ↦ elim (Chain-split rest) [
      | inl old ↦ inl (up (ground (arith, parent_id_of-saved k)) old)
      | inr (q, to_row, new, tail) ↦ inr (q, up step to_row, new, tail)
    ]
  ]

pub Chain-trans :
    {rows : List Category} {a b c : ℕ} → Chain rows a b → Chain rows b c → Chain rows a c
Chain-trans here t = t
Chain-trans (up e s) t = up e (Chain-trans s t)

-- Saving a row whose parent, if it has one, is not below it keeps the table free of circles.
pub save_row-IsAcyclic :
    (rows : List Category) (row : Category)
    → IsAcyclic rows
    → ((p : ℕ) → row.parent_id ≡ some p → would_cycle rows row.id p ≡ false)
    → IsAcyclic (save_row (category_is row.id) row rows)
unfolding ThroughRow
save_row-IsAcyclic rows row acyclic checked k p e loop = elim (Bool-cases (row.id == k)) [
  | inl at_row ↦ refused p (ground (arith, parent_id_of-saved rows row k)) (
      subst (Chain (save_row (category_is row.id) row rows) p) (sym ((==_iff row.id k).0 at_row))
        loop)
  | inr elsewhere ↦ elim (Chain-split rows row loop) [
    | inl old ↦ acyclic k p (ground (arith, parent_id_of-saved rows row k)) old
    | inr (q, to_row, new, tail) ↦ refused q new (Chain-trans tail (up e to_row))
  ]
]
  where
    refused :
        (q : ℕ)
        → row.parent_id ≡ some q
        → Chain (save_row (category_is row.id) row rows) q row.id
        → ⊥
    refused q new chain =
        cc (checked q new, (would_cycle_iff rows row.id q).1 (Chain-saved rows row chain refl))
