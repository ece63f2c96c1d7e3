-- ===== src/Category/Crud/Invariant.antt =====
-- The three invariants of the stored tree, which the database does not express: a parent is a
-- row, no row is its own ancestor, and siblings have different slugs.
use media_service_m.Prelude.{
  ℕ, Bool, true, false, none, some, List, [], ◌∷◌, ◌==◌, ◌≡◌, ◌≢◌, inl, inr, arith, if◌then◌else◌,
  In, Option-cases, opt_eq_iff, text_eq_iff,
}
use media_service_m.Model.Rows.{Category, category_is}
use media_service_m.Model.Table.{
  find_row, save_row, delete_row, In-save_row, In-delete_row, In-find_row, find_row-In-none,
}
use media_service_m.Category.Walk.{parent_id_of, would_cycle, child_of}
use media_service_m.Category.Walk.Up.{Chain, here, up}
use media_service_m.Category.Walk.Cycles.{IsAcyclic, find_row-save_row_category, save_row-IsAcyclic}
use media_service_m.Category.Crud.{is_sibling}

-- Two rows under one parent of one tree with one slug.
abbrev pub siblings : Category → Category → Bool
siblings a b = is_sibling a.slug a.parent_id a.tenant_id a.owner_id none b

pub record IsForest (rows : List Category) : Type 0 where
  pub parents : (k p : ℕ) → parent_id_of rows k ≡ some p → find_row (category_is p) rows ≢ none
  pub acyclic : IsAcyclic rows
  pub slugs : (a b : Category) → In a rows → In b rows → siblings a b ≡ true → a.id ≡ b.id

pub siblings_sym : (a b : Category) → siblings a b ≡ true → siblings b a ≡ true
siblings_sym a b h = ground (
  arith,
  text_eq_iff b.slug a.slug,
  text_eq_iff a.slug b.slug,
  opt_eq_iff b.parent_id a.parent_id,
  opt_eq_iff a.parent_id b.parent_id,
  opt_eq_iff a.tenant_id b.tenant_id,
  opt_eq_iff b.tenant_id a.tenant_id,
)

-- A row may be saved if its parent is a stored row that is not below it, and no other row holds its
-- slug.
pub record CanSave (rows : List Category) (row : Category) : Type 0 where
  pub has_parent : (p : ℕ) → row.parent_id ≡ some p → find_row (category_is p) rows ≢ none
  pub above : (p : ℕ) → row.parent_id ≡ some p → would_cycle rows row.id p ≡ false
  pub free : (b : Category) → In b rows → siblings row b ≡ true → row.id ≡ b.id

pub save_row-IsForest :
    (rows : List Category) (row : Category)
    → IsForest rows
    → CanSave rows row
    → IsForest (save_row (category_is row.id) row rows)
save_row-IsForest rows row f can = record {
  parents = λ k p e. ground (
    arith,
    find_row-save_row_category k row rows,
    find_row-save_row_category p row rows,
    f.parents k p,
    can.has_parent p,
  );
  acyclic = save_row-IsAcyclic rows row f.acyclic can.above;
  slugs = λ a b ha hb h. elim (In-save_row a (category_is row.id) row rows ha) [
    | inl ea ↦ elim (In-save_row b (category_is row.id) row rows hb) [
      | inl eb ↦ ground arith
      | inr ob ↦ ground (arith, can.free b ob)
    ]
    | inr oa ↦ elim (In-save_row b (category_is row.id) row rows hb) [
      | inl eb ↦ ground (arith, can.free a oa, siblings_sym a b h)
      | inr ob ↦ f.slugs a b oa ob h
    ]
  ];
}

find_row-delete_row_category :
    (j k : ℕ) (rows : List Category)
    → find_row (category_is j) (delete_row (category_is k) rows)
      ≡ (if k == j then none else find_row (category_is j) rows)
find_row-delete_row_category j k [] = ground arith
find_row-delete_row_category j k (c ∷ rows) = ground (arith, find_row-delete_row_category j k rows)

-- A chain of the remaining rows was one before.
Chain-delete_row :
    (k : ℕ) (rows : List Category) {a b : ℕ}
    → Chain (delete_row (category_is k) rows) a b
    → Chain rows a b
Chain-delete_row k rows here = here
Chain-delete_row k rows {a} (up e rest) =
    up (ground (arith, find_row-delete_row_category a k rows)) (Chain-delete_row k rows rest)

-- A row that is nobody's parent may go.
pub delete_row-IsForest :
    (rows : List Category) (k : ℕ)
    → IsForest rows
    → find_row (child_of k) rows ≡ none
    → IsForest (delete_row (category_is k) rows)
delete_row-IsForest rows k f leaf = record {
  parents = λ j p e. elim (Option-cases (find_row (category_is j) rows)) [
    | inl missing ↦ ground (arith, find_row-delete_row_category j k rows)
    | inr (c, at_j) ↦ ground (
      arith,
      find_row-delete_row_category j k rows,
      find_row-delete_row_category p k rows,
      f.parents j p,
      find_row-In-none (child_of k) rows c leaf (In-find_row (category_is j) rows c at_j),
    )
  ];
  acyclic = λ j p e loop.
      f.acyclic j p (ground (arith, find_row-delete_row_category j k rows))
        (Chain-delete_row k rows loop);
  slugs = λ a b ha hb h.
      f.slugs a b (In-delete_row a (category_is k) rows ha)
        (In-delete_row b (category_is k) rows hb) h;
}
