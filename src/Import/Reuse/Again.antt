-- ===== src/Import/Reuse/Again.antt =====
-- `recreate_tree` of media_service/controllers/transfer_import.py, run again over what it left.
use media_service_m.Prelude.{
  ℕ, suc, ◌+◌, ◌-◌, [], ◌∷◌, ◌++◌, length, ltb, Text, ◌≡◌, refl, sym, ap, length-append, ◌∙◌, inl,
  inr, arith, Bool-cases,
}
use media_service_m.Prelude.Sorting.{sort_rows}
use media_service_m.Effect.{Result, ok, err, Error, Result-cases}
use media_service_m.Model.Rows.{Category, Db, UserModel}
use media_service_m.Model.Store.{Externals, Settings}
use media_service_m.Import.Paths.{ImportManifest, CategoryChain, PathMap, named_paths}
use media_service_m.Import.Tree.{
  path_lt, RecreatedTree, ensure_category_path, tree_with, recreate_each, no_tree, recreate_named,
  recreate_tree,
}
use media_service_m.Import.Growth.{
  recreate_each-onward, recreate_each-grows, recreate_named-within, recreate_named-over,
}
use media_service_m.Import.Reuse.{
  Extends, Extends-self, Extends-trans, Extends-one_more, plus_zero, ensure_category_path-again,
}

the_count : (r n : ℕ) → (r + (1 - 0)) + n ≡ r + suc n
the_count r n = omega arith

module _ (fresh : Db → ℕ) where
  -- The tree that a second run reports: the paths of `t`, all of them found.
  abbrev pub all_found : RecreatedTree → RecreatedTree → ℕ → RecreatedTree
  all_found t again n = record {
    by_path = t.by_path;
    created = again.created;
    reused = again.reused + n;
  }

  abbrev path_map_of : Result RecreatedTree → PathMap Category
  path_map_of (ok t) = t.by_path
  path_map_of (err raised) = []

  all_found-none :
      (tree again t : RecreatedTree)
      → again.by_path ≡ tree.by_path
      → ok tree ≡ ok t
      → again ≡ all_found t again 0
  all_found-none tree again t same returned =
      rw (sym (same ∙ ap path_map_of returned), plus_zero again.reused) refl

  all_found-one :
      (t again : RecreatedTree) (key : Text) (row : Category) (n : ℕ)
      → all_found t (tree_with fresh again key (row, 0)) n ≡ all_found t again (suc n)
  all_found-one t again key row n = rw (plus_zero again.created, the_count again.reused n) refl

  -- What a loop that gave `was` does when it is run again over `e`.
  abbrev Recreates :
      UserModel
      → PathMap CategoryChain
      → RecreatedTree
      → Db
      → RecreatedTree
      → Result RecreatedTree × Db
      → Type 0
  Recreates u paths again e t was =
      was.0 ≡ ok t
      → Extends was.1 e
      → recreate_each fresh u paths again e ≡ (ok (all_found t again (length paths)), e)

  path-again :
      (u : UserModel) (key : Text) (chain : CategoryChain) (paths : PathMap CategoryChain)
      (tree again t : RecreatedTree) (d e : Db) (row : Category) (n : ℕ)
      (was : Result RecreatedTree × Db)
      → (ensure_category_path fresh u chain d).0 ≡ ok (row, n)
      → was
        ≡ recreate_each fresh u paths
            (tree_with fresh tree key (row, n))
            (ensure_category_path fresh u chain d).1
      → Recreates u paths (tree_with fresh again key (row, 0)) e t (
          recreate_each fresh u paths
            (tree_with fresh tree key (row, n))
            (ensure_category_path fresh u chain d).1)
      → Recreates u ((key, chain) ∷ paths) again e t was
  path-again u key chain paths tree again t d e row n was resolved left ih returned h =
      let v = (ensure_category_path fresh u chain d).1 in
      let extends : Extends (recreate_each fresh u paths (tree_with fresh tree key (row, n)) v).1
          e =
        rw (sym left) h in
      let kept : Extends v e =
        Extends-trans v (recreate_each fresh u paths (tree_with fresh tree key (row, n)) v).1 e
          (recreate_each-grows fresh Extends Extends-self Extends-trans Extends-one_more u paths
            (tree_with fresh tree key (row, n)) v)
          extends in
      recreate_each-onward fresh u key chain paths again e (ok (row, 0), e)
        (ensure_category_path-again fresh u chain row n d e resolved kept)
      ∙ ih (rw (sym left) returned) extends
      ∙ ap (λ (found : RecreatedTree). (ok found, e)) (all_found-one t again key row (length paths))

  -- A path that does not resolve ends the loop.
  stopped-on :
      (u : UserModel) (key : Text) (chain : CategoryChain) (paths : PathMap CategoryChain)
      (tree t : RecreatedTree) (d : Db) (raised : Error)
      → (ensure_category_path fresh u chain d).0 ≡ err raised
      → (recreate_each fresh u ((key, chain) ∷ paths) tree d).0 ≡ ok t
      → ⊥
  stopped-on u key chain paths tree t d raised failed returned =
      let left =
        recreate_each-onward fresh u key chain paths tree d
          (err raised, (ensure_category_path fresh u chain d).1)
          (ap (λ (r : Result (Category × ℕ)). (r, (ensure_category_path fresh u chain d).1))
            failed) in
      ground (arith, left, returned)

  -- Run again over what it left and any later categories, the loop finds every path, and creates no
  -- row.
  recreate_each_again :
      (u : UserModel) (paths : PathMap CategoryChain) (tree again t : RecreatedTree) (d e : Db)
      → again.by_path ≡ tree.by_path
      → Recreates u paths again e t (recreate_each fresh u paths tree d)
  unfolding recreate_each
  recreate_each_again u [] tree again t d e same returned h =
      ap (λ (found : RecreatedTree). (ok found, e)) (all_found-none tree again t same returned)
  recreate_each_again u ((key, chain) ∷ paths) tree again t d e same returned h =
      elim (Result-cases (ensure_category_path fresh u chain d).0) [
        | inl ((row, n), resolved) ↦
            path-again u key chain paths tree again t d e row n
              (recreate_each fresh u ((key, chain) ∷ paths) tree d) resolved
              (recreate_each-onward fresh u key chain paths tree d
                (ok (row, n), (ensure_category_path fresh u chain d).1)
                (ap (λ (r : Result (Category × ℕ)). (r, (ensure_category_path fresh u chain d).1))
                  resolved))
              (recreate_each_again u paths (tree_with fresh tree key (row, n))
                (tree_with fresh again key (row, 0)) t (ensure_category_path fresh u chain d).1 e
                (ap (λ (m : PathMap Category). m ++ (key, row) ∷ []) same))
              returned h
        | inr (raised, failed) ↦
            elim (stopped-on u key chain paths tree t d raised failed returned) [ ]
      ]

  -- The paths are kept one by one.
  recreate_each-length :
      (u : UserModel) (paths : PathMap CategoryChain) (tree t : RecreatedTree) (d : Db)
      → (recreate_each fresh u paths tree d).0 ≡ ok t
      → length t.by_path ≡ length tree.by_path + length paths
  unfolding recreate_each
  recreate_each-length u [] tree t d returned =
      sym (ap (λ r. length (path_map_of r)) returned) ∙ sym (plus_zero (length tree.by_path))
  recreate_each-length u ((key, chain) ∷ paths) tree t d returned =
      elim (Result-cases (ensure_category_path fresh u chain d).0) [
        | inl ((row, n), resolved) ↦
            let left =
              recreate_each-onward fresh u key chain paths tree d
                (ok (row, n), (ensure_category_path fresh u chain d).1)
                (ap (λ (r : Result (Category × ℕ)). (r, (ensure_category_path fresh u chain d).1))
                  resolved) in
            omega (
              arith,
              recreate_each-length u paths (tree_with fresh tree key (row, n)) t
                  (ensure_category_path fresh u chain d).1
                  (sym (ap (λ (r : Result RecreatedTree × Db). r.0) left) ∙ returned),
              length-append tree.by_path ((key, row) ∷ []),
            )
        | inr (raised, failed) ↦
            elim (stopped-on u key chain paths tree t d raised failed returned) [ ]
      ]

  -- The tree that a second run reports.
  abbrev found_again : RecreatedTree → RecreatedTree
  found_again t = record { by_path = t.by_path; created = 0; reused = length t.by_path }

  sorted-again :
      (u : UserModel) (paths : PathMap CategoryChain) (t : RecreatedTree) (d e : Db)
      → (recreate_each fresh u paths (no_tree fresh) d).0 ≡ ok t
      → Extends (recreate_each fresh u paths (no_tree fresh) d).1 e
      → recreate_each fresh u paths (no_tree fresh) e ≡ (ok (found_again t), e)
  sorted-again u paths t d e returned h =
      recreate_each_again u paths (no_tree fresh) (no_tree fresh) t d e refl returned h
      ∙ ap (λ (n : ℕ). (ok (record { by_path = t.by_path; created = 0; reused = n }), e))
          (sym (recreate_each-length u paths (no_tree fresh) t d returned))

  recreate_named-again :
      (conf : Settings) (u : UserModel) (named : Result (PathMap CategoryChain)) (t : RecreatedTree)
      (d e : Db)
      → (recreate_named fresh conf u named d).0 ≡ ok t
      → Extends (recreate_named fresh conf u named d).1 e
      → recreate_named fresh conf u named e ≡ (ok (found_again t), e)
  recreate_named-again conf u (err raised) t d e returned h = ground arith
  recreate_named-again conf u (ok chains) t d e returned h =
      elim (Bool-cases (ltb conf.import_max_categories (length chains))) [
        | inl over ↦ elim (recreate_named-over fresh conf u chains t d over returned) [ ]
        | inr within ↦
            let left = recreate_named-within fresh conf u chains d within in
            recreate_named-within fresh conf u chains e within
            ∙ sorted-again u (sort_rows path_lt chains) t d e (rw (sym left) returned)
                (rw (sym left) h)
      ]

  -- An import's tree, recreated over the categories that an earlier import of the same document left
  -- and any later ones, has the same row for each path, creates none, and writes nothing.
  pub recreate_tree-again :
      (conf : Settings) (ext : Externals) (u : UserModel) (manifest : ImportManifest)
      (t : RecreatedTree) (d e : Db)
      → (recreate_tree fresh conf ext u manifest d).0 ≡ ok t
      → Extends (recreate_tree fresh conf ext u manifest d).1 e
      → recreate_tree fresh conf ext u manifest e
        ≡ (ok (record { by_path = t.by_path; created = 0; reused = length t.by_path }), e)
  unfolding recreate_tree
  recreate_tree-again conf ext u manifest t d e returned h =
      recreate_named-again conf u (named_paths conf ext manifest) t d e returned h
