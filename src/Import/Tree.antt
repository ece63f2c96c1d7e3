-- ===== src/Import/Tree.antt =====
-- The categories that an import resolves or creates: `ensure_category_path` of
-- media_service/controllers/category.py, and `recreate_tree` and `_categories_for` of
-- media_service/controllers/transfer_import.py.
use media_service_m.Prelude.{
  ℕ, ◌+◌, ◌-◌, Bool, true, ◌&&◌, Option, none, some, List, [], ◌∷◌, ◌++◌, filter, length, ◌==◌, ltb,
  if◌then◌else◌, Text, text_lt, elem,
}
use media_service_m.Prelude.Sorting.{sort_rows}
use media_service_m.Effect.{Exec, Result, ok, err, http, too_many_paths, key_error, value_error}
use media_service_m.Model.Rows.{Category, Db, UserModel}
use media_service_m.Model.Store.{Externals, Settings}
use media_service_m.Category.Crud.{sibling_with_slug}
use media_service_m.Import.Paths.{
  refusal, ImportObjectEntry, ImportManifest, CategoryChain, then_ok, path_chain, chain_key,
  PathMap, lookup, named_paths,
}

abbrev pub parent_key : Option Category → Option ℕ
parent_key none = none
parent_key (some c) = some c.id

abbrev pub is_separator : ℕ → Bool
is_separator c = c == b'/'

-- `(k.count(PATH_SEPARATOR), k)`.
unfoldable pub path_lt : {A : Type 0} → Text × A → Text × A → Bool
unfolding text_lt
path_lt (k, _) (l, _) =
    let depth = length (filter is_separator k) in
    let other = length (filter is_separator l) in
    if ltb depth other then true else depth == other && text_lt k l

pub record RecreatedTree : Type 0 where
  pub by_path : PathMap Category
  pub created : ℕ
  pub reused : ℕ

-- The row that the path ended at, and the number of rows created.
abbrev pub ended : Option Category × ℕ → Result (Category × ℕ)
ended (none, n) = err (http 500 value_error)
ended (some row, n) = ok (row, n)

-- `fresh` is the key that the database gives the next category.
module _ (fresh : Db → ℕ) where
  abbrev pub level_row : UserModel → Option ℕ → Text → Text → Db → Category
  level_row u parent_id name slug d = record {
    id = fresh d;
    name = name;
    slug = slug;
    parent_id = parent_id;
    owner_id = u.id;
    tenant_id = u.tenant_id;
  }

  -- One turn of the loop of `ensure_category_path`: the row, whether it is new, and the rows after.
  abbrev pub resolve_level : Option Category → Category → Db → Category × (ℕ × Db)
  resolve_level none row d = (row, (1, record d { categories = d.categories ++ row ∷ [] }))
  resolve_level (some held) row d = (held, (0, d))

  unfoldable pub ensure_levels :
      UserModel → CategoryChain → Option Category → ℕ → Db → (Option Category × ℕ) × Db
  unfolding sibling_with_slug
  ensure_levels u [] parent created d = ((parent, created), d)
  ensure_levels u ((name, slug) ∷ segments) parent created d =
      let parent_id = parent_key parent in
      let (row, (new, e)) =
        resolve_level (sibling_with_slug slug parent_id u.tenant_id u.id none d)
          (level_row u parent_id name slug d) d in
      ensure_levels u segments (some row) (created + new) e

  unfoldable pub ensure_category_path : UserModel → CategoryChain → Exec Db (Category × ℕ)
  unfolding ensure_levels
  ensure_category_path u segments d =
      let (reached, e) = ensure_levels u segments none 0 d in (ended reached, e)

  abbrev pub tree_with : RecreatedTree → Text → Category × ℕ → RecreatedTree
  tree_with tree key (row, new) = record {
    by_path = tree.by_path ++ (key, row) ∷ [];
    created = tree.created + new;
    reused = tree.reused + (1 - new);
  }

  -- The loop of `recreate_tree` over the sorted paths.
  unfoldable pub recreate_each :
      UserModel → PathMap CategoryChain → RecreatedTree → Exec Db RecreatedTree
  unfolding ensure_category_path
  recreate_each u [] tree d = (ok tree, d)
  recreate_each u ((key, chain) ∷ paths) tree d =
      let (done, e) = ensure_category_path u chain d in
      elim done [
        | err raised ↦ (err raised, e)
        | ok resolved ↦ recreate_each u paths (tree_with tree key resolved) e
      ]

  abbrev pub no_tree : RecreatedTree
  no_tree = record { by_path = []; created = 0; reused = 0 }

  abbrev pub recreate_named :
      Settings → UserModel → Result (PathMap CategoryChain) → Exec Db RecreatedTree
  recreate_named conf u (err e) d = (err e, d)
  recreate_named conf u (ok chains) d =
      if ltb conf.import_max_categories (length chains)
      then (refusal too_many_paths, d)
      else recreate_each u (sort_rows path_lt chains) no_tree d

  unfoldable pub recreate_tree :
      Settings → Externals → UserModel → ImportManifest → Exec Db RecreatedTree
  unfolding recreate_each named_paths
  recreate_tree conf ext u manifest d = recreate_named conf u (named_paths conf ext manifest) d

abbrev row_at : Text → RecreatedTree → Result Category
row_at key tree = elim (lookup key tree.by_path) [
  | none ↦ err (http 500 key_error)
  | some row ↦ ok row
]

abbrev unless_seen : List ℕ → Category → List Category → List Category
unless_seen seen row rest = if elem row.id seen then rest else row ∷ rest

abbrev rows_for : Settings → Externals → RecreatedTree → List Text → List ℕ → Result (List Category)
rows_for conf ext tree [] seen = ok []
rows_for conf ext tree (path ∷ paths) seen = then_ok (path_chain conf ext path) (λ chain.
    then_ok (row_at (chain_key chain) tree) (λ row.
      then_ok (rows_for conf ext tree paths (row.id ∷ seen))
        (λ rest. ok (unless_seen seen row rest))))

-- `_categories_for`: a row filed under two spellings of one path is kept once.
unfoldable pub categories_for :
    Settings → Externals → RecreatedTree → ImportObjectEntry → Result (List Category)
unfolding path_chain chain_key
categories_for conf ext tree entry = rows_for conf ext tree entry.category_paths []
