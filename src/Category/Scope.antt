-- ===== src/Category/Scope.antt =====
-- Which categories a caller may name: the scoping helpers, `resolve_category_ids`,
-- `categories_in_scope` and `branch_category_ids` of media_service/controllers/category.py.
pub mod Resolve
use media_service_m.Prelude.{
  ℕ, Bool, true, false, not, ◌&&◌, ◌||◌, Option, none, some, List, [], ◌∷◌, ◌==◌, opt_eq, is_none,
  if◌then◌else◌, filter, elem,
}
use media_service_m.Effect.{Result, ok, err, http, category_not_found, not_enough_permissions}
use media_service_m.Model.Rows.{Category, Db, UserModel, category_is}
use media_service_m.Model.Table.{find_row}
use media_service_m.Category.Walk.{collect_branch_ids}

abbrev same_tenant : Option ℕ → ℕ → Category → Bool
same_tenant (some t) owner row = opt_eq row.tenant_id (some t)
same_tenant none owner row = row.owner_id == owner && is_none row.tenant_id

-- `_scoped_query`, as the test of its `where` clause.
unfoldable pub scoped_query : UserModel → Category → Bool
scoped_query u row = if u.is_superuser then true else same_tenant u.tenant_id u.id row

abbrev in_tenant : Option ℕ → ℕ → Category → Bool
in_tenant (some t) owner row = opt_eq row.tenant_id (some t)
in_tenant none owner row = is_none row.tenant_id && row.owner_id == owner

unfoldable pub in_scope : UserModel → Category → Bool
in_scope u row = if u.is_superuser then true else in_tenant u.tenant_id u.id row

abbrev pub find_category : ℕ → Db → Option Category
find_category k d = find_row (category_is k) d.categories

abbrev scoped : UserModel → Option Category → Result Category
scoped u none = err (http 404 category_not_found)
scoped u (some row) = if in_scope u row then ok row else err (http 403 not_enough_permissions)

unfoldable pub load_category : UserModel → ℕ → Db → Result Category
unfolding in_scope
load_category u category_id d = scoped u (find_category category_id d)

-- The loop of `_unique_ids`, on what is seen.
unfoldable pub unique_loop : List ℕ → List ℕ → List ℕ
unique_loop seen [] = []
unique_loop seen (k ∷ ids) =
    let first = k ∷ unique_loop (k ∷ seen) ids in
    let again = unique_loop seen ids in if elem k seen then again else first

unfoldable pub unique_ids : List ℕ → List ℕ
unfolding unique_loop
unique_ids ids = unique_loop [] ids

-- The rows of the one query, in the caller's scope and wanted.
abbrev pub wanted_rows : UserModel → List ℕ → Db → List Category
wanted_rows u wanted d =
    filter (λ (row : Category). scoped_query u row && elem row.id wanted) d.categories

-- `found[category_id]`, after the reload of an id that the query missed.
abbrev found_or_load : UserModel → Db → ℕ → Option Category → Result Category
found_or_load u d k (some row) = ok row
found_or_load u d k none = load_category u k d

abbrev cons_result : Result Category → Result (List Category) → Result (List Category)
cons_result (err e) rest = err e
cons_result (ok row) (err e) = err e
cons_result (ok row) (ok rows) = ok (row ∷ rows)

unfoldable pub resolve_each : UserModel → Db → List Category → List ℕ → Result (List Category)
resolve_each u d rows [] = ok []
resolve_each u d rows (k ∷ wanted) =
    cons_result (found_or_load u d k (find_row (category_is k) rows)) (resolve_each u d rows wanted)

unfoldable pub resolve_category_ids : UserModel → List ℕ → Db → Result (List Category)
unfolding resolve_each
resolve_category_ids u category_ids d =
    let wanted = unique_ids category_ids in resolve_each u d (wanted_rows u wanted d) wanted

abbrev cons_found : Option Category → List Category → List Category
cons_found none rows = rows
cons_found (some row) rows = row ∷ rows

unfoldable pub keep_found : List Category → List ℕ → List Category
keep_found rows [] = []
keep_found rows (k ∷ wanted) = cons_found (find_row (category_is k) rows) (keep_found rows wanted)

unfoldable pub categories_in_scope : UserModel → List ℕ → Db → List Category
unfolding keep_found
categories_in_scope u category_ids d =
    let wanted = unique_ids category_ids in keep_found (wanted_rows u wanted d) wanted

abbrev branch_of : UserModel → Bool → Db → Result Category → Result (List ℕ)
branch_of u include_descendants d (err e) = err e
branch_of u include_descendants d (ok row) =
    if include_descendants
    then ok (collect_branch_ids (filter (scoped_query u) d.categories) row.id)
    else ok (row.id ∷ [])

unfoldable pub branch_category_ids : Option UserModel → ℕ → Bool → Db → Result (List ℕ)
unfolding load_category
branch_category_ids none category_id include_descendants d = ok []
branch_category_ids (some u) category_id include_descendants d =
    branch_of u include_descendants d (load_category u category_id d)
