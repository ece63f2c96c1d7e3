-- ===== src/Presets/Owned.antt =====
-- A user's own presets: media_service/controllers/presets.py.
use media_service_m.Prelude.{
  ℕ, Bool, true, false, not, ◌&&◌, Option, none, some, List, [], ◌∷◌, ◌++◌, ◌==◌, if◌then◌else◌,
  Text, text_eq, text_elem, filter,
}
use media_service_m.Effect.{
  Result, ok, err, Exec, ◌>>=◌, ◌>>◌, pure, modify, raise_if, or_raise, gets, http,
  preset_not_found, preset_exists, not_enough_permissions, invalid_spec,
}
use media_service_m.Model.Rows.{ImagePreset, PresetSpec, Db, UserModel}
use media_service_m.Model.Table.{find_row, save_row, delete_row}
use media_service_m.Presets.{Catalog, builtin_presets, in_preset_scope, is_valid_spec}

abbrev pub preset_is : ℕ → ImagePreset → Bool
preset_is k row = row.id == k

-- `_load_owned_preset`.
unfoldable pub load_owned_preset : UserModel → ℕ → Exec Db ImagePreset
load_owned_preset u k = do
  found ← gets (λ (d : Db). find_row (preset_is k) d.presets)
  row ← or_raise found 404 preset_not_found
  raise_if (not u.is_superuser && not (row.owner_user_id == u.id)) 403 not_enough_permissions
  pure row

abbrev same_name : UserModel → Text → ImagePreset → Bool
same_name u name row = in_preset_scope u row && text_eq row.name name

abbrev is_taken : Option ImagePreset → Bool
is_taken none = false
is_taken (some row) = true

-- `create_preset`, with the row's new id; the request has validated the recipe.
unfoldable pub create_preset : UserModel → Text → PresetSpec → ℕ → ℕ → Exec Db ImagePreset
create_preset u name spec new_id now = do
  existing ← gets (λ (d : Db). find_row (same_name u name) d.presets)
  raise_if (is_taken existing) 409 preset_exists
  let row : ImagePreset = record {
    id = new_id;
    owner_user_id = u.id;
    tenant_id = u.tenant_id;
    name = name;
    spec = spec;
    created_at = now;
    updated_at = now;
  }
  modify (λ (d : Db). record d { presets = d.presets ++ row ∷ [] })
  pure row

unfoldable pub update_preset : UserModel → ℕ → PresetSpec → ℕ → Exec Db ImagePreset
unfolding load_owned_preset
update_preset u k spec now = do
  row ← load_owned_preset u k
  let changed = record row { spec = spec; updated_at = now }
  modify (λ (d : Db). record d { presets = save_row (preset_is k) changed d.presets })
  pure changed

unfoldable pub delete_preset : UserModel → ℕ → Exec Db (Unit {0})
unfolding load_owned_preset
delete_preset u k = do
  row ← load_owned_preset u k
  modify (λ (d : Db). record d { presets = delete_row (preset_is k) d.presets })

-- A row of the catalogue, built in or the user's; a stored recipe is validated again.
pub record ImagePresetPublic : Type 0 where
  pub id : Option ℕ
  pub name : Text
  pub spec : PresetSpec
  pub builtin : Bool

abbrev cons_public : ImagePreset → Result (List ImagePresetPublic) → Result (List ImagePresetPublic)
cons_public row (err e) = err e
cons_public row (ok rest) =
    if is_valid_spec row.spec
    then ok (record { id = some row.id; name = row.name; spec = row.spec; builtin = false } ∷ rest)
    else err (http 500 invalid_spec)

unfoldable pub rows_public : List ImagePreset → Result (List ImagePresetPublic)
rows_public [] = ok []
rows_public (row ∷ rows) = cons_public row (rows_public rows)

abbrev pub names_of : List ImagePreset → List Text
names_of [] = []
names_of (row ∷ rows) = row.name ∷ names_of rows

-- The built-in presets that no row shadows.
unfoldable pub unshadowed : List Text → Catalog → List ImagePresetPublic
unshadowed shadowed [] = []
unshadowed shadowed ((name, spec) ∷ rest) =
    let deeper = unshadowed shadowed rest in
    if text_elem name shadowed
    then deeper
    else record { id = none; name = name; spec = spec; builtin = true } ∷ deeper

abbrev after_builtins :
    List ImagePresetPublic → Result (List ImagePresetPublic) → Result (List ImagePresetPublic)
after_builtins builtins (err e) = err e
after_builtins builtins (ok rows) = ok (builtins ++ rows)

unfoldable pub list_presets : UserModel → Db → Result (List ImagePresetPublic)
unfolding rows_public unshadowed
list_presets u d =
    let rows = filter (in_preset_scope u) d.presets in
    after_builtins (unshadowed (names_of rows) builtin_presets) (rows_public rows)
