-- ===== src/Access/Reads.antt =====
-- The listing scope and the loaders of media_service/controllers/objects.py side by side.
use media_service_m.Prelude.{
  ℕ, Bool, true, false, ◌&&◌, ◌||◌, Option, none, some, ◌==◌, ◌≡◌, ◌↔◌, ◌⊎◌, arith, is_none,
  Option-cases, Bool-cases, inl, inr,
}
use media_service_m.Effect.{ok, err, is_ok, http, media_not_found}
use media_service_m.Model.Enums.{MediaVisibility, visibility_eq}
use media_service_m.Model.Rows.{MediaObject, Db, UserModel}
use media_service_m.Access.{
  find_object, require_visibility_access, load_object_for_read, load_object, ObjectListParams,
  scoped_query,
}

-- Without a superuser's extra parameters the listing scope is exactly the live rows that the caller
-- may read.
pub scoped_query-eq :
    (u : Option UserModel) (params : ObjectListParams) (o : MediaObject)
    → params.owner_user_id ≡ none
    → params.include_deleted ≡ false
    → scoped_query u params o ≡ (is_none o.deleted_at && is_ok (require_visibility_access o u))
unfolding scoped_query require_visibility_access
scoped_query-eq none params o ho hd = ground arith
scoped_query-eq (some u) params o ho hd = ground arith

abbrev is_public : MediaObject → Bool
is_public o = visibility_eq o.visibility MediaVisibility.public

-- An anonymous read returns a live public object or one and the same 404, whether the object is
-- missing, deleted or hidden.
pub load_object_for_read-anonymous :
    (k : ℕ) (d : Db)
    → (((o : MediaObject) × (load_object_for_read none k d ≡ ok o)
          × (find_object k d ≡ some o)
          × (o.visibility ≡ MediaVisibility.public)
          × (o.deleted_at ≡ none))
        ⊎ (load_object_for_read none k d ≡ err (http 404 media_not_found)))
unfolding load_object_for_read
load_object_for_read-anonymous k d = elim (Option-cases (find_object k d)) [
  | inl missing ↦ inr (ground arith)
  | inr (o, e) ↦ elim (Bool-cases (is_none o.deleted_at && is_public o)) [
    | inl open_to_all ↦ inl (o, ground arith, e, ground arith, ground arith)
    | inr hidden ↦ inr (ground arith)
  ]
]

-- A change is let through exactly for the owner or a superuser, on a row that is there and, unless
-- deleted rows are asked for, live.
pub load_object_iff :
    (u : UserModel) (k : ℕ) (include_deleted : Bool) (d : Db) (o : MediaObject)
    → (load_object u k include_deleted d ≡ ok o) ↔ (
        (find_object k d ≡ some o)
        × ((u.is_superuser || o.owner_user_id == u.id) ≡ true)
        × ((include_deleted || is_none o.deleted_at) ≡ true))
unfolding load_object
load_object_iff u k include_deleted d o = (λ h. ground arith, λ h. ground arith)
