-- ===== src/Objects/Bytes/Rows.antt =====
-- The rows of `update_object` in the ledger of Quota/Accounting.
use mathlib.Core.Path.{subst, sym}
use media_service_m.Prelude.{
  ℕ, Bool, false, not, ◌&&◌, Option, none, some, List, ◌≡◌, refl, ap, inl, inr, arith, Bool-cases,
}
use media_service_m.Effect.{Result, ok, err, Result-cases}
use media_service_m.Model.Enums.{MediaVisibility}
use media_service_m.Model.Rows.{MediaObject, Category, Db, UserModel}
use media_service_m.Model.Store.{ObjectStorage, Settings, World}
use media_service_m.Quota.Accounting.{IsAccounted, saved-IsAccounted}
use media_service_m.Access.{find_object, load_object}
use media_service_m.Objects.{
  save_object, MediaObjectUpdate, has_null, asked, sqlmodel_update, refile, filing,
  relocate_for_visibility, write_update, update_object, removed_from, removed_when_moved,
}
use media_service_m.Objects.Bytes.{load_object-ok, refile-objects}
use media_service_m.Objects.Runs.{
  updates, update_unloaded, update_unfiled, update_raised, update_written,
}

module _ {S : Type 0} (storage : ObjectStorage S) (conf : Settings) where
  -- What a move returns differs from the row in its bucket alone.
  relocate-same :
      (o row : MediaObject) (v : Option MediaVisibility) (store : S) (old : Option ℕ)
      → (relocate_for_visibility storage conf o v store).0 ≡ ok (old, row)
      → row ≡ record o { storage_bucket = row.storage_bucket }
  unfolding relocate_for_visibility
  relocate-same o row none store old h = ground arith
  relocate-same o row (some v) store old h = ground arith

  removed_from-db :
      (old : Option ℕ) (key : List ℕ) (w : World S)
      → (removed_from storage conf old key w).db ≡ w.db
  removed_from-db none key w = refl
  removed_from-db (some bucket) key w = refl

  removed_when_moved-db :
      (old : Option ℕ) (bucket : ℕ) (key : List ℕ) (w : World S)
      → (removed_when_moved storage conf old bucket key w).db ≡ w.db
  removed_when_moved-db none bucket key w = refl
  removed_when_moved-db (some _) bucket key w = refl

  refile-usages :
      (k : ℕ) (categories : Option (List Category)) (d : Db)
      → (refile k categories d).usages ≡ d.usages
  refile-usages k none d = refl
  refile-usages k (some c) d = refl

  updated-IsAccounted :
      (k : ℕ) (o row : MediaObject) (upd : MediaObjectUpdate) (categories : Option (List Category))
      (now : ℕ) (d : Db)
      → find_object k d ≡ some o
      → o.id ≡ k
      → row ≡ record o { storage_bucket = row.storage_bucket }
      → IsAccounted d
      → IsAccounted (refile row.id categories (save_object (sqlmodel_update upd now row) d))
  updated-IsAccounted k o row upd categories now d found same_id same h =
      let own_id : row.id ≡ k = ground arith in
      saved-IsAccounted d (refile row.id categories (save_object (sqlmodel_update upd now row) d)) o
        (sqlmodel_update upd now row) (rw own_id found)
        (refile-objects row.id categories (save_object (sqlmodel_update upd now row) d))
        (λ owner tenant total.
          ground
            (arith, refile-usages row.id categories (save_object (sqlmodel_update upd now row) d)))
        h

  write_update-IsAccounted :
      (k : ℕ) (o row : MediaObject) (upd : MediaObjectUpdate) (categories : Option (List Category))
      (now : ℕ) (commits : Bool) (old : Option ℕ) (w : World S)
      → find_object k w.db ≡ some o
      → o.id ≡ k
      → row ≡ record o { storage_bucket = row.storage_bucket }
      → IsAccounted w.db
      → IsAccounted (write_update storage conf upd categories now commits old row w).1.db
  unfolding write_update
  write_update-IsAccounted k o row upd categories now commits old w found same_id same h =
      let saved = refile row.id categories (save_object (sqlmodel_update upd now row) w.db) in
      elim (Bool-cases (commits && not (has_null upd))) [
        | inl done ↦ rw done (
            subst IsAccounted (sym (removed_from-db old row.object_key (record w { db = saved })))
              (updated-IsAccounted k o row upd categories now w.db found same_id same h))
        | inr raised ↦ rw raised (
            subst IsAccounted (sym (removed_when_moved-db old row.storage_bucket row.object_key w))
              h)
      ]

  module _ (u : UserModel) (k : ℕ) (upd : MediaObjectUpdate) (now : ℕ) (commits : Bool)
      (w : World S) where
    After : Result MediaObject × World S → Type 0
    After r = IsAccounted r.1.db

    relocated-IsAccounted :
        (o : MediaObject) (categories : Option (List Category))
        (r : Result (Option ℕ × MediaObject)) (store : S)
        → load_object u k false w.db ≡ ok o
        → filing u upd.category_ids w.db ≡ ok categories
        → relocate_for_visibility storage conf o (asked upd.new_visibility) w.store ≡ (r, store)
        → IsAccounted w.db
        → After (updates storage conf u k upd now commits w)
    unfolding After
    relocated-IsAccounted o categories (err e) store l f r h =
        subst After
          (sym (update_raised storage conf u k upd now commits w o categories e store l f r)) h
    relocated-IsAccounted o categories (ok (old, row)) store l f r h =
        let (found, same_id, allowed) = load_object-ok u k false w.db o l in
        subst After
          (sym (update_written storage conf u k upd now commits w o categories old row store l f r))
          (write_update-IsAccounted k o row upd categories now commits old
            (record w { store = store }) found same_id
            (relocate-same o row (asked upd.new_visibility) w.store old
              (ap (λ (x : Result (Option ℕ × MediaObject) × S). x.0) r))
            h)

    pub update_object-IsAccounted :
        IsAccounted w.db → IsAccounted (update_object storage conf u k upd now commits w).1.db
    unfolding After
    update_object-IsAccounted h = elim (Result-cases (load_object u k false w.db)) [
      | inr (e, l) ↦ subst After (sym (update_unloaded storage conf u k upd now commits w e l)) h
      | inl (o, l) ↦ elim (Result-cases (filing u upd.category_ids w.db)) [
        | inr (e, f) ↦
            subst After (sym (update_unfiled storage conf u k upd now commits w o none e l f)) h
        | inl (categories, f) ↦
            let moved = relocate_for_visibility storage conf o (asked upd.new_visibility) w.store in
            relocated-IsAccounted o categories moved.0 moved.1 l f refl h
      ]
    ]
