-- ===== src/Objects/Runs.antt =====
-- The runs of `update_object` of media_service/controllers/objects.py, one equation for each
-- way that it ends.
use media_service_m.Prelude.{ℕ, Bool, false, Option, List, ◌≡◌, arith}
use media_service_m.Effect.{Result, ok, err, Error}
use media_service_m.Model.Rows.{MediaObject, Category, UserModel}
use media_service_m.Model.Store.{ObjectStorage, Settings, World}
use media_service_m.Access.{load_object}
use media_service_m.Objects.{
  MediaObjectUpdate, asked, filing, relocate_for_visibility, write_update, update_object,
}

module _ {S : Type 0} (storage : ObjectStorage S) (conf : Settings) (u : UserModel) (k : ℕ)
    (upd : MediaObjectUpdate) (now : ℕ) (commits : Bool) (w : World S) where
  abbrev pub updates : Result MediaObject × World S
  updates = update_object storage conf u k upd now commits w

  pub update_unloaded : (e : Error) → load_object u k false w.db ≡ err e → updates ≡ (err e, w)
  unfolding update_object
  update_unloaded e l = ground arith

  module _ (o : MediaObject) (categories : Option (List Category)) where
    pub update_raised :
        (e : Error) (store : S)
        → load_object u k false w.db ≡ ok o
        → filing u upd.category_ids w.db ≡ ok categories
        → relocate_for_visibility storage conf o (asked upd.new_visibility) w.store ≡ (err e, store)
        → updates ≡ (err e, record w { store = store })
    unfolding update_object
    update_raised e store l f r = ground arith

    pub update_written :
        (old : Option ℕ) (row : MediaObject) (store : S)
        → load_object u k false w.db ≡ ok o
        → filing u upd.category_ids w.db ≡ ok categories
        → relocate_for_visibility storage conf o (asked upd.new_visibility) w.store
          ≡ (ok (old, row), store)
        → updates
          ≡ write_update storage conf upd categories now commits old row
              (record w { store = store })
    unfolding update_object
    update_written old row store l f r = ground arith

    pub update_unfiled :
        (e : Error)
        → load_object u k false w.db ≡ ok o
        → filing u upd.category_ids w.db ≡ err e
        → updates ≡ (err e, w)
    unfolding update_object
    update_unfiled e l f = ground arith
