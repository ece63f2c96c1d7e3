-- ===== src/Objects/Bytes.antt =====
-- The bytes of an object through `update_object` of media_service/controllers/objects.py, and
-- what the object storage promises.
pub mod Rows
use mathlib.Core.Path.{subst, sym}
use media_service_m.Prelude.{
  ℕ, Bool, true, false, not, ◌&&◌, ◌||◌, Option, none, some, List, ◌==◌, ◌≡◌, refl, ◌⊎◌, inl, inr,
  arith, Option-cases, Bool-cases, Text, ==-refl,
}
use media_service_m.Effect.{Result, ok, err, Result-cases, Error, http, relocate_failed}
use media_service_m.Model.Enums.{MediaVisibility, visibility_eq, visibility_eq_iff}
use media_service_m.Model.Rows.{MediaObject, Category, Db, UserModel, object_is}
use media_service_m.Model.Table.{find_row-passes, find_row-save_row_self}
use media_service_m.Model.Store.{ObjectStorage, Settings, World}
use media_service_m.Keys.{bucket_for_visibility}
use media_service_m.Access.{find_object, fetch_object, load_object}
use media_service_m.Objects.Runs.{
  updates, update_raised, update_written, update_unloaded, update_unfiled,
}
use media_service_m.Objects.{
  save_object, MediaObjectUpdate, asked, has_null, or_old, sqlmodel_update, refile, filing,
  relocate_for_visibility, write_update, update_object,
}

-- What the storage promises: `holds` tells which bytes it has. A copy that returns has made its
-- destination and, returning or not, destroys nothing; a removal leaves the other buckets alone.
pub record IsStorage {S : Type 0} (storage : ObjectStorage S) (holds : S → ℕ → Text → Bool)
    : Type 0 where
  pub copied :
      (b : ℕ) (k : Text) (b' : ℕ) (k' : Text) (s : S)
      → holds s b k ≡ true
      → (storage.copy_object b k b' k' s).0 ≡ true
      → holds (storage.copy_object b k b' k' s).1 b' k' ≡ true
  pub copy_keeps :
      (b : ℕ) (k : Text) (b' : ℕ) (k' : Text) (s : S) (other : ℕ) (key : Text)
      → holds s other key ≡ true
      → holds (storage.copy_object b k b' k' s).1 other key ≡ true
  pub removal_elsewhere :
      (b : ℕ) (k : Text) (s : S) (other : ℕ) (key : Text)
      → (b == other) ≡ false
      → holds s other key ≡ true
      → holds (storage.remove_object b k s).1 other key ≡ true

-- The bytes of a row are where it says.
abbrev pub HasBytes : {S : Type 0} → (S → ℕ → Text → Bool) → MediaObject → S → Type 0
HasBytes holds o s = holds s o.storage_bucket o.object_key ≡ true

pub load_object-ok :
    (u : UserModel) (k : ℕ) (include_deleted : Bool) (d : Db) (o : MediaObject)
    → load_object u k include_deleted d ≡ ok o
    → (find_object k d ≡ some o) × (o.id ≡ k) × ((u.is_superuser || o.owner_user_id == u.id) ≡ true)
unfolding load_object fetch_object
load_object-ok u k include_deleted d o h = elim (Option-cases (find_object k d)) [
  | inl missing ↦ absurd (ground arith)
  | inr (r, e) ↦ ground (arith, find_row-passes (object_is k) d.objects r e)
]

pub find_object-save_object :
    (o : MediaObject) (d : Db) → find_object o.id (save_object o d) ≡ some o
find_object-save_object o d = find_row-save_row_self (object_is o.id) o d.objects (==-refl o.id)

pub refile-objects :
    (k : ℕ) (categories : Option (List Category)) (d : Db)
    → (refile k categories d).objects ≡ d.objects
refile-objects k none d = refl
refile-objects k (some c) d = refl

module _ {S : Type 0} (storage : ObjectStorage S) (conf : Settings) (holds : S → ℕ → Text → Bool)
    (laws : IsStorage storage holds) where
  -- The bytes of a row are in its bucket, and the bucket is the one of its visibility.
  abbrev pub IsPlaced : MediaObject → Type 0
  IsPlaced o = o.storage_bucket ≡ bucket_for_visibility conf o.visibility

  module _ (o : MediaObject) (v : MediaVisibility) (s : S) where
    abbrev new_bucket : ℕ
    new_bucket = bucket_for_visibility conf v

    abbrev relocated : Result (Option ℕ × MediaObject) × S
    relocated = relocate_for_visibility storage conf o (some v) s

    abbrev copy : Bool × S
    copy = storage.copy_object o.storage_bucket o.object_key new_bucket o.object_key s

    relocate-cases :
        ((relocated ≡ (ok (none, o), s)) × ((v ≡ o.visibility) ⊎ (new_bucket ≡ o.storage_bucket)))
        ⊎ (((new_bucket == o.storage_bucket) ≡ false)
            × (((copy.0 ≡ true)
                  × (relocated ≡ (
                    ok (some o.storage_bucket, record o { storage_bucket = new_bucket }),
                    copy.1,
                  )))
                ⊎ ((copy.0 ≡ false) × (relocated ≡ (err (http 502 relocate_failed), copy.1)))))
    unfolding relocate_for_visibility
    relocate-cases = elim (Bool-cases (visibility_eq v o.visibility)) [
      | inl same ↦ inl (ground arith, inl ((visibility_eq_iff v o.visibility).0 same))
      | inr differs ↦ elim (Bool-cases (new_bucket == o.storage_bucket)) [
        | inl same ↦ inl (ground arith, inr (ground arith))
        | inr apart ↦ elim (Bool-cases copy.0) [
          | inl done ↦ inr (apart, inl (done, ground arith))
          | inr raised ↦ inr (apart, inr (raised, ground arith))
        ]
      ]
    ]

  -- What becomes of the row `k`, which was `o`: its bytes are where it says, and in the bucket of its
  -- visibility if they were before.
  pub record IsKept (k : ℕ) (o : MediaObject) (after : World S) : Type 0 where
    pub row : MediaObject
    pub found : find_object k after.db ≡ some row
    pub bytes : HasBytes holds row after.store
    pub placed : IsPlaced o → IsPlaced row

  saved-IsKept :
      (o row : MediaObject) (k : ℕ) (categories : Option (List Category)) (d : Db) (s : S)
      → row.id ≡ k
      → HasBytes holds row s
      → (IsPlaced o → IsPlaced row)
      → IsKept k o (record { db = refile row.id categories (save_object row d); store = s })
  saved-IsKept o row k categories d s same_id bytes placed = record {
    row = row;
    found = ground (
      arith,
      find_object-save_object row d,
      refile-objects row.id categories (save_object row d),
    );
    bytes = bytes;
    placed = placed;
  }

  unsaved-IsKept :
      (o : MediaObject) (k : ℕ) (d : Db) (s : S)
      → find_object k d ≡ some o
      → HasBytes holds o s
      → IsKept k o (record { db = d; store = s })
  unsaved-IsKept o k d s found bytes = record {
    row = o;
    found = found;
    bytes = bytes;
    placed = λ p. p;
  }

  module _ (k : ℕ) (o : MediaObject) (upd : MediaObjectUpdate) (categories : Option (List Category))
      (now : ℕ) (commits : Bool) (w : World S) (found : find_object k w.db ≡ some o)
      (same_id : o.id ≡ k) (bytes : HasBytes holds o w.store) where
    write_stayed-IsKept :
        (IsPlaced o
          → o.storage_bucket
            ≡ bucket_for_visibility conf (or_old (asked upd.new_visibility) o.visibility))
        → IsKept k o (write_update storage conf upd categories now commits none o w).1
    unfolding write_update
    write_stayed-IsKept placed = elim (Bool-cases (commits && not (has_null upd))) [
      | inl done ↦ rw done (
          saved-IsKept o (sqlmodel_update upd now o) k categories w.db w.store same_id bytes placed)
      | inr raised ↦ rw raised (unsaved-IsKept o k w.db w.store found bytes)
    ]

    write_moved-IsKept :
        (bucket : ℕ)
        → (bucket == o.storage_bucket) ≡ false
        → holds w.store bucket o.object_key ≡ true
        → bucket ≡ bucket_for_visibility conf (or_old (asked upd.new_visibility) o.visibility)
        → IsKept k o
            (write_update storage conf upd categories now commits
              (some o.storage_bucket)
              (record o { storage_bucket = bucket })
              w).1
    unfolding write_update
    write_moved-IsKept bucket apart there placed =
        elim (Bool-cases (commits && not (has_null upd))) [
          | inl done ↦ rw done (
              saved-IsKept o (sqlmodel_update upd now (record o { storage_bucket = bucket })) k
                categories w.db (storage.remove_object o.storage_bucket o.object_key w.store).1
                same_id
                (laws.removal_elsewhere o.storage_bucket o.object_key w.store bucket o.object_key
                  (ground arith) there)
                (λ p. placed))
          | inr raised ↦ rw raised (
              unsaved-IsKept o k w.db (storage.remove_object bucket o.object_key w.store).1 found (
                laws.removal_elsewhere bucket o.object_key w.store o.storage_bucket o.object_key
                  apart bytes))
        ]

  module _ (u : UserModel) (k : ℕ) (upd : MediaObjectUpdate) (now : ℕ) (commits : Bool)
      (w : World S) (before : MediaObject) where
    relocate-unasked :
        (o : MediaObject)
        → asked upd.new_visibility ≡ none
        → relocate_for_visibility storage conf o (asked upd.new_visibility) w.store
          ≡ (ok (none, o), w.store)
    unfolding relocate_for_visibility
    relocate-unasked o h = rw h refl

    abbrev After : Result MediaObject × World S → Type 0
    After r = IsKept k before r.1

    module _ (found : find_object k w.db ≡ some before) (same_id : before.id ≡ k)
        (bytes : HasBytes holds before w.store) (categories : Option (List Category))
        (l : load_object u k false w.db ≡ ok before)
        (f : filing u upd.category_ids w.db ≡ ok categories) where
      stayed-IsKept :
          relocate_for_visibility storage conf before (asked upd.new_visibility) w.store
            ≡ (ok (none, before), w.store)
          → (IsPlaced before
              → before.storage_bucket
                ≡ bucket_for_visibility conf (or_old (asked upd.new_visibility) before.visibility))
          → After (updates storage conf u k upd now commits w)
      stayed-IsKept r placed =
          subst After
            (sym (
              update_written storage conf u k upd now commits w before categories none before
                w.store l f r))
            (write_stayed-IsKept k before upd categories now commits w found same_id bytes placed)

      moving-IsKept :
          (v : MediaVisibility)
          → asked upd.new_visibility ≡ some v
          → After (updates storage conf u k upd now commits w)
      moving-IsKept v a = elim (relocate-cases before v w.store) [
        | inl (stays, same) ↦ stayed-IsKept (rw a stays) (λ p. ground arith)
        | inr (apart, inl (done, moves)) ↦
            subst After
              (sym (
                update_written storage conf u k upd now commits w before categories
                  (some before.storage_bucket)
                  (record before { storage_bucket = bucket_for_visibility conf v })
                  (copy before v w.store).1 l f (rw a moves)))
              (write_moved-IsKept k before upd categories now commits
                (record w { store = (copy before v w.store).1 }) found same_id
                (laws.copy_keeps before.storage_bucket before.object_key
                  (bucket_for_visibility conf v) before.object_key w.store before.storage_bucket
                  before.object_key bytes)
                (bucket_for_visibility conf v) apart
                (laws.copied before.storage_bucket before.object_key (bucket_for_visibility conf v)
                  before.object_key w.store bytes done)
                (rw a refl))
        | inr (apart, inr (raised, stops)) ↦
            subst After
              (sym (
                update_raised storage conf u k upd now commits w before categories
                  (http 502 relocate_failed) (copy before v w.store).1 l f (rw a stops)))
              (unsaved-IsKept before k w.db (copy before v w.store).1 found (
                laws.copy_keeps before.storage_bucket before.object_key
                  (bucket_for_visibility conf v) before.object_key w.store before.storage_bucket
                  before.object_key bytes))
      ]

    -- However an update ends - refused, stopped by a failed copy, refused by the database, or done -
    -- the object's row is there, its bytes are where the row says, and they are in the bucket of its
    -- visibility if they were before.
    pub update_object-IsKept :
        find_object k w.db ≡ some before
        → HasBytes holds before w.store
        → IsKept k before (updates storage conf u k upd now commits w).1
    update_object-IsKept found bytes = elim (Result-cases (load_object u k false w.db)) [
      | inr (e, l) ↦
          subst After (sym (update_unloaded storage conf u k upd now commits w e l))
            (unsaved-IsKept before k w.db w.store found bytes)
      | inl (o, l) ↦ elim (Result-cases (filing u upd.category_ids w.db)) [
        | inr (e, f) ↦
            subst After (sym (update_unfiled storage conf u k upd now commits w o none e l f))
              (unsaved-IsKept before k w.db w.store found bytes)
        | inl (categories, f) ↦
            let (seen, same_id, allowed) = load_object-ok u k false w.db o l in
            let l' : load_object u k false w.db ≡ ok before = ground arith in
            let id' : before.id ≡ k = ground arith in
            elim (Option-cases (asked upd.new_visibility)) [
              | inl unasked ↦
                  stayed-IsKept found id' bytes categories l' f (relocate-unasked before unasked)
                    (λ p. ground arith)
              | inr (v, a) ↦ moving-IsKept found id' bytes categories l' f v a
            ]
      ]
    ]
