-- ===== src/Maintenance/Integrity.antt =====
-- The foreign keys under `hard_purge_expired` of media_service/controllers/maintenance.py.
use media_service_m.Prelude.{
  ℕ, ◌-◌, Bool, false, none, List, [], ◌∷◌, ◌==◌, ◌≡◌, ◌≢◌, arith, if◌then◌else◌, In, inl, inr,
  Bool-cases,
}
use media_service_m.Model.Rows.{
  MediaObject, MediaObjectCategoryLink, ShareToken, MediaVariant, VariantJob, Db, object_is,
}
use media_service_m.Model.Table.{find_row, delete_row, In-delete_row}
use media_service_m.Model.Store.{ObjectStorage, World}
use media_service_m.Access.{find_object}
use media_service_m.Maintenance.{
  variant_of, job_of, link_of, share_of_object, purge_rows, purge_bytes, is_restored, purge_all,
  purge_candidates, hard_purge_expired,
}

pub find_object-purge_rows :
    (j k : ℕ) (d : Db) → find_object j (purge_rows k d) ≡ (if k == j then none else find_object j d)
find_object-purge_rows j k d = lemma j k d.objects
  where
    lemma :
        (j k : ℕ) (rows : List MediaObject)
        → find_row (object_is j) (delete_row (object_is k) rows)
          ≡ (if k == j then none else find_row (object_is j) rows)
    lemma j k [] = ground arith
    lemma j k (o ∷ rows) = ground (arith, lemma j k rows)

-- A row that stays is one that the deletion did not pick.
In-delete_row_kept :
    {R : Type 0} (p : R → Bool) (x : R) (rows : List R) → In x (delete_row p rows) → p x ≡ false
In-delete_row_kept p x [] h = absurd h
In-delete_row_kept p x (y ∷ rows) h = ground (arith, In-delete_row_kept p x rows)

-- Every row that names an object names one that is there: the foreign keys.
pub record IsReferential (d : Db) : Type 0 where
  pub variants : (v : MediaVariant) → In v d.variants → find_object v.media_object_id d ≢ none
  pub variant_jobs : (j : VariantJob) → In j d.variant_jobs → find_object j.media_object_id d ≢ none
  pub links : (l : MediaObjectCategoryLink) → In l d.links → find_object l.media_object_id d ≢ none
  pub shares : (s : ShareToken) → In s d.shares → find_object s.media_object_id d ≢ none

purge_rows-IsReferential : (k : ℕ) (d : Db) → IsReferential d → IsReferential (purge_rows k d)
purge_rows-IsReferential k d h = record {
  variants = λ v m. ground (
    arith,
    h.variants v (In-delete_row v (variant_of k) d.variants m),
    In-delete_row_kept (variant_of k) v d.variants m,
    find_object-purge_rows v.media_object_id k d,
  );
  variant_jobs = λ j m. ground (
    arith,
    h.variant_jobs j (In-delete_row j (job_of k) d.variant_jobs m),
    In-delete_row_kept (job_of k) j d.variant_jobs m,
    find_object-purge_rows j.media_object_id k d,
  );
  links = λ l m. ground (
    arith,
    h.links l (In-delete_row l (link_of k) d.links m),
    In-delete_row_kept (link_of k) l d.links m,
    find_object-purge_rows l.media_object_id k d,
  );
  shares = λ s m. ground (
    arith,
    h.shares s (In-delete_row s (share_of_object k) d.shares m),
    In-delete_row_kept (share_of_object k) s d.shares m,
    find_object-purge_rows s.media_object_id k d,
  );
}

module _ {S : Type 0} (storage : ObjectStorage S) where
  purge_all-IsReferential :
      (candidates : List MediaObject) (d : Db) (store : S)
      → IsReferential d
      → IsReferential (purge_all storage candidates d store).1
  unfolding purge_all
  purge_all-IsReferential [] d store h = h
  purge_all-IsReferential (o ∷ candidates) d store h = elim (Bool-cases (is_restored o)) [
    | inl restored ↦ rw restored (purge_all-IsReferential candidates d store h)
    | inr gone ↦ rw gone (
        purge_all-IsReferential candidates (purge_rows o.id d) (purge_bytes storage o d store)
          (purge_rows-IsReferential o.id d h))
  ]

  -- A purge keeps the foreign keys whole: whatever it deletes, no variant, job, link or share token is
  -- left that names an object which is gone.
  pub hard_purge_expired-IsReferential :
      (now older_than limit : ℕ) (w : World S)
      → IsReferential w.db
      → IsReferential (hard_purge_expired storage now older_than limit w).1.db
  unfolding hard_purge_expired
  hard_purge_expired-IsReferential now older_than limit w h =
      purge_all-IsReferential (purge_candidates (now - older_than) limit w.db.objects) w.db w.store
        h
