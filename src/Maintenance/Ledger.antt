-- ===== src/Maintenance/Ledger.antt =====
-- `hard_purge_expired` of media_service/controllers/maintenance.py in the ledger of Quota/Accounting.
use media_service_m.Prelude.{
  ℕ, ◌-◌, Bool, true, false, List, [], ◌∷◌, ◌≡◌, refl, arith, In, inl, inr, Bool-cases, sum_by,
  is_none,
}
use media_service_m.Model.Rows.{MediaObject, Db, object_is}
use media_service_m.Model.Table.{delete_row, In-delete_row}
use media_service_m.Model.Store.{ObjectStorage, World}
use media_service_m.Quota.Accounting.{IsAccounted, weight}
use media_service_m.Maintenance.{
  purge_candidates, purge_rows, purge_bytes, is_restored, purge_all, hard_purge_expired,
}
use media_service_m.Maintenance.Purge.{candidates_are_purgeable}

sum_by-delete_row_zero :
    (f : MediaObject → ℕ) (p : MediaObject → Bool) (rows : List MediaObject)
    → ((x : MediaObject) → In x rows → p x ≡ true → f x ≡ 0)
    → sum_by f (delete_row p rows) ≡ sum_by f rows
sum_by-delete_row_zero f p [] zeros = refl
sum_by-delete_row_zero f p (x ∷ rows) zeros =
    ground (arith, zeros x (inl refl), sum_by-delete_row_zero f p rows (λ y m. zeros y (inr m)))

-- Every stored row that bears a candidate's id is deleted.
abbrev AreDeleted : List MediaObject → Db → Type 0
AreDeleted candidates d =
    (c x : MediaObject)
    → In c candidates
    → In x d.objects
    → x.id ≡ c.id
    → is_none x.deleted_at ≡ false

purge_rows-IsAccounted :
    (k : ℕ) (d : Db)
    → ((x : MediaObject) → In x d.objects → x.id ≡ k → is_none x.deleted_at ≡ false)
    → IsAccounted d
    → IsAccounted (purge_rows k d)
purge_rows-IsAccounted k d deleted h owner tenant = ground (
  arith,
  h owner tenant,
  sum_by-delete_row_zero (weight owner tenant) (object_is k) d.objects
      (λ x m p. ground (arith, deleted x m)),
)

module _ {S : Type 0} (storage : ObjectStorage S) where
  purge_all-IsAccounted :
      (candidates : List MediaObject) (d : Db) (store : S)
      → AreDeleted candidates d
      → IsAccounted d
      → IsAccounted (purge_all storage candidates d store).1
  unfolding purge_all
  purge_all-IsAccounted [] d store deleted h = h
  purge_all-IsAccounted (o ∷ candidates) d store deleted h = elim (Bool-cases (is_restored o)) [
    | inl restored ↦
        rw restored (purge_all-IsAccounted candidates d store (λ c x m. deleted c x (inr m)) h)
    | inr gone ↦ rw gone (
        purge_all-IsAccounted candidates (purge_rows o.id d) (purge_bytes storage o d store)
          (λ c x m n. deleted c x (inr m) (In-delete_row x (object_is o.id) d.objects n))
          (purge_rows-IsAccounted o.id d (λ x m e. deleted o x (inl refl) m e) h))
  ]

  pub hard_purge_expired-IsAccounted :
      (now older_than limit : ℕ) (w : World S)
      → ((a b : MediaObject) → In a w.db.objects → In b w.db.objects → a.id ≡ b.id → a ≡ b)
      → IsAccounted w.db
      → IsAccounted (hard_purge_expired storage now older_than limit w).1.db
  unfolding hard_purge_expired
  hard_purge_expired-IsAccounted now older_than limit w keyed h =
      purge_all-IsAccounted (purge_candidates (now - older_than) limit w.db.objects) w.db w.store
        (λ c x m n e.
          let picked = candidates_are_purgeable (now - older_than) limit w.db.objects c m in
          let one : x ≡ c = keyed x c n picked.0 e in ground (arith, picked.1, one))
        h
