-- ===== src/Maintenance/Purge.antt =====
-- The candidates and the rows of `hard_purge_expired` of
-- media_service/controllers/maintenance.py.
use mathlib.Core.Path.{subst}
use media_service_m.Prelude.{
  ==-refl, ℕ, ◌-◌, ◌≤◌, true, false, Option, none, List, [], ◌∷◌, ◌==◌, ◌≡◌, refl, ap, arith, In,
  In-take, In-filter, ◌⊎◌, inl, inr, Bool-cases, length, length-take-le, filter,
}
use media_service_m.Model.Rows.{MediaObject, Db}
use media_service_m.Model.Store.{ObjectStorage, World}
use media_service_m.Quota.{bytes_of, count_of}
use media_service_m.Access.{find_object}
use media_service_m.Maintenance.{
  is_purgeable, insert_by_deleted, sort_by_deleted, purge_candidates, purge_rows, purge_bytes,
  is_restored, purge_all, hard_purge_expired,
}
use media_service_m.Maintenance.Integrity.{find_object-purge_rows}

In-insert_by_deleted :
    (a x : MediaObject) (rows : List MediaObject)
    → In a (insert_by_deleted x rows)
    → (a ≡ x) ⊎ In a rows
In-insert_by_deleted a x [] h = h
In-insert_by_deleted a x (y ∷ rows) h = ground (arith, In-insert_by_deleted a x rows)

In-sort_by_deleted :
    (a : MediaObject) (rows : List MediaObject) → In a (sort_by_deleted rows) → In a rows
In-sort_by_deleted a [] h = h
In-sort_by_deleted a (x ∷ rows) h =
    ground (arith, In-insert_by_deleted a x (sort_by_deleted rows), In-sort_by_deleted a rows)

-- Only purgeable rows are candidates.
pub candidates_are_purgeable :
    (cutoff limit : ℕ) (rows : List MediaObject) (o : MediaObject)
    → In o (purge_candidates cutoff limit rows)
    → In o rows × (is_purgeable cutoff o ≡ true)
unfolding purge_candidates
candidates_are_purgeable cutoff limit rows o h = In-filter (is_purgeable cutoff) o rows (
    In-sort_by_deleted o (filter (is_purgeable cutoff) rows)
      (In-take limit o (sort_by_deleted (filter (is_purgeable cutoff) rows)) h))

candidates-le :
    (cutoff limit : ℕ) (rows : List MediaObject)
    → length (purge_candidates cutoff limit rows) ≤ limit
unfolding purge_candidates
candidates-le cutoff limit rows =
    length-take-le limit (sort_by_deleted (filter (is_purgeable cutoff) rows))

module _ {S : Type 0} (storage : ObjectStorage S) where
  -- An object that is no candidate stays, and the quota rows are not touched.
  purge_all-others :
      (candidates : List MediaObject) (d : Db) (store : S) (k : ℕ)
      → ((c : MediaObject) → In c candidates → (c.id == k) ≡ false)
      → (find_object k (purge_all storage candidates d store).1 ≡ find_object k d)
        × ((purge_all storage candidates d store).1.usages ≡ d.usages)
  unfolding purge_all
  purge_all-others [] d store k apart = (refl, refl)
  purge_all-others (o ∷ candidates) d store k apart = elim (Bool-cases (is_restored o)) [
    | inl restored ↦ rw restored (purge_all-others candidates d store k (λ c m. apart c (inr m)))
    | inr gone ↦
        let rest =
          purge_all-others candidates (purge_rows o.id d) (purge_bytes storage o d store) k
            (λ c m. apart c (inr m)) in
        let here = find_object-purge_rows k o.id d in
        rw gone (ground (arith, rest, here, apart o (inl refl)), rest.1)
  ]

  purge_all-usages :
      (candidates : List MediaObject) (d : Db) (store : S)
      → ((purge_all storage candidates d store).1.usages ≡ d.usages)
        × ((purge_all storage candidates d store).0 ≤ length candidates)
  unfolding purge_all
  purge_all-usages [] d store = (refl, omega arith)
  purge_all-usages (o ∷ candidates) d store = elim (Bool-cases (is_restored o)) [
    | inl restored ↦
        let rest = purge_all-usages candidates d store in
        rw restored (rest.0, omega (arith, rest.1))
    | inr gone ↦
        let rest =
          purge_all-usages candidates (purge_rows o.id d) (purge_bytes storage o d store) in
        rw gone (rest.0, omega (arith, rest.1))
  ]

  -- A candidate that is not restored is gone afterwards, and stays gone.
  purge_all-missing :
      (candidates : List MediaObject) (d : Db) (store : S) (k : ℕ)
      → find_object k d ≡ none
      → find_object k (purge_all storage candidates d store).1 ≡ none
  unfolding purge_all
  purge_all-missing [] d store k h = h
  purge_all-missing (o ∷ candidates) d store k h = elim (Bool-cases (is_restored o)) [
    | inl restored ↦ rw restored (purge_all-missing candidates d store k h)
    | inr gone ↦ rw gone (
        purge_all-missing candidates (purge_rows o.id d) (purge_bytes storage o d store) k
          (ground (arith, find_object-purge_rows k o.id d)))
  ]

  purge_all-purged :
      (candidates : List MediaObject) (d : Db) (store : S) (o : MediaObject)
      → In o candidates
      → is_restored o ≡ false
      → find_object o.id (purge_all storage candidates d store).1 ≡ none
  unfolding purge_all
  purge_all-purged [] d store o m h = absurd m
  purge_all-purged (x ∷ candidates) d store o (inl here) h =
      let gone : is_restored x ≡ false =
        subst (λ (y : MediaObject). is_restored y ≡ false) here h in
      rw gone (
        purge_all-missing candidates (purge_rows x.id d) (purge_bytes storage x d store) o.id
          (ground (arith, find_object-purge_rows o.id x.id d, ==-refl x.id)))
  purge_all-purged (x ∷ candidates) d store o (inr later) h = elim (Bool-cases (is_restored x)) [
    | inl restored ↦ rw restored (purge_all-purged candidates d store o later h)
    | inr gone ↦
        rw gone (
          purge_all-purged candidates (purge_rows x.id d) (purge_bytes storage x d store) o later h)
  ]

module _ {S : Type 0} (storage : ObjectStorage S) (now older_than limit : ℕ) (w : World S) where
  abbrev pub purges : ℕ × World S
  purges = hard_purge_expired storage now older_than limit w

  -- The primary key of the objects.
  abbrev pub IsKeyed : Type 0
  IsKeyed = (a b : MediaObject) → In a w.db.objects → In b w.db.objects → a.id ≡ b.id → a ≡ b

  -- A purge spares every object that is live, or was deleted within the grace period, or has another
  -- status than deleted, if ids are not shared.
  pub hard_purge_expired-spares :
      (o : MediaObject)
      → IsKeyed
      → In o w.db.objects
      → is_purgeable (now - older_than) o ≡ false
      → find_object o.id purges.1.db ≡ find_object o.id w.db
  unfolding hard_purge_expired
  hard_purge_expired-spares o keyed there spared =
      let candidates = purge_candidates (now - older_than) limit w.db.objects in
      (purge_all-others storage candidates w.db w.store o.id (λ c m. apart c m)).0
    where
      apart :
          (c : MediaObject)
          → In c (purge_candidates (now - older_than) limit w.db.objects)
          → (c.id == o.id) ≡ false
      apart c m = elim (Bool-cases (c.id == o.id)) [
        | inr other ↦ other
        | inl same ↦
            let picked = candidates_are_purgeable (now - older_than) limit w.db.objects c m in
            let one : c ≡ o = keyed c o picked.0 there (ground arith) in
            absurd (cc (ap (is_purgeable (now - older_than)) one, picked.1, spared))
      ]

  -- Every candidate of a purge is gone after it, and its bytes are debited from nobody a second time;
  -- it purges at most its limit.
  pub hard_purge_expired-purges :
      ((o : MediaObject)
        → In o (purge_candidates (now - older_than) limit w.db.objects)
        → find_object o.id purges.1.db ≡ none)
      × ((owner : ℕ) (tenant : Option ℕ)
          → (bytes_of owner tenant purges.1.db ≡ bytes_of owner tenant w.db)
            × (count_of owner tenant purges.1.db ≡ count_of owner tenant w.db))
      × (purges.0 ≤ limit)
  unfolding hard_purge_expired
  hard_purge_expired-purges =
      let candidates = purge_candidates (now - older_than) limit w.db.objects in
      let (usages, count) = purge_all-usages storage candidates w.db w.store in
      (
        λ o m. purge_all-purged storage candidates w.db w.store o m (not_restored o m),
        λ owner tenant. ground (arith, usages),
        omega (arith, count, candidates-le (now - older_than) limit w.db.objects),
      )
    where
      not_restored :
          (o : MediaObject)
          → In o (purge_candidates (now - older_than) limit w.db.objects)
          → is_restored o ≡ false
      not_restored o m =
          ground (arith, candidates_are_purgeable (now - older_than) limit w.db.objects o m)
