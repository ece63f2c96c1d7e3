-- ===== src/Maintenance.antt =====
-- `hard_purge_expired` of media_service/controllers/maintenance.py. The links and the share
-- tokens of a row go with it, by the ON DELETE CASCADE of their tables.
pub mod Purge
pub mod Integrity
pub mod Ledger
pub mod Reconcile
use media_service_m.Prelude.{
  ℕ, suc, ◌+◌, ◌-◌, Bool, true, false, not, ◌&&◌, ◌||◌, Option, none, some, List, [], ◌∷◌, take,
  filter, ◌==◌, ltb, leb, is_none, if◌then◌else◌, Text,
}
use media_service_m.Model.Enums.{MediaObjectStatus, object_status_eq}
use media_service_m.Model.Rows.{
  MediaObject, MediaObjectCategoryLink, ShareToken, MediaVariant, VariantJob, Db, object_is,
}
use media_service_m.Model.Table.{delete_row}
use media_service_m.Model.Store.{ObjectStorage, World}

-- `deleted_at < cutoff`; a null compares to nothing.
abbrev before_cutoff : ℕ → Option ℕ → Bool
before_cutoff cutoff none = false
before_cutoff cutoff (some t) = ltb t cutoff

abbrev pub is_purgeable : ℕ → MediaObject → Bool
is_purgeable cutoff o =
    object_status_eq o.status MediaObjectStatus.deleted && before_cutoff cutoff o.deleted_at

abbrev at_or_before : Option ℕ → Option ℕ → Bool
at_or_before (some a) (some b) = leb a b
at_or_before none b = true
at_or_before (some a) none = false

-- `ORDER BY deleted_at`.
abbrev pub insert_by_deleted : MediaObject → List MediaObject → List MediaObject
insert_by_deleted o [] = o ∷ []
insert_by_deleted o (x ∷ rest) =
    let deeper = insert_by_deleted o rest in
    if at_or_before o.deleted_at x.deleted_at then o ∷ x ∷ rest else x ∷ deeper

abbrev pub sort_by_deleted : List MediaObject → List MediaObject
sort_by_deleted [] = []
sort_by_deleted (o ∷ rest) = insert_by_deleted o (sort_by_deleted rest)

-- The candidates of `hard_purge_expired`.
unfoldable pub purge_candidates : ℕ → ℕ → List MediaObject → List MediaObject
purge_candidates cutoff limit rows =
    take limit (sort_by_deleted (filter (is_purgeable cutoff) rows))

abbrev pub variant_of : ℕ → MediaVariant → Bool
variant_of k v = v.media_object_id == k

abbrev pub job_of : ℕ → VariantJob → Bool
job_of k j = j.media_object_id == k

abbrev pub link_of : ℕ → MediaObjectCategoryLink → Bool
link_of k l = l.media_object_id == k

abbrev pub share_of_object : ℕ → ShareToken → Bool
share_of_object k s = s.media_object_id == k

-- The rows of one purged object: its variants and jobs first, then itself and what cascades.
abbrev pub purge_rows : ℕ → Db → Db
purge_rows k d = record d {
  objects = delete_row (object_is k) d.objects;
  variants = delete_row (variant_of k) d.variants;
  variant_jobs = delete_row (job_of k) d.variant_jobs;
  links = delete_row (link_of k) d.links;
  shares = delete_row (share_of_object k) d.shares;
}

-- The guard at execution time.
abbrev pub is_restored : MediaObject → Bool
is_restored o = not (object_status_eq o.status MediaObjectStatus.deleted) || is_none o.deleted_at

module _ {S : Type 0} (storage : ObjectStorage S) where
  -- `_best_effort_remove` of each variant's bytes.
  abbrev pub remove_variants : List MediaVariant → S → S
  remove_variants [] store = store
  remove_variants (v ∷ variants) store =
      remove_variants variants (storage.remove_object v.storage_bucket v.object_key store).1

  abbrev pub purge_bytes : MediaObject → Db → S → S
  purge_bytes o d store =
      remove_variants (filter (variant_of o.id) d.variants)
        (storage.remove_object o.storage_bucket o.object_key store).1

  -- The loop of `hard_purge_expired`.
  unfoldable pub purge_all : List MediaObject → Db → S → ℕ × Db × S
  purge_all [] d store = (0, d, store)
  purge_all (o ∷ candidates) d store =
      let kept = purge_all candidates d store in
      let (purged, rest, store') =
        purge_all candidates (purge_rows o.id d) (purge_bytes o d store) in
      if is_restored o then kept else (purged + 1, rest, store')

  -- `MaintenanceController.hard_purge_expired`; returns the number purged.
  unfoldable pub hard_purge_expired : ℕ → ℕ → ℕ → World S → ℕ × World S
  unfolding purge_all purge_candidates
  hard_purge_expired now older_than limit w =
      let (purged, d, store) =
        purge_all (purge_candidates (now - older_than) limit w.db.objects) w.db w.store in
      (purged, record { db = d; store = store })
