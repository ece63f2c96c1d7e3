-- ===== src/Listing/Readable.antt =====
-- What `ObjectsController.list_objects` (media_service/controllers/objects.py) hands out, against the
-- loader of a single object.
use media_service_m.Prelude.{
  ℕ, suc, Bool, true, false, ◌&&◌, ◌==◌, Option, none, some, List, [], ◌∷◌, length, take, filter,
  ◌≡◌, ◌≤◌, refl, arith, In, In-take, In-filter, inl, inr, length-take-le, &&-both, is_none,
  ==-refl, All, sym, ◌∙◌,
}
use media_service_m.Prelude.Sorting.{sort_rows, In-sort_rows}
use media_service_m.Effect.{Result, ok, err, is_ok, Result-cases}
use media_service_m.Model.Rows.{MediaObject, Db, UserModel, object_is}
use media_service_m.Model.Table.{find_row}
use media_service_m.Access.{
  ObjectListParams, find_object, scoped_query, require_visibility_access, load_object_for_read,
}
use media_service_m.Access.Reads.{scoped_query-eq}
use media_service_m.Listing.Order.{HasDistinctIds}
use media_service_m.Listing.{
  Dialect, SortValue, apply_filters, apply_category_filter, comes_first, Page, page_of, matching,
  list_objects, decode_cursor, is_after, listed,
}

find-In :
    (rows : List MediaObject) (o : MediaObject)
    → HasDistinctIds rows
    → In o rows
    → find_row (object_is o.id) rows ≡ some o
find-In [] o ids m = absurd m
find-In (x ∷ rows) o ids (inl here) = rw here (rw (==-refl x.id) refl)
find-In (x ∷ rows) o ids (inr later) = rw (other rows ids.0 later) (find-In rows o ids.1 later)
  where
    other :
        (ys : List MediaObject)
        → All (λ (y : MediaObject). (x.id == y.id) ≡ false) ys
        → In o ys
        → (x.id == o.id) ≡ false
    other [] k m = absurd m
    other (y ∷ ys) k (inl here) = rw here k.0
    other (y ∷ ys) k (inr later) = other ys k.1 later

-- A live row that the caller may read is what the loader of a single object gives.
load_object_for_read-live :
    (u : Option UserModel) (o : MediaObject) (d : Db)
    → find_object o.id d ≡ some o
    → (is_none o.deleted_at && is_ok (require_visibility_access o u)) ≡ true
    → load_object_for_read u o.id d ≡ ok o
unfolding load_object_for_read
load_object_for_read-live u o d found h = ground arith

module _ (dialect : Dialect) (u : Option UserModel) (params : ObjectListParams) (d : Db) where
  -- Every item passed each clause of the query.
  listed-In :
      (in_category : MediaObject → Bool) (p : Result (Option (SortValue × ℕ))) (page : Page)
      → listed dialect u params d in_category p ≡ ok page
      → (length page.items ≤ params.limit)
        × ((o : MediaObject)
            → In o page.items
            → In o d.objects
              × (scoped_query u params o ≡ true)
              × (apply_filters params o ≡ true)
              × (in_category o ≡ true))
  unfolding page_of
  listed-In in_category (err e) page h = cc
  listed-In in_category (ok p) page h =
      let after = is_after dialect params.sort_by params.order p in
      let first = comes_first dialect params.sort_by params.order in
      let all_rows = matching dialect u params in_category d in
      let sorted = sort_rows first (filter after all_rows) in
      let page_rows = take (suc params.limit) sorted in
      let same : take params.limit page_rows ≡ page.items = cc in
      (
        rw (← same) (length-take-le params.limit page_rows),
        λ o m.
            let there = In-sort_rows first o (filter after all_rows) (
              In-take (suc params.limit) o sorted (In-take params.limit o page_rows (rw same m))) in
            let kept = In-filter after o all_rows there in
            let picked =
              In-filter
                (λ (x : MediaObject).
                  scoped_query u params x && (apply_filters params x && in_category x))
                o d.objects kept.0 in
            let scope =
              &&-both (scoped_query u params o) (apply_filters params o && in_category o)
                picked.1 in
            let rest = &&-both (apply_filters params o) (in_category o) scope.1 in
            (picked.0, scope.0, rest.0, rest.1),
      )

  -- Whatever the filters, the cursor and the order, a page holds no more rows than were asked for,
  -- and each of them is a live object that the caller could read by its id, passes every filter and
  -- lies in the category branch asked for. The ids are a key, and a superuser's two extra parameters
  -- are not used.
  pub list_objects-IsReadable :
      (page : Page)
      → list_objects dialect u params d ≡ ok page
      → HasDistinctIds d.objects
      → params.owner_user_id ≡ none
      → params.include_deleted ≡ false
      → (length page.items ≤ params.limit)
        × ((in_category : MediaObject → Bool) × (apply_category_filter u params d ≡ ok in_category)
            × ((o : MediaObject)
                → In o page.items
                → (load_object_for_read u o.id d ≡ ok o)
                  × (apply_filters params o ≡ true)
                  × (in_category o ≡ true)))
  unfolding list_objects
  list_objects-IsReadable page h ids all_owners live_only =
      elim (Result-cases (apply_category_filter u params d)) [
        | inr (e, refused) ↦ absurd (cc (rw refused at h))
        | inl (in_category, narrowed_to) ↦
            let passed =
              listed-In in_category (decode_cursor dialect params.sort_by params.cursor) page
                (rw narrowed_to at h) in
            (
              passed.0,
              (
                in_category,
                narrowed_to,
                λ o m.
                    let clauses = passed.1 o m in
                    (
                      load_object_for_read-live u o d (find-In d.objects o ids clauses.0)
                          (sym (scoped_query-eq u params o all_owners live_only) ∙ clauses.1),
                      clauses.2,
                      clauses.3,
                    ),
              ),
            )
      ]
