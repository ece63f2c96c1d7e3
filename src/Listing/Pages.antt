-- ===== src/Listing/Pages.antt =====
-- A client that follows `next_cursor` from page to page of `ObjectsController.list_objects`
-- (media_service/controllers/objects.py), against one listing of all rows.
use media_service_m.Listing.Cursors.{
  at_cursor, IsCursorText, IsCut, IsCut-rows, follow_cursors, ltb-length-take, take-suc_short,
  take-take-suc,
}
use mathlib.Core.Path.{fun_ext}
use mathlib.Core.List.{append_assoc}
use media_service_m.Prelude.{
  ℕ, zero, suc, ◌<◌, Bool, true, false, ◌&&◌, Option, none, some, List, [], ◌∷◌, ◌++◌, ltb, length,
  take, filter, ◌≡◌, refl, sym, ap, ◌∙◌, inl, inr, arith, Bool-cases, Text, length-append,
}
use media_service_m.Prelude.Sorting.{
  sort_rows, IsOrdered, filter-IsApart, sort_rows-IsOrdered, filter-sort_rows, filter-suffix,
}
use media_service_m.Effect.{ok}
use media_service_m.Model.Rows.{MediaObject, Db, UserModel}
use media_service_m.Access.{ObjectListParams, scoped_query}
use media_service_m.Listing.{
  Dialect, SortValue, sort_value, apply_filters, apply_category_filter, comes_first, encode_cursor,
  page_of, matching, list_objects, decode_cursor, is_after,
}
use media_service_m.Listing.Order.{
  IsCollation, HasDistinctIds, comes_first-trans, comes_first-asym, rows-IsApart,
  keyset_predicate-eq-comes_first,
}

module _ (dialect : Dialect) (law : IsCollation dialect.collate) (texts : IsCursorText dialect)
    (u : Option UserModel) (params : ObjectListParams) (d : Db) (in_category : MediaObject → Bool)
    (narrowed_to : apply_category_filter u params d ≡ ok in_category)
    (some_limit : 0 < params.limit) (ids : HasDistinctIds d.objects) where
  -- The one listing of all rows that match.
  abbrev pub whole_listing : List MediaObject
  whole_listing =
      sort_rows (comes_first dialect params.sort_by params.order)
        (matching dialect u params in_category d)

  scoped_query-at_cursor :
      (v : Option UserModel) (c : Option Text) (o : MediaObject)
      → scoped_query v (at_cursor params c) o ≡ scoped_query v params o
  unfolding scoped_query
  scoped_query-at_cursor none c o = refl
  scoped_query-at_cursor (some v) c o = refl

  matching-at_cursor :
      (c : Option Text)
      → matching dialect u (at_cursor params c) in_category d
        ≡ matching dialect u params in_category d
  unfolding apply_filters
  matching-at_cursor c =
      ap
        (λ (p : MediaObject → Bool).
          filter (λ (o : MediaObject). p o && (apply_filters params o && in_category o)) d.objects)
        (fun_ext (λ o. scoped_query-at_cursor u c o))

  category-at_cursor :
      (c : Option Text) → apply_category_filter u (at_cursor params c) d ≡ ok in_category
  unfolding apply_category_filter
  category-at_cursor c = narrowed_to

  -- One page from a position where `rows` is what is left.
  page_from :
      (c : Option Text) (p : Option (SortValue × ℕ)) (rows : List MediaObject)
      → decode_cursor dialect params.sort_by c ≡ ok p
      → filter (is_after dialect params.sort_by params.order p) whole_listing ≡ rows
      → list_objects dialect u (at_cursor params c) d
        ≡ ok (page_of dialect params.sort_by params.limit (take (suc params.limit) rows))
  unfolding list_objects
  page_from c p rows at left =
      let order = comes_first dialect params.sort_by params.order in
      let after = is_after dialect params.sort_by params.order p in
      let sorted =
        filter-sort_rows order (comes_first-trans dialect law params.sort_by params.order)
          (comes_first-asym dialect law params.sort_by params.order) after
          (matching dialect u params in_category d)
          (filter-IsApart order
            (λ (o : MediaObject).
              scoped_query u params o && (apply_filters params o && in_category o))
            d.objects (rows-IsApart dialect law params.sort_by params.order d.objects ids)) in
      rw (category-at_cursor c, at, matching-at_cursor c, sorted, left) refl

  listing-IsOrdered : IsOrdered (comes_first dialect params.sort_by params.order) whole_listing
  listing-IsOrdered =
      sort_rows-IsOrdered (comes_first dialect params.sort_by params.order)
        (comes_first-trans dialect law params.sort_by params.order)
        (comes_first-asym dialect law params.sort_by params.order)
        (matching dialect u params in_category d)
        (filter-IsApart (comes_first dialect params.sort_by params.order)
          (λ (o : MediaObject).
            scoped_query u params o && (apply_filters params o && in_category o))
          d.objects (rows-IsApart dialect law params.sort_by params.order d.objects ids))

  -- What stands behind a row is what its cursor leaves.
  after_cursor :
      (pre : List MediaObject) (x : MediaObject) (post : List MediaObject)
      → whole_listing ≡ pre ++ x ∷ post
      → filter
          (is_after dialect params.sort_by params.order (some (sort_value params.sort_by x, x.id)))
          whole_listing
        ≡ post
  after_cursor pre x post e =
      let order = comes_first dialect params.sort_by params.order in
      let same =
        fun_ext (keyset_predicate-eq-comes_first dialect law params.sort_by params.order x) in
      rw (same, e)
        (filter-suffix order (comes_first-trans dialect law params.sort_by params.order)
          (comes_first-asym dialect law params.sort_by params.order) pre x post
          (rw e at listing-IsOrdered))

  page_last :
      (rows : List MediaObject)
      → ltb params.limit (length rows) ≡ false
      → page_of dialect params.sort_by params.limit (take (suc params.limit) rows)
        ≡ record { items = rows; next_cursor = none }
  unfolding page_of
  page_last rows done =
      rw
        (
          ltb-length-take params.limit rows,
          done,
          take-take-suc params.limit rows,
          take-suc_short params.limit rows (ground arith),
        )
        refl

  page_more :
      (rows : List MediaObject) (cut : IsCut params.limit rows)
      → ltb params.limit (length rows) ≡ true
      → page_of dialect params.sort_by params.limit (take (suc params.limit) rows) ≡ record {
        items = cut.before ++ cut.last ∷ [];
        next_cursor = some (encode_cursor dialect params.sort_by cut.last);
      }
  unfolding page_of
  page_more rows cut more =
      rw
        (
          ltb-length-take params.limit rows,
          more,
          take-take-suc params.limit rows,
          cut.ends,
          cut.page,
        )
        refl

  decode_cursor-encode_cursor :
      (x : MediaObject)
      → decode_cursor dialect params.sort_by (some (encode_cursor dialect params.sort_by x))
        ≡ ok (some (sort_value params.sort_by x, x.id))
  unfolding decode_cursor
  decode_cursor-encode_cursor x = rw (texts params.sort_by x) refl

  -- A page that is not the last, and what the rest of the pages give.
  follow_more :
      (fuel : ℕ) (c : Option Text) (p : Option (SortValue × ℕ)) (rows : List MediaObject)
      (cut : IsCut params.limit rows)
      → decode_cursor dialect params.sort_by c ≡ ok p
      → filter (is_after dialect params.sort_by params.order p) whole_listing ≡ rows
      → ltb params.limit (length rows) ≡ true
      → follow_cursors dialect fuel u params d
          (some (encode_cursor dialect params.sort_by cut.last))
        ≡ some (ok cut.behind)
      → follow_cursors dialect (suc fuel) u params d c ≡ some (ok rows)
  unfolding follow_cursors
  follow_more fuel c p rows cut at left more rest =
      rw (page_from c p rows at left, page_more rows cut more, rest)
        (ap (λ (t : List MediaObject). some (ok t))
          (append_assoc cut.before (cut.last ∷ []) cut.behind ∙ sym cut.whole))

  follow_from :
      (fuel : ℕ) (c : Option Text) (p : Option (SortValue × ℕ)) (pre rows : List MediaObject)
      → decode_cursor dialect params.sort_by c ≡ ok p
      → filter (is_after dialect params.sort_by params.order p) whole_listing ≡ rows
      → whole_listing ≡ pre ++ rows
      → length rows < fuel
      → follow_cursors dialect fuel u params d c ≡ some (ok rows)
  unfolding follow_cursors
  follow_from zero c p pre rows at left parts h = absurd (omega arith)
  follow_from (suc fuel) c p pre rows at left parts h =
      elim (Bool-cases (ltb params.limit (length rows))) [
        | inr done ↦ rw (page_from c p rows at left, page_last rows done) refl
        | inl more ↦
            let cut = IsCut-rows params.limit rows (ground arith) some_limit in
            let x = cut.last in
            let parts' : whole_listing ≡ (pre ++ cut.before) ++ x ∷ cut.behind =
              parts
              ∙ (ap (◌++◌ pre) cut.whole ∙ sym (append_assoc pre cut.before (x ∷ cut.behind))) in
            let fewer : length cut.behind < fuel =
              omega (arith, h, ap length cut.whole, length-append cut.before (x ∷ cut.behind)) in
            follow_more fuel c p rows cut at left more (
              follow_from fuel (some (encode_cursor dialect params.sort_by x))
                (some (sort_value params.sort_by x, x.id)) ((pre ++ cut.before) ++ x ∷ [])
                cut.behind (decode_cursor-encode_cursor x)
                (after_cursor (pre ++ cut.before) x cut.behind parts')
                (parts' ∙ sym (append_assoc (pre ++ cut.before) (x ∷ []) cut.behind)) fewer)
      ]

  -- Following the cursors from the first page gives every row that the caller may see and that
  -- matches the filters, each once and in the order asked for, and ends: a client that asks for at
  -- least one row a page needs no more pages than there are rows, and one. The ids are a key, and
  -- the collation and the cursor's text are lawful.
  pub follow_cursors-eq-whole_listing :
      follow_cursors dialect (suc (length whole_listing)) u params d none ≡ some (ok whole_listing)
  unfolding decode_cursor
  follow_cursors-eq-whole_listing =
      follow_from (suc (length whole_listing)) none none [] whole_listing refl
        (all_rows whole_listing) refl (omega arith)
    where
      all_rows : (rows : List MediaObject) → filter (λ o. true) rows ≡ rows
      all_rows [] = refl
      all_rows (x ∷ rows) = ap (◌∷◌ x) (all_rows rows)
