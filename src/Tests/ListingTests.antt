-- ===== src/Tests/ListingTests.antt =====
-- Three photos listed one to a page.
use media_service_m.Prelude.{
  ℕ, zero, suc, Bool, true, false, Option, none, some, List, [], ◌∷◌, ◌≡◌, ◌≤◌, refl, arith, length,
  In, Text, text_lt, codes,
}
use media_service_m.Prelude.Sorting.{sort_rows}
use media_service_m.Effect.{ok}
use media_service_m.Model.Enums.{MediaVisibility}
use media_service_m.Model.Rows.{MediaObject, Db}
use media_service_m.Access.{
  ObjectListParams, SortField, SortOrder, load_object_for_read, scoped_query,
}
use media_service_m.Listing.{
  Dialect, SortValue, sort_value, encode_cursor, Page, list_objects, apply_filters,
  apply_category_filter, comes_first,
}
use media_service_m.Listing.Like.{like, contains}
use media_service_m.Listing.Order.{IsCollation, HasDistinctIds}
use media_service_m.Listing.Pages.{follow_cursors-eq-whole_listing}
use media_service_m.Listing.Cursors.{follow_cursors, IsCursorText}
use media_service_m.Listing.Readable.{list_objects-IsReadable}
use media_service_m.Tests.Data.{alice, photo, rows}

abbrev any_object : ObjectListParams
any_object = record {
  category = none;
  visibility = none;
  status = none;
  mime_prefix = none;
  created_from = none;
  created_to = none;
  q = none;
  sort_by = SortField.original_filename;
  order = SortOrder.asc;
  limit = 50;
  cursor = none;
  owner_user_id = none;
  include_deleted = false;
  category_id = none;
  include_descendants = true;
  uncategorized = false;
}

text_lt-asym : (a b : Text) → text_lt a b ≡ true → text_lt b a ≡ false
unfolding text_lt
text_lt-asym [] [] h = refl
text_lt-asym [] (b ∷ t) h = refl
text_lt-asym (a ∷ s) [] h = cc
text_lt-asym (a ∷ s) (b ∷ t) h = ground (arith, text_lt-asym s t)

text_lt-cotrans : (a b c : Text) → text_lt a b ≡ false → text_lt b c ≡ false → text_lt a c ≡ false
unfolding text_lt
text_lt-cotrans [] [] [] h k = refl
text_lt-cotrans [] [] (c ∷ u) h k = cc
text_lt-cotrans [] (b ∷ t) c h k = cc
text_lt-cotrans (a ∷ s) b [] h k = refl
text_lt-cotrans (a ∷ s) [] (c ∷ u) h k = cc
text_lt-cotrans (a ∷ s) (b ∷ t) (c ∷ u) h k = ground (arith, text_lt-cotrans s t u)

encoded : SortValue → ℕ → Text
encoded (SortValue.text t) k = k ∷ 0 ∷ t
encoded (SortValue.number n) k = k ∷ 1 ∷ n ∷ []

decoded : SortField → Text → Option (SortValue × ℕ)
decoded field (k ∷ suc zero ∷ n ∷ []) = some (SortValue.number n, k)
decoded field (k ∷ zero ∷ t) = some (SortValue.text t, k)
decoded field t = none

abbrev by_code : Dialect
by_code = record { collate = text_lt; encode = encoded; decode = decoded }

by_code-IsCollation : IsCollation by_code.collate
by_code-IsCollation = record { asym = text_lt-asym; cotrans = text_lt-cotrans }

by_code-IsCursorText : IsCursorText by_code
unfolding encode_cursor sort_value encoded decoded
by_code-IsCursorText SortField.original_filename o = refl
by_code-IsCursorText SortField.category o = refl
by_code-IsCursorText SortField.status o = refl
by_code-IsCursorText SortField.size_bytes o = refl
by_code-IsCursorText SortField.created_at o = refl

abbrev sunset : MediaObject
sunset = record photo {
  id = 8;
  size_bytes = 9;
  visibility = MediaVisibility.public;
  owner_user_id = 2;
}

abbrev hidden : MediaObject
hidden = record photo { id = 5; size_bytes = 6; owner_user_id = 2 }

abbrev gallery : Db
gallery = record rows { objects = photo ∷ hidden ∷ sunset ∷ [] }

abbrev by_size : ObjectListParams
by_size = record any_object { sort_by = SortField.size_bytes; order = SortOrder.desc; limit = 1 }

gallery-HasDistinctIds : HasDistinctIds gallery.objects
gallery-HasDistinctIds = ((refl, (refl, tt)), ((refl, tt), (tt, tt)))

abbrev any_category : MediaObject → Bool
any_category o = true

abbrev alices_listing : List MediaObject
alices_listing = sunset ∷ photo ∷ []

follow_cursors-eq-whole_listing_example :
    follow_cursors by_code 3 (some alice) by_size gallery none ≡ some (ok alices_listing)
unfolding sort_rows scoped_query apply_filters apply_category_filter comes_first sort_value
follow_cursors-eq-whole_listing_example =
    follow_cursors-eq-whole_listing by_code by_code-IsCollation by_code-IsCursorText (some alice)
      by_size gallery any_category refl (omega arith) gallery-HasDistinctIds

abbrev first_page : Page
first_page = record {
  items = sunset ∷ [];
  next_cursor = some (encode_cursor by_code SortField.size_bytes sunset);
}

first_page_is : list_objects by_code (some alice) by_size gallery ≡ ok first_page
unfolding list_objects sort_rows scoped_query apply_filters apply_category_filter comes_first
    sort_value
first_page_is = refl

list_objects-IsReadable_example :
    (length first_page.items ≤ 1)
    × ((in_category : MediaObject → Bool) × (apply_category_filter (some alice) by_size gallery
          ≡ ok in_category)
        × ((o : MediaObject)
            → In o first_page.items
            → (load_object_for_read (some alice) o.id gallery ≡ ok o)
              × (apply_filters by_size o ≡ true)
              × (in_category o ≡ true)))
list_objects-IsReadable_example =
    list_objects-IsReadable by_code (some alice) by_size gallery first_page first_page_is
      gallery-HasDistinctIds refl refl

-- `LIKE`.
like_prefix : like (codes "image/%") (codes "image/png") ≡ true
unfolding like
like_prefix = refl

like_single : like (codes "a_c%") (codes "abd") ≡ false
unfolding like
like_single = refl

contains_middle : contains (codes "v.t") (codes "cv.txt") ≡ true
unfolding contains
contains_middle = refl
