-- ===== src/Listing.antt =====
-- `ObjectsController.list_objects` of media_service/controllers/objects.py: the filters, the cursor
-- and the page. The database compares texts by its collation, which is a parameter, as are the JSON
-- and base64 texts of a cursor.
pub mod Like
pub mod Order
pub mod Pages
pub mod Cursors
pub mod Readable
use media_service_m.Prelude.{
  ℕ, suc, ◌+◌, Bool, true, false, not, ◌&&◌, ◌||◌, Option, none, some, List, [], ◌∷◌, ◌++◌, ◌==◌,
  ltb, leb, length, take, filter, any, elem, if◌then◌else◌, Text, codes,
}
use media_service_m.Prelude.Sorting.{sort_rows}
use media_service_m.Effect.{Result, ok, err, http, invalid_cursor}
use media_service_m.Model.Enums.{
  MediaCategory, MediaVisibility, MediaObjectStatus, category_eq, visibility_eq, object_status_eq,
}
use media_service_m.Model.Rows.{MediaObject, MediaObjectCategoryLink, Db, UserModel}
use media_service_m.Access.{ObjectListParams, SortField, SortOrder, scoped_query}
use media_service_m.Category.Scope.{branch_category_ids}
use media_service_m.Keys.{category_text}
use media_service_m.Listing.Like.{like, contains}

-- The value of a `MediaObjectStatus` member.
abbrev pub status_text : MediaObjectStatus → Text
status_text MediaObjectStatus.pending_upload = codes "pending_upload"
status_text MediaObjectStatus.uploaded = codes "uploaded"
status_text MediaObjectStatus.processing = codes "processing"
status_text MediaObjectStatus.ready = codes "ready"
status_text MediaObjectStatus.failed = codes "failed"
status_text MediaObjectStatus.deleted = codes "deleted"
status_text MediaObjectStatus.rejected = codes "rejected"

-- What a column sorts by: a text, or a number (a size or a time).
pub data SortValue : Type 0 where
  text : Text → SortValue
  number : ℕ → SortValue

abbrev or_empty : Option Text → Text
or_empty none = []
or_empty (some t) = t

-- `_cursor_sort_value`, which is `_sort_column` of the row: a missing name is the empty text in both.
unfoldable pub sort_value : SortField → MediaObject → SortValue
sort_value SortField.original_filename o = text (or_empty o.original_filename)
sort_value SortField.category o = text (category_text o.category)
sort_value SortField.status o = text (status_text o.status)
sort_value SortField.size_bytes o = number o.size_bytes
sort_value SortField.created_at o = number o.created_at

-- `<` of the database on texts, and the text of a cursor: `json.dumps` and base64, and back. A
-- decoded cursor that is no such text for its field is `none`.
pub record Dialect : Type 0 where
  pub collate : Text → Text → Bool
  pub encode : SortValue → ℕ → Text
  pub decode : SortField → Text → Option (SortValue × ℕ)

abbrev wanted : {A : Type 0} → (A → A → Bool) → Option A → A → Bool
wanted eq none a = true
wanted eq (some b) a = eq a b

abbrev has_prefix : Option Text → Text → Bool
has_prefix none t = true
has_prefix (some p) t = like (p ++ codes "%") t

abbrev from_time : Option ℕ → ℕ → Bool
from_time none t = true
from_time (some a) t = leb a t

abbrev to_time : Option ℕ → ℕ → Bool
to_time none t = true
to_time (some b) t = leb t b

-- A null name matches nothing.
abbrev name_contains : Option Text → Option Text → Bool
name_contains none name = true
name_contains (some q) none = false
name_contains (some q) (some name) = contains q name

-- `_apply_filters`, as a test on a row.
unfoldable pub apply_filters : ObjectListParams → MediaObject → Bool
apply_filters params o =
    wanted category_eq params.category o.category
    && (wanted visibility_eq params.visibility o.visibility
        && (wanted object_status_eq params.status o.status
            && (has_prefix params.mime_prefix o.mime_type
                && (from_time params.created_from o.created_at
                    && (to_time params.created_to o.created_at
                        && name_contains params.q o.original_filename)))))

-- `filed.exists()`, of an object and of one filed into `branch`.
abbrev pub is_filed : List MediaObjectCategoryLink → MediaObject → Bool
is_filed links o = any (λ (l : MediaObjectCategoryLink). l.media_object_id == o.id) links

abbrev pub is_filed_into : List MediaObjectCategoryLink → List ℕ → MediaObject → Bool
is_filed_into links branch o =
    any (λ (l : MediaObjectCategoryLink). l.media_object_id == o.id && elem l.category_id branch)
      links

abbrev in_branch : Db → Result (List ℕ) → Result (MediaObject → Bool)
in_branch d (err e) = err e
in_branch d (ok []) = ok (λ o. false)
in_branch d (ok (k ∷ branch)) = ok (is_filed_into d.links (k ∷ branch))

abbrev of_category :
    Option UserModel → ObjectListParams → Db → Option ℕ → Result (MediaObject → Bool)
of_category u params d none = ok (λ o. true)
of_category u params d (some k) = in_branch d (branch_category_ids u k params.include_descendants d)

-- `_apply_category_filter`.
unfoldable pub apply_category_filter :
    Option UserModel → ObjectListParams → Db → Result (MediaObject → Bool)
apply_category_filter u params d =
    if params.uncategorized
    then ok (λ o. not (is_filed d.links o))
    else of_category u params d params.category_id

-- `ObjectListResponse`.
pub record Page : Type 0 where
  pub items : List MediaObject
  pub next_cursor : Option Text

abbrev pub last_of : List MediaObject → Option MediaObject
last_of [] = none
last_of (o ∷ []) = some o
last_of (o ∷ x ∷ rest) = last_of (x ∷ rest)

module _ (dialect : Dialect) where
  abbrev pub value_lt : SortValue → SortValue → Bool
  value_lt (text a) (text b) = dialect.collate a b
  value_lt (number a) (number b) = ltb a b
  value_lt (text a) (number b) = true
  value_lt (number a) (text b) = false

  -- `=` of the database: neither is before the other.
  abbrev pub value_same : SortValue → SortValue → Bool
  value_same a b = not (value_lt a b) && not (value_lt b a)

  -- `_keyset_predicate`.
  unfoldable pub keyset_predicate : SortField → SortOrder → SortValue → ℕ → MediaObject → Bool
  keyset_predicate field SortOrder.desc value last_id o =
      value_lt (sort_value field o) value
      || (value_same (sort_value field o) value && ltb o.id last_id)
  keyset_predicate field SortOrder.asc value last_id o =
      value_lt value (sort_value field o)
      || (value_same (sort_value field o) value && ltb last_id o.id)

  -- `ORDER BY sort_col, id`, ascending.
  abbrev pub order_by : SortField → MediaObject → MediaObject → Bool
  order_by field a b =
      let x = sort_value field a in
      let y = sort_value field b in value_lt x y || (not (value_lt y x) && ltb a.id b.id)

  -- `ORDER BY`, in the wanted direction.
  unfoldable pub comes_first : SortField → SortOrder → MediaObject → MediaObject → Bool
  comes_first field SortOrder.asc a b = order_by field a b
  comes_first field SortOrder.desc a b = order_by field b a

  abbrev decoded : Option (SortValue × ℕ) → Result (Option (SortValue × ℕ))
  decoded none = err (http 400 invalid_cursor)
  decoded (some p) = ok (some p)

  -- `_decode_cursor`, of a request that has one.
  unfoldable pub decode_cursor : SortField → Option Text → Result (Option (SortValue × ℕ))
  decode_cursor field none = ok none
  decode_cursor field (some cursor) = decoded (dialect.decode field cursor)

  abbrev is_after : SortField → SortOrder → Option (SortValue × ℕ) → MediaObject → Bool
  is_after field order none o = true
  is_after field order (some (value, last_id)) o = keyset_predicate field order value last_id o

  -- `_encode_cursor` of a row.
  unfoldable pub encode_cursor : SortField → MediaObject → Text
  encode_cursor field o = dialect.encode (sort_value field o) o.id

  abbrev cursor_of : SortField → Option MediaObject → Option Text
  cursor_of field none = none
  cursor_of field (some o) = some (encode_cursor field o)

  -- One row more than the page holds is read, to see whether there is another page.
  unfoldable pub page_of : SortField → ℕ → List MediaObject → Page
  page_of field limit rows =
      let items = take limit rows in
      record {
        items = items;
        next_cursor = if ltb limit (length rows) then cursor_of field (last_of items) else none;
      }

  -- The rows that the `where` clauses before the cursor's leave.
  abbrev pub matching :
      Option UserModel → ObjectListParams → (MediaObject → Bool) → Db → List MediaObject
  matching u params in_category d =
      filter
        (λ (o : MediaObject). scoped_query u params o && (apply_filters params o && in_category o))
        d.objects

  abbrev listed :
      Option UserModel
      → ObjectListParams
      → Db
      → (MediaObject → Bool)
      → Result (Option (SortValue × ℕ))
      → Result Page
  listed u params d in_category (err e) = err e
  listed u params d in_category (ok p) = ok (
      page_of params.sort_by params.limit (
        take (suc params.limit) (
          sort_rows (comes_first params.sort_by params.order)
            (filter (is_after params.sort_by params.order p) (matching u params in_category d)))))

  abbrev narrowed :
      Option UserModel → ObjectListParams → Db → Result (MediaObject → Bool) → Result Page
  narrowed u params d (err e) = err e
  narrowed u params d (ok in_category) =
      listed u params d in_category (decode_cursor params.sort_by params.cursor)

  -- `list_objects`, less the category refs of its rows.
  unfoldable pub list_objects : Option UserModel → ObjectListParams → Db → Result Page
  unfolding page_of decode_cursor
  list_objects u params d = narrowed u params d (apply_category_filter u params d)
