-- ===== src/Listing/Cursors.antt =====
-- A client that follows `next_cursor` of `ObjectsController.list_objects`
-- (media_service/controllers/objects.py), and what the pages that it takes have in common.
use media_service_m.Prelude.{
  ℕ, zero, suc, ◌≤◌, ◌<◌, Option, none, some, List, [], ◌∷◌, ◌++◌, ltb, length, take, ◌≡◌, refl,
  sym, ap, ◌∙◌, arith, Text,
}
use media_service_m.Effect.{Result, ok, err}
use media_service_m.Model.Rows.{MediaObject, Db, UserModel}
use media_service_m.Access.{ObjectListParams, SortField}
use media_service_m.Listing.{Dialect, sort_value, last_of, encode_cursor, Page, list_objects}

abbrev pub at_cursor : ObjectListParams → Option Text → ObjectListParams
at_cursor params c = record params { cursor = c }

abbrev with_items :
    List MediaObject → Option (Result (List MediaObject)) → Option (Result (List MediaObject))
with_items items none = none
with_items items (some (err e)) = some (err e)
with_items items (some (ok rest)) = some (ok (items ++ rest))

abbrev then_page :
    (Text → Option (Result (List MediaObject)))
    → List MediaObject
    → Option Text
    → Option (Result (List MediaObject))
then_page rest items none = some (ok items)
then_page rest items (some next) = with_items items (rest next)

abbrev after_page :
    (Text → Option (Result (List MediaObject))) → Result Page → Option (Result (List MediaObject))
after_page rest (err e) = some (err e)
after_page rest (ok page) = then_page rest page.items page.next_cursor

-- All items of at most `fuel` pages; `none` if there is another page after those.
unfoldable pub follow_cursors :
    Dialect
    → ℕ
    → Option UserModel
    → ObjectListParams
    → Db
    → Option Text
    → Option (Result (List MediaObject))
follow_cursors dialect zero u params d c = none
follow_cursors dialect (suc fuel) u params d c =
    after_page (λ next. follow_cursors dialect fuel u params d (some next))
      (list_objects dialect u (at_cursor params c) d)

-- A row's cursor decodes to its position.
abbrev pub IsCursorText : Dialect → Type 0
IsCursorText dialect =
    (field : SortField) (o : MediaObject)
    → dialect.decode field (encode_cursor dialect field o) ≡ some (sort_value field o, o.id)

pub take-suc_short : (n : ℕ) (xs : List MediaObject) → length xs ≤ n → take n xs ≡ xs
take-suc_short zero [] h = refl
take-suc_short zero (x ∷ xs) h = absurd (omega arith)
take-suc_short (suc n) [] h = refl
take-suc_short (suc n) (x ∷ xs) h = ap (◌∷◌ x) (take-suc_short n xs (omega arith))

pub take-take-suc : (n : ℕ) (xs : List MediaObject) → take n (take (suc n) xs) ≡ take n xs
take-take-suc zero xs = refl
take-take-suc (suc n) [] = refl
take-take-suc (suc n) (x ∷ xs) = ap (◌∷◌ x) (take-take-suc n xs)

pub ltb-length-take :
    (n : ℕ) (xs : List MediaObject) → ltb n (length (take (suc n) xs)) ≡ ltb n (length xs)
ltb-length-take zero [] = refl
ltb-length-take zero (x ∷ xs) = ground arith
ltb-length-take (suc n) [] = refl
ltb-length-take (suc n) (x ∷ xs) = ground (arith, ltb-length-take n xs)

-- A page that is not the last: the last of its rows, what stands before it and what behind.
pub record IsCut (n : ℕ) (rows : List MediaObject) : Type 0 where
  pub before : List MediaObject
  pub last : MediaObject
  pub behind : List MediaObject
  pub whole : rows ≡ before ++ last ∷ behind
  pub page : take n rows ≡ before ++ last ∷ []
  pub ends : last_of (take n rows) ≡ some last

last_of-cons :
    (x : MediaObject) (before : List MediaObject) (last : MediaObject)
    → last_of (x ∷ before ++ last ∷ []) ≡ last_of (before ++ last ∷ [])
last_of-cons x [] last = refl
last_of-cons x (y ∷ before) last = refl

pub IsCut-rows : (n : ℕ) (rows : List MediaObject) → n < length rows → 0 < n → IsCut n rows
IsCut-rows zero rows h k = absurd (omega arith)
IsCut-rows (suc n) [] h k = absurd (omega arith)
IsCut-rows (suc zero) (x ∷ rows) h k = record {
  before = [];
  last = x;
  behind = rows;
  whole = refl;
  page = refl;
  ends = refl;
}
IsCut-rows (suc (suc n)) (x ∷ rows) h k =
    let rest = IsCut-rows (suc n) rows (omega arith) (omega arith) in
    record {
      before = x ∷ rest.before;
      last = rest.last;
      behind = rest.behind;
      whole = ap (◌∷◌ x) rest.whole;
      page = ap (◌∷◌ x) rest.page;
      ends =
          ap (λ (t : List MediaObject). last_of (x ∷ t)) rest.page
          ∙ (last_of-cons x rest.before rest.last ∙ (ap last_of (sym rest.page) ∙ rest.ends));
    }
