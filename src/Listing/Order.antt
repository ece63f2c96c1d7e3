-- ===== src/Listing/Order.antt =====
-- The sort order of a listing is a strict order of the rows, and a row's cursor stands where the row
-- does.
use media_service_m.Prelude.{
  Bool, true, false, List, [], ◌∷◌, ◌==◌, ◌≡◌, refl, ◌⊎◌, inl, inr, arith, Text, All, Bool-cases,
}
use media_service_m.Prelude.Sorting.{IsTransitive, IsAsymmetric, IsApart}
use media_service_m.Model.Rows.{MediaObject}
use media_service_m.Access.{SortField, SortOrder}
use media_service_m.Listing.{
  Dialect, SortValue, sort_value, value_lt, keyset_predicate, order_by, comes_first,
}

-- The collation is a strict weak order: texts that it does not tell apart are one class.
pub record IsCollation (lt : Text → Text → Bool) : Type 0 where
  pub asym : (a b : Text) → lt a b ≡ true → lt b a ≡ false
  pub cotrans : (a b c : Text) → lt a b ≡ false → lt b c ≡ false → lt a c ≡ false

-- The primary key, by position.
abbrev pub HasDistinctIds : List MediaObject → Type 0
HasDistinctIds [] = Unit
HasDistinctIds (o ∷ rows) =
    All (λ (x : MediaObject). (o.id == x.id) ≡ false) rows × HasDistinctIds rows

module _ (dialect : Dialect) (law : IsCollation dialect.collate) where
  value_lt-asym : (a b : SortValue) → value_lt dialect a b ≡ true → value_lt dialect b a ≡ false
  value_lt-asym (SortValue.text a) (SortValue.text b) h = law.asym a b h
  value_lt-asym (SortValue.text a) (SortValue.number b) h = refl
  value_lt-asym (SortValue.number a) (SortValue.text b) h = cc
  value_lt-asym (SortValue.number a) (SortValue.number b) h = ground arith

  value_lt-cotrans :
      (a b c : SortValue)
      → value_lt dialect a b ≡ false
      → value_lt dialect b c ≡ false
      → value_lt dialect a c ≡ false
  value_lt-cotrans (SortValue.text a) (SortValue.text b) (SortValue.text c) h k =
      law.cotrans a b c h k
  value_lt-cotrans (SortValue.text a) (SortValue.text b) (SortValue.number c) h k = cc
  value_lt-cotrans (SortValue.text a) (SortValue.number b) c h k = cc
  value_lt-cotrans (SortValue.number a) b (SortValue.text c) h k = refl
  value_lt-cotrans (SortValue.number a) (SortValue.text b) (SortValue.number c) h k = cc
  value_lt-cotrans (SortValue.number a) (SortValue.number b) (SortValue.number c) h k = ground arith

  order_by-trans : (field : SortField) → IsTransitive (order_by dialect field)
  order_by-trans field a b c h k =
      let x = sort_value field a in
      let y = sort_value field b in
      let z = sort_value field c in
      ground (
        arith,
        value_lt-asym x y,
        value_lt-asym y z,
        value_lt-cotrans x z y,
        value_lt-cotrans y x z,
        value_lt-cotrans z y x,
      )

  order_by-asym : (field : SortField) → IsAsymmetric (order_by dialect field)
  order_by-asym field a b h =
      ground (arith, value_lt-asym (sort_value field a) (sort_value field b))

  pub comes_first-trans :
      (field : SortField) (order : SortOrder) → IsTransitive (comes_first dialect field order)
  unfolding comes_first
  comes_first-trans field SortOrder.asc a b c h k = order_by-trans field a b c h k
  comes_first-trans field SortOrder.desc a b c h k = order_by-trans field c b a k h

  pub comes_first-asym :
      (field : SortField) (order : SortOrder) → IsAsymmetric (comes_first dialect field order)
  unfolding comes_first
  comes_first-asym field SortOrder.asc a b h = order_by-asym field a b h
  comes_first-asym field SortOrder.desc a b h = order_by-asym field b a h

  -- The rows after a row's cursor are the rows that the order puts behind it.
  pub keyset_predicate-eq-comes_first :
      (field : SortField) (order : SortOrder) (a b : MediaObject)
      → keyset_predicate dialect field order (sort_value field a) a.id b
        ≡ comes_first dialect field order a b
  unfolding keyset_predicate comes_first
  keyset_predicate-eq-comes_first field SortOrder.asc a b =
      ground (arith, value_lt-asym (sort_value field a) (sort_value field b))
  keyset_predicate-eq-comes_first field SortOrder.desc a b =
      ground (arith, value_lt-asym (sort_value field b) (sort_value field a))

  apart_of_ids :
      (field : SortField) (order : SortOrder) (a b : MediaObject)
      → (a.id == b.id) ≡ false
      → (comes_first dialect field order a b ≡ true) ⊎ (comes_first dialect field order b a ≡ true)
  unfolding comes_first
  apart_of_ids field SortOrder.asc a b h = elim (Bool-cases (order_by dialect field a b)) [
    | inl first ↦ inl first
    | inr other ↦ inr (ground arith)
  ]
  apart_of_ids field SortOrder.desc a b h = elim (Bool-cases (order_by dialect field b a)) [
    | inl first ↦ inl first
    | inr other ↦ inr (ground arith)
  ]

  All-apart :
      (field : SortField) (order : SortOrder) (a : MediaObject) (rows : List MediaObject)
      → All (λ (x : MediaObject). (a.id == x.id) ≡ false) rows
      → All
          (λ (x : MediaObject).
            (comes_first dialect field order a x ≡ true)
            ⊎ (comes_first dialect field order x a ≡ true))
          rows
  All-apart field order a [] h = h
  All-apart field order a (x ∷ rows) h =
      (apart_of_ids field order a x h.0, All-apart field order a rows h.1)

  pub rows-IsApart :
      (field : SortField) (order : SortOrder) (rows : List MediaObject)
      → HasDistinctIds rows
      → IsApart (comes_first dialect field order) rows
  rows-IsApart field order [] h = h
  rows-IsApart field order (o ∷ rows) h =
      (All-apart field order o rows h.0, rows-IsApart field order rows h.1)
