-- ===== src/Adapters/Dto/RoundTrip.antt =====
-- An order survives the outbox: the stored payload validates to the order that was dumped.
use retail_order_sync_hub.Base.{
  ℤ, String, true, Option, none, some, List, [], ◌∷◌, ◌≡◌, refl, ◌≢◌, is_positive, arith,
}
use mathlib.Core.Path.{subst}
use mathlib.Core.Option.{some-injective}
use retail_order_sync_hub.Json.{Value, null, arr, obj, field_of, Items, nil, cons, items}
use retail_order_sync_hub.Exec.{ok}
use retail_order_sync_hub.Services.{Runtime, ReadsFields}
use retail_order_sync_hub.Adapters.Dto.{
  OrderItemDto, OrderDto, checked_order, combine, ◌>>=◌, validate_item, validate_items,
  validate_list, >>=-eq-some, validate, order_from_payload, dump_items, dump_item, model_dump,
}

-- Every quantity is positive.
abbrev pub HasPositiveQty : List OrderItemDto → Type 0
HasPositiveQty [] = Unit
HasPositiveQty (i ∷ is) = (is_positive i.qty ≡ true) × HasPositiveQty is

-- What the constructor of `OrderDTO` checks.
pub record IsValid (o : OrderDto) : Type 0 where
  pub not_empty : o.items ≢ []
  pub positive : HasPositiveQty o.items

checked_order_of_IsValid :
    (o : OrderDto)
    → IsValid o
    → checked_order o.odoo_order_id o.buyer o.items o.external_ref ≡ some o
checked_order_of_IsValid o v = ground (arith, v.not_empty)

module _ (rt : Runtime) (reads : ReadsFields rt) where
  validate_item-dump :
      (i : OrderItemDto) → is_positive i.qty ≡ true → validate_item rt (dump_item i) ≡ some i
  unfolding validate_item
  validate_item-dump i h = rw (reads.str_field_str i.sku) (rw (reads.int_field_int i.qty) (rw h))

  validate_items-dump :
      (is : List OrderItemDto)
      → HasPositiveQty is
      → validate_items rt (items (dump_items is)) ≡ some is
  unfolding validate_items
  validate_items-dump [] h = refl
  validate_items-dump (i ∷ is) (p, h) = rw (validate_item-dump i p) (rw (validate_items-dump is h))

  -- Validating the dump of an order that the constructor accepts gives back the order, whatever
  -- Pydantic does with values of other types.
  pub order_from_payload-model_dump :
      (o : OrderDto) → IsValid o → order_from_payload rt (model_dump o) ≡ ok o
  unfolding order_from_payload model_dump
  order_from_payload-model_dump o v = rw (reads.int_field_int o.odoo_order_id) (
      rw (reads.str_field_str o.buyer) (
        rw (validate_items-dump o.items v.positive)
          (rw (reads.str_field_str o.external_ref) (rw (checked_order_of_IsValid o v) refl))))

checked_order-IsValid :
    (id : ℤ) (buyer ref : String) (is : List OrderItemDto) (o : OrderDto)
    → HasPositiveQty is
    → checked_order id buyer is ref ≡ some o
    → IsValid o
checked_order-IsValid id buyer ref [] o p h = absurd (cc)
checked_order-IsValid id buyer ref (i ∷ is) o p h =
    subst IsValid (some-injective _ _ h) (record { not_empty = λ e. cc; positive = p })

combine-IsValid :
    (a : Option ℤ) (b : Option String) (c : Option (List OrderItemDto)) (d : Option String)
    → ((is : List OrderItemDto) → c ≡ some is → HasPositiveQty is)
    → (o : OrderDto) → combine a b c d ≡ some o
    → IsValid o
combine-IsValid (some id) (some buyer) (some is) (some ref) p o h =
    checked_order-IsValid id buyer ref is o (p is refl) h
combine-IsValid _ _ _ _ p o h = absurd (cc)

module _ (rt : Runtime) where
  validate_item-positive :
      (v : Value) (i : OrderItemDto) → validate_item rt v ≡ some i → is_positive i.qty ≡ true
  unfolding validate_item
  validate_item-positive (obj fs) i h = ground arith
  validate_item-positive null i h = cc
  validate_item-positive _ i h = cc

  validate_items-positive :
      (vs : Items) (is : List OrderItemDto) → validate_items rt vs ≡ some is → HasPositiveQty is
  unfolding validate_items
  validate_items-positive nil is h = subst HasPositiveQty (some-injective _ _ h) tt
  validate_items-positive (cons v vs) is h =
      let (i, hi, h') = >>=-eq-some (validate_item rt v) _ h in
      let (rest, hr, e) = >>=-eq-some (validate_items rt vs) _ h' in
      subst HasPositiveQty (some-injective _ _ e)
        (validate_item-positive v i hi, validate_items-positive vs rest hr)

  validate_list-positive :
      (v : Value) (is : List OrderItemDto) → validate_list rt v ≡ some is → HasPositiveQty is
  unfolding validate_list
  validate_list-positive (arr vs) is h = validate_items-positive vs is h
  validate_list-positive null is h = absurd (cc)
  validate_list-positive _ is h = absurd (cc)

  validate_field-positive :
      (v : Option Value) (is : List OrderItemDto)
      → (v >>= validate_list rt) ≡ some is
      → HasPositiveQty is
  validate_field-positive none is h = absurd (cc)
  validate_field-positive (some v) is h = validate_list-positive v is h

  validate-IsValid : (v : Value) (o : OrderDto) → validate rt v ≡ some o → IsValid o
  unfolding validate
  validate-IsValid (obj fs) o h =
      combine-IsValid (field_of "odoo_order_id" fs >>= rt.int_field)
        (field_of "buyer" fs >>= rt.str_field) (field_of "items" fs >>= validate_list rt)
        (field_of "external_ref" fs >>= rt.str_field)
        (validate_field-positive (field_of "items" fs)) o h
  validate-IsValid null o h = absurd (cc)
  validate-IsValid _ o h = absurd (cc)

  accepted : (v : Value) (o : OrderDto) → order_from_payload rt v ≡ ok o → validate rt v ≡ some o
  unfolding order_from_payload
  accepted v o h = ground arith

  -- Whatever the stored payload is, an order that validation accepts has an item, and every item of
  -- it a positive quantity.
  pub order_from_payload-IsValid :
      (v : Value) (o : OrderDto) → order_from_payload rt v ≡ ok o → IsValid o
  order_from_payload-IsValid v o h = validate-IsValid v o (accepted v o h)
