-- ===== src/Adapters/Dto.antt =====
-- The DTOs and the adapter protocol of src/adapters/base.py.
pub mod RoundTrip
use retail_order_sync_hub.Base.{
  ◌≡◌, refl, ℤ, String, Bool, Option, none, some, List, [], ◌∷◌, is_positive, if◌then◌else◌,
}
use retail_order_sync_hub.Json.{
  Value, Items, nil, cons, Fields, int, str, arr, obj, items, dict, field_of,
}
use retail_order_sync_hub.Exec.{Exc, validation_error, Result, ok, err, Exec}
use retail_order_sync_hub.Services.{Runtime}
use retail_order_sync_hub.World.{World}

pub record OrderItemDto : Type 0 where
  pub sku : String
  pub qty : ℤ

pub record OrderDto : Type 0 where
  pub odoo_order_id : ℤ
  pub buyer : String
  pub items : List OrderItemDto
  pub external_ref : String

pub record PushResult : Type 0 where
  pub marketplace_order_id : String
  pub status : String

-- The protocol `MarketplaceAdapter`.
pub record Adapter (E : Type 0) : Type 0 where
  pub name : String
  pub push_order : OrderDto → Exec (World E) PushResult

infixl 10 ◌>>=◌
abbrev pub ◌>>=◌ : {A B : Type 0} → Option A → (A → Option B) → Option B
none >>= f = none
some a >>= f = f a

pub >>=-eq-some :
    {A B : Type 0} (m : Option A) (f : A → Option B) {b : B}
    → (m >>= f) ≡ some b
    → (a : A) × (m ≡ some a) × (f a ≡ some b)
>>=-eq-some none f h = absurd (cc)
>>=-eq-some (some a) f h = (a, refl, h)

-- `Field(gt=0)` of `OrderItemDTO.qty`.
abbrev pub checked_item : String → ℤ → Option OrderItemDto
checked_item sku qty = if is_positive qty then some (record { sku = sku; qty = qty }) else none

-- `Field(min_length=1)` of `OrderDTO.items`.
abbrev pub checked_order : ℤ → String → List OrderItemDto → String → Option OrderDto
checked_order id buyer [] ref = none
checked_order id buyer (i ∷ is) ref =
    some (record { odoo_order_id = id; buyer = buyer; items = i ∷ is; external_ref = ref })

-- The order, if every field has been read.
abbrev pub combine :
    Option ℤ → Option String → Option (List OrderItemDto) → Option String → Option OrderDto
combine (some id) (some buyer) (some is) (some ref) = checked_order id buyer is ref
combine _ _ _ _ = none

module _ (rt : Runtime) where
  validate_item : Value → Option OrderItemDto
  validate_item (obj fs) = do
    sku ← field_of "sku" fs >>= rt.str_field
    qty ← field_of "qty" fs >>= rt.int_field
    checked_item sku qty
  validate_item _ = none

  validate_items : Items → Option (List OrderItemDto)
  unfolding validate_item
  validate_items nil = some []
  validate_items (cons v vs) = do i ← validate_item v; is ← validate_items vs; some (i ∷ is)

  validate_list : Value → Option (List OrderItemDto)
  unfolding validate_items
  validate_list (arr vs) = validate_items vs
  validate_list _ = none

  validate : Value → Option OrderDto
  unfolding validate_list
  validate (obj fs) =
      combine (field_of "odoo_order_id" fs >>= rt.int_field) (field_of "buyer" fs >>= rt.str_field)
        (field_of "items" fs >>= validate_list) (field_of "external_ref" fs >>= rt.str_field)
  validate _ = none

  abbrev or_invalid : Value → Option OrderDto → Result OrderDto
  or_invalid v none = err (validation_error (rt.validation_text v))
  or_invalid v (some o) = ok o

  -- OrderDTO.model_validate(payload)
  unfoldable pub order_from_payload : Value → Result OrderDto
  unfolding validate
  order_from_payload v = or_invalid v (validate v)

  -- OrderDTO(odoo_order_id=…, buyer=…, items=[OrderItemDTO(…)], external_ref=…)
  unfoldable pub make_item : String → ℤ → Result OrderItemDto
  make_item sku qty =
      if is_positive qty
      then ok (record { sku = sku; qty = qty })
      else err (validation_error (rt.validation_text (int qty)))

-- item.model_dump(mode="json")
abbrev pub dump_item : OrderItemDto → Value
dump_item i = dict (("sku", str i.sku) ∷ ("qty", int i.qty) ∷ [])

abbrev pub dump_items : List OrderItemDto → List Value
dump_items [] = []
dump_items (i ∷ is) = dump_item i ∷ dump_items is

-- order.model_dump(mode="json")
unfoldable pub model_dump : OrderDto → Value
model_dump o = dict (
    ("odoo_order_id", int o.odoo_order_id)
    ∷ ("buyer", str o.buyer)
    ∷ ("items", arr (items (dump_items o.items)))
    ∷ ("external_ref", str o.external_ref)
    ∷ [])
