-- ===== src/Outbox/Source/Sound.antt =====
-- The orders that the source hands on are valid, and their references name them.
use mathlib.Core.Path.{subst}
use retail_order_sync_hub.Base.{
  ℤ, String, true, Option, none, some, List, [], ◌∷◌, ◌++◌, All, cat, str_int, is_positive, ◌≡◌,
  refl, inl, inr, arith,
}
use retail_order_sync_hub.Odoo.{SaleOrder, SaleLine, Product, Odoo}
use retail_order_sync_hub.Services.{Runtime}
use retail_order_sync_hub.Exec.{
  Exc, Result, ok, err, ok-injective, Result-cases, bind_result, pure, ◌>>=◌,
}
use retail_order_sync_hub.Adapters.Dto.{OrderItemDto, OrderDto, make_item}
use retail_order_sync_hub.Adapters.Dto.RoundTrip.{HasPositiveQty, IsValid}
use retail_order_sync_hub.Adapters.OAuth.{int_value}
use retail_order_sync_hub.Outbox.Source.{
  with_product, with_line, order_items, add_order, order_dtos, fetch_rest, fetch_confirmed_orders,
  line_of, sku_of, line_ids, product_ids, confirmed_states,
}

-- What the outbox relies on.
pub record IsSound (o : OrderDto) : Type 0 where
  pub valid : IsValid o
  pub named : o.external_ref ≡ cat ("odoo-" ∷ str_int o.odoo_order_id ∷ [])

-- The value of a chain that ends well.
bind_ok :
    {A B : Type 0} (r : Result A) (f : A → Result B) {b : B}
    → bind_result r f ≡ ok b
    → (a : A) × (r ≡ ok a) × (f a ≡ ok b)
unfolding bind_result
bind_ok (ok a) f h = (a, refl, h)
bind_ok (err x) f h = absurd (cc)

module _ (rt : Runtime) (lines : List SaleLine) (products : List Product) where
  make_item-positive :
      (sku : String) (qty : ℤ) (i : OrderItemDto)
      → make_item rt sku qty ≡ ok i
      → is_positive i.qty ≡ true
  unfolding make_item
  make_item-positive sku qty i h = ground arith

  with_product-positive :
      (product : Option (ℤ × String)) (line : SaleLine) (rest : Result (List OrderItemDto))
      (is : List OrderItemDto)
      → ((js : List OrderItemDto) → rest ≡ ok js → HasPositiveQty js)
      → with_product rt lines products product line rest ≡ ok is
      → HasPositiveQty is
  with_product-positive none line rest is ih h = ih is h
  with_product-positive (some (id, name)) line rest is ih h =
      let (qty, hq, h₁) = bind_ok (int_value line.product_uom_qty) _ h in
      let (i, hi, h₂) = bind_ok (make_item rt (sku_of products id) qty) _ h₁ in
      let (js, hj, h₃) = bind_ok rest _ h₂ in
      subst HasPositiveQty (ok-injective h₃)
        (make_item-positive (sku_of products id) qty i hi, ih js hj)

  with_line-positive :
      (found : Option SaleLine) (rest : Result (List OrderItemDto)) (is : List OrderItemDto)
      → ((js : List OrderItemDto) → rest ≡ ok js → HasPositiveQty js)
      → with_line rt lines products found rest ≡ ok is
      → HasPositiveQty is
  with_line-positive none rest is ih h = ih is h
  with_line-positive (some line) rest is ih h =
      with_product-positive line.product_id line rest is ih h

  order_items-positive :
      (lids : List ℤ) (is : List OrderItemDto)
      → order_items rt lines products lids ≡ ok is
      → HasPositiveQty is
  unfolding order_items
  order_items-positive [] is h = subst HasPositiveQty (ok-injective h) tt
  order_items-positive (lid ∷ lids) is h =
      with_line-positive (line_of lines lid) (order_items rt lines products lids) is
        (order_items-positive lids) h

  add_order-IsSound :
      (order : SaleOrder) (is : List OrderItemDto) (dtos : List OrderDto)
      → HasPositiveQty is
      → All IsSound dtos
      → All IsSound (add_order rt lines products order is dtos)
  add_order-IsSound order [] dtos p h = h
  add_order-IsSound order (i ∷ is) dtos p h =
      (record { valid = record { not_empty = λ e. cc; positive = p }; named = refl }, h)

  order_dtos-IsSound :
      (orders : List SaleOrder) (dtos : List OrderDto)
      → order_dtos rt lines products orders ≡ ok dtos
      → All IsSound dtos
  unfolding order_dtos
  order_dtos-IsSound [] dtos h = subst (All IsSound) (ok-injective h) tt
  order_dtos-IsSound (order ∷ orders) dtos h =
      let (is, hi, h₁) = bind_ok (order_items rt lines products order.order_line) _ h in
      let (rest, hr, h₂) = bind_ok (order_dtos rt lines products orders) _ h₁ in
      subst (All IsSound) (ok-injective h₂) (
        add_order-IsSound order is rest (order_items-positive order.order_line is hi)
          (order_dtos-IsSound orders rest hr))

  -- One order whose items are refused makes the whole list of orders fail, wherever it stands in
  -- the list.
  pub order_dtos-blocked :
      (order : SaleOrder) (before after : List SaleOrder) (x : Exc)
      → order_items rt lines products order.order_line ≡ err x
      → (e : Exc) × (order_dtos rt lines products (before ++ order ∷ after) ≡ err e)
  unfolding order_dtos bind_result
  order_dtos-blocked order [] after x h = (x, rw h refl)
  order_dtos-blocked order (o ∷ before) after x h =
      elim (Result-cases (order_items rt lines products o.order_line)) [
        | inl (is, k) ↦
            let (e, rest) = order_dtos-blocked order before after x h in (e, rw k (rw rest refl))
        | inr (e, k) ↦ (e, rw k refl)
      ]

module _ {E : Type 0} (rt : Runtime) (odoo : Odoo E) where
  fetch_rest-IsSound :
      (orders : List SaleOrder) (e : E) {dtos : List OrderDto}
      → (fetch_rest rt odoo orders e).0 ≡ ok dtos
      → All IsSound dtos
  unfolding ◌>>=◌
  fetch_rest-IsSound [] e h = subst (All IsSound) (ok-injective (unfold pure in h)) tt
  fetch_rest-IsSound (order ∷ orders) e h =
      let ids = line_ids (order ∷ orders) in
      elim (Result-cases (odoo.read_lines ids e).0) [
        | inl (lines, k) ↦
            let e' = (odoo.read_lines ids e).1 in
            elim (Result-cases (odoo.read_products (product_ids lines) e').0) [
              | inl (products, k') ↦
                  order_dtos-IsSound rt lines products (order ∷ orders) _ (rw k' at (rw k at h))
              | inr (x, k') ↦ absurd (cc (rw k' at (rw k at h)))
            ]
        | inr (x, k) ↦ absurd (cc (rw k at h))
      ]

  -- Every order that the source hands on is one that the DTO's constructor accepts, and its
  -- external reference is "odoo-" before its id.
  pub fetch_confirmed_orders-IsSound :
      (e : E) {dtos : List OrderDto}
      → (fetch_confirmed_orders rt odoo e).0 ≡ ok dtos
      → All IsSound dtos
  unfolding fetch_confirmed_orders ◌>>=◌
  fetch_confirmed_orders-IsSound e h = elim (Result-cases (odoo.read_orders confirmed_states e).0) [
    | inl (orders, k) ↦
        fetch_rest-IsSound orders (odoo.read_orders confirmed_states e).1 (rw k at h)
    | inr (x, k) ↦ absurd (cc (rw k at h))
  ]
