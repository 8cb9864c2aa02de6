-- ===== src/Outbox/Source.antt =====
-- src/outbox_worker/source.py
pub mod Sound
use retail_order_sync_hub.Base.{
  ℤ, eq_ℤ, int_eq, String, ◌==◌, string_eq, Bool, true, false, Option, none, some, List, [], ◌∷◌,
  ◌++◌, map, any, cat, str_int, if◌then◌else◌,
}
use retail_order_sync_hub.Odoo.{SaleOrder, SaleLine, Product, Odoo}
use retail_order_sync_hub.Services.{Runtime}
use retail_order_sync_hub.Exec.{Exc, Result, ok, err, bind_result, Exec, pure, lift, ◌>>=◌}
use retail_order_sync_hub.Adapters.Dto.{OrderItemDto, OrderDto, make_item}
use retail_order_sync_hub.Adapters.OAuth.{int_value}

abbrev pub confirmed_states : List String
confirmed_states = "sale" ∷ "done" ∷ []

-- [lid for order in orders for lid in order["order_line"]]
unfoldable pub line_ids : List SaleOrder → List ℤ
line_ids [] = []
line_ids (order ∷ orders) = order.order_line ++ line_ids orders

abbrev onto : Option (ℤ × String) → List ℤ → List ℤ
onto none ids = ids
onto (some (id, name)) ids = if any (λ i. i == id) ids then ids else id ∷ ids

-- The set of the lines' products. The order of a set is unspecified, and the answer is read by id.
unfoldable pub product_ids : List SaleLine → List ℤ
product_ids [] = []
product_ids (line ∷ lines) = onto line.product_id (product_ids lines)

abbrev or_line : Option SaleLine → SaleLine → ℤ → Option SaleLine
or_line (some later) line id = some later
or_line none line id = if line.id == id then some line else none

-- lines_by_id.get(id): of two lines with an id the later
unfoldable pub line_of : List SaleLine → ℤ → Option SaleLine
line_of [] id = none
line_of (line ∷ lines) id = or_line (line_of lines id) line id

abbrev pid : ℤ → String
pid id = cat ("PID-" ∷ str_int id ∷ [])

-- p.get("default_code") or f"PID-{id}"
abbrev code_or_pid : Option String → ℤ → String
code_or_pid none id = pid id
code_or_pid (some code) id = if code == "" then pid id else code

abbrev or_code : Option String → Product → ℤ → Option String
or_code (some later) p id = some later
or_code none p id = if p.id == id then some (code_or_pid p.default_code p.id) else none

abbrev code_of : List Product → ℤ → Option String
code_of [] id = none
code_of (p ∷ ps) id = or_code (code_of ps id) p id

abbrev or_pid : Option String → ℤ → String
or_pid none id = pid id
or_pid (some code) id = code

-- sku_by_product.get(id, f"PID-{id}")
unfoldable pub sku_of : List Product → ℤ → String
sku_of products id = or_pid (code_of products id) id

abbrev buyer_of : Option (ℤ × String) → String
buyer_of none = "unknown"
buyer_of (some (id, name)) = name

module _ (rt : Runtime) (lines : List SaleLine) (products : List Product) where
  abbrev pub with_product :
      Option (ℤ × String) → SaleLine → Result (List OrderItemDto) → Result (List OrderItemDto)
  with_product none line rest = rest
  with_product (some (id, name)) line rest = bind_result (int_value line.product_uom_qty) λ qty.
      bind_result (make_item rt (sku_of products id) qty)
        λ item. bind_result rest λ items. ok (item ∷ items)

  abbrev pub with_line : Option SaleLine → Result (List OrderItemDto) → Result (List OrderItemDto)
  with_line none rest = rest
  with_line (some line) rest = with_product line.product_id line rest

  -- The items of an order: its lines that are there and have a product.
  unfoldable pub order_items : List ℤ → Result (List OrderItemDto)
  order_items [] = ok []
  order_items (lid ∷ lids) = with_line (line_of lines lid) (order_items lids)

  -- An order without items is passed over.
  abbrev pub add_order : SaleOrder → List OrderItemDto → List OrderDto → List OrderDto
  add_order order [] dtos = dtos
  add_order order (item ∷ items) dtos =
      record {
        odoo_order_id = order.id;
        buyer = buyer_of order.partner_id;
        items = item ∷ items;
        external_ref = cat ("odoo-" ∷ str_int order.id ∷ []);
      }
      ∷ dtos

  -- The loop over the orders.
  unfoldable pub order_dtos : List SaleOrder → Result (List OrderDto)
  order_dtos [] = ok []
  order_dtos (order ∷ orders) =
      bind_result (order_items order.order_line)
        λ items. bind_result (order_dtos orders) λ dtos. ok (add_order order items dtos)

module _ {E : Type 0} (rt : Runtime) (odoo : Odoo E) where
  abbrev pub fetch_rest : List SaleOrder → Exec E (List OrderDto)
  fetch_rest [] = pure []
  fetch_rest (order ∷ orders) = do
    lines ← odoo.read_lines (line_ids (order ∷ orders))
    products ← odoo.read_products (product_ids lines)
    lift (order_dtos rt lines products (order ∷ orders))

  unfoldable pub fetch_confirmed_orders : Exec E (List OrderDto)
  fetch_confirmed_orders = do orders ← odoo.read_orders confirmed_states; fetch_rest orders
