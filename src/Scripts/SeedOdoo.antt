-- ===== src/Scripts/SeedOdoo.antt =====
-- scripts/seed_odoo.py: the demonstration's products, partners and order in the ERP.
use retail_order_sync_hub.Base.{ℤ, pos, String, true, List, [], ◌∷◌}
use retail_order_sync_hub.Json.{Value, int, float, str, arr, items, dict}
use retail_order_sync_hub.Exec.{
  value_error, other, Result, ok, err, bind_result, Exec, pure, lift, try, ◌>>=◌, ◌>>◌,
}
use retail_order_sync_hub.Odoo.Client.{Values, Rpc, value_of, upsert}

abbrev pub products : List Values
products =
    (("default_code", str "ROSH-TSHIRT-001")
      ∷ ("name", str "Camiseta Retail Demo")
      ∷ ("list_price", float (pos 12990) true "12990.0")
      ∷ [])
    ∷ (("default_code", str "ROSH-MUG-002")
        ∷ ("name", str "Taza Retail Demo")
        ∷ ("list_price", float (pos 5990) true "5990.0")
        ∷ [])
    ∷ (("default_code", str "ROSH-CAP-003")
        ∷ ("name", str "Gorro Retail Demo")
        ∷ ("list_price", float (pos 8990) true "8990.0")
        ∷ [])
    ∷ []

abbrev pub partners : List Values
partners =
    (("ref", str "ROSH-CUST-001")
      ∷ ("name", str "Comex Test Buyer")
      ∷ ("email", str "comex.buyer@example.cl")
      ∷ [])
    ∷ (("ref", str "ROSH-CUST-002")
        ∷ ("name", str "Retail Demo Client")
        ∷ ("email", str "demo.client@example.cl")
        ∷ [])
    ∷ []

abbrev pub order_ref : String
order_ref = "ROSH-ORDER-0001"

-- The ids, by key: the keys of the records are distinct.
abbrev pub Ids : Type 0
Ids = List (Value × ℤ)

pub record Summary : Type 0 where
  pub products : Ids
  pub partners : Ids
  pub order_id : ℤ
  pub order_ref : String

-- (0, 0, {"product_id": pid, "product_uom_qty": qty})
abbrev line_command : ℤ → ℤ → Value
line_command pid qty = arr (
    items (
      int (pos 0)
      ∷ int (pos 0)
      ∷ dict (("product_id", int pid) ∷ ("product_uom_qty", int qty) ∷ [])
      ∷ []))

-- zip(…, strict=True), over the products and the quantities
unfoldable pub order_lines : Ids → List ℤ → Result (List Value)
order_lines [] [] = ok []
order_lines ((k, pid) ∷ ids) (qty ∷ qtys) =
    bind_result (order_lines ids qtys) λ lines. ok (line_command pid qty ∷ lines)
order_lines _ _ = err (value_error "zip() arguments have different lengths")

-- next(iter(ids.values()))
abbrev first_id : Ids → Result ℤ
first_id [] = err (other "StopIteration")
first_id ((k, id) ∷ ids) = ok id

module _ {E : Type 0} (rpc : Rpc E) where
  unfoldable pub ensure_sales_access : Exec E (Unit {0})
  ensure_sales_access = do
    group_id ← rpc.reference "sales_team" "group_sale_manager"
    rpc.write "res.users" (rpc.uid ∷ [])
        (("groups_id", arr (items (arr (items (int (pos 4) ∷ int group_id ∷ [])) ∷ []))) ∷ [])

  -- The comprehension over the records of a model.
  unfoldable pub upsert_each : String → String → List Values → Exec E Ids
  upsert_each model key_field [] = pure []
  upsert_each model key_field (values ∷ records) = do
    key ← lift (value_of key_field values)
    id ← upsert rpc model key_field values
    ids ← upsert_each model key_field records
    pure ((key, id) ∷ ids)

  make_order : Ids → Ids → Exec E ℤ
  make_order product_ids partner_ids = do
    lines ← lift (order_lines product_ids (pos 2 ∷ pos 1 ∷ pos 3 ∷ []))
    partner_id ← lift (first_id partner_ids)
    rpc.create "sale.order" (
        ("partner_id", int partner_id)
        ∷ ("client_order_ref", str order_ref)
        ∷ ("order_line", arr (items lines))
        ∷ [])

  -- The order that is there, or a new one.
  unfoldable pub order_or_new : Ids → Ids → List ℤ → Exec E ℤ
  unfolding make_order
  order_or_new product_ids partner_ids [] = make_order product_ids partner_ids
  order_or_new product_ids partner_ids (id ∷ ids) = pure id

  unfoldable pub seed : Exec E Summary
  unfolding ensure_sales_access upsert_each order_or_new
  seed = do
    ensure_sales_access
    product_ids ← upsert_each "product.product" "default_code" products
    partner_ids ← upsert_each "res.partner" "ref" partners
    existing ← rpc.search "sale.order" "client_order_ref" (str order_ref)
    order_id ← order_or_new product_ids partner_ids existing
    pure (record {
      products = product_ids;
      partners = partner_ids;
      order_id = order_id;
      order_ref = order_ref;
    })

-- `main`, after the client is made: the exit code, by whether an exception left the seed
unfoldable pub seed_main : {E : Type 0} → Rpc E → Exec E ℤ
seed_main rpc = try (do summary ← seed rpc; pure (pos 0)) λ x. pure (pos 1)
