-- ===== src/Odoo.antt =====
-- The calls of src/common/odoo.py that the program makes, as a service that acts on the outside.
pub mod Client
use retail_order_sync_hub.Base.{ℤ, eq_ℤ, String, Option, some, ◌≡◌, List, if◌then◌else◌}
use retail_order_sync_hub.Json.{Value, str}
use retail_order_sync_hub.Exec.{ok, Exec}

-- Rows of `sale.order`, `sale.order.line` and `product.product`, with the fields that are read. A field
-- that Odoo answers with `False` is an `Option`; a partner or a product is an id with a name.
pub record SaleOrder : Type 0 where
  pub id : ℤ
  pub partner_id : Option (ℤ × String)
  pub order_line : List ℤ

pub record SaleLine : Type 0 where
  pub id : ℤ
  pub product_id : Option (ℤ × String)
  pub product_uom_qty : Value

pub record Product : Type 0 where
  pub id : ℤ
  pub default_code : Option String

-- `read_orders` is the `search_read` of the orders in some states, `read_lines` and `read_products`
-- those of the rows with some ids. `read_note` is `search_read("sale.order", [("id", "=", id)], ["note"])`: the note of the first row,
-- if there is a row; `write_note` is `execute("sale.order", "write", [id], {"note": note})`.
pub record Odoo (E : Type 0) : Type 0 where
  pub read_orders : List String → Exec E (List SaleOrder)
  pub read_lines : List ℤ → Exec E (List SaleLine)
  pub read_products : List ℤ → Exec E (List Product)
  pub read_note : ℤ → Exec E (Option Value)
  pub write_note : ℤ → String → Exec E (Unit {0})

-- The ERP takes the note of an order that it has, and gives it back as rendered until it is written again,
-- and the notes of the other orders as they are; a read changes nothing. Odoo 17's field `note` is HTML,
-- which it sanitizes.
pub record RendersNotes {E : Type 0} (odoo : Odoo E) (render : String → String) : Type 0 where
  pub reads_only : (id : ℤ) (e : E) → (odoo.read_note id e).1 ≡ e
  pub accepts :
      (id : ℤ) (note : String) (e : E) {v : Value}
      → (odoo.read_note id e).0 ≡ ok (some v)
      → (odoo.write_note id note e).0 ≡ ok tt
  pub renders :
      (id i : ℤ) (note : String) (e : E)
      → (odoo.write_note id note e).0 ≡ ok tt
      → (odoo.read_note i (odoo.write_note id note e).1).0
        ≡ (if eq_ℤ i id then ok (some (str (render note))) else (odoo.read_note i e).0)
