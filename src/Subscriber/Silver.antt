-- ===== src/Subscriber/Silver.antt =====
-- src/subscriber/silver.py
pub mod Map
pub mod Keys
use retail_order_sync_hub.Base.{
  ℕ, ◌+◌, String, ◌==◌, string_eq, Bool, true, false, ◌&&◌, Option, none, some, List, [], ◌∷◌, ◌++◌,
  find, if◌then◌else◌,
}
use retail_order_sync_hub.Model.{Order}
use retail_order_sync_hub.World.{World}
use retail_order_sync_hub.Exec.{Result, ok, Exec}
use retail_order_sync_hub.Subscriber.Normalize.{NormalizedOrder}

-- The key `uq_orders_marketplace_id`; a null order id equals nothing.
abbrev pub is_id : String → Option String → Bool
is_id id none = false
is_id id (some other) = other == id

unfoldable pub is_row : String → String → Order → Bool
is_row marketplace id row = row.marketplace == marketplace && is_id id row.marketplace_order_id

-- The assignments of ON CONFLICT DO UPDATE. SQLAlchemy does not apply a column's `onupdate` to such an
-- update, so `updated_at` stays as it is.
abbrev pub updated_row : NormalizedOrder → ℕ → Order → Order
updated_row order now row = record row {
  status = order.status;
  odoo_order_id = order.odoo_order_id;
  last_sync_at = some now;
}

abbrev pub inserted_row : NormalizedOrder → ℕ → ℕ → Order
inserted_row order id now = record {
  internal_id = id;
  odoo_order_id = order.odoo_order_id;
  marketplace = order.marketplace;
  marketplace_order_id = some order.marketplace_order_id;
  status = order.status;
  last_sync_at = some now;
  created_at = now;
  updated_at = now;
}

-- The row of the key is replaced where it stands.
unfoldable pub update_rows : NormalizedOrder → ℕ → List Order → List Order
update_rows order now [] = []
update_rows order now (row ∷ rows) =
    let rest = update_rows order now rows in
    if is_row order.marketplace order.marketplace_order_id row
    then updated_row order now row ∷ rest
    else row ∷ rest

module _ {E : Type 0} where
  unfoldable pub upsert_found : NormalizedOrder → Option Order → Exec (World E) ℕ
  unfolding update_rows
  upsert_found order none w = (
    ok w.seq.orders,
    record w {
      seq = record w.seq { orders = w.seq.orders + 1 };
      db = record w.db { orders = w.db.orders ++ inserted_row order w.seq.orders w.clock ∷ [] };
    },
  )
  upsert_found order (some row) w = (
    ok row.internal_id,
    record w {
      seq = record w.seq { orders = w.seq.orders + 1 };
      db = record w.db { orders = update_rows order w.clock w.db.orders };
    },
  )

  -- The id is drawn before the conflict is seen.
  unfoldable pub upsert_order : NormalizedOrder → Exec (World E) ℕ
  unfolding upsert_found is_row
  upsert_order order w =
      upsert_found order (find (is_row order.marketplace order.marketplace_order_id) w.db.orders) w
