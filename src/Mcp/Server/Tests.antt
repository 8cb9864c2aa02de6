-- ===== src/Mcp/Server/Tests.antt =====
-- Concrete calls of the read tools, and a retry that misses.
use retail_order_sync_hub.Base.{
  ℕ, ◌+◌, ℤ, pos, String, string_eq, true, none, some, List, [], ◌∷◌, cat, decimal, str_int, ◌≡◌,
  ◌≢◌, refl,
}
use retail_order_sync_hub.Json.{bool, int, str, dict}
use retail_order_sync_hub.Config.{Settings, default_settings}
use retail_order_sync_hub.Exec.{ok}
use retail_order_sync_hub.Model.{Order, empty_db}
use retail_order_sync_hub.World.{World}
use retail_order_sync_hub.Fixtures.{world, entry_row}
use retail_order_sync_hub.Mcp.WriteTools.{json, retry_order}
use retail_order_sync_hub.Mcp.WriteTools.Missed.{retry_order-missed}
use retail_order_sync_hub.Mcp.Queries.{Warehouse}
use retail_order_sync_hub.Mcp.Server.ReadOnly.{status}

abbrev listing : List String → String
listing granted = "none"

abbrev reader : Settings
reader = record default_settings { mcp_static_tokens = "r:orders.read" }

abbrev warehouse : Warehouse ℕ
warehouse = record { query = λ sql marketplace n. (ok [], n + 1) }

abbrev iso : ℤ → String
iso at = str_int at

-- An order of Paris that has never been synchronized.
abbrev silver_order : Order
silver_order = record {
  internal_id = 1;
  odoo_order_id = some (pos 7);
  marketplace = "paris";
  marketplace_order_id = some "P1";
  status = "created";
  last_sync_at = none;
  created_at = 900;
  updated_at = 900;
}

-- The entry of the order 7 of the ERP.
abbrev traced_world : World ℕ
traced_world = record (world 0) {
  db = record empty_db { orders = silver_order ∷ []; outbox = entry_row 1 "paris" 2 ∷ [] };
}

seven_ne_one : ◌≢◌ {A = ℤ} (pos 7) (pos 1)
seven_ne_one e = cc e

seven : "7" ≡ str_int (pos 7)
unfolding str_int
seven = refl

retry_order-missed_example : retry_order "P1" (some silver_order) traced_world ≡ (
  ok (
      json (
        dict (
          ("retried", bool true)
          ∷ ("order_id", str "P1")
          ∷ ("internal_id", int (pos 1))
          ∷ ("entries_reset", int (pos 0))
          ∷ ("message", str (cat ("Order " ∷ decimal 1 ∷ " re-queued for sync." ∷ [])))
          ∷ []))),
  traced_world,
)
retry_order-missed_example =
    retry_order-missed "P1" silver_order traced_world ((pos 7, seven, seven_ne_one), tt)
