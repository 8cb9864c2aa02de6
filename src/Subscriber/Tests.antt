-- ===== src/Subscriber/Tests.antt =====
-- Concrete events of the subscriber, and a reconciliation.
use retail_order_sync_hub.Base.{
  Bool, ℕ, any, pos, true, some, none, [], ◌∷◌, ◌≡◌, refl, if◌then◌else◌,
}
use retail_order_sync_hub.Json.{Value, str, end, field, null, dict}
use retail_order_sync_hub.Exec.{ok, err, other, bind_result, ◌>>=◌}
use retail_order_sync_hub.Fixtures.{runtime, publisher, world, odoo}
use retail_order_sync_hub.Reconciler.{reconcile_to_odoo}
use retail_order_sync_hub.Config.{default_settings}
use retail_order_sync_hub.Subscriber.Handler.{handle_message, handle_envelope, bound_id}
use retail_order_sync_hub.Subscriber.Normalize.{NormalizedOrder, normalize_event}
use retail_order_sync_hub.Subscriber.Normalize.Poison.{
  IsOrderOrPoison, normalize_event-IsOrderOrPoison,
}
use retail_order_sync_hub.Model.{empty_db}
use retail_order_sync_hub.World.{World}
use retail_order_sync_hub.BqSync.{new_orders}
use retail_order_sync_hub.BqSync.Missed.{new_orders-upsert_order}
use retail_order_sync_hub.Subscriber.Silver.{inserted_row, is_row, upsert_order}
use retail_order_sync_hub.Subscriber.Silver.Map.{lookup, is_key, lookup-upsert_order}

abbrev delivered : NormalizedOrder
delivered = record {
  marketplace = "paris";
  marketplace_order_id = "P1";
  odoo_order_id = some (pos 7);
  status = "delivered";
}

lookup-upsert_order_example :
    lookup "paris" "P1" (upsert_order delivered (world 0)).1.db.orders
    ≡ (if is_key delivered "paris" "P1" then some ("delivered", some (pos 7)) else none)
lookup-upsert_order_example = lookup-upsert_order delivered (world 0) "paris" "P1"

normalize_event-IsOrderOrPoison_example :
    IsOrderOrPoison (normalize_event runtime "paris" (Value.obj (field "order_id" (str "P1") end)))
normalize_event-IsOrderOrPoison_example =
    normalize_event-IsOrderOrPoison runtime (field "order_id" (str "P1") end) "paris"

note_written : (reconcile_to_odoo odoo (pos 7) "delivered" null).0 ≡ ok true
unfolding reconcile_to_odoo ◌>>=◌
note_written = refl

-- An envelope whose event has no bronze row.
abbrev unknown_event : Value
unknown_event = dict (("event_id", str "e9") ∷ ("source", str "paris") ∷ [])

-- An event id that is a number is refused by the database of the tests.
numbered_raises :
    (handle_envelope runtime default_settings publisher none
      (dict (("event_id", Value.int (pos 9)) ∷ ("source", str "paris") ∷ []))
      (world 0)).0
    ≡ err (other "operator does not exist")
unfolding handle_envelope bound_id bind_result ◌>>=◌
numbered_raises = refl

-- The order that is delivered again, in a table that has been synchronized up to its time.
abbrev silver_world : World ℕ
silver_world = record (world 0) {
  db = record empty_db { orders = inserted_row delivered 1 900 ∷ [] };
}

known : any (is_row "paris" "P1") silver_world.db.orders ≡ true
unfolding is_row
known = refl

new_orders-upsert_order_example :
    new_orders (some 900) (upsert_order delivered silver_world).1.db.orders ≡ []
new_orders-upsert_order_example = new_orders-upsert_order delivered silver_world 900 known refl

abbrev handle_one : Bool × World ℕ
handle_one = handle_message runtime default_settings publisher none (1 ∷ []) (world 0)
