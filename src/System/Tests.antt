-- ===== src/System/Tests.antt =====
-- A run of all services from an empty database.
use retail_order_sync_hub.Base.{negsuc, false, ◌≡◌, ℕ, ◌+◌, none, some, List, [], ◌∷◌, refl, arith}
use retail_order_sync_hub.Json.{null}
use retail_order_sync_hub.Config.{default_settings}
use retail_order_sync_hub.Exec.{ok}
use retail_order_sync_hub.Odoo.{Odoo}
use retail_order_sync_hub.Outbox.Queue.{AllKeepTables}
use retail_order_sync_hub.Webhook.Receiver.Delivery.{Inbound, to_paris}
use retail_order_sync_hub.Mcp.WriteTools.Trail.{replay}
use retail_order_sync_hub.Fixtures.{
  runtime, publisher, random, random-IsUniform, good_adapter, bad_adapter, sale_order, sale_line,
  world,
}
use retail_order_sync_hub.System.{Event, round, request, message, tool, elapse, Deployment, steps}
use retail_order_sync_hub.Mcp.Queries.{find_failed_orders}
use retail_order_sync_hub.System.Failed.{steps-find_failed_orders}
use retail_order_sync_hub.System.Invariant.{IsSound, steps-IsSound}

-- An ERP with one confirmed order.
abbrev erp : Odoo ℕ
erp = record {
  read_orders = λ states n. (ok (sale_order ∷ []), n);
  read_lines = λ ids n. (ok (sale_line ∷ []), n);
  read_products = λ ids n. (ok [], n);
  read_note = λ id n. (ok none, n);
  write_note = λ id text n. (ok tt, n + 1);
}

abbrev deployment : Deployment ℕ
deployment = record {
  rt = runtime;
  random = random;
  publisher = publisher;
  settings = default_settings;
  odoo = erp;
  subscriber_odoo = some erp;
  adapters = ("paris", good_adapter) ∷ ("mercadolibre", bad_adapter) ∷ [];
  iso = λ at. "now";
  listing = λ granted. "none";
}

adapters_keep : AllKeepTables deployment.adapters
adapters_keep =
    ((λ order. record { same = λ w. refl }), ((λ order. record { same = λ w. refl }), tt))

empty-IsSound : IsSound runtime 5 (world 0)
empty-IsSound = record {
  outbox = record { consistent = tt; drawn = tt; unique_ids = tt; unique_keys = tt };
  bronze = record { unique = tt; paired = refl };
  silver = tt;
  lineage = tt;
}

abbrev inbound_request : Inbound
inbound_request = to_paris (record {
  body = 0 ∷ [];
  header = λ name. some default_settings.paris_api_secret;
  headers = null;
})

-- Two rounds with time between them, an event, a message and a call of a tool.
abbrev events : List (Event ℕ)
events =
    round
    ∷ request inbound_request
    ∷ elapse 5000000 (λ n. n)
    ∷ round
    ∷ message (0 ∷ [])
    ∷ tool (
        replay "1" "stranger"
          (record { args = []; kwargs = []; api_token = some "stranger"; is_recorded = false }))
    ∷ []

steps-IsSound_example : IsSound runtime 5 (steps deployment events (world 0))
steps-IsSound_example =
    steps-IsSound deployment random-IsUniform adapters_keep (omega arith) events (world 0)
      empty-IsSound

steps-find_failed_orders_example :
    find_failed_orders
      (λ at. "now")
      (negsuc 5)
      (some "paris")
      (steps deployment events (world 0)).db
    ≡ []
steps-find_failed_orders_example =
    steps-find_failed_orders deployment random-IsUniform adapters_keep (omega arith) events
      (world 0) (λ at. "now") (negsuc 5) (some "paris") empty-IsSound
