-- ===== src/System.antt =====
-- The services together on one database, as docker-compose runs them: the outbox worker, the webhook
-- receiver, the subscriber and the write tools, one operation at a time.
pub mod Invariant
pub mod Failed
mod Tests
use retail_order_sync_hub.Base.{ℕ, ◌+◌, String, Option, List, [], ◌∷◌}
use retail_order_sync_hub.Config.{Settings}
use retail_order_sync_hub.Services.{Runtime, Bytes, Publisher, Random}
use retail_order_sync_hub.Odoo.{Odoo}
use retail_order_sync_hub.World.{World}
use retail_order_sync_hub.Outbox.Processor.{Adapters}
use retail_order_sync_hub.Outbox.Worker.{run_once}
use retail_order_sync_hub.Webhook.Receiver.Delivery.{Inbound, receive}
use retail_order_sync_hub.Subscriber.Handler.{handle_message}
use retail_order_sync_hub.Mcp.WriteTools.Trail.{Tool, run}

-- What may happen next: a round of the outbox worker, a request to the receiver, a message for the
-- subscriber, a call of a write tool, or time that passes, in which the outside does what it wants.
pub data Event (E : Type 0) : Type 0 where
  round : Event E
  request : Inbound → Event E
  message : Bytes → Event E
  tool : Tool → Event E
  elapse : ℕ → (E → E) → Event E

-- What the services are given.
pub record Deployment (E : Type 0) : Type 0 where
  pub rt : Runtime
  pub random : Random E
  pub publisher : Publisher E
  pub settings : Settings
  pub odoo : Odoo E
  pub subscriber_odoo : Option (Odoo E)
  pub adapters : Adapters E
  pub iso : ℕ → String
  pub listing : List String → String

module _ {E : Type 0} (d : Deployment E) where
  -- An exception ends its own operation alone.
  unfoldable pub step : Event E → World E → World E
  step round w = (run_once d.rt d.random d.publisher d.settings d.odoo d.adapters w).1
  step (request r) w = (receive d.rt d.publisher d.settings d.iso r w).1
  step (message m) w = (handle_message d.rt d.settings d.publisher d.subscriber_odoo m w).1
  step (tool t) w = (run d.listing d.settings t w).1
  step (elapse n f) w = record w { clock = w.clock + n; env = f w.env }

  unfoldable pub steps : List (Event E) → World E → World E
  steps [] w = w
  steps (e ∷ es) w = steps es (step e w)
