-- ===== src/Outbox/Queue.antt =====
-- The outbox table with the sequence of its ids, and adapters that leave these and the other tables
-- that the components share alone.
use retail_order_sync_hub.Base.{ℕ, List, [], ◌∷◌, ap}
use retail_order_sync_hub.Model.{OutboxEntry, Sequences, WebhookLog, WebhookDedup, Order}
use retail_order_sync_hub.World.{World}
use retail_order_sync_hub.World.Keeps.{Keeps}
use retail_order_sync_hub.Adapters.Dto.{OrderDto, Adapter}
use retail_order_sync_hub.Outbox.Processor.{Adapters}
use retail_order_sync_hub.Outbox.Processor.Batch.{AllKeepOutbox}

-- The table, and the id that the next row gets.
abbrev pub Queue : Type 0
Queue = List OutboxEntry × ℕ

module _ {E : Type 0} where
  abbrev pub queue : World E → Queue
  queue w = (w.db.outbox, w.seq.outbox)

  -- The other tables that the components share, with the sequences.
  abbrev pub others : World E → Sequences × List WebhookLog × List WebhookDedup × List Order
  others w = (w.seq, w.db.webhook_log, w.db.webhook_dedup, w.db.orders)

  abbrev pub tables :
      World E → List OutboxEntry × Sequences × List WebhookLog × List WebhookDedup × List Order
  tables w = (w.db.outbox, w.seq, w.db.webhook_log, w.db.webhook_dedup, w.db.orders)

  -- The tables of the inbound half.
  abbrev pub inbound : World E → List WebhookLog × List WebhookDedup × List Order
  inbound w = (w.db.webhook_log, w.db.webhook_dedup, w.db.orders)

  -- A push leaves the tables alone.
  abbrev pub KeepsTables : Adapter E → Type 0
  KeepsTables a = (order : OrderDto) → Keeps tables (a.push_order order)

  abbrev pub AllKeepTables : Adapters E → Type 0
  AllKeepTables [] = Unit
  AllKeepTables ((name, a) ∷ rest) = KeepsTables a × AllKeepTables rest

  pub AllKeepTables-AllKeepOutbox :
      (adapters : Adapters E) → AllKeepTables adapters → AllKeepOutbox adapters
  AllKeepTables-AllKeepOutbox [] h = tt
  AllKeepTables-AllKeepOutbox ((name, a) ∷ rest) (k, h) =
      ((λ order w. ap (λ q. q.0) ((k order).same w)), AllKeepTables-AllKeepOutbox rest h)
