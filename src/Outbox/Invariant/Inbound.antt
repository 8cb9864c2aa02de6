-- ===== src/Outbox/Invariant/Inbound.antt =====
-- A round of the outbox worker leaves the tables of the inbound half alone.
use retail_order_sync_hub.Base.{ℕ, String, List, refl, ap}
use retail_order_sync_hub.Config.{Settings}
use retail_order_sync_hub.Model.{Db}
use retail_order_sync_hub.Services.{Runtime, Publisher, Random}
use retail_order_sync_hub.Odoo.{Odoo}
use retail_order_sync_hub.World.{World}
use retail_order_sync_hub.World.Keeps.{Keeps, Keeps-bind, Keeps-outside, Keeps-pure}
use retail_order_sync_hub.Adapters.Dto.{OrderDto}
use retail_order_sync_hub.Outbox.Queue.{inbound, AllKeepTables}
use retail_order_sync_hub.Outbox.Enqueue.{enqueue_orders}
use retail_order_sync_hub.Outbox.Enqueue.Growth.{enqueue_orders-Grows}
use retail_order_sync_hub.Outbox.Processor.{Adapters, process_pending}
use retail_order_sync_hub.Outbox.Processor.Others.{Keeps-process_pending}
use retail_order_sync_hub.Outbox.Worker.{run_once}

Keeps-enqueue_orders :
    {E : Type 0} (orders : List OrderDto) (targets : List String)
    → Keeps {E = E} inbound (enqueue_orders orders targets)
Keeps-enqueue_orders orders targets = record {
  same = λ w.
      ap (λ (d : Db). (d.webhook_log, d.webhook_dedup, d.orders))
        (enqueue_orders-Grows orders targets w).appended;
}

module _ {E : Type 0} (rt : Runtime) (random : Random E) (publisher : Publisher E)
    (settings : Settings) (odoo : Odoo E) (adapters : Adapters E)
    (keeps : AllKeepTables adapters) where
  Keeps-cycle :
      (batch_size : ℕ)
      → Keeps inbound (λ (w : World E).
        process_pending rt random publisher settings adapters w.clock batch_size w)
  Keeps-cycle batch_size = record {
    same = λ w.
        ap (λ q. (q.1, q.2, q.3))
          ((Keeps-process_pending rt random publisher settings adapters w.clock keeps
              batch_size).same
            w);
  }

  pub Keeps-run_once : Keeps inbound (run_once rt random publisher settings odoo adapters)
  unfolding run_once
  Keeps-run_once = Keeps-bind inbound _ _ (Keeps-outside inbound _ (λ w e. refl)) λ orders.
      Keeps-bind inbound _ _ (Keeps-enqueue_orders orders _)
        λ added. Keeps-bind inbound _ _ (Keeps-cycle 50) λ outcomes. Keeps-pure inbound tt
