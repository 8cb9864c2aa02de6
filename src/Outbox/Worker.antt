-- ===== src/Outbox/Worker.antt =====
-- src/outbox_worker/__main__.py: a cycle of the worker, and its loop.
use retail_order_sync_hub.Base.{ℕ, zero, suc, String, List, map}
use retail_order_sync_hub.Config.{Settings}
use retail_order_sync_hub.Services.{Runtime, Publisher, Random, outside}
use retail_order_sync_hub.Odoo.{Odoo}
use retail_order_sync_hub.World.{World}
use retail_order_sync_hub.Exec.{Exec, pure, ◌>>=◌}
use retail_order_sync_hub.Adapters.Dto.{Adapter}
use retail_order_sync_hub.Outbox.Enqueue.{enqueue_orders}
use retail_order_sync_hub.Outbox.Processor.{Adapters, process_pending}
use retail_order_sync_hub.Outbox.Source.{fetch_confirmed_orders}

module _ {E : Type 0} (rt : Runtime) (random : Random E) (publisher : Publisher E)
    (settings : Settings) (odoo : Odoo E) (adapters : Adapters E) where
  -- list(adapters)
  abbrev pub adapter_names : List String
  adapter_names = map (λ (a : String × Adapter E). a.0) adapters

  unfoldable pub run_once : Exec (World E) (Unit {0})
  unfolding outside
  run_once = do
    orders ← outside (fetch_confirmed_orders rt odoo)
    added ← enqueue_orders orders adapter_names
    outcomes ← λ (w : World E). process_pending rt random publisher settings adapters w.clock 50 w
    pure tt

  -- So many rounds of `run_forever`, whose exceptions are logged and passed over.
  unfoldable pub run_cycles : ℕ → World E → World E
  run_cycles zero w = w
  run_cycles (suc n) w = run_cycles n (run_once w).1
