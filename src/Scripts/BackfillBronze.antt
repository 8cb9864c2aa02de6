-- ===== src/Scripts/BackfillBronze.antt =====
-- scripts/backfill_bronze.py: the bronze tables from a date on.
use retail_order_sync_hub.Base.{ℕ, String, none, some}
use retail_order_sync_hub.Json.{Value}
use retail_order_sync_hub.Config.{Settings}
use retail_order_sync_hub.World.{World}
use retail_order_sync_hub.Exec.{Result, Exec, pure, lift, ◌>>=◌}
use retail_order_sync_hub.BqSync.{BigQuery, sync_webhooks, sync_orders}

module _ {E : Type 0} (bq : BigQuery E) (iso : ℕ → String) (dumps : Value → String)
    (settings : Settings) where
  -- `main`: `midnight` is `_parse_date`, the first moment of a day in UTC, or a ValueError.
  unfoldable pub backfill : (String → Result ℕ) → String → Exec (World E) (ℕ × ℕ)
  unfolding sync_webhooks sync_orders
  backfill midnight from_date = do
    since ← lift (midnight from_date)
    webhooks ← sync_webhooks bq iso dumps settings (some since) none
    orders ← sync_orders bq iso dumps settings (some since) none
    pure (webhooks, orders)
