-- ===== src/Mcp/WriteTools/Drain.antt =====
-- Draining the dead letters leaves none.
use retail_order_sync_hub.Base.{ℕ, ◌==◌, nat_eq, string_eq, true, List, any, ◌≡◌}
use retail_order_sync_hub.Model.{OutboxEntry, status_eq}
use retail_order_sync_hub.World.{World}
use retail_order_sync_hub.Mcp.WriteTools.{reset_row, is_dlq}

module _ (now : ℕ) where
  abbrev reset : OutboxEntry → OutboxEntry
  reset = reset_row now

  -- The dead letter is among the rows that are reset.
  abbrev IsCovered : List OutboxEntry → OutboxEntry → Type 0
  IsCovered rows row = is_dlq row ≡ true → any (λ (r : OutboxEntry). r.id == row.id) rows ≡ true
