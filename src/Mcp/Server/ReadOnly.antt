-- ===== src/Mcp/Server/ReadOnly.antt =====
-- The read tools change nothing of the program's, and want their scope.
use retail_order_sync_hub.Base.{ℕ, ℤ, String, string_eq, Option, List}
use retail_order_sync_hub.Config.{Settings}
use retail_order_sync_hub.Services.{Runtime, outside}
use retail_order_sync_hub.Model.{Db, Sequences}
use retail_order_sync_hub.World.{World, Measurement}
use retail_order_sync_hub.World.Keeps.{Keeps}
use retail_order_sync_hub.Exec.{Exec, lift, gets, pure, ◌>>=◌}
use retail_order_sync_hub.Mcp.WriteTools.{Reply}
use retail_order_sync_hub.Mcp.Queries.{Warehouse, get_bq_sla_metrics, get_order_by_id}
use retail_order_sync_hub.Mcp.Server.{
  get_order_status, trace_order, get_dlq_depth, get_sla_metrics, find_failed_tool, failed_since,
  depth_report, status_reply, trace_reply, sla_reply, iso_pos,
}

-- A call of one of the tools, with its token last.
pub data ReadTool : Type 0 where
  status trace : String → String → ReadTool
  depth : String → ReadTool
  sla : String → String → String → ReadTool
  failed_orders : String → Option String → String → ReadTool

abbrev pub read_scope : ReadTool → String
read_scope (status id token) = "orders.read"
read_scope (trace id token) = "orders.read"
read_scope (depth token) = "metrics.read"
read_scope (sla marketplace window token) = "metrics.read"
read_scope (failed_orders since marketplace token) = "orders.read"

abbrev pub read_token : ReadTool → String
read_token (status id token) = token
read_token (trace id token) = token
read_token (depth token) = token
read_token (sla marketplace window token) = token
read_token (failed_orders since marketplace token) = token

-- All of the state but the outside.
abbrev pub own_state : {E : Type 0} → World E → Db × Sequences × ℕ × List Measurement
own_state w = (w.db, w.seq, w.clock, w.metrics)

module _ {E : Type 0} (rt : Runtime) (iso : ℤ → String) (listing : List String → String)
    (settings : Settings) (warehouse : Warehouse E) where
  unfoldable pub run_read : ReadTool → Exec (World E) Reply
  run_read (status id token) = get_order_status rt iso listing settings warehouse id token
  run_read (trace id token) = trace_order rt iso listing settings warehouse id token
  run_read (depth token) = get_dlq_depth rt iso listing settings warehouse token
  run_read (sla marketplace window token) =
      get_sla_metrics rt iso listing settings warehouse marketplace window token
  run_read (failed_orders since marketplace token) =
      find_failed_tool rt iso listing settings warehouse since marketplace token

  -- What a tool does behind its scope.
  abbrev behind : ReadTool → Exec (World E) Reply
  behind (status id token) =
      gets (λ (w : World E). get_order_by_id (iso_pos rt iso) id w.db) >>= λ order.
      pure (status_reply rt iso listing settings warehouse id order)
  behind (trace id token) = gets (λ (w : World E). w.db) >>= λ db.
      lift (
        trace_reply rt iso listing settings warehouse id (get_order_by_id (iso_pos rt iso) id db)
          db)
  behind (depth token) = depth_report rt iso listing settings warehouse
  behind (sla marketplace window token) =
      outside (get_bq_sla_metrics settings warehouse marketplace window) >>= λ rows.
      pure (sla_reply rt iso listing settings warehouse marketplace window rows)
  behind (failed_orders since marketplace token) =
      failed_since rt iso listing settings warehouse since marketplace
