-- ===== src/Mcp/Queries.antt =====
-- src/mcp_server/queries.py. `iso` is `datetime.isoformat`.
use retail_order_sync_hub.Base.{
  ℕ, ◌-◌, ℤ, pos, negsuc, cat, String, ◌==◌, string_eq, Bool, true, not, ◌&&◌, Option, none, some,
  is_some, List, [], ◌∷◌, map, length, take, select, order_by, leb, if◌then◌else◌,
}
use retail_order_sync_hub.Json.{Value, null, int, str, dict, opt_str, opt_int}
use retail_order_sync_hub.Config.{Settings}
use retail_order_sync_hub.Exec.{Exec}
use retail_order_sync_hub.Model.{WebhookLog, Order, OutboxEntry, Db}
use retail_order_sync_hub.Mcp.WriteTools.{status_text, is_dlq, order_of}

abbrev bigger : ℕ → ℕ → ℕ
bigger a b = if leb a b then b else a

unfoldable pub greatest : {A : Type 0} → (A → ℕ) → List A → ℕ
greatest key [] = 0
greatest key (r ∷ rows) = bigger (key r) (greatest key rows)

-- ORDER BY … DESC, of a number: the order of what it lacks to the greatest.
unfoldable pub newest_first : {A : Type 0} → (A → ℕ) → List A → List A
unfolding greatest
newest_first key rows = order_by (λ r. greatest key rows - key r) rows

-- A filter that is there and not empty.
abbrev pub matches : Option String → String → Bool
matches none value = true
matches (some wanted) value = if wanted == "" then true else value == wanted

-- since <= at, where `since` may lie before the epoch
abbrev pub not_before : ℤ → ℕ → Bool
not_before (pos since) at = leb since at
not_before (negsuc since) at = true

-- created_at >= since, and never synchronized
unfoldable pub is_failed : ℤ → Option String → Order → Bool
is_failed since marketplace r =
    not_before since r.created_at
    && not (is_some r.last_sync_at)
    && matches marketplace r.marketplace

-- The rows that the query returns.
unfoldable pub failed_rows : ℤ → Option String → Db → List Order
unfolding newest_first is_failed
failed_rows since marketplace db =
    take 100
      (newest_first (λ (r : Order). r.created_at) (select (is_failed since marketplace) db.orders))

unfoldable pub entry_rows : String → Db → List OutboxEntry
entry_rows aggregate_id db =
    order_by (λ (r : OutboxEntry). r.created_at)
      (select (λ (r : OutboxEntry). r.aggregate_id == aggregate_id) db.outbox)

unfoldable pub event_rows : Option String → Option String → Db → List WebhookLog
unfolding newest_first
event_rows event_id source db = take 20 (
    newest_first (λ (r : WebhookLog). r.received_at)
      (select (λ (r : WebhookLog). matches event_id r.event_id && matches source r.source)
        db.webhook_log))

module _ (iso : ℕ → String) where
  abbrev pub opt_iso : Option ℕ → Value
  opt_iso none = null
  opt_iso (some at) = str (iso at)

  unfoldable pub order_dict : Order → Value
  order_dict row = dict (
      ("internal_id", int (pos row.internal_id))
      ∷ ("odoo_order_id", opt_int row.odoo_order_id)
      ∷ ("marketplace", str row.marketplace)
      ∷ ("marketplace_order_id", opt_str row.marketplace_order_id)
      ∷ ("status", str row.status)
      ∷ ("last_sync_at", opt_iso row.last_sync_at)
      ∷ ("created_at", str (iso row.created_at))
      ∷ ("updated_at", str (iso row.updated_at))
      ∷ [])

  abbrev or_none : Option Order → Value
  or_none none = null
  or_none (some row) = order_dict row

  unfoldable pub get_order_by_id : String → Db → Value
  unfolding order_dict
  get_order_by_id order_id db = or_none (order_of order_id db.orders)

  unfoldable pub entry_dict : OutboxEntry → Value
  entry_dict r = dict (
      ("id", int (pos r.id))
      ∷ ("target_adapter", str r.target_adapter)
      ∷ ("status", str (status_text r.status))
      ∷ ("attempts", int (pos r.attempts))
      ∷ ("next_attempt_at", str (iso r.next_attempt_at))
      ∷ ("error_log", opt_str r.error_log)
      ∷ ("created_at", str (iso r.created_at))
      ∷ ("updated_at", str (iso r.updated_at))
      ∷ [])

  unfoldable pub get_outbox_entries : String → Db → List Value
  unfolding entry_rows entry_dict
  get_outbox_entries aggregate_id db = map entry_dict (entry_rows aggregate_id db)

  unfoldable pub event_dict : WebhookLog → Value
  event_dict r = dict (
      ("id", int (pos r.id))
      ∷ ("event_id", str r.event_id)
      ∷ ("source", str r.source)
      ∷ ("received_at", str (iso r.received_at))
      ∷ [])

  unfoldable pub get_webhook_events : Option String → Option String → Db → List Value
  unfolding event_rows event_dict
  get_webhook_events event_id source db = map event_dict (event_rows event_id source db)

  unfoldable pub failed_dict : Order → Value
  failed_dict r = dict (
      ("internal_id", int (pos r.internal_id))
      ∷ ("marketplace", str r.marketplace)
      ∷ ("marketplace_order_id", opt_str r.marketplace_order_id)
      ∷ ("status", str r.status)
      ∷ ("created_at", str (iso r.created_at))
      ∷ [])

  unfoldable pub find_failed_orders : ℤ → Option String → Db → List Value
  unfolding failed_rows
  find_failed_orders since marketplace db = map failed_dict (failed_rows since marketplace db)

unfoldable pub count_dlq_entries : Db → ℕ
count_dlq_entries db = length (select is_dlq db.outbox)

-- The client of BigQuery: a query with the value of its parameter, which returns the rows.
pub record Warehouse (E : Type 0) : Type 0 where
  pub query : String → String → Exec E (List Value)

unfoldable pub sla_query : Settings → String
sla_query settings = cat (
    "\n        SELECT marketplace, total_synced, avg_sync_seconds, p50_sync_seconds, p95_sync_seconds\n        FROM `"
    ∷ settings.bq_project_id
    ∷ ".gold.sla_by_marketplace`\n        WHERE marketplace = @marketplace\n    " ∷ [])

-- The window is not read.
unfoldable pub get_bq_sla_metrics :
    {E : Type 0} → Settings → Warehouse E → String → String → Exec E (List Value)
get_bq_sla_metrics settings warehouse marketplace window =
    warehouse.query (sla_query settings) marketplace
