-- ===== src/Mcp/Server/Timeline.antt =====
-- `trace_order`: what its timeline holds, and in which order.
use retail_order_sync_hub.Base.{
  ℤ, pos, String, ◌==◌, string_eq, Bool, not, ◌&&◌, Option, none, some, List, [], ◌∷◌, ◌++◌, map,
  select, order_by, decimal, ◌≡◌, refl, if◌then◌else◌,
}
use retail_order_sync_hub.Json.{Value, str, arr, obj, field, items, dict}
use retail_order_sync_hub.Access.{index}
use retail_order_sync_hub.Services.{Runtime}
use retail_order_sync_hub.Model.{Order, WebhookLog, OutboxEntry, Status, eq_status, status_eq, Db}
use retail_order_sync_hub.World.{World}
use retail_order_sync_hub.Exec.{ok}
use retail_order_sync_hub.Mcp.Queries.{order_dict, entry_dict, event_dict, event_rows}
use retail_order_sync_hub.Mcp.Server.{iso_pos}

-- The id at the marketplace, "" for none.
abbrev or_empty : Option String → String
or_empty none = ""
or_empty (some id) = id

abbrev pub marketplace_id : Order → String
marketplace_id row = or_empty row.marketplace_order_id

-- A dict with a time, a layer and a name of an event in front.
abbrev pub moment : String → String → String → Value → Value
moment at layer event (obj fs) =
    obj (field "at" (str at) (field "layer" (str layer) (field "event" (str event) fs)))
moment at layer event v = v

-- The events that the id at the marketplace selects, if there is one.
abbrev pub is_event_of : String → WebhookLog → Bool
is_event_of id r = not (id == "") && r.event_id == id

-- The entries of the outbox whose aggregate is the internal id, oldest first.
abbrev pub entries_of : Order → Db → List OutboxEntry
entries_of row db =
    order_by (λ (r : OutboxEntry). r.created_at)
      (select (λ (r : OutboxEntry). r.aggregate_id == decimal row.internal_id) db.outbox)

abbrev pub is_dead : OutboxEntry → Bool
is_dead r = eq_status r.status Status.dlq

module _ (rt : Runtime) (iso : ℤ → String) where
  -- The events of the query.
  abbrev pub traced_events : Order → Db → List WebhookLog
  traced_events row db =
      if marketplace_id row == "" then [] else event_rows (some (marketplace_id row)) none db

  -- The events, the entries of the outbox and the order, each with its time, its layer and its name.
  abbrev pub traced : Order → List WebhookLog → Db → List Value
  traced row events db =
      map
        (λ (r : WebhookLog).
          moment (iso (pos r.received_at)) "bronze" "webhook_received"
            (event_dict (iso_pos rt iso) r))
        events
      ++ map
          (λ (r : OutboxEntry).
            moment (iso (pos r.created_at)) "outbox" "outbox_enqueued"
              (entry_dict (iso_pos rt iso) r))
          (entries_of row db)
      ++ moment (iso (pos row.created_at)) "silver" "order_created"
          (order_dict (iso_pos rt iso) row)
        ∷ []

  -- The report, with the dicts of the dead letters.
  abbrev pub traced_report : Order → List Value → Db → Value
  traced_report row timeline db = dict (
      ("order", order_dict (iso_pos rt iso) row)
      ∷ ("timeline", arr (items timeline))
      ∷ (
        "dlq_entries",
        arr (items (map (entry_dict (iso_pos rt iso)) (select is_dead (entries_of row db)))),
      )
      ∷ [])

  received_at :
      (r : WebhookLog)
      → index (event_dict (iso_pos rt iso) r) "received_at" ≡ ok (str (iso (pos r.received_at)))
  unfolding event_dict
  received_at r = refl
