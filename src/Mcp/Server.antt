-- ===== src/Mcp/Server.antt =====
-- src/mcp_server/server.py: the read tools. `iso` is `datetime.isoformat`, of a time that may lie before
-- the epoch.
pub mod ReadOnly
pub mod Newest
pub mod Window
pub mod Timeline
mod Tests
use retail_order_sync_hub.Base.{
  ℕ, suc, ◌+◌, ◌-◌, ◌*◌, ◌<◌, ℤ, pos, negsuc, String, ◌==◌, string_eq, Bool, true, false, Option,
  none, some, List, [], ◌∷◌, ◌++◌, map, length, cat, select, int_of, leb, ltb, sort_by, text_leb,
  if◌then◌else◌,
}
use Prim.Native.String.{[], ◌∷◌}
use retail_order_sync_hub.Json.{
  Value, Fields, null, bool, int, float, str, arr, obj, field, items, dict, opt_str, truthy,
}
use retail_order_sync_hub.Access.{get, index}
use retail_order_sync_hub.Config.{Settings}
use retail_order_sync_hub.Services.{Runtime, outside, str_value}
use retail_order_sync_hub.Model.{Db}
use retail_order_sync_hub.World.{World}
use retail_order_sync_hub.Exec.{
  other, Result, ok, err, bind_result, Exec, pure, raise, lift, gets, ◌>>=◌, ◌>>◌,
}
use retail_order_sync_hub.Mcp.Auth.{require_scope}
use retail_order_sync_hub.Mcp.WriteTools.{Reply, text, json}
use retail_order_sync_hub.Mcp.Queries.{
  get_order_by_id, get_outbox_entries, get_webhook_events, find_failed_orders, count_dlq_entries,
  Warehouse, get_bq_sla_metrics,
}

abbrev pub order_missing : String → Reply
order_missing order_id = text (cat ("Order '" ∷ order_id ∷ "' not found." ∷ []))

-- xs[-1] and xs[:-1] of a text that is not empty
unfoldable pub last_char : String → String
last_char [] = ""
last_char (c ∷ []) = c ∷ ""
last_char (c ∷ d ∷ s) = last_char (d ∷ s)

unfoldable pub before_last : String → String
before_last [] = ""
before_last (c ∷ []) = ""
before_last (c ∷ d ∷ s) = c ∷ before_last (d ∷ s)

abbrev pub hour : ℕ
hour = 3600000000

abbrev pub day : ℕ
day = 86400000000

-- The units of `delta_map`.
abbrev pub unit_of : String → Option ℕ
unit_of unit = if unit == "h" then some hour else if unit == "d" then some day else none

-- timedelta(days=value) raises beyond this, whatever the unit is: both values of the map are computed.
abbrev pub too_large : ℤ → Bool
too_large (pos n) = ltb 999999999 n
too_large (negsuc n) = ltb 999999998 n

-- now - delta
abbrev pub back : ℕ → ℤ → ℕ → ℤ
back now (pos n) unit =
    if leb (n * unit) now then pos (now - n * unit) else negsuc (n * unit - now - 1)
back now (negsuc n) unit = pos (now + suc n * unit)

-- From `datetime.min` to `datetime.max`.
abbrev pub in_range : ℤ → Bool
in_range (pos t) = ltb t 253402300800000000
in_range (negsuc t) = ltb t 62135596800000000

-- `{"at": …, "layer": …, "event": …, **v}`, of a dict that has none of the three keys.
abbrev pub stamped : String → String → Value → Value → Value
stamped layer event (obj fs) at =
    obj (field "at" at (field "layer" (str layer) (field "event" (str event) fs)))
stamped layer event v at = v

unfoldable pub stamp : String → String → String → Value → Result Value
stamp layer event key v = bind_result (index v key) λ at. ok (stamped layer event v at)

unfoldable pub stamp_all : String → String → String → List Value → Result (List Value)
unfolding stamp
stamp_all layer event key [] = ok []
stamp_all layer event key (v ∷ vs) =
    bind_result (stamp layer event key v)
      λ e. bind_result (stamp_all layer event key vs) λ es. ok (e ∷ es)

-- A look-up in a dict that has the key.
abbrev pub value_at : String → Value → Value
value_at key v = or_null (index v key)
  where
    or_null : Result Value → Value
    or_null (ok u) = u
    or_null (err e) = null

module _ (rt : Runtime) where
  -- timeline.sort(key=lambda e: str(e["at"]))
  abbrev pub earlier : Value → Value → Bool
  earlier a b = text_leb (str_value rt (value_at "at" a)) (str_value rt (value_at "at" b))

-- e["status"] == "dlq"
unfoldable pub is_dlq_dict : Value → Bool
is_dlq_dict e = is_text (value_at "status" e)
  where
    is_text : Value → Bool
    is_text (str s) = s == "dlq"
    is_text _ = false

-- order.get("marketplace_order_id") or "": a text or null
abbrev pub id_text : Option Value → String
id_text (some (str s)) = s
id_text _ = ""

module _ (rt : Runtime) (iso : ℤ → String) where
  abbrev pub iso_pos : ℕ → String
  iso_pos at = iso (pos at)

  abbrev pub trace_report : Value → List Value → List Value → Value
  trace_report order timeline dlq_entries = dict (
      ("order", order)
      ∷ ("timeline", arr (items timeline))
      ∷ ("dlq_entries", arr (items dlq_entries))
      ∷ [])

  -- webhooks = get_webhook_events(event_id=mp_order_id) if mp_order_id else []
  unfoldable pub webhooks_of : String → Db → List Value
  webhooks_of mp_order_id db =
      if mp_order_id == "" then [] else get_webhook_events iso_pos (some mp_order_id) none db

  -- What follows the look-up of the order.
  unfoldable pub trace_found : Value → Db → Result Value
  unfolding stamp_all webhooks_of is_dlq_dict
  trace_found order db = bind_result (get order "marketplace_order_id") λ mp_order_id.
      bind_result (index order "internal_id") λ internal_id.
        let outbox = get_outbox_entries iso_pos (str_value rt internal_id) db in
        bind_result
          (stamp_all "bronze" "webhook_received" "received_at"
            (webhooks_of (id_text mp_order_id) db))
          λ bronze. bind_result (stamp_all "outbox" "outbox_enqueued" "created_at" outbox) λ queued.
            bind_result (stamp "silver" "order_created" "created_at" order) λ silver. ok (
              trace_report order (sort_by (earlier rt) (bronze ++ queued ++ silver ∷ []))
                (select is_dlq_dict outbox))

  unfoldable pub failed_report : ℤ → Option String → Db → Value
  failed_report since_dt marketplace db =
      let orders = find_failed_orders iso_pos since_dt marketplace db in
      dict (
        ("since", str (iso since_dt))
        ∷ ("marketplace", opt_str marketplace)
        ∷ ("count", int (pos (length orders)))
        ∷ ("orders", arr (items orders))
        ∷ [])

module _ {E : Type 0} (rt : Runtime) (iso : ℤ → String) (listing : List String → String)
    (settings : Settings) (warehouse : Warehouse E) where
  abbrev pub status_reply : String → Value → Reply
  status_reply order_id null = order_missing order_id
  status_reply order_id order = json order

  -- `_get_order_status`
  unfoldable pub get_order_status : String → String → Exec (World E) Reply
  get_order_status order_id api_token = do
    lift (require_scope listing settings api_token "orders.read")
    order ← gets (λ (w : World E). get_order_by_id (iso_pos rt iso) order_id w.db)
    pure (status_reply order_id order)

  abbrev trace_reply : String → Value → Db → Result Reply
  unfolding trace_found
  trace_reply order_id null db = ok (order_missing order_id)
  trace_reply order_id order db =
      bind_result (trace_found rt iso order db) λ report. ok (json report)

  -- `_trace_order`
  unfoldable pub trace_order : String → String → Exec (World E) Reply
  unfolding trace_reply
  trace_order order_id api_token = do
    lift (require_scope listing settings api_token "orders.read")
    db ← gets (λ (w : World E). w.db)
    lift (trace_reply order_id (get_order_by_id (iso_pos rt iso) order_id db) db)

  depth_report : Exec (World E) Reply
  depth_report = gets λ (w : World E). json (
      dict (
        ("dlq_depth", int (pos (count_dlq_entries w.db)))
        ∷ ("checked_at", str (iso (pos w.clock)))
        ∷ []))

  -- `_get_dlq_depth`
  unfoldable pub get_dlq_depth : String → Exec (World E) Reply
  unfolding depth_report
  get_dlq_depth api_token = do
    lift (require_scope listing settings api_token "metrics.read")
    depth_report

  abbrev pub sla_reply : String → String → List Value → Reply
  sla_reply marketplace window [] =
      text (cat ("No SLA data found for marketplace '" ∷ marketplace ∷ "'." ∷ []))
  sla_reply marketplace window (row ∷ rows) = json (
      dict (
        ("marketplace", str marketplace)
        ∷ ("window", str window)
        ∷ ("metrics", arr (items (row ∷ rows)))
        ∷ []))

  -- `_get_sla_metrics`
  unfoldable pub get_sla_metrics : String → String → String → Exec (World E) Reply
  unfolding outside
  get_sla_metrics marketplace window api_token = do
    lift (require_scope listing settings api_token "metrics.read")
    rows ← outside (get_bq_sla_metrics settings warehouse marketplace window)
    pure (sla_reply marketplace window rows)

  failed_in : ℤ → Option String → Exec (World E) Reply
  unfolding failed_report
  failed_in since_dt marketplace =
      if in_range since_dt
      then gets (λ (w : World E). json (failed_report rt iso since_dt marketplace w.db))
      else raise (other "date value out of range")

  failed_unit : String → Option String → ℤ → Option ℕ → Exec (World E) Reply
  unfolding failed_in last_char
  failed_unit since marketplace value none = pure (
      text (
        cat (
          "Invalid unit '"
          ∷ last_char since
          ∷ "' in since='"
          ∷ since
          ∷ "'. Use 'h' (hours) or 'd' (days)."
          ∷ [])))
  failed_unit since marketplace value (some unit) =
      gets (λ (w : World E). back w.clock value unit) >>= λ since_dt. failed_in since_dt marketplace

  failed_value : String → Option String → Option ℤ → Exec (World E) Reply
  unfolding failed_unit
  failed_value since marketplace none =
      pure (text (cat ("Invalid 'since' format '" ∷ since ∷ "'. Use e.g. '24h', '7d', '1h'." ∷ [])))
  failed_value since marketplace (some value) =
      if too_large value
      then raise (other "days must have magnitude <= 999999999")
      else failed_unit since marketplace value (unit_of (last_char since))

  -- `since[-1]` of an empty text is an `IndexError`
  failed_since : String → Option String → Exec (World E) Reply
  unfolding failed_value before_last
  failed_since since marketplace =
      if since == ""
      then raise (other "string index out of range")
      else failed_value since marketplace (int_of (before_last since))

  -- `_find_failed_orders`
  unfoldable pub find_failed_tool : String → Option String → String → Exec (World E) Reply
  unfolding failed_since
  find_failed_tool since marketplace api_token = do
    lift (require_scope listing settings api_token "orders.read")
    failed_since since marketplace
