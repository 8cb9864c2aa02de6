-- ===== src/Subscriber/Handler.antt =====
-- src/subscriber/handler.py, and the loop of src/subscriber/__main__.py
pub mod Acknowledged
pub mod Lineage
pub mod Ids
use retail_order_sync_hub.Base.{
  ℤ, String, ◌==◌, string_eq, Bool, true, false, ◌&&◌, Option, none, some, List, [], ◌∷◌, find,
  if◌then◌else◌,
}
use retail_order_sync_hub.Access.{get, text_or}
use retail_order_sync_hub.Json.{Value, null, str, dict}
use retail_order_sync_hub.Config.{Settings}
use retail_order_sync_hub.Services.{Runtime, Bytes, Publisher, outside}
use retail_order_sync_hub.Odoo.{Odoo}
use retail_order_sync_hub.Reconciler.{reconcile_to_odoo}
use retail_order_sync_hub.Model.{WebhookLog}
use retail_order_sync_hub.World.{World, count}
use retail_order_sync_hub.World.Session.{session_scope}
use retail_order_sync_hub.Exec.{
  Exc, poison_error, Result, ok, err, Exec, pure, raise, lift, gets, modify, try, bind_result,
  ◌>>=◌, ◌>>◌,
}
use retail_order_sync_hub.Subscriber.Normalize.{normalize_event}
use retail_order_sync_hub.Subscriber.Silver.{upsert_order}

pub data Handled : Type 0 where
  processed poison : Handled

-- The text that the envelope's event id is compared as: none for a missing one and for `None`, and
-- for another value what the driver binds it as, or the exception of the database.
unfoldable pub bound_id : Runtime → Option Value → Result (Option String)
bound_id rt none = ok none
bound_id rt (some null) = ok none
bound_id rt (some (str id)) = ok (some id)
bound_id rt (some v) = bind_result (rt.bound_text v) λ id. ok (some id)

-- The bronze row of the envelope: the first whose event id and source are those of the envelope. A
-- comparison with `None` finds nothing.
abbrev is_event_id : Option String → String → Bool
is_event_id none event_id = false
is_event_id (some id) event_id = event_id == id

unfoldable pub is_bronze : Option String → String → WebhookLog → Bool
is_bronze id source row = is_event_id id row.event_id && row.source == source

-- `Session.scalar` gives `None` for a JSON null too.
abbrev pub body_of : Option WebhookLog → Option Value
body_of none = none
body_of (some row) = not_null row.raw_body
  where
    not_null : Value → Option Value
    not_null null = none
    not_null v = some v

module _ {E : Type 0} (rt : Runtime) (settings : Settings) (publisher : Publisher E)
    (odoo : Option (Odoo E)) where
  -- `_to_dlq`
  unfoldable pub to_dlq : Value → String → Exec (World E) (Unit {0})
  unfolding outside
  to_dlq envelope reason = do
    outside (
        publisher.publish settings.pubsub_topic_dlq
          (rt.dumps (dict (("reason", str reason) ∷ ("envelope", envelope) ∷ [])))
          (("reason", "poison") ∷ []))
    pure tt

  -- The write to the ERP, of a delivery of an order that has an id there.
  abbrev pub deliver : Option (Odoo E) → Option ℤ → String → Exec (World E) (Unit {0})
  unfolding outside
  deliver (some erp) (some id) status =
      if status == "delivered"
      then (outside (reconcile_to_odoo erp id status) >> pure tt)
      else pure tt
  deliver _ _ status = pure tt

  -- The body of the `try`.
  unfoldable pub process_event : String → Value → Exec (World E) Handled
  unfolding count deliver
  process_event source raw = do
    normalized ← lift (normalize_event rt source raw)
    upsert_order normalized
    modify (count "silver_orders_total" (("marketplace", normalized.marketplace) ∷ []))
    deliver odoo normalized.odoo_order_id normalized.status
    pure processed

  -- except PoisonError
  abbrev pub poison_clause : Value → Exc → Exec (World E) Handled
  poison_clause envelope (poison_error reason) = to_dlq envelope reason >> pure poison
  poison_clause envelope e = raise e

  unfoldable pub handle_body : Value → String → Option Value → Exec (World E) Handled
  unfolding process_event
  handle_body envelope source none = to_dlq envelope "bronze row not found" >> pure poison
  handle_body envelope source (some raw) = try (process_event source raw) (poison_clause envelope)

  unfoldable pub handle_envelope : Value → Exec (World E) Handled
  unfolding handle_body is_bronze
  handle_envelope envelope = do
    event_id ← lift (get envelope "event_id")
    source ← lift (get envelope "source")
    id ← lift (bound_id rt event_id)
    row ← gets (λ (w : World E). find (is_bronze id (text_or rt "" source)) w.db.webhook_log)
    handle_body envelope (text_or rt "" source) (body_of row)

  -- One message of the loop: whether it is to be acknowledged. Any exception is logged and passed over.
  unfoldable pub handle_message : Bytes → World E → Bool × World E
  unfolding handle_envelope
  handle_message message w =
      let (r, w') =
        (do envelope ← lift (rt.loads message); session_scope (handle_envelope envelope)) w in
      (is_ok r, w')
    where
      is_ok : Result Handled → Bool
      is_ok (ok h) = true
      is_ok (err e) = false

  -- The messages of one pull, with their ids: the ids to acknowledge.
  unfoldable pub handle_pull : List (Bytes × String) → World E → List String × World E
  unfolding handle_message
  handle_pull [] w = ([], w)
  handle_pull ((message, ack_id) ∷ rest) w =
      let (handled, w') = handle_message message w in
      let (ack_ids, w'') = handle_pull rest w' in
      (if handled then ack_id ∷ ack_ids else ack_ids, w'')
