-- ===== src/Webhook/Receiver.antt =====
-- `create_app` of src/webhook_receiver/app.py: the handler that the two endpoints share.
pub mod Answers
pub mod Delivery
pub mod NotADict
pub mod Appends
use retail_order_sync_hub.Base.{
  ℕ, String, Bool, true, false, not, Option, none, some, [], ◌∷◌, cat, if◌then◌else◌,
}
use retail_order_sync_hub.Json.{Value, bool, str, obj, dict, field_of, truthy}
use retail_order_sync_hub.Access.{get, index, text_or}
use retail_order_sync_hub.Config.{Settings}
use retail_order_sync_hub.Services.{Runtime, Bytes, str_value, Publisher, outside}
use retail_order_sync_hub.Signing.{verify_signature, signature_header}
use retail_order_sync_hub.World.{World, count}
use retail_order_sync_hub.Exec.{
  Exc, json_decode_error, key_error, type_error, attribute_error, Result, ok, err, bind_result,
  Exec, pure, raise, modify, ◌>>=◌, ◌>>◌,
}
use retail_order_sync_hub.Webhook.Store.{RecordResult, record_event}

-- `header` is the case-insensitive look-up of the framework, `headers` the dict of all of them.
pub record Request : Type 0 where
  pub body : Bytes
  pub header : String → Option String
  pub headers : Value

pub record Response : Type 0 where
  pub status_code : ℕ
  pub content : Value

module _ (rt : Runtime) where
  -- `_ml_event_id`, once the body is a dict
  abbrev ml_id : Option Value → Option Value → Option Value → String
  ml_id (some id) resource sent =
      if truthy id
      then str_value rt id
      else cat (text_or rt "" resource ∷ ":" ∷ text_or rt "" sent ∷ [])
  ml_id none resource sent = cat (text_or rt "" resource ∷ ":" ∷ text_or rt "" sent ∷ [])

  unfoldable pub ml_event_id : Value → Result String
  ml_event_id body = bind_result (get body "_id") λ id.
      bind_result (get body "resource")
        λ resource. bind_result (get body "sent") λ sent. ok (ml_id id resource sent)

  unfoldable pub paris_event_id : Value → Result String
  paris_event_id body = bind_result (index body "event_id") λ id. ok (str_value rt id)

-- The exceptions that the handler answers with 400.
abbrev pub is_malformed : Exc → Bool
is_malformed (json_decode_error t) = true
is_malformed (key_error k) = true
is_malformed (type_error t) = true
is_malformed _ = false

abbrev pub detail : ℕ → String → Response
detail code text = record { status_code = code; content = dict (("detail", str text) ∷ []) }

abbrev pub received : String → Bool → Response
received event_id duplicate = record {
  status_code = 200;
  content = dict (("event_id", str event_id) ∷ ("duplicate", bool duplicate) ∷ []);
}

module _ {E : Type 0} (rt : Runtime) (publisher : Publisher E) (settings : Settings)
    (iso : ℕ → String) (source signature_name secret : String)
    (event_id_of : Value → Result String) where
  -- The payload and its event id: the body of the `try`.
  unfoldable pub parse : Bytes → Result (Value × String)
  parse raw =
      bind_result (rt.loads raw)
        λ payload. bind_result (event_id_of payload) λ event_id. ok (payload, event_id)

  -- `_envelope_bytes`, before it is encoded; `iso` is `datetime.isoformat`
  abbrev pub envelope : String → String → ℕ → Value
  envelope event_id raw_ref now = dict (
      ("event_id", str event_id)
      ∷ ("source", str source)
      ∷ ("received_at", str (iso now))
      ∷ ("raw_ref", str raw_ref)
      ∷ [])

  unfoldable pub announce : String → RecordResult → Exec (World E) (Unit {0})
  unfolding outside
  announce event_id result w =
      if result.is_new
      then (do
        outside (
            publisher.publish settings.pubsub_topic_events
              (rt.dumps (envelope event_id result.raw_ref w.clock))
              (("source", source) ∷ ("event_id", event_id) ∷ []))
        pure tt)
          w
      else (ok tt, w)

  -- What follows the `try`.
  unfoldable pub accept : Value → Value × String → Exec (World E) Response
  unfolding count
  accept headers (payload, event_id) = do
    result ← record_event source event_id payload headers
    modify (
        count "webhook_received" (
          ("source", source) ∷ ("dedup_status", if result.is_new then "new" else "duplicate") ∷ []))
    announce event_id result
    pure (received event_id (not result.is_new))

  abbrev answer : Value → Result (Value × String) → Exec (World E) Response
  answer headers (ok parsed) = accept headers parsed
  answer headers (err e) = if is_malformed e then pure (detail 400 "malformed payload") else raise e

  abbrev signature_of : Option String → String
  signature_of none = ""
  signature_of (some s) = s

  -- What follows the comparison of the signature.
  abbrev verified : Request → Result Bool → Exec (World E) Response
  verified request (ok true) = answer request.headers (parse request.body)
  verified request (ok false) = pure (detail 401 "invalid signature")
  verified request (err e) = raise e

  unfoldable pub handle : Request → Exec (World E) Response
  unfolding parse
  handle request =
      verified request
        (verify_signature rt secret request.body (signature_of (request.header signature_name)))

module _ {E : Type 0} (rt : Runtime) (publisher : Publisher E) (settings : Settings)
    (iso : ℕ → String) where
  -- POST /webhooks/mercadolibre
  unfoldable pub mercadolibre : Request → Exec (World E) Response
  mercadolibre =
      handle rt publisher settings iso "mercadolibre" "X-Signature" settings.ml_webhook_secret
        (ml_event_id rt)

  -- POST /webhooks/paris
  unfoldable pub paris : Request → Exec (World E) Response
  paris =
      handle rt publisher settings iso "paris" signature_header settings.paris_api_secret
        (paris_event_id rt)
