-- ===== src/Webhook/Receiver/Answers.antt =====
-- The answers of the receiver on each branch, and what each leaves unchanged.
use retail_order_sync_hub.Base.{
  ℕ, String, ◌==◌, string_eq, is_ascii, Bool, true, false, [], ◌∷◌, ◌≡◌, refl, ◌∙◌, inl, inr,
  Bool-cases, any,
}
use retail_order_sync_hub.Json.{Value}
use retail_order_sync_hub.Config.{Settings}
use retail_order_sync_hub.Services.{Runtime, Bytes, Publisher, outside}
use retail_order_sync_hub.Signing.{sign_payload, verify_signature}
use retail_order_sync_hub.World.{World, count}
use retail_order_sync_hub.Exec.{
  Exc, type_error, Result, ok, err, Exec, pure, raise, ◌>>=◌, Result-cases,
}
use retail_order_sync_hub.Webhook.Store.{is_event}
use retail_order_sync_hub.Webhook.Store.Dedup.{
  IsSeen, IsUnseen, new_result, new_world, record_event_seen, record_event_new,
}
use retail_order_sync_hub.Webhook.Receiver.{
  Request, Response, is_malformed, detail, received, parse, envelope, announce, accept,
  signature_of, handle, answer,
}

module _ {E : Type 0} (rt : Runtime) (publisher : Publisher E) (settings : Settings)
    (iso : ℕ → String) (source signature_name secret : String)
    (event_id_of : Value → Result String) where
  -- The handler of the endpoint.
  abbrev pub served : Request → Exec (World E) Response
  served = handle rt publisher settings iso source signature_name secret event_id_of

  abbrev pub parsed : Bytes → Result (Value × String)
  parsed = parse rt publisher settings iso source signature_name secret event_id_of

  abbrev sent_signature : Request → String
  sent_signature r =
      signature_of rt publisher settings iso source signature_name secret event_id_of
        (r.header signature_name)

  -- The request carries the signature of its body.
  abbrev pub is_signed : Request → Bool
  is_signed r = sign_payload rt secret r.body == sent_signature r

  -- The signature that was sent, whatever it is, can be compared with a digest.
  abbrev is_readable : Request → Bool
  is_readable r = is_ascii (sent_signature r)

  handle_signed :
      (request : Request) (w : World E)
      → is_signed request ≡ true
      → served request w
        ≡ answer rt publisher settings iso source signature_name secret event_id_of request.headers
            (parsed request.body)
            w
  unfolding handle verify_signature
  handle_signed request w h = rw h

  handle_unsigned :
      (request : Request) (w : World E)
      → is_signed request ≡ false
      → is_readable request ≡ true
      → served request w ≡ (ok (detail 401 "invalid signature"), w)
  unfolding handle verify_signature pure
  handle_unsigned request w h readable = rw h (rw readable refl)

  abbrev not_ascii : Exc
  not_ascii = type_error "comparing strings with non-ASCII characters is not supported"

  handle_unreadable :
      (request : Request) (w : World E)
      → is_signed request ≡ false
      → is_readable request ≡ false
      → served request w ≡ (err not_ascii, w)
  unfolding handle verify_signature raise
  handle_unreadable request w h unreadable = rw h (rw unreadable refl)

  pub handle_malformed :
      (request : Request) (w : World E) (e : Exc)
      → is_signed request ≡ true
      → parsed request.body ≡ err e
      → is_malformed e ≡ true
      → served request w ≡ (ok (detail 400 "malformed payload"), w)
  handle_malformed request w e signed bad known =
      handle_signed request w signed ∙ rw bad (rw known (unfold pure in refl))

  pub handle_raises :
      (request : Request) (w : World E) (e : Exc)
      → is_signed request ≡ true
      → parsed request.body ≡ err e
      → is_malformed e ≡ false
      → served request w ≡ (err e, w)
  handle_raises request w e signed bad unknown =
      handle_signed request w signed ∙ rw bad (rw unknown (unfold raise in refl))

  -- The world in which a duplicate has been counted, and that in which a new event has been.
  abbrev pub counted : String → World E → World E
  counted status = count "webhook_received" (("source", source) ∷ ("dedup_status", status) ∷ [])

  pub handle_duplicate :
      (request : Request) (payload : Value) (event_id : String) (w : World E)
      → is_signed request ≡ true
      → parsed request.body ≡ ok (payload, event_id)
      → IsSeen source event_id w.db
      → served request w ≡ (ok (received event_id true), counted "duplicate" w)
  handle_duplicate request payload event_id w signed parses seen =
      handle_signed request w signed
      ∙ rw parses (
          unfold accept announce ◌>>=◌ in
          rw (record_event_seen source event_id payload request.headers w seen))

  -- The publication of a new event, after it has been recorded and counted.
  abbrev pub recorded_world : Request → Value → String → World E → World E
  recorded_world request payload event_id w =
      counted "new" (new_world source event_id payload request.headers w)

  abbrev pub publish_event : Request → Value → String → World E → Result String × E
  publish_event request payload event_id w =
      publisher.publish settings.pubsub_topic_events
        (rt.dumps (
          envelope rt publisher settings iso source signature_name secret event_id_of event_id
            (new_result source event_id payload request.headers w).raw_ref w.clock))
        (("source", source) ∷ ("event_id", event_id) ∷ [])
        (recorded_world request payload event_id w).env

  -- The world that a publication leaves, whether the broker accepts or refuses.
  abbrev pub published_world : Request → Value → String → World E → World E
  published_world request payload event_id w = record (recorded_world request payload event_id w) {
    env = (publish_event request payload event_id w).1;
  }

  handle_accepted :
      (request : Request) (payload : Value) (event_id id : String) (w : World E)
      → is_signed request ≡ true
      → parsed request.body ≡ ok (payload, event_id)
      → IsUnseen source event_id w.db
      → (publish_event request payload event_id w).0 ≡ ok id
      → served request w
        ≡ (ok (received event_id false), published_world request payload event_id w)
  handle_accepted request payload event_id id w signed parses new sent =
      handle_signed request w signed
      ∙ rw parses (
          unfold accept announce outside ◌>>=◌ in
          rw (record_event_new source event_id payload request.headers w new) (rw sent))

  pub handle_refused :
      (request : Request) (payload : Value) (event_id : String) (x : Exc) (w : World E)
      → is_signed request ≡ true
      → parsed request.body ≡ ok (payload, event_id)
      → IsUnseen source event_id w.db
      → (publish_event request payload event_id w).0 ≡ err x
      → served request w ≡ (err x, published_world request payload event_id w)
  handle_refused request payload event_id x w signed parses new refused =
      handle_signed request w signed
      ∙ rw parses (
          unfold accept announce outside ◌>>=◌ in
          rw (record_event_new source event_id payload request.headers w new) (rw refused))

  -- What the receiver answers to a request in a world, and the world that it leaves: 401 for a
  -- wrong signature in ASCII, an exception for one that is not in ASCII, 400 for a body that does
  -- not parse or has no event id, an exception for one that the handler does not expect, and 200
  -- otherwise; of these, a duplicate is only counted, and a new event is recorded, counted and
  -- published, with the broker's exception if it refuses.
  pub data Answer (request : Request) (w : World E) (r : Result Response × World E) : Type 0 where
    unsigned :
        is_signed request ≡ false
        → is_readable request ≡ true
        → r ≡ (ok (detail 401 "invalid signature"), w)
        → Answer request w r
    unreadable :
        is_signed request ≡ false
        → is_readable request ≡ false
        → r ≡ (err not_ascii, w)
        → Answer request w r
    malformed :
        (e : Exc)
        → is_signed request ≡ true
        → parsed request.body ≡ err e
        → is_malformed e ≡ true
        → r ≡ (ok (detail 400 "malformed payload"), w)
        → Answer request w r
    unexpected :
        (e : Exc)
        → is_signed request ≡ true
        → parsed request.body ≡ err e
        → is_malformed e ≡ false
        → r ≡ (err e, w)
        → Answer request w r
    duplicate :
        (payload : Value) (event_id : String)
        → is_signed request ≡ true
        → parsed request.body ≡ ok (payload, event_id)
        → IsSeen source event_id w.db
        → r ≡ (ok (received event_id true), counted "duplicate" w)
        → Answer request w r
    accepted :
        (payload : Value) (event_id id : String)
        → is_signed request ≡ true
        → parsed request.body ≡ ok (payload, event_id)
        → IsUnseen source event_id w.db
        → (publish_event request payload event_id w).0 ≡ ok id
        → r ≡ (ok (received event_id false), published_world request payload event_id w)
        → Answer request w r
    refused :
        (payload : Value) (event_id : String) (x : Exc)
        → is_signed request ≡ true
        → parsed request.body ≡ ok (payload, event_id)
        → IsUnseen source event_id w.db
        → (publish_event request payload event_id w).0 ≡ err x
        → r ≡ (err x, published_world request payload event_id w)
        → Answer request w r

  handle_parsed :
      (request : Request) (payload : Value) (event_id : String) (w : World E)
      → is_signed request ≡ true
      → parsed request.body ≡ ok (payload, event_id)
      → Answer request w (served request w)
  handle_parsed request payload event_id w s p =
      elim (Bool-cases (any (is_event source event_id) w.db.webhook_dedup)) [
        | inl seen ↦
            Answer.duplicate payload event_id s p seen
              (handle_duplicate request payload event_id w s p seen)
        | inr new ↦ elim (Result-cases (publish_event request payload event_id w).0) [
          | inl (id, sent) ↦
              Answer.accepted payload event_id id s p new sent
                (handle_accepted request payload event_id id w s p new sent)
          | inr (x, lost) ↦
              Answer.refused payload event_id x s p new lost
                (handle_refused request payload event_id x w s p new lost)
        ]
      ]

  handle_unparsed :
      (request : Request) (e : Exc) (w : World E)
      → is_signed request ≡ true
      → parsed request.body ≡ err e
      → Answer request w (served request w)
  handle_unparsed request e w s p = elim (Bool-cases (is_malformed e)) [
    | inl known ↦ Answer.malformed e s p known (handle_malformed request w e s p known)
    | inr other ↦ Answer.unexpected e s p other (handle_raises request w e s p other)
  ]

  -- The handler gives to every request in every world one of seven answers. With another signature
  -- than that of its body it is answered 401 if the signature is in ASCII, and otherwise the
  -- `TypeError` of the comparison leaves the handler; with the signature of a malformed body it is
  -- answered 400, and another exception of the parsing leaves the handler; all four change nothing.
  -- A seen event is answered as a duplicate, and only counted. A new event is recorded, counted and
  -- published, and answered as new; if the broker refuses it, the exception leaves the handler and
  -- the record stays.
  pub handle-Answer : (request : Request) (w : World E) → Answer request w (served request w)
  handle-Answer request w = elim (Bool-cases (is_signed request)) [
    | inl s ↦ elim (Result-cases (parsed request.body)) [
      | inl ((payload, event_id), p) ↦ handle_parsed request payload event_id w s p
      | inr (e, p) ↦ handle_unparsed request e w s p
    ]
    | inr bad ↦ elim (Bool-cases (is_readable request)) [
      | inl ascii ↦ Answer.unsigned bad ascii (handle_unsigned request w bad ascii)
      | inr other ↦ Answer.unreadable bad other (handle_unreadable request w bad other)
    ]
  ]
