-- ===== src/Scripts/SendWebhooks/Accepted.antt =====
-- The webhooks of scripts/send_webhooks.py at the receiver.
use retail_order_sync_hub.Base.{
  ℕ, String, Bool, true, false, some, [], ◌∷◌, cat, ◌≡◌, refl, sym, ap, ◌∙◌, eq_refl,
}
use retail_order_sync_hub.Json.{Value, str, dict}
use retail_order_sync_hub.Config.{Settings}
use retail_order_sync_hub.Services.{Runtime, Bytes, str_value, Attributes, Publisher}
use retail_order_sync_hub.Signing.{signature_header, sign_payload}
use retail_order_sync_hub.World.{World}
use retail_order_sync_hub.Exec.{Exc, Result, ok, err, ok-injective, bind_result}
use retail_order_sync_hub.Webhook.Receiver.{
  Request, Response, received, parse, paris_event_id, paris,
}
use retail_order_sync_hub.Webhook.Receiver.Answers.{
  Answer, unsigned, unreadable, malformed, unexpected, duplicate, accepted, refused, handle-Answer,
  is_signed, parsed,
}
use retail_order_sync_hub.Scripts.SendWebhooks.{demo_webhook}

-- The broker takes every message.
pub record Takes {E : Type 0} (publisher : Publisher E) : Type 0 where
  pub taken :
      (topic : String) (message : Bytes) (attributes : Attributes) (e : E)
      → (id : String) × ((publisher.publish topic message attributes e).0 ≡ ok id)

abbrev pub demo_id : String → String
demo_id token = cat ("demo-" ∷ token ∷ [])

abbrev pub demo_event : String → Value
demo_event token = dict (("event_id", str (demo_id token)) ∷ ("status", str "delivered") ∷ [])

module _ {E : Type 0} (rt : Runtime) (publisher : Publisher E) (settings : Settings)
    (iso : ℕ → String) (dumps : Value → Bytes) where
  -- The signature and the parsing of the endpoint of Paris.
  abbrev is_signed_here : Request → Bool
  is_signed_here =
      is_signed rt publisher settings iso "paris" signature_header settings.paris_api_secret
        (paris_event_id rt)

  abbrev parsed_here : Bytes → Result (Value × String)
  parsed_here =
      parsed rt publisher settings iso "paris" signature_header settings.paris_api_secret
        (paris_event_id rt)

  never :
      {C : Type 0} {topic : String} {message : Bytes} {attributes : Attributes} {e : E} {x : Exc}
      → Takes publisher
      → (publisher.publish topic message attributes e).0 ≡ err x
      → C
  never {C} {topic} {message} {attributes} {e} takes lost =
      let (id, sent) = takes.taken topic message attributes e in absurd (cc (sent, lost))

  signed_hook :
      (token : String) (request : Request)
      → request.body ≡ (demo_webhook rt dumps settings.paris_api_secret token).body
      → request.header signature_header
        ≡ some (demo_webhook rt dumps settings.paris_api_secret token).signature
      → is_signed_here request ≡ true
  unfolding demo_webhook
  signed_hook token request body header =
      rw body (rw header (eq_refl (sign_payload rt settings.paris_api_secret _)))

  parsed_hook :
      (token : String)
      → rt.loads (dumps (demo_event token)) ≡ ok (demo_event token)
      → parsed_here (demo_webhook rt dumps settings.paris_api_secret token).body
        ≡ ok (demo_event token, demo_id token)
  unfolding demo_webhook parse bind_result paris_event_id str_value
  parsed_hook token reads = rw reads refl

  by-Answer :
      (request : Request) (w : World E) (payload : Value) (id : String)
      (r : Result Response × World E)
      → Takes publisher
      → is_signed_here request ≡ true
      → parsed_here request.body ≡ ok (payload, id)
      → Answer rt publisher settings iso "paris" signature_header settings.paris_api_secret
          (paris_event_id rt)
          request
          w
          r
      → (again : Bool) × (r.0 ≡ ok (received id again))
  by-Answer request w payload id r takes s p (unsigned n a eq) = absurd (cc)
  by-Answer request w payload id r takes s p (unreadable n a eq) = absurd (cc)
  by-Answer request w payload id r takes s p (malformed e s' p' k eq) = absurd (cc)
  by-Answer request w payload id r takes s p (unexpected e s' p' k eq) = absurd (cc)
  by-Answer request w payload id r takes s p (duplicate v i s' p' seen eq) = (
    true,
    rw eq (
        ap (λ j. ok (received j true))
          (ap (λ (q : Value × String). q.1) (ok-injective (sym p' ∙ p)))),
  )
  by-Answer request w payload id r takes s p (accepted v i m s' p' new sent eq) = (
    false,
    rw eq (
        ap (λ j. ok (received j false))
          (ap (λ (q : Value × String). q.1) (ok-injective (sym p' ∙ p)))),
  )
  by-Answer request w payload id r takes s p (refused v i x s' p' new lost eq) = never takes lost

  -- A webhook that send_webhooks makes is answered 200 by the endpoint of Paris that has its secret,
  -- with the id that the script has drawn: new, or a duplicate. The broker takes every message,
  -- and json.loads reads what json.dumps has written of the event.
  pub demo_webhook-accepted :
      (token : String) (request : Request) (w : World E)
      → rt.loads (dumps (demo_event token)) ≡ ok (demo_event token)
      → Takes publisher
      → let hook = demo_webhook rt dumps settings.paris_api_secret token in
        request.body ≡ hook.body
        → request.header hook.header_name ≡ some hook.signature
        → (again : Bool) × ((paris rt publisher settings iso request w).0
            ≡ ok (received (demo_id token) again))
  unfolding paris demo_webhook
  demo_webhook-accepted token request w reads takes body header =
      let parses : parsed_here request.body ≡ ok (demo_event token, demo_id token) =
        rw body (parsed_hook token reads) in
      by-Answer request w (demo_event token) (demo_id token) _ takes
        (signed_hook token request body header) parses
        (handle-Answer rt publisher settings iso "paris" signature_header settings.paris_api_secret
          (paris_event_id rt) request w)
