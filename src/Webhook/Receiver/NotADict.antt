-- ===== src/Webhook/Receiver/NotADict.antt =====
-- A signed body that is JSON and not an object: the two endpoints treat it differently.
use retail_order_sync_hub.Base.{ℕ, String, true, ◌≡◌, refl}
use retail_order_sync_hub.Json.{Value, null, obj}
use retail_order_sync_hub.Config.{Settings}
use retail_order_sync_hub.Services.{Runtime, Publisher}
use retail_order_sync_hub.Signing.{signature_header}
use retail_order_sync_hub.World.{World}
use retail_order_sync_hub.Exec.{attribute_error, type_error, ok, err, bind_result}
use retail_order_sync_hub.Webhook.Receiver.{
  Request, detail, parse, ml_event_id, paris_event_id, mercadolibre, paris,
}
use retail_order_sync_hub.Webhook.Receiver.Answers.{is_signed, handle_malformed, handle_raises}

abbrev pub IsNotDict : Value → Type 0
IsNotDict (obj fs) = ⊥
IsNotDict _ = Unit

ml_event_id_raises :
    (rt : Runtime) (v : Value)
    → IsNotDict v
    → ml_event_id rt v ≡ err (attribute_error "object has no attribute 'get'")
unfolding ml_event_id bind_result
ml_event_id_raises rt (obj fs) h = elim h [ ]
ml_event_id_raises rt null h = refl
ml_event_id_raises rt _ h = refl

paris_event_id_raises :
    (rt : Runtime) (v : Value)
    → IsNotDict v
    → paris_event_id rt v ≡ err (type_error "object is not subscriptable by a text")
unfolding paris_event_id bind_result
paris_event_id_raises rt (obj fs) h = elim h [ ]
paris_event_id_raises rt null h = refl
paris_event_id_raises rt _ h = refl

module _ {E : Type 0} (rt : Runtime) (publisher : Publisher E) (settings : Settings)
    (iso : ℕ → String) (request : Request) (v : Value) (reads : rt.loads request.body ≡ ok v)
    (not_dict : IsNotDict v) (w : World E) where
  -- A signed body that is JSON and not an object raises out of the MercadoLibre endpoint, and gets the
  -- answer 400 from the Paris endpoint; nothing is written.
  pub not_a_dict :
      is_signed rt publisher settings iso "mercadolibre" "X-Signature" settings.ml_webhook_secret
          (ml_event_id rt)
          request
        ≡ true
      → is_signed rt publisher settings iso "paris" signature_header settings.paris_api_secret
          (paris_event_id rt)
          request
        ≡ true
      → (mercadolibre rt publisher settings iso request w
          ≡ (err (attribute_error "object has no attribute 'get'"), w))
        × (paris rt publisher settings iso request w ≡ (ok (detail 400 "malformed payload"), w))
  unfolding mercadolibre paris
  not_a_dict ml_signed paris_signed = (
    handle_raises rt publisher settings iso "mercadolibre" "X-Signature" settings.ml_webhook_secret
        (ml_event_id rt) request w (attribute_error "object has no attribute 'get'") ml_signed
        (unfold parse bind_result in rw reads (rw (ml_event_id_raises rt v not_dict))) refl,
    handle_malformed rt publisher settings iso "paris" signature_header settings.paris_api_secret
        (paris_event_id rt) request w (type_error "object is not subscriptable by a text")
        paris_signed
        (unfold parse bind_result in rw reads (rw (paris_event_id_raises rt v not_dict))) refl,
  )
