-- ===== src/Webhook/Tests.antt =====
-- Concrete runs of the receiver.
use retail_order_sync_hub.Base.{ℕ, String, some, true, [], ◌∷◌, ◌≡◌, refl}
use retail_order_sync_hub.Json.{str, arr, nil, dict}
use retail_order_sync_hub.Config.{default_settings}
use retail_order_sync_hub.Signing.{sign_payload, signature_header}
use retail_order_sync_hub.Exec.{Result, ok, err, other, attribute_error, bind_result}
use retail_order_sync_hub.Services.{outside, str_value}
use retail_order_sync_hub.World.{World, count}
use retail_order_sync_hub.Fixtures.{runtime, publisher, world}
use retail_order_sync_hub.Webhook.Store.Dedup.{IsConsistent}
use retail_order_sync_hub.Webhook.Receiver.{
  Request, Response, detail, received, parse, ml_event_id, paris_event_id, mercadolibre, paris,
}
use retail_order_sync_hub.Webhook.Receiver.Answers.{
  Answer, served, counted, is_signed, handle-Answer,
}
use retail_order_sync_hub.Webhook.Receiver.Delivery.{
  to_mercadolibre, receive_all, redelivery, lost_event,
}
use retail_order_sync_hub.Webhook.Receiver.NotADict.{not_a_dict}

abbrev iso : ℕ → String
iso now = "now"

-- Signed with the secret of the settings.
abbrev event_request : Request
event_request = record { body = 1 ∷ []; header = λ name. some "change-me"; headers = dict [] }

abbrev list_request : Request
list_request = record { body = 1 ∷ 2 ∷ []; header = λ name. some "change-me"; headers = dict [] }

abbrev serve_paris : Request → World ℕ → Result Response × World ℕ
serve_paris =
    served runtime publisher default_settings iso "paris" signature_header "change-me"
      (paris_event_id runtime)

handle-Answer_example :
    Answer runtime publisher default_settings iso "paris" signature_header "change-me"
      (paris_event_id runtime)
      event_request
      (world 0)
      (serve_paris event_request (world 0))
handle-Answer_example =
    handle-Answer runtime publisher default_settings iso "paris" signature_header "change-me"
      (paris_event_id runtime) event_request (world 0)

empty-IsConsistent : IsConsistent (world 0).db
empty-IsConsistent = record { unique = tt; paired = refl }

request_signed :
    is_signed runtime publisher default_settings iso "paris" signature_header "change-me"
      (paris_event_id runtime)
      event_request
    ≡ true
unfolding sign_payload
request_signed = refl

request_parses :
    parse runtime publisher default_settings iso "paris" signature_header "change-me"
      (paris_event_id runtime)
      (1 ∷ [])
    ≡ ok (dict (("event_id", str "e1") ∷ []), "e1")
unfolding parse bind_result paris_event_id str_value
request_parses = refl

abbrev delivered_once : World ℕ
delivered_once =
    receive_all runtime publisher default_settings iso (to_mercadolibre list_request ∷ [])
      (serve_paris event_request (world 0)).1

redelivery_example : serve_paris event_request delivered_once ≡ (
  ok (received "e1" true),
  counted runtime publisher default_settings iso "paris" signature_header "change-me"
      (paris_event_id runtime)
      "duplicate"
      delivered_once,
)
redelivery_example =
    redelivery runtime publisher default_settings iso "paris" signature_header "change-me"
      (paris_event_id runtime) event_request (dict (("event_id", str "e1") ∷ [])) "e1"
      request_signed request_parses (to_mercadolibre list_request ∷ []) (world 0)

-- With the broker down, the event of the first delivery is lost.
abbrev failed_once : World ℕ
failed_once =
    receive_all runtime publisher default_settings iso [] (serve_paris event_request (world 2)).1

lost_event_example :
    ((serve_paris event_request (world 2)).0 ≡ err (other "broker down"))
    × ((serve_paris event_request failed_once).0 ≡ ok (received "e1" true))
    × ((serve_paris event_request failed_once).1.env ≡ failed_once.env)
unfolding count outside
lost_event_example =
    lost_event runtime publisher default_settings iso "paris" signature_header "change-me"
      (paris_event_id runtime) event_request (dict (("event_id", str "e1") ∷ [])) "e1"
      request_signed request_parses (other "broker down") [] (world 2) refl refl

ml_signed :
    is_signed runtime publisher default_settings iso "mercadolibre" "X-Signature" "change-me"
      (ml_event_id runtime)
      list_request
    ≡ true
unfolding sign_payload
ml_signed = refl

paris_signed :
    is_signed runtime publisher default_settings iso "paris" signature_header "change-me"
      (paris_event_id runtime)
      list_request
    ≡ true
unfolding sign_payload
paris_signed = refl

not_a_dict_example :
    (mercadolibre runtime publisher default_settings iso list_request (world 0)
      ≡ (err (attribute_error "object has no attribute 'get'"), world 0))
    × (paris runtime publisher default_settings iso list_request (world 0)
        ≡ (ok (detail 400 "malformed payload"), world 0))
not_a_dict_example =
    not_a_dict runtime publisher default_settings iso list_request (arr nil) refl tt (world 0)
      ml_signed paris_signed
