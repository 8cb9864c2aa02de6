-- ===== src/Adapters/Paris.antt =====
-- src/adapters/paris.py. The HTTP client is made and closed around a request; only its base URL and
-- headers matter here.
use retail_order_sync_hub.Base.{
  ℕ, String, Bool, ◌&&◌, Option, none, some, [], ◌∷◌, cat, decimal, leb, ltb, if◌then◌else◌,
}
use retail_order_sync_hub.Access.{index}
use retail_order_sync_hub.Json.{Value, null, str, arr, items, dict}
use retail_order_sync_hub.Config.{Settings}
use retail_order_sync_hub.Services.{Runtime, outside}
use retail_order_sync_hub.World.{World}
use retail_order_sync_hub.Exec.{
  adapter_error, validation_error, Result, ok, err, bind_result, Exec, pure, raise, lift, ◌>>=◌,
}
use retail_order_sync_hub.Adapters.Dto.{OrderDto, PushResult, Adapter, dump_items}
use retail_order_sync_hub.Adapters.Http.{
  HttpResponse, HttpRequest, Http, Seconds, request_with_retry,
}

-- A field of `PushResult`, which Pydantic reads as a text.
abbrev pub text_field : Runtime → Value → Option String → Result String
text_field rt v none = err (validation_error (rt.validation_text v))
text_field rt v (some s) = ok s

abbrev pub push_result : Runtime → Value → Value → Result PushResult
push_result rt id status = bind_result (text_field rt id (rt.str_field id)) λ i.
    bind_result (text_field rt status (rt.str_field status))
      λ s. ok (record { marketplace_order_id = i; status = s })

-- The answer of `POST /orders`.
unfoldable pub paris_result : Runtime → Value → Result PushResult
paris_result rt body =
    bind_result (index body "id")
      λ id. bind_result (index body "status") λ status. push_result rt id status

unfoldable pub paris_payload : OrderDto → Value
paris_payload order = dict (
    ("buyer", str order.buyer)
    ∷ ("items", arr (items (dump_items order.items)))
    ∷ ("external_ref", str order.external_ref)
    ∷ [])

-- 400 <= status_code < 500
abbrev pub is_permanent : ℕ → Bool
is_permanent status_code = leb 400 status_code && ltb status_code 500

-- A response whose status is 400 or more becomes an `AdapterError` with that text before its status.
abbrev pub check_status : {E : Type 0} → String → HttpResponse → Exec E HttpResponse
check_status text resp =
    if leb 400 resp.status_code
    then raise
        (adapter_error (cat (text ∷ decimal resp.status_code ∷ [])) (is_permanent resp.status_code))
    else pure resp

module _ {E : Type 0} (rt : Runtime) (http : Http E) (seconds : Seconds) (settings : Settings) where
  abbrev pub paris_http_request : String → String → Value → HttpRequest
  paris_http_request method path content = record {
    method = method;
    url = cat (settings.paris_base_url ∷ path ∷ []);
    headers = ("X-API-Key", settings.paris_api_key) ∷ [];
    content = content;
  }

  -- `_request`
  unfoldable pub paris_request : String → String → Value → Exec E HttpResponse
  paris_request method path content =
      request_with_retry http seconds settings.adapter_max_attempts
        (paris_http_request method path content)
      >>= check_status (cat ("paris " ∷ method ∷ " " ∷ path ∷ " -> " ∷ []))

  unfoldable pub paris_push : OrderDto → Exec E PushResult
  unfolding paris_request
  paris_push order = do
    resp ← paris_request "POST" "/orders" (paris_payload order)
    body ← lift resp.json
    lift (paris_result rt body)

  unfoldable pub paris_order_status : String → Exec E Value
  paris_order_status marketplace_order_id = do
    resp ← paris_request "GET" (cat ("/orders/" ∷ marketplace_order_id ∷ [])) null
    body ← lift resp.json
    lift (index body "status")

  unfoldable pub paris_push_order : OrderDto → Exec (World E) PushResult
  unfolding outside
  paris_push_order order = outside (paris_push order)

  abbrev pub paris_adapter : Adapter E
  paris_adapter = record { name = "paris"; push_order = paris_push_order }
