-- ===== src/Adapters/MercadoLibre.antt =====
-- `MercadoLibreAdapter` of src/adapters/mercadolibre.py. The HTTP client is made and closed around a
-- request; only its base URL and headers matter here.
use retail_order_sync_hub.Base.{String, string_eq, Option, none, some, List, [], ◌∷◌, cat}
use retail_order_sync_hub.Access.{get, index}
use retail_order_sync_hub.Json.{Value, null, int, str, arr, items, dict}
use retail_order_sync_hub.Config.{Settings}
use retail_order_sync_hub.Services.{Runtime, str_value, outside}
use retail_order_sync_hub.World.{World}
use retail_order_sync_hub.Exec.{Result, bind_result, Exec, lift, ◌>>=◌}
use retail_order_sync_hub.Adapters.Dto.{OrderItemDto, OrderDto, PushResult, Adapter}
use retail_order_sync_hub.Adapters.Http.{Http, Seconds, request_with_retry}
use retail_order_sync_hub.Adapters.Paris.{push_result, check_status}
use retail_order_sync_hub.Adapters.OAuth.{provider, raise_for_status, valid_access_token}

abbrev pub ml_items : List OrderItemDto → List Value
ml_items [] = []
ml_items (i ∷ is) = dict (("sku", str i.sku) ∷ ("quantity", int i.qty) ∷ []) ∷ ml_items is

unfoldable pub ml_payload : OrderDto → Value
ml_payload order = dict (
    ("external_reference", str order.external_ref)
    ∷ ("buyer", str order.buyer)
    ∷ ("items", arr (items (ml_items order.items)))
    ∷ [])

-- data.get("status", "created")
abbrev status_or_created : Option Value → Value
status_or_created none = str "created"
status_or_created (some v) = v

-- str(data["id"]) and the status
unfoldable pub ml_result : Runtime → Value → Result PushResult
ml_result rt body = bind_result (index body "id") λ id.
    bind_result (get body "status")
      λ status. push_result rt (str (str_value rt id)) (status_or_created status)

module _ {E : Type 0} (rt : Runtime) (http : Http E) (seconds : Seconds) (settings : Settings) where
  unfoldable pub ml_push_order : OrderDto → Exec (World E) PushResult
  unfolding valid_access_token ml_payload
  ml_push_order order = do
    token ← valid_access_token rt http seconds settings
    resp ← outside (
        request_with_retry http seconds settings.adapter_max_attempts (record {
          method = "POST";
          url = cat (settings.ml_api_base ∷ "/orders" ∷ []);
          headers = ("Authorization", cat ("Bearer " ∷ token ∷ [])) ∷ [];
          content = ml_payload order;
        }))
    resp' ← check_status "mercadolibre push_order -> " resp
    body ← lift resp'.json
    lift (ml_result rt body)

  unfoldable pub ml_get : String → Exec (World E) Value
  ml_get path = do
    token ← valid_access_token rt http seconds settings
    resp ← outside (
        http.request (record {
          method = "GET";
          url = cat (settings.ml_api_base ∷ path ∷ []);
          headers = ("Authorization", cat ("Bearer " ∷ token ∷ [])) ∷ [];
          content = null;
        }))
    resp' ← raise_for_status resp
    lift resp'.json

  unfoldable pub get_user : Exec (World E) Value
  unfolding ml_get
  get_user = ml_get "/users/me"

  unfoldable pub ml_order_status : String → Exec (World E) Value
  unfolding ml_get
  ml_order_status marketplace_order_id = do
    body ← ml_get (cat ("/orders/" ∷ marketplace_order_id ∷ []))
    lift (index body "status")

  abbrev pub ml_adapter : Adapter E
  ml_adapter = record { name = provider; push_order = ml_push_order }
