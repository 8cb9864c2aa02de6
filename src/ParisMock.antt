-- ===== src/ParisMock.antt =====
-- src/paris_mock: the stand-in for the marketplace Paris, with tables of its own. FastAPI validates the
-- bodies, so an operation takes them as records.
pub mod Orders
use retail_order_sync_hub.Base.{
  ℕ, pos, String, ◌==◌, string_eq, Bool, true, false, not, ◌&&◌, Option, none, some, List, [], ◌∷◌,
  ◌++◌, find, any, cat, if◌then◌else◌,
}
use retail_order_sync_hub.Json.{Value, int, str, arr, items, dict, opt_str}
use retail_order_sync_hub.Config.{Settings}
use retail_order_sync_hub.Services.{Runtime, Bytes}
use retail_order_sync_hub.Signing.{sign_payload, signature_header}
use retail_order_sync_hub.Exec.{
  Exc, transport_error, http_error, exc_text, Result, ok, err, Exec, pure, raise, gets, ◌>>=◌, ◌>>◌,
}
use retail_order_sync_hub.Adapters.Dto.{OrderItemDto, dump_items}
use retail_order_sync_hub.Webhook.Receiver.{Response, detail}

pub record ParisOrder : Type 0 where
  pub id : String
  pub buyer : String
  pub external_ref : Option String
  pub status : String
  pub items : List OrderItemDto
  pub created_at : ℕ

-- The mock's tables, its clock and the outside. The rows of `paris_webhooks` are their URLs.
pub record Mock (E : Type 0) : Type 0 where
  pub orders : List ParisOrder
  pub webhooks : List String
  pub clock : ℕ
  pub env : E

pub record OrderCreateIn : Type 0 where
  pub buyer : String
  pub items : List OrderItemDto
  pub external_ref : Option String

-- `uuid` is `uuid.uuid4().hex`; `post` delivers a signed body to a URL and gives the response's status.
pub record Outside (E : Type 0) : Type 0 where
  pub uuid : E → String × E
  pub post : String → Bytes → List (String × String) → Exec E ℕ

-- `_to_out`
unfoldable pub to_out : (ℕ → String) → ParisOrder → Value
to_out iso order = dict (
    ("id", str order.id)
    ∷ ("buyer", str order.buyer)
    ∷ ("status", str order.status)
    ∷ ("external_ref", opt_str order.external_ref)
    ∷ ("items", arr (items (dump_items order.items)))
    ∷ ("created_at", str (iso order.created_at))
    ∷ [])

abbrev pub is_ref : String → Option String → Bool
is_ref ref none = false
is_ref ref (some other) = other == ref

-- The order that has the reference, if the payload has one that is not empty.
unfoldable pub existing : Option String → List ParisOrder → Option ParisOrder
existing none orders = none
existing (some ref) orders =
    if ref == "" then none else find (λ (o : ParisOrder). is_ref ref o.external_ref) orders

abbrev pub created : OrderCreateIn → String → ℕ → ParisOrder
created payload id now = record {
  id = id;
  buyer = payload.buyer;
  external_ref = payload.external_ref;
  status = "created";
  items = payload.items;
  created_at = now;
}

abbrev pub response : ℕ → Value → Response
response status_code content = record { status_code = status_code; content = content }

-- The order's row gets a status.
unfoldable pub set_status : String → String → List ParisOrder → List ParisOrder
set_status id status [] = []
set_status id status (order ∷ orders) =
    let rest = set_status id status orders in
    if order.id == id then record order { status = status } ∷ rest else order ∷ rest

module _ {E : Type 0} (rt : Runtime) (services : Outside E) (settings : Settings)
    (iso : ℕ → String) where
  -- `require_api_key`
  abbrev pub is_key : Option String → Bool
  is_key none = false
  is_key (some key) = key == settings.paris_api_key

  abbrev pub guarded : Option String → Exec (Mock E) Response → Exec (Mock E) Response
  guarded key action =
      if is_key key then action else pure (detail 401 "invalid or missing X-API-Key")

  unfoldable pub create_or_get : OrderCreateIn → Option ParisOrder → Exec (Mock E) Response
  create_or_get payload (some order) m = (ok (response 201 (to_out iso order)), m)
  create_or_get payload none m =
      let (id, e) = services.uuid m.env in
      let order = created payload id m.clock in
      (ok (response 201 (to_out iso order)), record m { orders = m.orders ++ order ∷ []; env = e })

  -- POST /orders
  unfoldable pub create_order : Option String → OrderCreateIn → Exec (Mock E) Response
  create_order key payload =
      guarded key (λ m. create_or_get payload (existing payload.external_ref m.orders) m)

  abbrev pub out_or_404 : Option ParisOrder → Response
  out_or_404 none = detail 404 "order not found"
  out_or_404 (some order) = response 200 (to_out iso order)

  -- GET /orders/{order_id}
  unfoldable pub get_order : Option String → String → Exec (Mock E) Response
  get_order key order_id =
      guarded key
        (gets (λ (m : Mock E). out_or_404 (find (λ (o : ParisOrder). o.id == order_id) m.orders)))

  -- POST /webhooks/register
  unfoldable pub register_webhook : Option String → String → Exec (Mock E) Response
  register_webhook key url = guarded key λ m. (
    ok (response 201 (dict (("registered", str url) ∷ []))),
    if any (λ u. u == url) m.webhooks then m else record m { webhooks = m.webhooks ++ url ∷ [] },
  )

  abbrev pub delivery : String → Result ℕ → Exec E Value
  delivery url (ok status_code) =
      pure (dict (("url", str url) ∷ ("status_code", int (pos status_code)) ∷ []))
  delivery url (err (transport_error t)) = pure (dict (("url", str url) ∷ ("error", str t) ∷ []))
  delivery url (err (http_error status t)) = pure (dict (("url", str url) ∷ ("error", str t) ∷ []))
  delivery url (err x) = raise x

  -- `_deliver`
  unfoldable pub deliver : List String → Bytes → String → Exec E (List Value)
  deliver [] body signature = pure []
  deliver (url ∷ urls) body signature = do
    sent ← λ e.
        (let (r, e') =
            services.post url body
              (("Content-Type", "application/json") ∷ (signature_header, signature) ∷ []) e in
          delivery url r e')
    rest ← deliver urls body signature
    pure (sent ∷ rest)

  unfoldable pub event_of : String → ParisOrder → String → Value
  event_of event_id order status = dict (
      ("event_id", str event_id)
      ∷ ("source", str "paris")
      ∷ ("order_id", str order.id)
      ∷ ("external_ref", opt_str order.external_ref)
      ∷ ("status", str status)
      ∷ [])

  abbrev pub emitted : Value → Result (List Value) → Result Response
  emitted event (ok deliveries) =
      ok (response 200 (dict (("event", event) ∷ ("deliveries", arr (items deliveries)) ∷ [])))
  emitted event (err x) = err x

  -- The status is committed before the deliveries.
  unfoldable pub emit_for : String → Option ParisOrder → Exec (Mock E) Response
  unfolding deliver event_of
  emit_for status none m = (ok (detail 404 "order not found"), m)
  emit_for status (some order) m =
      let (event_id, e) = services.uuid m.env in
      let event = event_of event_id order status in
      let body = rt.dumps event in
      let (r, e') = deliver m.webhooks body (sign_payload rt settings.paris_api_secret body) e in
      (emitted event r, record m { orders = set_status order.id status m.orders; env = e' })

  -- POST /admin/orders/{order_id}/emit-webhook
  unfoldable pub emit_webhook : Option String → String → String → Exec (Mock E) Response
  unfolding emit_for
  emit_webhook key order_id status =
      guarded key (λ m. emit_for status (find (λ (o : ParisOrder). o.id == order_id) m.orders) m)
