-- ===== src/Adapters/Tests.antt =====
-- Concrete requests of the adapters, orders of the source, and operations of the stand-in.
use mathlib.Core.Path.{subst}
use retail_order_sync_hub.Base.{
  ltb, sym, inl, inr, Bool-cases, strip, true, ◌++◌, str_int, ℕ, ◌-◌, String, string_eq, pos, some,
  none, [], ◌∷◌, ◌≡◌, refl, All, List, arith,
}
use retail_order_sync_hub.Json.{float, Value, null, int}
use retail_order_sync_hub.Config.{Settings, default_settings}
use retail_order_sync_hub.Model.{empty_db}
use retail_order_sync_hub.World.{World}
use retail_order_sync_hub.Odoo.{SaleOrder, SaleLine}
use retail_order_sync_hub.Exec.{
  Exc, transport_error, Result, validation_error, ok, err, runtime_error, pure, ◌>>=◌, bind_result,
}
use retail_order_sync_hub.Fixtures.{
  runtime, world, odoo, http, http-Retries, seconds, bq, mock_services,
}
use retail_order_sync_hub.Adapters.Dto.{OrderDto, make_item}
use retail_order_sync_hub.Adapters.Http.{HttpRequest, HttpResponse, request_with_retry}
use retail_order_sync_hub.Adapters.Http.Attempts.{
  Sends, RaisesOwn, IsLimit, request_with_retry-Sends,
}
use retail_order_sync_hub.Adapters.OAuth.{
  Token, load, refresh, token_of, exchange_code, token_request, save_token, raise_for_status,
}
use retail_order_sync_hub.Adapters.OAuth.Tokens.{refresh_forgets}
use retail_order_sync_hub.Adapters.Console.{
  Terminal, authorization_url, urlencode, quote_plus, escaped, char_at, cmd_auth, exchange_pasted,
}
use retail_order_sync_hub.Adapters.Console.Stored.{Stores, cmd_auth-Stores}
use retail_order_sync_hub.Services.{outside}
use retail_order_sync_hub.Adapters.Registry.{default_adapters, default_adapters-AllKeepTables}
use retail_order_sync_hub.Outbox.Queue.{AllKeepTables}
use retail_order_sync_hub.Outbox.Source.{
  fetch_confirmed_orders, order_dtos, order_items, line_of, sku_of,
}
use retail_order_sync_hub.Outbox.Source.Sound.{
  order_dtos-blocked, IsSound, fetch_confirmed_orders-IsSound,
}
use retail_order_sync_hub.BqSync.{insert_batches, insert_rows}
use retail_order_sync_hub.BqSync.Batches.{chunks, concat, IsBatch, insert_all, insert_batches_cut}
use retail_order_sync_hub.ParisMock.{Mock, OrderCreateIn, create_order}
use retail_order_sync_hub.ParisMock.Orders.{create_order_again}

abbrev get_health : HttpRequest
get_health = record { method = "GET"; url = "/health"; headers = []; content = null }

respond_own :
    (request : HttpRequest) (n : ℕ) {x : Exc} → (http.request request n).0 ≡ err x → ¬ IsLimit x
respond_own request n e limit = elim (Bool-cases (ltb n 2)) [
  | inl down ↦ let is = rw down at e in subst (λ r. IsLimit (text_of r)) (sym is) limit
  | inr up ↦ absurd (cc (rw up at e))
]
  where
    text_of : Result HttpResponse → Exc
    text_of (ok resp) = transport_error ""
    text_of (err x) = x

http-RaisesOwn : RaisesOwn http seconds
http-RaisesOwn = record { no_limit = respond_own; no_number = λ s e. absurd (cc e) }

-- Two refused connections, and a response at the third attempt.
request_with_retry-Sends_example :
    Sends http seconds get_health (4 - 1) 1 0 (request_with_retry http seconds 4 get_health 0)
request_with_retry-Sends_example =
    request_with_retry-Sends http seconds get_health http-Retries http-RaisesOwn 4 0

abbrev token : Token
token = record { access_token = "A"; refresh_token = some "R"; expires_at = 1000 }

-- Somebody pastes a code at once.
abbrev terminal : Terminal ℕ
terminal = record { input = λ printed prompt n. (ok " TG-1 \n", n) }

abbrev app_settings : Settings
app_settings = record default_settings { ml_client_id = "app 1" }

url_to_open :
    authorization_url app_settings (some "é")
    ≡ "https://auth.mercadolibre.cl/authorization?response_type=code&client_id=app+1&redirect_uri=http%3A%2F%2Flocalhost%3A8000%2Foauth%2Fmercadolibre%2Fcallback&state=%C3%A9"
unfolding authorization_url urlencode quote_plus escaped char_at
url_to_open = refl

authorized : (cmd_auth runtime http seconds terminal app_settings (world 2)).0 ≡ ok 0
unfolding cmd_auth exchange_pasted exchange_code token_request save_token raise_for_status token_of
    outside ◌>>=◌ bind_result pure strip
authorized = refl

cmd_auth-Stores_example :
    Stores (world 2) (cmd_auth runtime http seconds terminal app_settings (world 2))
cmd_auth-Stores_example = cmd_auth-Stores runtime http seconds terminal app_settings (world 2)

-- The server is up, and its answer has no refresh token.
abbrev token_world : World ℕ
token_world = record (world 2) {
  db = record empty_db {
    oauth_tokens =
        record {
          provider = "mercadolibre";
          access_token = "A";
          refresh_token = some "R";
          expires_at = some 1000;
        }
        ∷ [];
  };
}

abbrev fresh : Token
fresh = record { access_token = "T"; refresh_token = none; expires_at = 3600001000 }

refreshed : (refresh runtime http seconds default_settings token_world).0 ≡ ok fresh
unfolding refresh ◌>>=◌ load token_of bind_result
refreshed = refl

refresh_forgets_example :
    refresh runtime http seconds default_settings
      (refresh runtime http seconds default_settings token_world).1
    ≡ (
      err (runtime_error "no refresh token stored — run the auth flow first"),
      (refresh runtime http seconds default_settings token_world).1,
    )
refresh_forgets_example =
    refresh_forgets runtime http seconds default_settings token_world refreshed refl

default_adapters-AllKeepTables_example :
    AllKeepTables (default_adapters runtime http seconds default_settings)
default_adapters-AllKeepTables_example =
    default_adapters-AllKeepTables runtime http seconds default_settings

abbrev fetched : OrderDto
fetched = record {
  odoo_order_id = pos 7;
  buyer = "Ana";
  items = record { sku = "PID-5"; qty = pos 2 } ∷ [];
  external_ref = "odoo-7";
}

fetch_one : (fetch_confirmed_orders runtime odoo null).0 ≡ ok (fetched ∷ [])
unfolding fetch_confirmed_orders ◌>>=◌ order_dtos bind_result order_items line_of make_item sku_of
    str_int
fetch_one = refl

fetch_confirmed_orders-IsSound_example : All IsSound (fetched ∷ [])
fetch_confirmed_orders-IsSound_example = fetch_confirmed_orders-IsSound runtime odoo null fetch_one

-- A line of half a unit, whose quantity is cut to 0, blocks the orders before and behind it.
abbrev half_line : SaleLine
half_line = record {
  id = pos 1;
  product_id = some (pos 5, "Poncho");
  product_uom_qty = float (pos 0) true "0.5";
}

abbrev half_order : SaleOrder
half_order = record { id = pos 8; partner_id = none; order_line = pos 1 ∷ [] }

abbrev empty_order : SaleOrder
empty_order = record { id = pos 9; partner_id = none; order_line = [] }

half_refused :
    order_items runtime (half_line ∷ []) [] (pos 1 ∷ [])
    ≡ err (validation_error "1 validation error")
unfolding order_items line_of bind_result make_item
half_refused = refl

order_dtos-blocked_example :
    (e : Exc) × (order_dtos runtime
        (half_line ∷ [])
        []
        ((empty_order ∷ []) ++ half_order ∷ empty_order ∷ [])
      ≡ err e)
order_dtos-blocked_example =
    order_dtos-blocked runtime (half_line ∷ []) [] half_order (empty_order ∷ []) (empty_order ∷ [])
      (validation_error "1 validation error") half_refused

abbrev three : List Value
three = int (pos 1) ∷ int (pos 2) ∷ int (pos 3) ∷ []

insert_batches_cut_example :
    (insert_batches bq "t" 2 three [] 0 0 ≡ insert_all bq "t" (chunks 2 three []) 0 0)
    × (concat (chunks 2 three []) ≡ three)
    × All (IsBatch 2) (chunks 2 three [])
insert_batches_cut_example = insert_batches_cut bq "t" 2 three 0 (omega arith)

three_inserted : (insert_batches bq "t" 2 three [] 0 0).0 ≡ ok 3
unfolding insert_batches insert_rows ◌>>=◌
three_inserted = refl

abbrev payload : OrderCreateIn
payload = record {
  buyer = "Ana";
  items = record { sku = "A"; qty = pos 2 } ∷ [];
  external_ref = some "odoo-7";
}

abbrev empty_mock : Mock ℕ
empty_mock = record { orders = []; webhooks = []; clock = 1000; env = 0 }

abbrev iso : ℕ → String
iso now = "now"

create_order_again_example :
    create_order runtime mock_services default_settings iso
      (some "change-me")
      payload
      (create_order runtime mock_services default_settings iso
        (some "change-me")
        payload
        empty_mock).1
    ≡ create_order runtime mock_services default_settings iso (some "change-me") payload empty_mock
create_order_again_example =
    create_order_again "odoo-7" refl runtime mock_services default_settings iso payload
      (some "change-me") empty_mock refl refl
