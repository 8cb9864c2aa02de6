-- ===== src/Adapters/OAuth.antt =====
-- The OAuth client and the token store of src/adapters/mercadolibre.py. The HTTP client is made and
-- closed around a request; only its base URL matters here.
pub mod Tokens
pub mod Requests
use retail_order_sync_hub.Base.{
  ℕ, ◌+◌, ◌-◌, ◌*◌, suc, ℤ, pos, negsuc, String, ◌==◌, string_eq, Bool, true, false, ◌&&◌, Option,
  none, some, List, [], ◌∷◌, ◌++◌, cat, find, any, int_of, leb, ltb, if◌then◌else◌,
}
use retail_order_sync_hub.Access.{get, index}
use retail_order_sync_hub.Json.{Value, null, bool, int, float, str, arr, obj, items, dict}
use retail_order_sync_hub.Config.{Settings}
use retail_order_sync_hub.Model.{OAuthToken}
use retail_order_sync_hub.Services.{Runtime, str_value, outside}
use retail_order_sync_hub.World.{World}
use retail_order_sync_hub.Exec.{
  Exc, runtime_error, value_error, type_error, http_error, other, Result, ok, err, bind_result,
  Exec, pure, raise, lift, gets, modify, ◌>>=◌, ◌>>◌,
}
use retail_order_sync_hub.Adapters.Dto.{OrderItemDto, OrderDto, PushResult, Adapter}
use retail_order_sync_hub.Adapters.Http.{
  HttpResponse, HttpRequest, Http, Seconds, request_with_retry,
}
use retail_order_sync_hub.Adapters.Paris.{push_result, check_status}
use retail_order_sync_hub.Outbox.Processor.{second}

abbrev pub provider : String
provider = "mercadolibre"

pub record Token : Type 0 where
  pub access_token : String
  pub refresh_token : Option String
  pub expires_at : ℕ

-- The row of the provider, whose name is unique in the table.
unfoldable pub is_provider : String → OAuthToken → Bool
is_provider name row = row.provider == name

abbrev with_expiry : OAuthToken → Option ℕ → Option Token
with_expiry row none = none
with_expiry row (some at) =
    some (record {
      access_token = row.access_token;
      refresh_token = row.refresh_token;
      expires_at = at;
    })

abbrev of_row : Option OAuthToken → Option Token
of_row none = none
of_row (some row) = with_expiry row row.expires_at

-- `DbTokenStore.load`
unfoldable pub load : String → List OAuthToken → Option Token
unfolding is_provider
load name rows = of_row (find (is_provider name) rows)

abbrev pub token_row : String → Token → OAuthToken
token_row name token = record {
  provider = name;
  access_token = token.access_token;
  refresh_token = token.refresh_token;
  expires_at = some token.expires_at;
}

-- `DbTokenStore.save`: the provider's row is overwritten, or added.
unfoldable pub save : String → Token → List OAuthToken → List OAuthToken
unfolding is_provider
save name token [] = token_row name token ∷ []
save name token (row ∷ rows) =
    let rest = save name token rows in
    if is_provider name row then token_row name token ∷ rows else row ∷ rest

-- int(v)
abbrev pub int_value : Value → Result ℤ
int_value (int n) = ok n
int_value (float n b text) = ok n
int_value (bool b) = ok (pos (if b then 1 else 0))
int_value (str s) = of_text (int_of s)
  where
    of_text : Option ℤ → Result ℤ
    of_text none = err (value_error "invalid literal for int() with base 10")
    of_text (some n) = ok n
int_value _ = err (type_error "int() argument must be a string or a real number")

-- now + timedelta(seconds=n)
abbrev pub plus_seconds : ℕ → ℤ → ℕ
plus_seconds now (pos n) = now + n * second
plus_seconds now (negsuc n) = now - suc n * second

-- A token's text, as its column stores it.
abbrev pub column_text : Value → Result String
column_text (str s) = ok s
column_text _ = err (other "the column holds a text")

abbrev pub column_option : Option Value → Result (Option String)
column_option none = ok none
column_option (some null) = ok none
column_option (some (str s)) = ok (some s)
column_option (some _) = err (other "the column holds a text")

-- The token of an answer of `/oauth/token` that is received at `now`.
unfoldable pub token_of : ℕ → Value → Result Token
token_of now body = bind_result (index body "expires_in") λ expires_in.
    bind_result (int_value expires_in) λ n. bind_result (index body "access_token") λ access.
      bind_result (get body "refresh_token") λ refresh.
        bind_result (column_text access) λ access_token.
          bind_result (column_option refresh) λ refresh_token. ok (record {
            access_token = access_token;
            refresh_token = refresh_token;
            expires_at = plus_seconds now n;
          })

-- resp.raise_for_status()
abbrev pub raise_for_status : {E : Type 0} → HttpResponse → Exec E HttpResponse
raise_for_status resp =
    if leb 200 resp.status_code && ltb resp.status_code 300
    then pure resp
    else raise (http_error resp.status_code resp.error_text)

module _ {E : Type 0} (rt : Runtime) (http : Http E) (seconds : Seconds) (settings : Settings) where
  -- `_token_request`
  unfoldable pub token_request : List (String × Value) → Exec (World E) Token
  unfolding outside
  token_request payload = do
    resp ← outside (
        http.request (record {
          method = "POST";
          url = cat (settings.ml_api_base ∷ "/oauth/token" ∷ []);
          headers = [];
          content = dict (
              ("client_id", str settings.ml_client_id)
              ∷ ("client_secret", str settings.ml_client_secret)
              ∷ payload);
        }))
    resp' ← raise_for_status resp
    body ← lift resp'.json
    now ← gets (λ (w : World E). w.clock)
    lift (token_of now body)

  -- The store commits in a session of its own.
  unfoldable pub save_token : Token → Exec (World E) (Unit {0})
  save_token token = modify (λ (w : World E). record w {
    db = record w.db { oauth_tokens = save provider token w.db.oauth_tokens };
  })

  unfoldable pub exchange_code : String → Exec (World E) Token
  exchange_code code = do
    token ← token_request (
        ("grant_type", str "authorization_code")
        ∷ ("code", str code)
        ∷ ("redirect_uri", str settings.ml_redirect_uri)
        ∷ [])
    save_token token
    pure token

  abbrev pub no_refresh : Exec (World E) Token
  no_refresh = raise (runtime_error "no refresh token stored — run the auth flow first")

  abbrev pub refresh_with : Option String → Exec (World E) Token
  refresh_with none = no_refresh
  refresh_with (some refresh_token) = if refresh_token == "" then no_refresh else (do
    token ←
        token_request
          (("grant_type", str "refresh_token") ∷ ("refresh_token", str refresh_token) ∷ [])
    save_token token
    pure token)

  unfoldable pub refresh_current : Option Token → Exec (World E) Token
  unfolding token_request save_token
  refresh_current none = no_refresh
  refresh_current (some current) = refresh_with current.refresh_token

  unfoldable pub refresh : Exec (World E) Token
  unfolding refresh_current
  refresh = do
    current ← gets (λ (w : World E). load provider w.db.oauth_tokens)
    refresh_current current

  -- now >= expires_at - skew
  abbrev pub is_stale : ℕ → Token → Bool
  is_stale now token = leb (token.expires_at - settings.ml_refresh_skew_seconds * second) now

  unfoldable pub token_to_use : Option Token → Exec (World E) Token
  unfolding refresh
  token_to_use none = raise (runtime_error "no token stored — run the auth flow first")
  token_to_use (some current) = do
    now ← gets (λ (w : World E). w.clock)
    if is_stale now current then refresh else pure current

  unfoldable pub valid_access_token : Exec (World E) String
  unfolding token_to_use
  valid_access_token = do
    current ← gets (λ (w : World E). load provider w.db.oauth_tokens)
    token ← token_to_use current
    pure token.access_token
