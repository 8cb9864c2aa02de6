-- ===== src/Adapters/Console.antt =====
-- The commands of src/adapters/mercadolibre.py, and the URL that starts the authorization.
pub mod Stored
use Prim.Native.Char.{Char, char, code}
use Prim.Native.String.{[], ◌∷◌}
use retail_order_sync_hub.Base.{
  ℕ, zero, suc, ◌+◌, ◌/◌, ◌%◌, String, ◌==◌, string_eq, Bool, true, false, ◌&&◌, ◌||◌, Option, none,
  some, List, [], ◌∷◌, ◌++◌, cat, strip, eqb, leb, ltb, if◌then◌else◌,
}
use retail_order_sync_hub.Json.{Value}
use retail_order_sync_hub.Config.{Settings}
use retail_order_sync_hub.Services.{Runtime, outside}
use retail_order_sync_hub.World.{World}
use retail_order_sync_hub.Exec.{Exec, pure, ◌>>=◌, ◌>>◌}
use retail_order_sync_hub.Adapters.Http.{Http, Seconds}
use retail_order_sync_hub.Adapters.OAuth.{exchange_code}
use retail_order_sync_hub.Adapters.MercadoLibre.{get_user}

-- The bytes of a character in UTF-8.
abbrev utf8 : ℕ → List ℕ
utf8 n =
    if ltb n 128
    then n ∷ []
    else if ltb n 2048
    then (192 + n / 64) ∷ (128 + n % 64) ∷ []
    else if ltb n 65536
    then (224 + n / 4096) ∷ (128 + n / 64 % 64) ∷ (128 + n % 64) ∷ []
    else (240 + n / 262144) ∷ (128 + n / 4096 % 64) ∷ (128 + n / 64 % 64) ∷ (128 + n % 64) ∷ []

abbrev between : ℕ → ℕ → ℕ → Bool
between lo hi n = leb lo n && leb n hi

-- Letters, digits and `_.-~` stay in a query.
abbrev is_safe : ℕ → Bool
is_safe n =
    between 48 57 n
    || between 65 90 n
    || between 97 122 n
    || eqb n 95
    || eqb n 46
    || eqb n 45
    || eqb n 126

-- The character at a place in a text.
unfoldable pub char_at : ℕ → String → String
char_at n [] = ""
char_at zero (c ∷ s) = c ∷ ""
char_at (suc n) (c ∷ s) = char_at n s

abbrev hex_digits : String
hex_digits = "0123456789ABCDEF"

-- %XX
unfoldable pub escaped : List ℕ → String
unfolding char_at
escaped [] = ""
escaped (b ∷ bs) =
    cat ("%" ∷ char_at (b / 16) hex_digits ∷ char_at (b % 16) hex_digits ∷ escaped bs ∷ [])

abbrev quoted : Char → String
quoted c =
    if is_safe (code c) then c ∷ "" else if eqb (code c) 32 then "+" else escaped (utf8 (code c))

-- `quote_plus` of urllib.parse
unfoldable pub quote_plus : String → String
unfolding escaped
quote_plus [] = ""
quote_plus (c ∷ s) = cat (quoted c ∷ quote_plus s ∷ [])

abbrev pair : String × String → String
pair (k, v) = cat (quote_plus k ∷ "=" ∷ quote_plus v ∷ [])

-- `urlencode` of urllib.parse, of a dict of texts
unfoldable pub urlencode : List (String × String) → String
unfolding quote_plus
urlencode [] = ""
urlencode (p ∷ []) = pair p
urlencode (p ∷ q ∷ ps) = cat (pair p ∷ "&" ∷ urlencode (q ∷ ps) ∷ [])

-- if state: params["state"] = state
abbrev state_param : Option String → List (String × String)
state_param none = []
state_param (some state) = if state == "" then [] else ("state", state) ∷ []

unfoldable pub authorization_url : Settings → Option String → String
unfolding urlencode
authorization_url settings state = cat (
    settings.ml_auth_base
    ∷ "/authorization?"
    ∷ urlencode (
        ("response_type", "code")
        ∷ ("client_id", settings.ml_client_id)
        ∷ ("redirect_uri", settings.ml_redirect_uri)
        ∷ state_param state)
    ∷ [])

-- The terminal: `input`, with its prompt, after what is printed before it.
pub record Terminal (E : Type 0) : Type 0 where
  pub input : List String → String → Exec E String

pub data Command : Type 0 where
  auth_command get_user_command : Command

module _ {E : Type 0} (rt : Runtime) (http : Http E) (seconds : Seconds) (terminal : Terminal E)
    (settings : Settings) where
  -- What follows the code that is pasted, stripped.
  unfoldable pub exchange_pasted : String → Exec (World E) ℕ
  exchange_pasted pasted =
      if pasted == ""
      then pure 1
      else (do token ← exchange_code rt http seconds settings pasted; pure 0)

  -- `_cmd_auth`
  unfoldable pub cmd_auth : Exec (World E) ℕ
  unfolding exchange_pasted outside authorization_url
  cmd_auth = if settings.ml_client_id == "" then pure 1 else (do
    line ← outside (
        terminal.input
          ("1) Open this URL, log in with your sandbox user and authorize:\n"
            ∷ cat ("   " ∷ authorization_url settings none ∷ "\n" ∷ [])
            ∷ "2) You'll be redirected to your redirect_uri with ?code=... in the URL."
            ∷ [])
          "3) Paste the code here: ")
    exchange_pasted (strip line))

  -- `_cmd_get_user`
  unfoldable pub cmd_get_user : Exec (World E) ℕ
  cmd_get_user = do user ← get_user rt http seconds settings; pure 0

  -- `main`
  unfoldable pub run_command : Command → Exec (World E) ℕ
  unfolding cmd_auth cmd_get_user
  run_command auth_command = cmd_auth
  run_command get_user_command = cmd_get_user
