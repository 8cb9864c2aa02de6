-- ===== src/Mcp/Auth.antt =====
-- src/mcp_server/auth.py
use retail_order_sync_hub.Base.{
  String, ◌==◌, string_eq, Bool, not, List, [], ◌∷◌, any, map, select, cat, split, strip, partition,
  if◌then◌else◌,
}
use retail_order_sync_hub.Config.{Settings}
use retail_order_sync_hub.Exec.{permission_error, Result, ok, err}

-- The dict of `_token_scopes`; a set of scopes is a list of them.
abbrev pub Tokens : Type 0
Tokens = List (String × List String)

-- result[token] = scopes
unfoldable pub set_scopes : String → List String → Tokens → Tokens
set_scopes token scopes [] = (token, scopes) ∷ []
set_scopes token scopes ((t, ss) ∷ rest) =
    let rest' = set_scopes token scopes rest in
    if t == token then (t, scopes) ∷ rest else (t, ss) ∷ rest'

-- frozenset(s.strip() for s in scopes_str.split(",") if s.strip())
unfoldable pub scopes_of : String → List String
scopes_of scopes_str = select (λ s. not (s == "")) (map strip (split b',' scopes_str))

-- The body of the loop over the pairs.
unfoldable pub add_pair : String → Tokens → Tokens
add_pair pair result =
    let (token, scopes_str) = partition b':' (strip pair) in
    if strip pair == "" then result else set_scopes (strip token) (scopes_of scopes_str) result

unfoldable pub add_pairs : List String → Tokens → Tokens
add_pairs [] result = result
add_pairs (pair ∷ pairs) result = add_pairs pairs (add_pair pair result)

-- `_token_scopes`, which is cached: the settings do not change in a process.
unfoldable pub token_scopes : Settings → Tokens
token_scopes settings = add_pairs (split b';' (strip settings.mcp_static_tokens)) []

unfoldable pub scopes_in : String → Tokens → List String
scopes_in token [] = []
scopes_in token ((t, scopes) ∷ rest) =
    let rest' = scopes_in token rest in if t == token then scopes else rest'

unfoldable pub validate_token : Settings → String → List String
validate_token settings token = scopes_in token (token_scopes settings)

-- scope in granted
unfoldable pub has_scope : String → List String → Bool
has_scope scope granted = any (λ s. s == scope) granted

-- `listing` is the text of `sorted(granted) or 'none'`.
unfoldable pub require_scope :
    (List String → String) → Settings → String → String → Result (Unit {0})
require_scope listing settings token scope =
    let granted = validate_token settings token in
    if has_scope scope granted
    then ok tt
    else err (
        permission_error (
          cat (
            "Token does not have required scope '"
            ∷ scope
            ∷ "'. Granted scopes: "
            ∷ listing granted
            ∷ "."
            ∷ [])))
