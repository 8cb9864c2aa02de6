-- ===== src/Secrets.antt =====
-- src/common/secrets.py: secrets of the cloud become environment variables before the settings are read.
pub mod Loaded
mod Tests
use Prim.Native.Char.{Char, code}
use Prim.Native.String.{[], ◌∷◌}
use retail_order_sync_hub.Base.{
  ℕ, ◌+◌, String, ◌==◌, string_eq, eqb, Bool, true, false, not, ◌||◌, Option, none, some, List, [],
  ◌∷◌, map, select, cat, split, strip, if◌then◌else◌,
}
use retail_order_sync_hub.Exec.{Exc, Result, ok, err, Exec, pure, gets, modify, ◌>>=◌, ◌>>◌}

-- `os.environ`
abbrev pub Environ : Type 0
Environ = List (String × String)

-- The Secret Manager: `connect` makes the client, `access` gives the text of a version of a secret.
pub record SecretManager (E : Type 0) : Type 0 where
  pub connect : Exec E (Unit {0})
  pub access : String → Exec E String

-- The process: its environment, and the outside.
pub record Process (E : Type 0) : Type 0 where
  pub environ : Environ
  pub env : E

-- os.environ.get(name)
unfoldable pub getenv : String → Environ → Option String
getenv name [] = none
getenv name ((k, v) ∷ rest) = let rest' = getenv name rest in if k == name then some v else rest'

-- os.environ[name] = value
unfoldable pub setenv : String → String → Environ → Environ
setenv name value [] = (name, value) ∷ []
setenv name value ((k, v) ∷ rest) =
    let rest' = setenv name value rest in if k == name then (k, value) ∷ rest else (k, v) ∷ rest'

-- The variable is there and not empty.
abbrev is_filled : Option String → Bool
is_filled none = false
is_filled (some v) = not (v == "")

unfoldable pub is_set : String → Environ → Bool
unfolding is_filled
is_set name environ = is_filled (getenv name environ)

abbrev pub or_default : String → Option String → String
or_default d none = d
or_default d (some v) = v

-- os.environ.get(a) or os.environ.get(b, "")
abbrev or_else : Option String → String → String
or_else none d = d
or_else (some v) d = if v == "" then d else v

-- The character of `to` at the place where `c` stands in `from`.
unfoldable pub translate : String → String → Char → Char
translate [] to c = c
translate (a ∷ from) [] c = c
translate (a ∷ from) (b ∷ to) c =
    let rest = translate from to c in if eqb (code c) (code a) then b else rest

unfoldable pub map_chars : (Char → Char) → String → String
map_chars f [] = ""
map_chars f (c ∷ s) = f c ∷ map_chars f s

abbrev lower_letters : String
lower_letters = "abcdefghijklmnopqrstuvwxyz"

abbrev upper_letters : String
upper_letters = "ABCDEFGHIJKLMNOPQRSTUVWXYZ"

-- s.upper(), of a text in ASCII
unfoldable pub upper : String → String
unfolding map_chars translate
upper s = map_chars (translate lower_letters upper_letters) s

-- `_secret_env_name`, of an id in ASCII
unfoldable pub secret_env_name : String → String
unfolding upper map_chars translate
secret_env_name secret_id = upper (map_chars (translate "-" "_") secret_id)

-- s.lower(), of a text in ASCII
unfoldable pub lower : String → String
unfolding map_chars translate
lower s = map_chars (translate upper_letters lower_letters) s

module _ {E : Type 0} where
  -- An action of the client.
  unfoldable pub of_client : {A : Type 0} → Exec E A → Exec (Process E) A
  of_client m p = let (r, e) = m p.env in (r, record p { env = e })

  -- The body of the `try`: the variable is set, or the failure is logged and passed over.
  unfoldable pub store_secret : String → ℕ → Result String → Exec (Process E) ℕ
  store_secret env_name loaded (ok value) p =
      (ok (loaded + 1), record p { environ = setenv env_name value p.environ })
  store_secret env_name loaded (err e) p = (ok loaded, p)

module _ {E : Type 0} (client : SecretManager E) (project_id version : String) where
  abbrev pub secret_name : String → String
  secret_name secret_id =
      cat ("projects/" ∷ project_id ∷ "/secrets/" ∷ secret_id ∷ "/versions/" ∷ version ∷ [])

  -- One round of the loop.
  unfoldable pub load_secret : String → ℕ → Exec (Process E) ℕ
  unfolding store_secret is_set
  load_secret secret_id loaded p =
      let (r, e) = client.access (secret_name secret_id) p.env in
      if is_set (secret_env_name secret_id) p.environ
      then (ok loaded, p)
      else store_secret (secret_env_name secret_id) loaded r (record p { env = e })

  unfoldable pub load_each : List String → ℕ → Exec (Process E) ℕ
  unfolding load_secret
  load_each [] loaded = pure loaded
  load_each (secret_id ∷ secret_ids) loaded = do
    loaded' ← load_secret secret_id loaded
    load_each secret_ids loaded'

-- An empty project or list of ids.
abbrev pub nothing_to_load : String → List String → Bool
nothing_to_load project_id [] = true
nothing_to_load project_id (s ∷ ss) = project_id == ""

abbrev pub is_enabled : Environ → Bool
is_enabled environ =
    let flag = lower (or_default "" (getenv "USE_SECRET_MANAGER" environ)) in
    flag == "1" || flag == "true" || flag == "yes"

abbrev pub requested : Environ → List String
requested environ =
    select (λ s. not (s == ""))
      (map strip (
        split b',' (
          or_default "PARIS_API_SECRET,ML_WEBHOOK_SECRET"
            (getenv "SECRET_MANAGER_SECRETS" environ))))

abbrev pub project_of : Environ → String
project_of environ =
    or_else (getenv "GCP_PROJECT_ID" environ) (or_default "" (getenv "BQ_PROJECT_ID" environ))

module _ {E : Type 0} where
  -- `client` is `none` where the package is not installed. The client is made outside the `try`.
  with_client : Option (SecretManager E) → String → List String → String → Exec (Process E) ℕ
  unfolding of_client load_each
  with_client none project_id secret_ids version = pure 0
  with_client (some client) project_id secret_ids version = do
    of_client client.connect
    load_each client project_id version secret_ids 0

  unfoldable pub load_secrets_into_env :
      Option (SecretManager E) → String → List String → String → Exec (Process E) ℕ
  unfolding with_client
  load_secrets_into_env client project_id secret_ids version =
      if nothing_to_load project_id secret_ids
      then pure 0
      else with_client client project_id secret_ids version

  load_enabled : Option (SecretManager E) → Environ → Exec (Process E) ℕ
  unfolding load_secrets_into_env
  load_enabled client environ =
      if is_enabled environ
      then load_secrets_into_env client (project_of environ) (requested environ) "latest"
      else pure 0

  unfoldable pub maybe_load_secrets : Option (SecretManager E) → Exec (Process E) ℕ
  unfolding load_enabled
  maybe_load_secrets client p = load_enabled client p.environ p
