-- ===== src/Services.antt =====
-- What the program calls and does not implement, as parameters: the libraries' pure functions, and
-- the services that act on the outside `E`.
use retail_order_sync_hub.Base.{ℕ, ℤ, String, List, Option, some, str_int, ◌≡◌, ◌≤◌, if◌then◌else◌}
use retail_order_sync_hub.Json.{Value, null, bool, int, float, str, arr, obj}
use retail_order_sync_hub.Exec.{Result, Exec}
use retail_order_sync_hub.World.{World}

-- The bytes of a request's body or of a message.
abbrev pub Bytes : Type 0
Bytes = List ℕ

-- `loads` is `json.loads`; `dumps` is `json.dumps(…, separators=(",", ":"), sort_keys=True)`
-- encoded; `repr` is the text of a list or a dict; `hmac_sha256` the hexadecimal digest of a body
-- under a key; `bound_text` is the text that the database driver binds a value for a text column as,
-- or the exception; `int_field` and `str_field` read a field of that type as Pydantic does, and
-- `validation_text` is the text of its `ValidationError` for a value.
pub record Runtime : Type 0 where
  pub loads : Bytes → Result Value
  pub dumps : Value → Bytes
  pub repr : Value → String
  pub hmac_sha256 : String → Bytes → String
  pub bound_text : Value → Result String
  pub int_field : Value → Option ℤ
  pub str_field : Value → Option String
  pub validation_text : Value → String

-- Pydantic reads a value of the field's own type as it is.
pub record ReadsFields (rt : Runtime) : Type 0 where
  pub int_field_int : (n : ℤ) → rt.int_field (int n) ≡ some n
  pub str_field_str : (s : String) → rt.str_field (str s) ≡ some s

-- str(v)
unfoldable pub str_value : Runtime → Value → String
str_value rt null = "None"
str_value rt (bool b) = if b then "True" else "False"
str_value rt (int n) = str_int n
str_value rt (float n b text) = text
str_value rt (str s) = s
str_value rt (arr vs) = rt.repr (arr vs)
str_value rt (obj fs) = rt.repr (obj fs)

-- The attributes of a message.
abbrev pub Attributes : Type 0
Attributes = List (String × String)

-- The protocol `Publisher` of src/webhook_receiver/publisher.py: publish data to a topic, return the
-- message's id.
pub record Publisher (E : Type 0) : Type 0 where
  pub publish : String → Bytes → Attributes → Exec E String

-- `random.uniform(0, hi)`, in microseconds.
pub record Random (E : Type 0) : Type 0 where
  pub uniform : ℕ → E → ℕ × E

pub record IsUniform {E : Type 0} (random : Random E) : Type 0 where
  pub within : (hi : ℕ) (e : E) → (random.uniform hi e).0 ≤ hi

module _ {E A : Type 0} where
  -- An action of a service, in the running system.
  unfoldable pub outside : Exec E A → Exec (World E) A
  outside m w = let (r, e) = m w.env in (r, record w { env = e })
