-- ===== src/Access.antt =====
-- Python's access to a dynamic value: `v.get(k)`, `v[k]` and `str(v.get(k, d))`.
use retail_order_sync_hub.Base.{String, Option, none, some}
use retail_order_sync_hub.Json.{Value, obj, field_of}
use retail_order_sync_hub.Exec.{key_error, type_error, attribute_error, Result, ok, err}
use retail_order_sync_hub.Services.{Runtime, str_value}

-- v.get(k): `None` where the key is missing; only a dict has the method
abbrev pub get : Value → String → Result (Option Value)
get (obj fs) k = ok (field_of k fs)
get _ k = err (attribute_error "object has no attribute 'get'")

-- v[k]
abbrev pub index_field : String → Option Value → Result Value
index_field k none = err (key_error k)
index_field k (some v) = ok v

abbrev pub index : Value → String → Result Value
index (obj fs) k = index_field k (field_of k fs)
index _ k = err (type_error "object is not subscriptable by a text")

module _ (rt : Runtime) where
  -- str(v), and the default of `get` where the key is missing
  abbrev pub text_or : String → Option Value → String
  text_or d none = d
  text_or d (some v) = str_value rt v
