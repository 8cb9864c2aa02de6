-- ===== src/Subscriber/Normalize.antt =====
-- src/subscriber/normalize.py
pub mod Poison
use retail_order_sync_hub.Base.{
  ℤ, String, ◌==◌, string_eq, Bool, true, false, Option, none, some, List, [], ◌∷◌, cat, int_of,
  partition, split, last_of, without_prefix, is_some, if◌then◌else◌,
}
use retail_order_sync_hub.Access.{get, index, text_or}
use retail_order_sync_hub.Json.{Value, null, bool, int, float, str, arr, obj, truthy}
use retail_order_sync_hub.Services.{Runtime, str_value}
use retail_order_sync_hub.Exec.{
  Exc, key_error, type_error, poison_error, exc_text, Result, ok, err, bind_result,
}

pub record NormalizedOrder : Type 0 where
  pub marketplace : String
  pub marketplace_order_id : String
  pub odoo_order_id : Option ℤ
  pub status : String

-- `int(ref.split("-", 1)[1])`, of a text that starts with "odoo-"
abbrev id_in : String → Option String → Option ℤ
id_in ref none = none
id_in ref (some rest) = int_of (partition b'-' ref).1

-- `_odoo_id_from_external_ref`, on the result of `get`
unfoldable pub odoo_id_from_external_ref : Option Value → Option ℤ
odoo_id_from_external_ref (some (str ref)) = id_in ref (without_prefix "odoo-" ref)
odoo_id_from_external_ref _ = none

-- The two classes that the `except` clause turns into a `PoisonError`.
abbrev pub poisoned : {A : Type 0} → String → Result A → Result A
poisoned source (ok a) = ok a
poisoned source (err (key_error k)) =
    err
      (poison_error (cat ("cannot normalize " ∷ source ∷ " event: " ∷ exc_text (key_error k) ∷ [])))
poisoned source (err (type_error t)) =
    err (
      poison_error (cat ("cannot normalize " ∷ source ∷ " event: " ∷ exc_text (type_error t) ∷ [])))
poisoned source (err e) = err e

module _ (rt : Runtime) where
  unfoldable pub normalize_paris : Value → Result NormalizedOrder
  normalize_paris body = bind_result (index body "order_id") λ order_id.
      bind_result (get body "external_ref") λ ref. bind_result (index body "status") λ status.
        ok (record {
          marketplace = "paris";
          marketplace_order_id = str_value rt order_id;
          odoo_order_id = odoo_id_from_external_ref ref;
          status = str_value rt status;
        })

  -- `raw_body.get("order_id") or resource.rsplit("/", 1)[-1]`, as a text
  abbrev pub ml_order_id : Option Value → String → String
  ml_order_id none resource = last_of "" (split b'/' resource)
  ml_order_id (some id) resource =
      if truthy id then str_value rt id else last_of "" (split b'/' resource)

  unfoldable pub normalize_mercadolibre : Value → Result NormalizedOrder
  normalize_mercadolibre body = bind_result (get body "resource") λ resource.
      bind_result (get body "order_id") λ id. bind_result (get body "external_reference") λ ref.
        bind_result (get body "status") λ status.
          let order_id = ml_order_id id (text_or rt "" resource) in
          if order_id == ""
          then err (key_error "order_id")
          else ok (record {
            marketplace = "mercadolibre";
            marketplace_order_id = order_id;
            odoo_order_id = odoo_id_from_external_ref ref;
            status = text_or rt "unknown" status;
          })

  abbrev normalize_body : String → Value → Result NormalizedOrder
  unfolding normalize_paris normalize_mercadolibre
  normalize_body source body =
      if source == "paris"
      then normalize_paris body
      else if source == "mercadolibre"
      then normalize_mercadolibre body
      else err (poison_error (cat ("unknown source: " ∷ source ∷ [])))

  unfoldable pub normalize_event : String → Value → Result NormalizedOrder
  unfolding exc_text normalize_body
  normalize_event source body = poisoned source (normalize_body source body)
