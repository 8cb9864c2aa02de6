-- ===== src/Subscriber/Normalize/Poison.antt =====
-- Normalization: the ERP's id comes back, and an event that is an object fails as poison alone.
use retail_order_sync_hub.Base.{
  ℕ, pos, String, ◌==◌, string_eq, some, [], ◌∷◌, ◌≡◌, refl, ap, ◌∙◌, ◌⊎◌, inl, inr, Bool-cases,
  Option-cases, cat, decimal, int_of, int_of-decimal, str_int, without_prefix-append, partition,
  eq_iff,
}
use Prim.Native.String
use text.Mathlib.TextLemmas.{nil-append, cons-append}
use retail_order_sync_hub.Json.{Value, str, obj, Fields, field_of}
use retail_order_sync_hub.Access.{index, text_or}
use retail_order_sync_hub.Services.{Runtime}
use retail_order_sync_hub.Exec.{key_error, poison_error, Result, ok, err, bind_result}
use retail_order_sync_hub.Subscriber.Normalize.{
  NormalizedOrder, odoo_id_from_external_ref, normalize_event, poisoned, normalize_paris,
  normalize_mercadolibre, ml_order_id,
}

partition-odoo : (s : String) → (partition b'-' (String.◌++◌ "odoo-" s)).1 ≡ s
unfolding partition
partition-odoo s =
    rw cons-append
      (rw cons-append (rw cons-append (rw cons-append (rw cons-append (rw nil-append refl)))))

str_int-pos : (n : ℕ) → str_int (pos n) ≡ decimal n
unfolding str_int
str_int-pos n = refl

-- The reference that the outbox source gives to an order of the ERP, whose id is not negative, is
-- read back to the order's id.
pub odoo_id_from_external_ref-odoo :
    (n : ℕ)
    → odoo_id_from_external_ref (some (str (cat ("odoo-" ∷ str_int (pos n) ∷ [])))) ≡ some (pos n)
unfolding odoo_id_from_external_ref
odoo_id_from_external_ref-odoo n = rw (str_int-pos n) (
    rw (without_prefix-append "odoo-" (decimal n))
      (ap int_of (partition-odoo (decimal n)) ∙ int_of-decimal n))

-- The outcomes that the handler of the subscriber knows.
abbrev pub IsOrderOrPoison : Result NormalizedOrder → Type 0
IsOrderOrPoison (ok order) = Unit
IsOrderOrPoison (err (poison_error t)) = Unit
IsOrderOrPoison _ = ⊥

-- What a look-up in a dict may raise is a `KeyError` alone.
index-obj :
    (fs : Fields) (k : String)
    → ((v : Value) × (index (obj fs) k ≡ ok v)) ⊎ (index (obj fs) k ≡ err (key_error k))
index-obj fs k = elim (Option-cases (field_of k fs)) [
  | inl missing ↦ inr (rw missing refl)
  | inr (v, there) ↦ inl (v, rw there refl)
]

module _ (rt : Runtime) (fs : Fields) where
  paris_known : IsOrderOrPoison (poisoned "paris" (normalize_paris rt (obj fs)))
  unfolding normalize_paris bind_result
  paris_known = elim (index-obj fs "order_id") [
    | inl (id, e) ↦ elim (index-obj fs "status") [
      | inl (status, f) ↦ rw e (rw f tt)
      | inr f ↦ rw e (rw f tt)
    ]
    | inr e ↦ rw e tt
  ]

  mercadolibre_known :
      IsOrderOrPoison (poisoned "mercadolibre" (normalize_mercadolibre rt (obj fs)))
  unfolding normalize_mercadolibre bind_result
  mercadolibre_known =
      elim (Bool-cases
        (ml_order_id rt (field_of "order_id" fs) (text_or rt "" (field_of "resource" fs)) == "")) [
          | inl empty ↦ rw empty tt
          | inr full ↦ rw full tt
        ]

  -- An event whose body is an object is normalized or is poison, whatever its source and its fields
  -- are: no other exception leaves the normalization.
  pub normalize_event-IsOrderOrPoison :
      (source : String) → IsOrderOrPoison (normalize_event rt source (obj fs))
  unfolding normalize_event
  normalize_event-IsOrderOrPoison source = elim (Bool-cases (source == "paris")) [
    | inl is ↦ rw is (rw ((eq_iff source "paris").0 is) paris_known)
    | inr other ↦ elim (Bool-cases (source == "mercadolibre")) [
      | inl is ↦ rw other (rw is (rw ((eq_iff source "mercadolibre").0 is) mercadolibre_known))
      | inr unknown ↦ rw other (rw unknown tt)
    ]
  ]
