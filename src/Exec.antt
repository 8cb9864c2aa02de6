-- ===== src/Exec.antt =====
-- Python's exceptions as values, and actions that change a state and may raise. What was written
-- before a raise stays written, so the state comes back beside the error too.
use retail_order_sync_hub.Base.{ℕ, String, Bool, [], ◌∷◌, cat, ◌≡◌, refl, ◌⊎◌, inl, inr}

-- An exception's class with its text. `adapter_error` has the field `permanent`; `rate_limited` the
-- field `retry_after`, in milliseconds; `http_error` is a response that `raise_for_status` refuses;
-- `other` is any exception of a library that the program handles by `except Exception` alone.
pub data Exc : Type 0 where
  json_decode_error key_error type_error attribute_error value_error : String → Exc
  permission_error runtime_error poison_error validation_error transport_error : String → Exc
  other : String → Exc
  adapter_error : String → Bool → Exc
  rate_limited : ℕ → String → Exc
  http_error : ℕ → String → Exc

-- str(exc)
unfoldable pub exc_text : Exc → String
exc_text (json_decode_error t) = t
exc_text (key_error k) = cat ("'" ∷ k ∷ "'" ∷ [])
exc_text (type_error t) = t
exc_text (attribute_error t) = t
exc_text (value_error t) = t
exc_text (permission_error t) = t
exc_text (runtime_error t) = t
exc_text (poison_error t) = t
exc_text (validation_error t) = t
exc_text (transport_error t) = t
exc_text (other t) = t
exc_text (adapter_error t permanent) = t
exc_text (rate_limited after t) = t
exc_text (http_error status t) = t

pub data Result {ℓ} (A : Type ℓ) : Type ℓ where
  ok : A → Result A
  err : Exc → Result A

abbrev pub Exec : Type 0 → Type 0 → Type 0
Exec S A = S → Result A × S

module _ {S A : Type 0} where
  unfoldable pub pure : A → Exec S A
  pure a s = (ok a, s)

  unfoldable pub raise : Exc → Exec S A
  raise e s = (err e, s)

  unfoldable pub lift : Result A → Exec S A
  lift r s = (r, s)

  unfoldable pub gets : (S → A) → Exec S A
  gets f s = (ok (f s), s)

  abbrev pub recover : Result A → (Exc → Exec S A) → Exec S A
  recover (ok a) h s = (ok a, s)
  recover (err e) h s = h e s

  -- try: m; except … as e: h e
  unfoldable pub try : Exec S A → (Exc → Exec S A) → Exec S A
  try m h s = let (r, s') = m s in recover r h s'

module _ {S : Type 0} where
  unfoldable pub modify : (S → S) → Exec S (Unit {0})
  modify f s = (ok tt, f s)

module _ {S A B : Type 0} where
  abbrev pub continue : Result A → (A → Exec S B) → Exec S B
  continue (ok a) f s = f a s
  continue (err e) f s = (err e, s)

  infixl 10 ◌>>◌ ◌>>=◌
  -- Opening this opens the actions above too.
  unfoldable pub ◌>>=◌ : Exec S A → (A → Exec S B) → Exec S B
  unfolding pure raise lift gets modify try
  ◌>>=◌ first rest s = let (result, left) = first s in continue result rest left

  abbrev pub ◌>>◌ : Exec S A → Exec S B → Exec S B
  first >> second = first >>= λ _. second

pub ok-injective : {A : Type 0} {a b : A} → ok a ≡ ok b → a ≡ b
ok-injective h = cc

pub Result-cases : {A : Type 0} (r : Result A) → ((a : A) × (r ≡ ok a)) ⊎ ((e : Exc) × (r ≡ err e))
Result-cases (ok a) = inl (a, refl)
Result-cases (err e) = inr (e, refl)

-- Chains of pure code that may raise.
unfoldable pub bind_result : {A B : Type 0} → Result A → (A → Result B) → Result B
bind_result (ok a) f = f a
bind_result (err e) f = err e
