-- ===== src/Base/Equality.antt =====
-- Equality tests as an interface, with instances for the types that the program compares.
use Prim.Native.Nat.{ℕ}
use Prim.Native.String.{String}
use mathlib.Core.Path.{◌≡◌}
use mathlib.Core.Logic.{◌↔◌}
use mathlib.Core.Bool.{Bool, true}
use text.Mathlib.Text.{◌==◌ as str_eq}
use text.Mathlib.TextEquality.{eq_iff}
use retail_order_sync_hub.Base.Tests.{eqb, eqb_iff}

-- A test that decides the equality of a type.
pub record Eq {ℓ} (Carrier : Type ℓ) : Type ℓ where
  pub same : Carrier → Carrier → Bool
  pub same_iff : (x y : Carrier) → (same x y ≡ true) ↔ (x ≡ y)

infix 50 ◌==◌
abbrev pub ◌==◌ {ℓ} : {A : Type ℓ} ⦃e : Eq A⦄ → A → A → Bool
◌==◌ ⦃e⦄ = e.same

-- The texts, and then the numbers.
instance abbrev pub string_eq : Eq String
string_eq = record { same = str_eq; same_iff = eq_iff }

instance abbrev pub nat_eq : Eq ℕ
nat_eq = record { same = eqb; same_iff = eqb_iff }
