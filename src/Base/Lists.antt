-- ===== src/Base/Lists.antt =====
-- Lists measured by native numbers, under the library's names, and predicates on their elements.
use Prim.Native.Nat.{ℕ, zero, suc, ◌+◌, ◌≤◌}
use mathlib.Core.Path.{◌≡◌, refl, sym, ap, subst}
use mathlib.Core.Logic.{◌⊎◌, inl, inr}
use mathlib.Core.Bool.{Bool, true, false, ◌&&◌, ◌||◌}
use mathlib.Core.List.{List, [], ◌∷◌, ◌++◌, map}
use mathlib.Core.Option.{Option, none, some, some-injective}
use native.Mathlib.Omega.{arith}
use retail_order_sync_hub.Base.Tests.{if◌then◌else◌, Bool-cases}

module _ {ℓ} {A : Type ℓ} where
  abbrev pub length : List A → ℕ
  length [] = 0
  length (x ∷ xs) = suc (length xs)

  abbrev pub take : ℕ → List A → List A
  take zero xs = []
  take (suc n) [] = []
  take (suc n) (x ∷ xs) = x ∷ take n xs

  -- [x for x in xs if p(x)]
  abbrev pub select : (A → Bool) → List A → List A
  select p [] = []
  select p (x ∷ xs) = let rest = select p xs in if p x then x ∷ rest else rest

  -- The first element that passes, as `Session.scalar` returns it.
  abbrev pub find : (A → Bool) → List A → Option A
  find p [] = none
  find p (x ∷ xs) = let rest = find p xs in if p x then some x else rest

  abbrev pub any : (A → Bool) → List A → Bool
  any p [] = false
  any p (x ∷ xs) = p x || any p xs

  abbrev pub all : (A → Bool) → List A → Bool
  all p [] = true
  all p (x ∷ xs) = p x && all p xs

  abbrev pub head? : List A → Option A
  head? [] = none
  head? (x ∷ xs) = some x

  pub length-append : (xs ys : List A) → length (xs ++ ys) ≡ length xs + length ys
  length-append [] ys = omega arith
  length-append (x ∷ xs) ys = omega (arith, length-append xs ys)

  pub length-take-le : (n : ℕ) (xs : List A) → length (take n xs) ≤ n
  length-take-le zero xs = omega arith
  length-take-le (suc n) [] = omega arith
  length-take-le (suc n) (x ∷ xs) = omega (arith, length-take-le n xs)

pub length-map {ℓ κ} :
    {A : Type ℓ} {B : Type κ} (xs : List A) (f : A → B) → length (map f xs) ≡ length xs
length-map [] f = refl
length-map (x ∷ xs) f = ap suc (length-map xs f)

pub find-any {ℓ} : {A : Type ℓ} (p : A → Bool) (xs : List A) → any p xs ≡ false → find p xs ≡ none
find-any p [] h = refl
find-any p (x ∷ xs) h = ground (arith, find-any p xs)

pub any-append {ℓ} :
    {A : Type ℓ} (p : A → Bool) (xs ys : List A) → any p (xs ++ ys) ≡ (any p xs || any p ys)
any-append p [] ys = refl
any-append p (x ∷ xs) ys = ground (arith, any-append p xs ys)

pub any-snoc {ℓ} :
    {A : Type ℓ} (p : A → Bool) (xs : List A) (x : A) → any p (xs ++ x ∷ []) ≡ (any p xs || p x)
any-snoc p [] x = ground arith
any-snoc p (y ∷ ys) x = ground (arith, any-snoc p ys x)

module _ {ℓ κ} {A : Type ℓ} (P : A → Type κ) where
  abbrev pub All : List A → Type κ
  All [] = Unit
  All (x ∷ xs) = P x × All xs

  pub All-append : (xs ys : List A) → All xs → All ys → All (xs ++ ys)
  All-append [] ys hx hy = hy
  All-append (x ∷ xs) ys (p, hx) hy = (p, All-append xs ys hx hy)

  pub All-take : (n : ℕ) (xs : List A) → All xs → All (take n xs)
  All-take zero xs h = tt
  All-take (suc n) [] h = tt
  All-take (suc n) (x ∷ xs) (p, h) = (p, All-take n xs h)

module _ {A : Type 0} where
  -- Membership, by recursion.
  abbrev pub In : A → List A → Type 0
  In x [] = ⊥
  In x (y ∷ ys) = (x ≡ y) ⊎ In x ys

  pub All-mono {κ} : (P Q : A → Type κ) (xs : List A) → ((x : A) → P x → Q x) → All P xs → All Q xs
  All-mono P Q [] f h = tt
  All-mono P Q (x ∷ xs) f (p, h) = (f x p, All-mono P Q xs f h)

  pub All-both {κ} :
      (P Q R : A → Type κ) (xs : List A)
      → ((x : A) → P x → Q x → R x)
      → All P xs
      → All Q xs
      → All R xs
  All-both P Q R [] f h k = tt
  All-both P Q R (x ∷ xs) f (p, h) (q, k) = (f x p q, All-both P Q R xs f h k)

  pub All-In : (xs : List A) → All (λ x. In x xs) xs
  All-In [] = tt
  All-In (x ∷ xs) =
      (inl refl, All-mono (λ y. In y xs) (λ y. In y (x ∷ xs)) xs (λ y i. inr i) (All-In xs))

  pub All-select {κ} :
      (P : A → Type κ) (p : A → Bool) (xs : List A) → All P xs → All P (select p xs)
  All-select P p [] h = tt
  All-select P p (x ∷ xs) (q, h) = elim (Bool-cases (p x)) [
    | inl e ↦ rw e (q, All-select P p xs h)
    | inr e ↦ rw e (All-select P p xs h)
  ]

  pub In-select : (p : A → Bool) (x : A) (xs : List A) → In x xs → p x ≡ true → In x (select p xs)
  In-select p x [] i h = elim i [ ]
  In-select p x (y ∷ ys) (inl e) h = let e' : p y ≡ true = rw (sym e) h in rw e' (inl e)
  In-select p x (y ∷ ys) (inr i) h = elim (Bool-cases (p y)) [
    | inl hit ↦ rw hit (inr (In-select p x ys i h))
    | inr miss ↦ rw miss (In-select p x ys i h)
  ]

  -- What is selected passes the test.
  pub select-All : (p : A → Bool) (xs : List A) → All (λ x. p x ≡ true) (select p xs)
  select-All p [] = tt
  select-All p (x ∷ xs) = elim (Bool-cases (p x)) [
    | inl hit ↦ rw hit (hit, select-All p xs)
    | inr miss ↦ rw miss (select-All p xs)
  ]

  -- Tests that agree select the same.
  pub select-ext :
      (p q : A → Bool) → ((x : A) → p x ≡ q x) → (xs : List A) → select p xs ≡ select q xs
  select-ext p q same [] = refl
  select-ext p q same (x ∷ xs) = rw (same x) (rw (select-ext p q same xs) refl)

  pub of_In {κ} : (P : A → Type κ) (x : A) (xs : List A) → All P xs → In x xs → P x
  of_In P x [] h i = elim i [ ]
  of_In P x (y ∷ ys) (p, h) (inl e) = subst P (sym e) p
  of_In P x (y ∷ ys) (p, h) (inr i) = of_In P x ys h i

  -- What is found is in the list, and passes the test.
  pub find-In : (p : A → Bool) (xs : List A) {x : A} → find p xs ≡ some x → In x xs × (p x ≡ true)
  find-In p [] h = absurd (cc)
  find-In p (y ∷ ys) {x} h = elim (Bool-cases (p y)) [
    | inl hit ↦
        let e : y ≡ x = some-injective _ _ (rw hit at h) in
        (inl (sym e), subst (λ z. p z ≡ true) e hit)
    | inr miss ↦ let (i, q) = find-In p ys (rw miss at h) in (inr i, q)
  ]

  pub In-append : (x : A) (xs ys : List A) → In x xs → In x (xs ++ ys)
  In-append x [] ys i = elim i [ ]
  In-append x (y ∷ xs) ys (inl e) = inl e
  In-append x (y ∷ xs) ys (inr i) = inr (In-append x xs ys i)
