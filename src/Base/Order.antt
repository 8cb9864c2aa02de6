-- ===== src/Base/Order.antt =====
-- `ORDER BY key` and `list.sort(key=…)`: a stable sort by a test of the order.
use Prim.Native.Nat.{ℕ, zero, suc}
use Prim.Native.Char.{code}
use Prim.Native.String.{String, [], ◌∷◌}
use mathlib.Core.Logic.{◌⊎◌, inl, inr}
use mathlib.Core.List.{List, [], ◌∷◌, Perm}
use mathlib.Core.List.Perm
use mathlib.Core.Path.{◌≡◌, refl, ap, ◌∙◌}
use mathlib.Core.Bool.{Bool, true, false, ◌||◌}
use native.Mathlib.Omega.{arith}
use retail_order_sync_hub.Base.Tests.{ltb, leb, eqb, Bool-cases, if◌then◌else◌}
use retail_order_sync_hub.Base.Lists.{All, any, All-mono, In, of_In, length, take}

module _ {A : Type 0} (le : A → A → Bool) where
  unfoldable pub place : A → List A → List A
  place x [] = x ∷ []
  place x (y ∷ ys) = let rest = place x ys in if le x y then x ∷ y ∷ ys else y ∷ rest

  unfoldable pub sort_by : List A → List A
  unfolding place
  sort_by [] = []
  sort_by (x ∷ xs) = place x (sort_by xs)

  -- Every element may stand before each that is behind it.
  abbrev pub IsSorted : List A → Type 0
  IsSorted [] = Unit
  IsSorted (x ∷ xs) = All (λ y. le x y ≡ true) xs × IsSorted xs

  place-perm : (x : A) (xs : List A) → Perm (place x xs) (x ∷ xs)
  unfolding place
  place-perm x [] = Perm.refl (x ∷ [])
  place-perm x (y ∷ ys) = elim (Bool-cases (le x y)) [
    | inl before ↦ rw before (Perm.refl (x ∷ y ∷ ys))
    | inr behind ↦ rw behind (Perm.trans (Perm.cons y (place-perm x ys)) (Perm.swap x y ys))
  ]

  pub sort_by-perm : (xs : List A) → Perm (sort_by xs) xs
  unfolding sort_by
  sort_by-perm [] = Perm.refl []
  sort_by-perm (x ∷ xs) = Perm.trans (place-perm x (sort_by xs)) (Perm.cons x (sort_by-perm xs))

  All-place {ℓ} : (P : A → Type ℓ) (x : A) (xs : List A) → P x → All P xs → All P (place x xs)
  unfolding place
  All-place P x [] p h = (p, tt)
  All-place P x (y ∷ ys) p h = elim (Bool-cases (le x y)) [
    | inl before ↦ rw before (p, (h.0, h.1))
    | inr behind ↦ rw behind (h.0, All-place P x ys p h.1)
  ]

  pub All-sort_by {ℓ} : (P : A → Type ℓ) (xs : List A) → All P xs → All P (sort_by xs)
  unfolding sort_by
  All-sort_by P [] h = tt
  All-sort_by P (x ∷ xs) (p, h) = All-place P x (sort_by xs) p (All-sort_by P xs h)

  any-place : (p : A → Bool) (x : A) (xs : List A) → any p (place x xs) ≡ (p x || any p xs)
  unfolding place
  any-place p x [] = refl
  any-place p x (y ∷ ys) = ground (arith, any-place p x ys)

  pub any-sort_by : (p : A → Bool) (xs : List A) → any p (sort_by xs) ≡ any p xs
  unfolding sort_by
  any-sort_by p [] = refl
  any-sort_by p (x ∷ xs) = any-place p x (sort_by xs) ∙ ap (λ b. p x || b) (any-sort_by p xs)

  In-place_self : (x : A) (xs : List A) → In x (place x xs)
  unfolding place
  In-place_self x [] = inl refl
  In-place_self x (y ∷ ys) = elim (Bool-cases (le x y)) [
    | inl before ↦ rw before (inl refl)
    | inr behind ↦ rw behind (inr (In-place_self x ys))
  ]

  In-place : (z x : A) (xs : List A) → In z xs → In z (place x xs)
  unfolding place
  In-place z x [] i = elim i [ ]
  In-place z x (y ∷ ys) (inl e) = elim (Bool-cases (le x y)) [
    | inl before ↦ rw before (inr (inl e))
    | inr behind ↦ rw behind (inl e)
  ]
  In-place z x (y ∷ ys) (inr i) = elim (Bool-cases (le x y)) [
    | inl before ↦ rw before (inr (inr i))
    | inr behind ↦ rw behind (inr (In-place z x ys i))
  ]

  pub In-sort_by : (z : A) (xs : List A) → In z xs → In z (sort_by xs)
  unfolding sort_by
  In-sort_by z [] i = elim i [ ]
  In-sort_by z (x ∷ xs) (inl e) = rw e (In-place_self x (sort_by xs))
  In-sort_by z (x ∷ xs) (inr i) = In-place z x (sort_by xs) (In-sort_by z xs i)

  -- Of a sorted list an element is among the first `n`, or there are `n` that may stand before it.
  pub take-IsSorted :
      (n : ℕ) (z : A) (xs : List A)
      → IsSorted xs
      → In z xs
      → In z (take n xs) ⊎ ((length (take n xs) ≡ n) × All (λ y. le y z ≡ true) (take n xs))
  take-IsSorted zero z xs s i = inr (refl, tt)
  take-IsSorted (suc n) z [] s i = elim i [ ]
  take-IsSorted (suc n) z (x ∷ xs) s (inl e) = inl (inl e)
  take-IsSorted (suc n) z (x ∷ xs) (first, s) (inr i) = elim (take-IsSorted n z xs s i) [
    | inl j ↦ inl (inr j)
    | inr (full, before) ↦ inr (ap suc full, (of_In (λ y. le x y ≡ true) z xs first i, before))
  ]

  module _ (total : (x y : A) → le x y ≡ false → le y x ≡ true)
      (transitive : (x y z : A) → le x y ≡ true → le y z ≡ true → le x z ≡ true) where
    place-IsSorted : (x : A) (xs : List A) → IsSorted xs → IsSorted (place x xs)
    unfolding place
    place-IsSorted x [] h = (tt, tt)
    place-IsSorted x (y ∷ ys) (p, h) = elim (Bool-cases (le x y)) [
      | inl before ↦ rw before (
        (
          before,
          All-mono (λ z. le y z ≡ true) (λ z. le x z ≡ true) ys (λ z q. transitive x y z before q)
              p,
        ),
        (p, h),
      )
      | inr behind ↦
          rw behind
            (All-place (λ z. le y z ≡ true) x ys (total x y behind) p, place-IsSorted x ys h)
    ]

    pub sort_by-IsSorted : (xs : List A) → IsSorted (sort_by xs)
    unfolding sort_by
    sort_by-IsSorted [] = tt
    sort_by-IsSorted (x ∷ xs) = place-IsSorted x (sort_by xs) (sort_by-IsSorted xs)

module _ {A : Type 0} (key : A → ℕ) where
  abbrev pub by_key : A → A → Bool
  by_key x y = leb (key x) (key y)

  unfoldable pub order_by : List A → List A
  unfolding sort_by
  order_by = sort_by by_key

  pub All-order_by {ℓ} : (P : A → Type ℓ) (xs : List A) → All P xs → All P (order_by xs)
  unfolding order_by
  All-order_by P xs h = All-sort_by by_key P xs h

  pub order_by-IsSorted : (xs : List A) → IsSorted by_key (order_by xs)
  unfolding order_by
  order_by-IsSorted xs =
      sort_by-IsSorted by_key (λ x y h. ground arith) (λ x y z h k. ground arith) xs

  pub In-order_by : (z : A) (xs : List A) → In z xs → In z (order_by xs)
  unfolding order_by
  In-order_by z xs i = In-sort_by by_key z xs i

  pub any-order_by : (p : A → Bool) (xs : List A) → any p (order_by xs) ≡ any p xs
  unfolding order_by
  any-order_by p xs = any-sort_by by_key p xs

-- a <= b of two texts, by the code points
unfoldable pub text_leb : String → String → Bool
text_leb [] t = true
text_leb (c ∷ s) [] = false
text_leb (c ∷ s) (d ∷ t) =
    let rest = text_leb s t in
    if ltb (code c) (code d) then true else if eqb (code c) (code d) then rest else false

pub text_leb_total : (s t : String) → text_leb s t ≡ false → text_leb t s ≡ true
unfolding text_leb
text_leb_total [] t h = absurd (cc)
text_leb_total (c ∷ s) [] h = refl
text_leb_total (c ∷ s) (d ∷ t) h = ground (arith, text_leb_total s t)

pub text_leb_transitive :
    (s t u : String) → text_leb s t ≡ true → text_leb t u ≡ true → text_leb s u ≡ true
unfolding text_leb
text_leb_transitive [] t u h k = refl
text_leb_transitive (c ∷ s) [] u h k = absurd (cc)
text_leb_transitive (c ∷ s) (d ∷ t) [] h k = absurd (cc)
text_leb_transitive (c ∷ s) (d ∷ t) (e ∷ u) h k = ground (arith, text_leb_transitive s t u)
