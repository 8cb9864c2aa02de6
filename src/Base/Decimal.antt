-- ===== src/Base/Decimal.antt =====
-- `str(n)` and `int(s)`: decimal texts of integers, and their round trip.
use Prim.Native.Nat.{ℕ, zero, suc, ◌+◌, ◌-◌, ◌*◌, ◌/◌, ◌%◌, ◌<◌}
use Prim.Native.Char.{Char, code}
use Prim.Native.String
use Prim.Native.String.{String, [], ◌∷◌}
use mathlib.Core.Path.{◌≡◌, refl, sym, ap, ◌∙◌}
use mathlib.Core.Logic.{inl, inr}
use mathlib.Core.Bool.{Bool, true, false, ◌&&◌}
use mathlib.Core.Option
use mathlib.Core.Option.{Option, none, some}
use native.Mathlib.Omega.{arith}
use text.Mathlib.TextLemmas.{nil-append, cons-append, append_assoc, append-nil}
use retail_order_sync_hub.Base.Tests.{ltb, ltb→lt, eqb, if◌then◌else◌, Bool-cases}
use retail_order_sync_hub.Base.Int.{ℤ, pos, negsuc, neg}
use retail_order_sync_hub.Base.Text.{strip, strip-digits, is_digit, all_digits}

-- The digit of a number below ten.
digit : ℕ → Char
digit zero = "0"
digit (suc zero) = "1"
digit (suc (suc zero)) = "2"
digit (suc (suc (suc zero))) = "3"
digit (suc (suc (suc (suc zero)))) = "4"
digit (suc (suc (suc (suc (suc zero))))) = "5"
digit (suc (suc (suc (suc (suc (suc zero)))))) = "6"
digit (suc (suc (suc (suc (suc (suc (suc zero))))))) = "7"
digit (suc (suc (suc (suc (suc (suc (suc (suc zero)))))))) = "8"
digit _ = "9"

-- The digits of `n`, on fuel that `decimal` makes larger than `n`.
digits : ℕ → ℕ → String
digits zero n = ""
digits (suc f) n =
    let front = digits f (n / 10) in
    if ltb n 10 then digit n ∷ "" else String.◌++◌ front (digit (n % 10) ∷ "")

-- str(n), of a number that is not negative
unfoldable pub decimal : ℕ → String
unfolding digits digit
decimal n = digits (suc n) n

-- str(n)
unfoldable pub str_int : ℤ → String
unfolding decimal
str_int (pos n) = decimal n
str_int (negsuc n) = String.◌++◌ "-" (decimal (suc n))

-- The value of the digits that follow, behind the value `acc`. `after` says that a digit stands just
-- before: only there may an underscore or the end come.
read_digits : Bool → ℕ → String → Option ℕ
read_digits after acc [] = if after then some acc else none
read_digits after acc (c ∷ s) =
    let go_on = read_digits true (acc * 10 + (code c - 48)) s in
    let skip = read_digits false acc s in
    if is_digit (code c) then go_on else if eqb (code c) b'_' && after then skip else none

read_signed : String → Option ℤ
unfolding read_digits
read_signed [] = none
read_signed (c ∷ s) =
    if eqb (code c) b'-'
    then Option.map neg (read_digits false 0 s)
    else if eqb (code c) b'+'
    then Option.map pos (read_digits false 0 s)
    else Option.map pos (read_digits false 0 (c ∷ s))

-- int(s), `none` for a `ValueError`; the digits are ASCII
unfoldable pub int_of : String → Option ℤ
unfolding read_signed
int_of s = read_signed (strip s)

code-digit : (n : ℕ) → n < 10 → code (digit n) ≡ 48 + n
unfolding digit
code-digit zero h = refl
code-digit (suc zero) h = refl
code-digit (suc (suc zero)) h = refl
code-digit (suc (suc (suc zero))) h = refl
code-digit (suc (suc (suc (suc zero)))) h = refl
code-digit (suc (suc (suc (suc (suc zero))))) h = refl
code-digit (suc (suc (suc (suc (suc (suc zero)))))) h = refl
code-digit (suc (suc (suc (suc (suc (suc (suc zero))))))) h = refl
code-digit (suc (suc (suc (suc (suc (suc (suc (suc zero)))))))) h = refl
code-digit (suc (suc (suc (suc (suc (suc (suc (suc (suc zero))))))))) h = refl
code-digit (suc (suc (suc (suc (suc (suc (suc (suc (suc (suc n)))))))))) h = absurd (omega arith)

is_digit_above : (d : ℕ) → d < 10 → is_digit (48 + d) ≡ true
is_digit_above d h = ground arith

-- Reading one more digit.
read_digits-digit :
    (after : Bool) (acc d : ℕ) (t : String)
    → d < 10
    → read_digits after acc (digit d ∷ t) ≡ read_digits true (acc * 10 + d) t
unfolding read_digits
read_digits-digit after acc d t h =
    let e : 48 + d - 48 ≡ d = omega arith in
    rw (code-digit d h) (rw (is_digit_above d h) (rw e refl))

read_digits-digits :
    (f n : ℕ) (t : String)
    → n < f
    → read_digits false 0 (String.◌++◌ (digits f n) t) ≡ read_digits true n t
unfolding digits
read_digits-digits zero n t h = absurd (omega arith)
read_digits-digits (suc f) n t h = elim (Bool-cases (ltb n 10)) [
  | inl small ↦
      let e : 0 * 10 + n ≡ n = omega arith in
      rw small (
        rw (cons-append, nil-append)
          (read_digits-digit false 0 n t (ltb→lt n 10 small) ∙ ap (λ k. read_digits true k t) e))
  | inr large ↦
      let low : n % 10 < 10 = omega arith in
      let e : n / 10 * 10 + n % 10 ≡ n = omega arith in
      rw large (
        rw (append_assoc, cons-append, nil-append)
          (read_digits-digits f (n / 10) (digit (n % 10) ∷ t) (ground arith)
            ∙ read_digits-digit true (n / 10) (n % 10) t low
            ∙ ap (λ k. read_digits true k t) e))
]

all_digits-append :
    (s t : String) → all_digits s ≡ true → all_digits t ≡ true → all_digits (String.◌++◌ s t) ≡ true
unfolding all_digits
all_digits-append [] t hs ht = rw nil-append ht
all_digits-append (c ∷ s) t hs ht =
    rw (cons-append, all_digits) (ground (arith, all_digits-append s t))

all_digits-digit : (d : ℕ) → d < 10 → all_digits (digit d ∷ "") ≡ true
unfolding all_digits
all_digits-digit d h = rw (code-digit d h) (rw (is_digit_above d h))

all_digits-digits : (f n : ℕ) → all_digits (digits f n) ≡ true
unfolding digits
all_digits-digits zero n = unfold all_digits in refl
all_digits-digits (suc f) n = elim (Bool-cases (ltb n 10)) [
  | inl small ↦ rw small (all_digits-digit n (ltb→lt n 10 small))
  | inr large ↦ rw large (
      all_digits-append _ _ (all_digits-digits f (n / 10))
        (all_digits-digit (n % 10) (omega arith)))
]

read_signed-digits :
    (s : String) → all_digits s ≡ true → read_signed s ≡ Option.map pos (read_digits false 0 s)
unfolding read_signed
read_signed-digits [] h = refl
read_signed-digits (c ∷ s) h = not_a_sign c s (first_digit c s h)
  where
    first_digit : (c : Char) (s : String) → all_digits (c ∷ s) ≡ true → is_digit (code c) ≡ true
    first_digit c s h = unfold all_digits in ground arith

    not_a_sign :
        (c : Char) (s : String)
        → is_digit (code c) ≡ true
        → read_signed (c ∷ s) ≡ Option.map pos (read_digits false 0 (c ∷ s))
    not_a_sign c s h = ground arith

pub all_digits-decimal : (n : ℕ) → all_digits (decimal n) ≡ true
all_digits-decimal n = unfold decimal in all_digits-digits (suc n) n

read_digits-decimal : (n : ℕ) → read_digits false 0 (decimal n) ≡ some n
unfolding decimal
read_digits-decimal n =
    ap (read_digits false 0) (sym (append-nil (digits (suc n) n)))
    ∙ read_digits-digits (suc n) n "" (omega arith)
    ∙ unfold read_digits in refl

-- int(str(n)) is n, for a number that is not negative.
pub int_of-decimal : (n : ℕ) → int_of (decimal n) ≡ some (pos n)
int_of-decimal n =
    let e = all_digits-decimal n in
    unfold int_of in
    rw (strip-digits _ e) (read_signed-digits _ e ∙ ap (Option.map pos) (read_digits-decimal n))
