-- ===== src/Base/Text.antt =====
-- The methods of Python's `str` that the program calls, over the characters of a text.
use Prim.Native.Nat.{ℕ, zero, suc}
use Prim.Native.Char.{Char, code}
use Prim.Native.String
use Prim.Native.String.{String, [], ◌∷◌}
use mathlib.Core.Path.{◌≡◌, refl}
use mathlib.Core.Bool.{Bool, true, false, ◌&&◌, ◌||◌}
use mathlib.Core.Option.{Option, none, some}
use mathlib.Core.List.{List, [], ◌∷◌}
use native.Mathlib.Omega.{arith}
use text.Mathlib.TextLemmas.{nil-append, cons-append}
use retail_order_sync_hub.Base.Tests.{leb, eqb, eqb_refl, if◌then◌else◌}
use retail_order_sync_hub.Base.Equality.{◌==◌, string_eq}

-- An f-string: the concatenation of its parts.
abbrev pub cat : List String → String
cat [] = ""
cat (s ∷ []) = s
cat (s ∷ t ∷ rest) = String.◌++◌ s (cat (t ∷ rest))

-- What is left of `s` behind the prefix `p`, if it starts with it.
unfoldable pub without_prefix : String → String → Option String
without_prefix [] s = some s
without_prefix (c ∷ p) [] = none
without_prefix (c ∷ p) (d ∷ s) =
    let rest = without_prefix p s in if eqb (code c) (code d) then rest else none

pub without_prefix-append : (p s : String) → without_prefix p (String.◌++◌ p s) ≡ some s
unfolding without_prefix
without_prefix-append [] s = rw nil-append
without_prefix-append (c ∷ p) s =
    rw (cons-append, without_prefix) (rw (eqb_refl (code c)) (without_prefix-append p s))

-- `str.isascii`
unfoldable pub is_ascii : String → Bool
is_ascii [] = true
is_ascii (c ∷ s) = leb (code c) 127 && is_ascii s

-- `str.isspace` of one character.
abbrev pub is_space : ℕ → Bool
is_space c =
    leb 9 c && leb c 13
    || leb 28 c && leb c 32
    || eqb c 0x85
    || eqb c 0xa0
    || eqb c 0x1680
    || leb 0x2000 c && leb c 0x200a
    || eqb c 0x2028
    || eqb c 0x2029
    || eqb c 0x202f
    || eqb c 0x205f
    || eqb c 0x3000

unfoldable pub lstrip : String → String
lstrip [] = ""
lstrip (c ∷ s) = let rest = lstrip s in if is_space (code c) then rest else c ∷ s

unfoldable pub rstrip : String → String
rstrip [] = ""
rstrip (c ∷ s) = let rest = rstrip s in if rest == "" && is_space (code c) then "" else c ∷ rest

-- s.strip()
unfoldable pub strip : String → String
unfolding lstrip rstrip
strip s = rstrip (lstrip s)

abbrev onto_first : Char → List String → List String
onto_first c [] = (c ∷ "") ∷ []
onto_first c (part ∷ parts) = (c ∷ part) ∷ parts

-- s.split(sep), for a separator of one character
unfoldable pub split : ℕ → String → List String
split sep [] = "" ∷ []
split sep (c ∷ s) =
    let rest = split sep s in if eqb (code c) sep then "" ∷ rest else onto_first c rest

abbrev before_with : Char → String × String → String × String
before_with c (before, after) = (c ∷ before, after)

-- s.partition(sep) without the separator itself: all of `s` and "" where there is none
unfoldable pub partition : ℕ → String → String × String
partition sep [] = ("", "")
partition sep (c ∷ s) =
    let rest = partition sep s in if eqb (code c) sep then ("", s) else before_with c rest

-- parts[-1], of a list that is not empty
abbrev pub last_of : String → List String → String
last_of s [] = s
last_of s (part ∷ parts) = last_of part parts

-- s[:n]
unfoldable pub prefix : ℕ → String → String
prefix zero s = ""
prefix (suc n) [] = ""
prefix (suc n) (c ∷ s) = c ∷ prefix n s

abbrev pub is_digit : ℕ → Bool
is_digit c = leb 48 c && leb c 57

unfoldable pub all_digits : String → Bool
all_digits [] = true
all_digits (c ∷ s) = is_digit (code c) && all_digits s

-- s.isdigit(), for a text whose digits are ASCII
unfoldable pub isdigit : String → Bool
unfolding all_digits
isdigit s = if s == "" then false else all_digits s

is_space_of_digit : (c : ℕ) → is_digit c ≡ true → is_space c ≡ false
is_space_of_digit c h = ground arith

lstrip-digits : (s : String) → all_digits s ≡ true → lstrip s ≡ s
unfolding lstrip all_digits
lstrip-digits [] h = refl
lstrip-digits (c ∷ s) h = ground (arith, is_space_of_digit (code c))

rstrip-digits : (s : String) → all_digits s ≡ true → rstrip s ≡ s
unfolding rstrip all_digits
rstrip-digits [] h = refl
rstrip-digits (c ∷ s) h = ground (arith, is_space_of_digit (code c), rstrip-digits s)

-- Digits have no white space around them.
pub strip-digits : (s : String) → all_digits s ≡ true → strip s ≡ s
unfolding strip
strip-digits s h = rw (lstrip-digits s h) (rstrip-digits s h)
