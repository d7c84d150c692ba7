-- ===== src/Prelude/Text.antt =====
-- Text: `strconv.ParseInt(s, 10, 64)`, `%d` and `strings.TrimSpace`.
use Prim.Native.Nat.{ℕ, zero, suc, ◌+◌, ◌-◌, ◌*◌, ◌/◌, ◌%◌, ◌^◌}
use Prim.Native.Char.{Char, code}
use Prim.Native.String.{String, ◌++◌}
use mathlib.Core.Path.{◌≡◌, refl}
use mathlib.Core.Bool.{Bool, true, false, ◌&&◌, ◌||◌}
use mathlib.Core.Option.{Option, none, some}
use native.Mathlib.Omega.{arith}
use ptrans.Prelude.Tests.{ltb, leb, ◌==◌, if◌then◌else◌, Bool-cases}
use mathlib.Core.Logic.{inl, inr}
use ptrans.Prelude.Int.{ℤ, pos, negsuc, sub_ℕ, IsInt64}

-- The digits of a text after those already read; `none` is a syntax error.
digits_after : ℕ → String → Option ℕ
digits_after n String.[] = some n
digits_after n (String.◌∷◌ c s) =
    if leb b'0' (code c) && leb (code c) b'9'
    then digits_after (n * 10 + (code c - b'0')) s
    else none

unsigned : String → Option ℕ
unfolding digits_after
unsigned String.[] = none
unsigned (String.◌∷◌ c s) = digits_after 0 (String.◌∷◌ c s)

-- A value out of the range of int64 is an error.
in_range : Bool → Option ℕ → Option ℤ
in_range negative none = none
in_range negative (some n) =
    if negative
    then (if leb n (2 ^ 63) then some (sub_ℕ 0 n) else none)
    else (if ltb n (2 ^ 63) then some (pos n) else none)

unfoldable pub parse_int : String → Option ℤ
unfolding unsigned in_range
parse_int String.[] = none
parse_int (String.◌∷◌ c s) =
    if code c == b'-'
    then in_range Bool.true (unsigned s)
    else if code c == b'+'
    then in_range Bool.false (unsigned s)
    else in_range Bool.false (unsigned (String.◌∷◌ c s))

in_range-IsInt64 :
    (negative : Bool) (o : Option ℕ) {z : ℤ} → in_range negative o ≡ some z → IsInt64 z
unfolding in_range
in_range-IsInt64 negative none h = ground arith
in_range-IsInt64 negative (some n) h = ground arith

digit : ℕ → String
digit n =
    if n == 0
    then "0"
    else if n == 1
    then "1"
    else if n == 2
    then "2"
    else if n == 3
    then "3"
    else if n == 4
    then "4"
    else if n == 5
    then "5"
    else if n == 6
    then "6"
    else if n == 7
    then "7"
    else if n == 8
    then "8"
    else "9"

itoa_fuel : ℕ → ℕ → String
itoa_fuel zero n = ""
itoa_fuel (suc f) n =
    let front = itoa_fuel f (n / 10) in if ltb n 10 then digit n else front ++ digit (n % 10)

-- `%d` of a number that is not negative; `n + 1` rounds are more than its digits.
unfoldable pub itoa : ℕ → String
unfolding itoa_fuel digit
itoa n = itoa_fuel (suc n) n

itoa_test : itoa 503 ≡ "503"
unfolding itoa
itoa_test = refl

parse_int_test : parse_int "-12" ≡ some (negsuc 11)
unfolding parse_int
parse_int_test = refl

parse_int_overflow_test : parse_int "9223372036854775808" ≡ none
unfolding parse_int
parse_int_overflow_test = refl

-- `unicode.IsSpace`.
unfoldable pub is_space : ℕ → Bool
is_space c =
    (leb 9 c && leb c 13)
    || c == 32
    || c == 0x85
    || c == 0xa0
    || c == 0x1680
    || (leb 0x2000 c && leb c 0x200a)
    || c == 0x2028
    || c == 0x2029
    || c == 0x202f
    || c == 0x205f
    || c == 0x3000

trim_left : String → String
unfolding is_space
trim_left String.[] = String.[]
trim_left (String.◌∷◌ c s) =
    let rest = trim_left s in if is_space (code c) then rest else String.◌∷◌ c s

attach : Char → String → String
unfolding is_space
attach c String.[] = if is_space (code c) then String.[] else String.◌∷◌ c String.[]
attach c (String.◌∷◌ d s) = String.◌∷◌ c (String.◌∷◌ d s)

trim_right : String → String
unfolding attach
trim_right String.[] = String.[]
trim_right (String.◌∷◌ c s) = attach c (trim_right s)

-- `strings.TrimSpace`.
unfoldable pub trim_space : String → String
unfolding trim_left trim_right
trim_space s = trim_right (trim_left s)

trim_space_test : trim_space "  a b " ≡ "a b"
unfolding trim_space
trim_space_test = refl

unfoldable pub no_space : String → Bool
no_space String.[] = true
no_space (String.◌∷◌ c s) = let rest = no_space s in if is_space (code c) then false else rest

clash : {C : Type 0} → false ≡ true → C
clash h = cc

attach_same : (c : Char) (s : String) → is_space (code c) ≡ false → attach c s ≡ String.◌∷◌ c s
unfolding attach
attach_same c String.[] e = rw e refl
attach_same c (String.◌∷◌ d s) e = refl

trim_right_same : (s : String) → no_space s ≡ true → trim_right s ≡ s
unfolding trim_right no_space attach
trim_right_same String.[] h = refl
trim_right_same (String.◌∷◌ c s) h = elim (Bool-cases (is_space (code c))) [
  | inl e ↦ clash (rw e at h)
  | inr e ↦ rw (trim_right_same s (rw e at h)) (attach_same c s e)
]

-- A text without spaces is left as it is.
pub trim_space_same : (s : String) → no_space s ≡ true → trim_space s ≡ s
unfolding trim_space trim_left no_space
trim_space_same String.[] h = refl
trim_space_same (String.◌∷◌ c s) h = elim (Bool-cases (is_space (code c))) [
  | inl e ↦ clash (rw e at h)
  | inr e ↦ rw e (trim_right_same (String.◌∷◌ c s) h)
]
