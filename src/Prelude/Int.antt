-- ===== src/Prelude/Int.antt =====
-- Signed integers over the native numbers, and Go's int64: a value is an integer, and arithmetic
-- that may leave the range is wrapped to 64 bits.
use Prim.Native.Nat.{ℕ, suc, ◌+◌, ◌-◌, ◌%◌, ◌^◌, ◌≤◌, ◌<◌}
use mathlib.Core.Path.{◌≡◌, ap, sym, ◌∙◌}
use mathlib.Core.Bool.{Bool}
use native.Mathlib.Omega.{arith}
use ptrans.Prelude.Tests.{ltb, leb, if◌then◌else◌}

-- `negsuc n` is -(n + 1).
pub data ℤ : Type 0 where
  pos : ℕ → ℤ
  negsuc : ℕ → ℤ

abbrev pub pos_part : ℤ → ℕ
pos_part (pos n) = n
pos_part (negsuc n) = 0

abbrev pub neg_part : ℤ → ℕ
neg_part (pos n) = 0
neg_part (negsuc n) = suc n

-- a - b, as an integer.
abbrev pub sub_ℕ : ℕ → ℕ → ℤ
sub_ℕ a b = if leb b a then pos (a - b) else negsuc (b - a - 1)

infixl 65 ◌+ℤ◌ ◌-ℤ◌
infix 50 ◌≤ℤ◌ ◌<ℤ◌
unfoldable pub ◌+ℤ◌ : ℤ → ℤ → ℤ
a +ℤ b = sub_ℕ (pos_part a + pos_part b) (neg_part a + neg_part b)

unfoldable pub ◌-ℤ◌ : ℤ → ℤ → ℤ
a -ℤ b = sub_ℕ (pos_part a + neg_part b) (neg_part a + pos_part b)

abbrev pub ◌≤ℤ◌ : ℤ → ℤ → Type 0
a ≤ℤ b = pos_part a + neg_part b ≤ pos_part b + neg_part a

abbrev pub ◌<ℤ◌ : ℤ → ℤ → Type 0
a <ℤ b = pos_part a + neg_part b < pos_part b + neg_part a

abbrev pub ltb_ℤ : ℤ → ℤ → Bool
ltb_ℤ a b = ltb (pos_part a + neg_part b) (pos_part b + neg_part a)

abbrev pub leb_ℤ : ℤ → ℤ → Bool
leb_ℤ a b = leb (pos_part a + neg_part b) (pos_part b + neg_part a)

-- One lemma for each operation lets `omega` work with the operations shut.
pub +ℤ_parts :
    (a b : ℤ)
    → pos_part (a +ℤ b) + neg_part a + neg_part b ≡ neg_part (a +ℤ b) + pos_part a + pos_part b
unfolding ◌+ℤ◌
+ℤ_parts a b = ground arith

pub -ℤ_parts :
    (a b : ℤ)
    → pos_part (a -ℤ b) + neg_part a + pos_part b ≡ neg_part (a -ℤ b) + pos_part a + neg_part b
unfolding ◌-ℤ◌
-ℤ_parts a b = ground arith

pub eq_of_parts : (a b : ℤ) → pos_part a + neg_part b ≡ pos_part b + neg_part a → a ≡ b
eq_of_parts a b h = ground arith

pub ruleset int_laws = (arith, +ℤ_parts, -ℤ_parts, eq_of_parts)

pub pos-add : (a b : ℕ) → pos a +ℤ pos b ≡ pos (a + b)
pos-add a b = omega int_laws

pub +ℤ_assoc : (a b c : ℤ) → a +ℤ b +ℤ c ≡ a +ℤ (b +ℤ c)
+ℤ_assoc a b c = omega int_laws

-- One number in front of both sides.
pub add_both : (w a b c d : ℤ) → a +ℤ c ≡ b +ℤ d → w +ℤ a +ℤ c ≡ w +ℤ b +ℤ d
add_both w a b c d h = +ℤ_assoc w a c ∙ ap (λ z. w +ℤ z) h ∙ sym (+ℤ_assoc w b d)

-- The two's complement reading of an integer at 64 bits.
unfoldable pub wrap64 : ℤ → ℤ
wrap64 a =
    let u = (pos_part a + (2 ^ 64 - neg_part a % 2 ^ 64)) % 2 ^ 64 in
    if ltb u (2 ^ 63) then pos u else negsuc (2 ^ 64 - u - 1)

abbrev pub IsInt64 : ℤ → Type 0
IsInt64 a = (pos_part a < 2 ^ 63) × (neg_part a ≤ 2 ^ 63)

-- A value in range is its own reading.
pub wrap64_of_IsInt64 : (a : ℤ) → IsInt64 a → wrap64 a ≡ a
unfolding wrap64
wrap64_of_IsInt64 (pos n) h = ground arith
wrap64_of_IsInt64 (negsuc n) h = ground arith

-- Taking a part of an int64 that is not negative stays in range.
pub -ℤ-IsInt64 : (a s : ℤ) → IsInt64 a → pos 0 ≤ℤ s → s ≤ℤ a → IsInt64 (a -ℤ s)
unfolding ◌-ℤ◌
-ℤ-IsInt64 (pos a) (pos s) i n h = ground arith
-ℤ-IsInt64 (pos a) (negsuc s) i n h = absurd (omega arith)
-ℤ-IsInt64 (negsuc a) s i n h = absurd (omega arith)
