-- ===== src/Base/Int.antt =====
-- Signed integers (`i64`, `i128`) over the native numbers, under the library's names. Sums and
-- orders go through the two parts of an integer, which are numbers that `omega` reads.
use Prim.Native.Nat.{ℕ, suc, ◌+◌, ◌-◌, ◌*◌, ◌%◌, ◌^◌, ◌≤◌, ◌<◌}
use mathlib.Core.Path.{◌≡◌}
use mathlib.Core.Bool.{Bool, true, false}
use native.Mathlib.Omega.{arith}
use metri_engine.Base.Tests.{ltb, leb, nat_eq, if◌then◌else◌}

-- `negsuc n` is -(n + 1).
pub data ℤ : Type 0 where
  pos : ℕ → ℤ
  negsuc : ℕ → ℤ

abbrev pub pos_part : ℤ → ℕ
pos_part (pos n) = n
pos_part (negsuc n) = 0

abbrev pub neg_part : ℤ → ℕ
neg_part (pos n) = 0
neg_part (negsuc n) = suc n

-- a - b, as an integer.
abbrev pub sub_ℕ : ℕ → ℕ → ℤ
sub_ℕ a b = if leb b a then pos (a - b) else negsuc (b - a - 1)

infixl 65 ◌+ℤ◌
infix 50 ◌≤ℤ◌ ◌<ℤ◌
unfoldable pub ◌+ℤ◌ : ℤ → ℤ → ℤ
a +ℤ b = sub_ℕ (pos_part a + pos_part b) (neg_part a + neg_part b)

unfoldable pub neg : ℤ → ℤ
neg a = sub_ℕ (neg_part a) (pos_part a)

infixl 65 ◌-ℤ◌
infixl 70 ◌*ℤ◌
unfoldable pub ◌-ℤ◌ : ℤ → ℤ → ℤ
a -ℤ b = sub_ℕ (pos_part a + neg_part b) (neg_part a + pos_part b)

unfoldable pub ◌*ℤ◌ : ℤ → ℤ → ℤ
a *ℤ b =
    sub_ℕ (pos_part a * pos_part b + neg_part a * neg_part b)
      (pos_part a * neg_part b + neg_part a * pos_part b)

abbrev pub ◌≤ℤ◌ : ℤ → ℤ → Type 0
a ≤ℤ b = pos_part a + neg_part b ≤ pos_part b + neg_part a

abbrev pub ◌<ℤ◌ : ℤ → ℤ → Type 0
a <ℤ b = suc (pos_part a + neg_part b) ≤ pos_part b + neg_part a

abbrev pub leb_ℤ : ℤ → ℤ → Bool
leb_ℤ a b = leb (pos_part a + neg_part b) (pos_part b + neg_part a)

abbrev pub ltb_ℤ : ℤ → ℤ → Bool
ltb_ℤ a b = ltb (pos_part a + neg_part b) (pos_part b + neg_part a)

-- a.max(0)
abbrev pub is_zero : ℤ → Bool
is_zero (pos n) = nat_eq n 0
is_zero (negsuc n) = false

abbrev pub min_ℤ : ℤ → ℤ → ℤ
min_ℤ a b = if leb_ℤ a b then a else b

abbrev pub max_zero : ℤ → ℤ
max_zero (pos n) = pos n
max_zero (negsuc n) = pos 0

pub +ℤ_parts :
    (a b : ℤ)
    → pos_part (a +ℤ b) + neg_part a + neg_part b ≡ neg_part (a +ℤ b) + pos_part a + pos_part b
unfolding ◌+ℤ◌
+ℤ_parts a b = ground arith

pub -ℤ_parts :
    (a b : ℤ)
    → pos_part (a -ℤ b) + neg_part a + pos_part b ≡ neg_part (a -ℤ b) + pos_part a + neg_part b
unfolding ◌-ℤ◌
-ℤ_parts a b = ground arith

pub neg_parts : (a : ℤ) → pos_part (neg a) + pos_part a ≡ neg_part (neg a) + neg_part a
unfolding neg
neg_parts a = ground arith

pub eq_of_parts : (a b : ℤ) → pos_part a + neg_part b ≡ pos_part b + neg_part a → a ≡ b
eq_of_parts a b h = ground arith

pub ruleset int_laws = (arith, +ℤ_parts, -ℤ_parts, neg_parts, eq_of_parts)

-- Giving back what was just added.
pub +ℤ_cancel : (a b : ℤ) → a +ℤ b +ℤ neg b ≡ a
+ℤ_cancel a b = omega int_laws

-- `n as u64`, `n as u128`: two's complement in `w` bits
abbrev pub as_unsigned : ℕ → ℤ → ℕ
as_unsigned w (pos n) = n
as_unsigned w (negsuc n) = 2 ^ w - suc n

-- the i64 of 64 bits
abbrev pub as_i64 : ℕ → ℤ
as_i64 n = if ltb n (2 ^ 63) then pos n else negsuc (2 ^ 64 - suc n)

abbrev pub IsI64 : ℤ → Type 0
IsI64 (pos n) = n < 2 ^ 63
IsI64 (negsuc n) = n < 2 ^ 63

pub as_unsigned-below : (a : ℤ) → IsI64 a → as_unsigned 64 a < 2 ^ 64
as_unsigned-below (pos n) h = omega arith
as_unsigned-below (negsuc n) h = omega arith

pub as_i64-as_unsigned : (a : ℤ) → IsI64 a → as_i64 (as_unsigned 64 a) ≡ a
as_i64-as_unsigned (pos n) h = ground arith
as_i64-as_unsigned (negsuc n) h = ground arith

-- the signed number of `w` bits with the bits of `n`
abbrev pub as_signed : ℕ → ℕ → ℤ
as_signed w n = if ltb n (2 ^ (w - 1)) then pos n else negsuc (2 ^ w - suc n)

-- What is left of a number in `w` bits, with its sign: `as i64`, and i64 or i128 arithmetic without checks.
unfoldable pub wrap : ℕ → ℤ → ℤ
wrap w (pos n) = as_signed w (n % 2 ^ w)
wrap w (negsuc n) = as_signed w (2 ^ w - suc (n % 2 ^ w))

-- it fits in `w` bits, with its sign
abbrev pub fits : ℕ → ℤ → Bool
fits w (pos n) = ltb n (2 ^ (w - 1))
fits w (negsuc n) = ltb n (2 ^ (w - 1))

pub wrap_pos : (n : ℕ) → n < 2 ^ 63 → wrap 64 (pos n) ≡ pos n
unfolding wrap
wrap_pos n h = ground arith

pub wrap-fits : (a : ℤ) → fits 128 (wrap 128 a) ≡ true
unfolding wrap
wrap-fits (pos n) = ground arith
wrap-fits (negsuc n) = ground arith

pub as_signed-as_unsigned : (a : ℤ) → fits 128 a ≡ true → as_signed 128 (as_unsigned 128 a) ≡ a
as_signed-as_unsigned (pos n) h = ground arith
as_signed-as_unsigned (negsuc n) h = ground arith

pub as_unsigned-lt : (a : ℤ) → fits 128 a ≡ true → as_unsigned 128 a < 2 ^ 128
as_unsigned-lt (pos n) h = ground arith
as_unsigned-lt (negsuc n) h = ground arith
