-- ===== src/Base/Bits.antt =====
-- Bits of a word: `has_bit i x` is bit `i` of `x`, and what the native `|` and `&` do to it.
use Prim.Native.Nat.{
  ℕ, zero, suc, ◌+◌, ◌*◌, ◌/◌, ◌%◌, ◌^◌, ◌≤◌, min, max, digits, bit_or, bit_and, bit_or-bitwise,
  bit_and-bitwise,
}
use mathlib.Core.Path.{◌≡◌, refl, ap, subst, sym, ◌∙◌}
use mathlib.Core.Logic.{◌≢◌}
use mathlib.Core.Bool.{Bool, true, false, true≢false}
use native.Mathlib.Omega.{arith}
use native.Mathlib.Nat.{pow-suc}
use metri_engine.Base.Tests.{nat_eq, nat_eq_iff}

-- Fuel above the first word does not matter to the digit recursion.
pub more_fuel :
    (z : ℕ → ℕ) (f : ℕ → ℕ → ℕ) (k l x y : ℕ) → x ≤ k → x ≤ l → digits z f k x y ≡ digits z f l x y
more_fuel z f zero zero x y h g = refl
more_fuel z f zero (suc l) zero y h g = refl
more_fuel z f (suc k) zero zero y h g = refl
more_fuel z f (suc k) (suc l) zero y h g = refl
more_fuel z f zero (suc l) (suc x) y h g = absurd (omega arith)
more_fuel z f (suc k) zero (suc x) y h g = absurd (omega arith)
more_fuel z f (suc k) (suc l) (suc x) y h g =
    ap (λ d. d * 2 + f (suc x % 2) (y % 2))
      (more_fuel z f k l (suc x / 2) (y / 2) (omega arith) (omega arith))

or_digit : (x y : ℕ) → bit_or x y ≡ bit_or (x / 2) (y / 2) * 2 + max (x % 2) (y % 2)
or_digit zero y = omega (arith, bit_or-bitwise 0 y, bit_or-bitwise 0 (y / 2))
or_digit (suc x) y = omega (
  arith,
  bit_or-bitwise (suc x) y,
  bit_or-bitwise (suc x / 2) (y / 2),
  more_fuel (λ b. b) max x (suc x / 2) (suc x / 2) (y / 2) (omega arith) (omega arith),
)

pub and_digit : (x y : ℕ) → bit_and x y ≡ bit_and (x / 2) (y / 2) * 2 + min (x % 2) (y % 2)
and_digit zero y = omega (arith, bit_and-bitwise 0 y, bit_and-bitwise 0 (y / 2))
and_digit (suc x) y = omega (
  arith,
  bit_and-bitwise (suc x) y,
  bit_and-bitwise (suc x / 2) (y / 2),
  more_fuel (λ b. 0) min x (suc x / 2) (suc x / 2) (y / 2) (omega arith) (omega arith),
)

abbrev pub has_bit : ℕ → ℕ → Bool
has_bit zero x = nat_eq (x % 2) 1
has_bit (suc i) x = has_bit i (x / 2)

or_half : (x y : ℕ) → bit_or x y / 2 ≡ bit_or (x / 2) (y / 2)
or_half x y = omega (arith, or_digit x y)

and_half : (x y : ℕ) → bit_and x y / 2 ≡ bit_and (x / 2) (y / 2)
and_half x y = omega (arith, and_digit x y)

pub has_bit-or_left : (i x y : ℕ) → has_bit i x ≡ true → has_bit i (bit_or x y) ≡ true
has_bit-or_left zero x y h =
    (nat_eq_iff _ 1).1 (omega (arith, or_digit x y, (nat_eq_iff (x % 2) 1).0 h))
has_bit-or_left (suc i) x y h = rw or_half (has_bit-or_left i (x / 2) (y / 2) h)

pub has_bit-or_right : (i x y : ℕ) → has_bit i y ≡ true → has_bit i (bit_or x y) ≡ true
has_bit-or_right zero x y h =
    (nat_eq_iff _ 1).1 (omega (arith, or_digit x y, (nat_eq_iff (y % 2) 1).0 h))
has_bit-or_right (suc i) x y h = rw or_half (has_bit-or_right i (x / 2) (y / 2) h)

pub has_bit-and :
    (i x y : ℕ) → has_bit i x ≡ true → has_bit i y ≡ true → has_bit i (bit_and x y) ≡ true
has_bit-and zero x y h k =
    (nat_eq_iff _ 1).1
      (omega (arith, and_digit x y, (nat_eq_iff (x % 2) 1).0 h, (nat_eq_iff (y % 2) 1).0 k))
has_bit-and (suc i) x y h k = rw and_half (has_bit-and i (x / 2) (y / 2) h k)

pub has_bit-pow : (i : ℕ) → has_bit i (2 ^ i) ≡ true
has_bit-pow zero = refl
has_bit-pow (suc i) = subst (λ n. has_bit i n ≡ true) (omega (arith, pow-suc 2 i)) (has_bit-pow i)

no_bits : (i : ℕ) → has_bit i 0 ≡ false
no_bits zero = refl
no_bits (suc i) = no_bits i

pub has_bit-ne_zero : (i x : ℕ) → has_bit i x ≡ true → x ≢ 0
has_bit-ne_zero i x h e = true≢false (sym h ∙ ap (has_bit i) e ∙ no_bits i)
