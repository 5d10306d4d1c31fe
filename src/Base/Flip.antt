-- ===== src/Base/Flip.antt =====
-- `x ^ (1 << k)`, on words of k + 1 bits.
use Prim.Native.Nat.{
  ℕ, zero, suc, ◌+◌, ◌-◌, ◌*◌, ◌/◌, ◌%◌, ◌^◌, ◌<◌, ◌≤◌, bit_xor, bit_xor-bitwise, differ,
}
use mathlib.Core.Path.{◌≡◌, refl, ap, ◌∙◌}
use native.Mathlib.Omega.{arith}
use native.Mathlib.Nat.{pow-suc}
use metri_engine.Base.Bits.{more_fuel}

pub xor_digit : (x y : ℕ) → bit_xor x y ≡ bit_xor (x / 2) (y / 2) * 2 + differ (x % 2) (y % 2)
xor_digit zero y = omega (arith, bit_xor-bitwise 0 y, bit_xor-bitwise 0 (y / 2))
xor_digit (suc x) y = omega (
  arith,
  bit_xor-bitwise (suc x) y,
  bit_xor-bitwise (suc x / 2) (y / 2),
  more_fuel (λ b. b) differ x (suc x / 2) (suc x / 2) (y / 2) (omega arith) (omega arith),
)

differ_zero : (a : ℕ) → differ a 0 ≡ a
differ_zero zero = refl
differ_zero (suc a) = refl

-- the digits of a power of two and those of `x`
xor_pow : (k x : ℕ) → bit_xor x (2 ^ suc k) ≡ bit_xor (x / 2) (2 ^ k) * 2 + x % 2
xor_pow k x =
    xor_digit x (2 ^ suc k)
    ∙ ap (λ y. bit_xor (x / 2) y * 2 + differ (x % 2) (2 ^ suc k % 2)) half
    ∙ ap (λ y. bit_xor (x / 2) (2 ^ k) * 2 + differ (x % 2) y) even
    ∙ ap (λ d. bit_xor (x / 2) (2 ^ k) * 2 + d) (differ_zero (x % 2))
  where
    half : 2 ^ suc k / 2 ≡ 2 ^ k
    half = omega (arith, pow-suc 2 k)

    even : 2 ^ suc k % 2 ≡ 0
    even = omega (arith, pow-suc 2 k)

-- a word without the highest bit has it then
pub flip_low : (k x : ℕ) → x < 2 ^ k → bit_xor x (2 ^ k) ≡ x + 2 ^ k
flip_low zero zero h = refl
flip_low zero (suc x) h = absurd (omega arith)
flip_low (suc k) x h =
    xor_pow k x ∙ omega (arith, pow-suc 2 k, flip_low k (x / 2) (omega (arith, pow-suc 2 k)))

-- and a word with it has it no more
pub flip_high : (k x : ℕ) → 2 ^ k ≤ x → x < 2 ^ suc k → bit_xor x (2 ^ k) ≡ x - 2 ^ k
flip_high zero zero g h = absurd (omega arith)
flip_high zero (suc zero) g h = refl
flip_high zero (suc (suc x)) g h = absurd (omega arith)
flip_high (suc k) x g h =
    xor_pow k x
    ∙ omega (
      arith,
      pow-suc 2 k,
      pow-suc 2 (suc k),
      flip_high k (x / 2) (omega (arith, pow-suc 2 k))
          (omega (arith, pow-suc 2 k, pow-suc 2 (suc k))),
    )
