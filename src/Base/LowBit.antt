-- ===== src/Base/LowBit.antt =====
-- The lowest bit of a word that is set: `i & (!i + 1)`, and `i & (i - 1)` without it.
use Prim.Native.Nat.{ℕ, zero, suc, ◌+◌, ◌-◌, ◌*◌, ◌/◌, ◌%◌, ◌^◌, ◌≤◌, ◌<◌, bit_and, bit_and-bitwise}
use mathlib.Core.Path.{◌≡◌, sym, ap, ◌∙◌}
use mathlib.Core.Logic.{◌⊎◌, inl, inr}
use native.Mathlib.Omega.{arith}
use native.Mathlib.Nat.{pow-suc}
use metri_engine.Base.Tests.{nat_eq, if◌then◌else◌, Bool-cases, nat_eq_iff}
use metri_engine.Base.Bits.{and_digit}

-- the lowest bit of a word of `w` bits, above 0
unfoldable pub low_bit : ℕ → ℕ → ℕ
low_bit zero i = 1
low_bit (suc w) i = let rest = low_bit w (i / 2) in if nat_eq (i % 2) 1 then 1 else rest * 2

low_bit-odd : (w i : ℕ) → i % 2 ≡ 1 → low_bit (suc w) i ≡ 1
unfolding low_bit
low_bit-odd w i h = ground (arith, h)

low_bit-even : (w i : ℕ) → i % 2 ≡ 0 → low_bit (suc w) i ≡ low_bit w (i / 2) * 2
unfolding low_bit
low_bit-even w i h = ground (arith, h)

parity : (i : ℕ) → (i % 2 ≡ 1) ⊎ (i % 2 ≡ 0)
parity i = elim (Bool-cases (nat_eq (i % 2) 1)) [
  | inl e ↦ inl ((nat_eq_iff (i % 2) 1).0 e)
  | inr e ↦ inr (ground arith)
]

pub low_bit-pos : (w i : ℕ) → 0 < low_bit w i
unfolding low_bit
low_bit-pos zero i = omega arith
low_bit-pos (suc w) i = ground (arith, low_bit-pos w (i / 2))

pub low_bit-le : (w i : ℕ) → 0 < i → i < 2 ^ w → low_bit w i ≤ i
low_bit-le zero i p h = absurd (omega arith)
low_bit-le (suc w) i p h = elim (parity i) [
  | inl o ↦ omega (arith, low_bit-odd w i o)
  | inr e ↦ omega (
    arith,
    pow-suc 2 w,
    low_bit-even w i e,
    low_bit-le w (i / 2) (omega arith) (omega (arith, pow-suc 2 w)),
  )
]

-- A number below the lowest bit keeps its own.
pub low_bit-add :
    (w i r : ℕ) → 0 < r → r < low_bit w i → i + r < 2 ^ w → low_bit w (i + r) ≡ low_bit w r
low_bit-add zero i r p h b = absurd (omega arith)
low_bit-add (suc w) i r p h b = elim (parity i) [
  | inl o ↦ absurd (omega (arith, low_bit-odd w i o))
  | inr e ↦ elim (parity r) [
    | inl o ↦ low_bit-odd w (i + r) (omega arith) ∙ sym (low_bit-odd w r o)
    | inr f ↦
        low_bit-even w (i + r) (omega arith)
        ∙ ap (λ k. low_bit w k * 2) (halves i r e f)
        ∙ ap (λ k. k * 2)
            (low_bit-add w (i / 2) (r / 2) (omega arith) (omega (arith, low_bit-even w i e))
              (omega (arith, pow-suc 2 w)))
        ∙ sym (low_bit-even w r f)
  ]
]
  where
    halves : (i r : ℕ) → i % 2 ≡ 0 → r % 2 ≡ 0 → (i + r) / 2 ≡ i / 2 + r / 2
    halves i r e f = omega arith

-- With its lowest bit added, a number has a higher one.
pub low_bit-double :
    (w i : ℕ) → 0 < i → i + low_bit w i < 2 ^ w → low_bit w i * 2 ≤ low_bit w (i + low_bit w i)
low_bit-double zero i p b = absurd (omega arith)
low_bit-double (suc w) i p b = elim (parity i) [
  | inl o ↦ omega (
    arith,
    low_bit-odd w i o,
    low_bit-even w (i + low_bit (suc w) i) (omega (arith, low_bit-odd w i o)),
    low_bit-pos w ((i + low_bit (suc w) i) / 2),
  )
  | inr e ↦ omega (
    arith,
    low_bit-even w i e,
    low_bit-even w (i + low_bit (suc w) i) (omega (arith, low_bit-even w i e)),
    ap (low_bit w) (halved e),
    low_bit-double w (i / 2) (omega arith) (omega (arith, pow-suc 2 w, low_bit-even w i e)),
  )
]
  where
    halved : i % 2 ≡ 0 → (i + low_bit (suc w) i) / 2 ≡ i / 2 + low_bit w (i / 2)
    halved e = omega (arith, low_bit-even w i e)

no_common : (w k m : ℕ) → k + m + 1 ≡ 2 ^ w → bit_and k m ≡ 0
no_common zero k m h = ground (arith, bit_and-bitwise 0 0, zeros_only k m h)
  where
    zeros_only : (k m : ℕ) → k + m + 1 ≡ 2 ^ 0 → (k ≡ 0) × (m ≡ 0)
    zeros_only k m h = omega arith
no_common (suc w) k m h =
    omega
      (arith, pow-suc 2 w, and_digit k m, no_common w (k / 2) (m / 2) (omega (arith, pow-suc 2 w)))

pub bit_and_self : (w k : ℕ) → k < 2 ^ w → bit_and k k ≡ k
bit_and_self zero zero h = bit_and-bitwise 0 0
bit_and_self zero (suc k) h = absurd (omega arith)
bit_and_self (suc w) k h =
    omega (arith, pow-suc 2 w, and_digit k k, bit_and_self w (k / 2) (omega (arith, pow-suc 2 w)))

-- i & (!i + 1)
pub bit_and-low_bit : (w i m : ℕ) → 0 < i → i + m ≡ 2 ^ w → 0 < m → bit_and i m ≡ low_bit w i
bit_and-low_bit zero i m p h q = absurd (omega arith)
bit_and-low_bit (suc w) i m p h q = elim (parity i) [
  | inl o ↦ omega (
    arith,
    pow-suc 2 w,
    low_bit-odd w i o,
    and_digit i m,
    no_common w (i / 2) (m / 2) (omega (arith, pow-suc 2 w)),
  )
  | inr e ↦ omega (
    arith,
    pow-suc 2 w,
    low_bit-even w i e,
    and_digit i m,
    bit_and-low_bit w (i / 2) (m / 2) (omega arith) (omega (arith, pow-suc 2 w))
        (omega (arith, pow-suc 2 w)),
  )
]

-- i & (i - 1)
pub bit_and-clear : (w i : ℕ) → 0 < i → i < 2 ^ w → bit_and i (i - 1) ≡ i - low_bit w i
bit_and-clear zero i p h = absurd (omega arith)
bit_and-clear (suc w) i p h = elim (parity i) [
  | inl o ↦ omega (
    arith,
    low_bit-odd w i o,
    and_digit i (i - 1),
    ap (bit_and (i / 2)) (odd_half o),
    bit_and_self w (i / 2) (omega (arith, pow-suc 2 w)),
  )
  | inr e ↦ omega (
    arith,
    low_bit-even w i e,
    and_digit i (i - 1),
    ap (bit_and (i / 2)) (even_half e),
    bit_and-clear w (i / 2) (omega arith) (omega (arith, pow-suc 2 w)),
    low_bit-le w (i / 2) (omega arith) (omega (arith, pow-suc 2 w)),
  )
]
  where
    odd_half : i % 2 ≡ 1 → (i - 1) / 2 ≡ i / 2
    odd_half o = omega arith

    even_half : i % 2 ≡ 0 → (i - 1) / 2 ≡ i / 2 - 1
    even_half e = omega arith
