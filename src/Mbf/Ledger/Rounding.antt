-- ===== src/Mbf/Ledger/Rounding.antt =====
-- Division with rounding to the nearest, ties to even.
use metri_engine.Base.{
  ℕ, ◌+◌, ◌*◌, ◌/◌, ◌%◌, ◌≤◌, ◌<◌, ◌^◌, ◌≡◌, refl, Bool, ltb, nat_eq, Bool-cases, inl, inr, arith,
}
use native.Mathlib.Nat.{add-mul, mod-eq-sub-div-mul, div-mul-le_self}
use metri_engine.Base.Int.{ℤ}
use metri_engine.Mbf.Ledger.{unsigned_abs, is_negative, times_sign, xor, div_bankers_raw}
use metri_engine.Mbf.Ledger.Hamilton.{times_sign-suc}

-- `m` is a nearest quotient of `n` by `d`, the even one of two
abbrev pub IsNearest : ℕ → ℕ → ℕ → Type 0
IsNearest n d m = (m * d * 2 ≤ n * 2 + d) × (n * 2 ≤ m * d * 2 + d) × (n % d * 2 ≡ d → m % 2 ≡ 0)

module _ (n d : ℕ) (positive : 0 < d) where
  down : n % d * 2 ≤ d → (n % d * 2 ≡ d → n / d % 2 ≡ 0) → IsNearest n d (n / d)
  down h even = (
    omega (arith, mod-eq-sub-div-mul n d, div-mul-le_self n d),
    omega (arith, mod-eq-sub-div-mul n d, div-mul-le_self n d, h),
    even,
  )

  up : d ≤ n % d * 2 → n % d < d → (n % d * 2 ≡ d → (n / d + 1) % 2 ≡ 0) → IsNearest n d (n / d + 1)
  up h below even = (
    omega (arith, mod-eq-sub-div-mul n d, div-mul-le_self n d, add-mul (n / d) 1 d, h),
    omega (arith, mod-eq-sub-div-mul n d, div-mul-le_self n d, add-mul (n / d) 1 d, below),
    even,
  )

-- A quotient is rounded to the nearest integer, and to the even one of two that are as near; its sign is
-- that of the exact quotient. The numerator is an i128 but not the least one, which over -1 has no
-- quotient in 128 bits; the denominator is not 0 and at most 2^126 in size.
pub div_bankers_raw-IsNearest :
    (numerator denominator : ℤ)
    → unsigned_abs numerator < 2 ^ 127
    → 0 < unsigned_abs denominator
    → unsigned_abs denominator ≤ 2 ^ 126
    → (m : ℕ) × (div_bankers_raw numerator denominator
        ≡ times_sign (xor (is_negative numerator) (is_negative denominator)) m)
      × IsNearest (unsigned_abs numerator) (unsigned_abs denominator) m
unfolding div_bankers_raw
div_bankers_raw-IsNearest numerator denominator fits positive small =
    elim (Bool-cases (ltb d (n % d * 2))) [
      | inl e ↦ (
        n / d + 1,
        rw (e, div_bankers_raw) (times_sign-suc negative (n / d) 1),
        up n d positive (ground (arith, e)) (omega arith) (λ h. ground (arith, e)),
      )
      | inr e ↦ elim (Bool-cases (ltb (n % d * 2) d)) [
        | inl f ↦ (
          n / d,
          rw (e, f, div_bankers_raw) refl,
          down n d positive (ground (arith, f)) (λ h. ground (arith, f)),
        )
        | inr f ↦ elim (Bool-cases (nat_eq (n / d % 2) 1)) [
          | inl g ↦ (
            n / d + 1,
            rw (e, f, g, div_bankers_raw) (times_sign-suc negative (n / d) 1),
            up n d positive (ground (arith, f)) (omega arith) (λ h. ground (arith, g)),
          )
          | inr g ↦ (
            n / d,
            rw (e, f, g, div_bankers_raw) refl,
            down n d positive (ground (arith, e)) (λ h. ground (arith, g)),
          )
        ]
      ]
    ]
  where
    n : ℕ
    n = unsigned_abs numerator

    d : ℕ
    d = unsigned_abs denominator

    negative : Bool
    negative = xor (is_negative numerator) (is_negative denominator)
