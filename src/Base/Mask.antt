-- ===== src/Base/Mask.antt =====
-- Two masks that are put on a word with `^` twice are gone.
use Prim.Native.Nat.{ℕ, zero, suc, ◌+◌, ◌/◌, ◌%◌, ◌^◌, ◌<◌, bit_xor, differ}
use mathlib.Core.Path.{◌≡◌, refl}
use native.Mathlib.Omega.{arith}
use native.Mathlib.Nat.{pow-suc}
use metri_engine.Base.Flip.{xor_digit}

differ_digit : (a b : ℕ) → a < 2 → b < 2 → differ a b < 2
differ_digit zero zero h g = omega arith
differ_digit zero (suc zero) h g = omega arith
differ_digit zero (suc (suc b)) h g = absurd (omega arith)
differ_digit (suc zero) zero h g = omega arith
differ_digit (suc zero) (suc zero) h g = omega arith
differ_digit (suc zero) (suc (suc b)) h g = absurd (omega arith)
differ_digit (suc (suc a)) b h g = absurd (omega arith)

xor_half : (x y : ℕ) → bit_xor x y / 2 ≡ bit_xor (x / 2) (y / 2)
xor_half x y =
    omega (arith, xor_digit x y, differ_digit (x % 2) (y % 2) (omega arith) (omega arith))

xor_odd : (x y : ℕ) → bit_xor x y % 2 ≡ differ (x % 2) (y % 2)
xor_odd x y = omega (arith, xor_digit x y, differ_digit (x % 2) (y % 2) (omega arith) (omega arith))

abbrev pub masked_twice : ℕ → ℕ → ℕ → ℕ
masked_twice b k m = bit_xor (bit_xor (bit_xor (bit_xor b k) m) k) m

digits_back : (b k m : ℕ) → b < 2 → k < 2 → m < 2 → differ (differ (differ (differ b k) m) k) m ≡ b
digits_back zero zero zero hb hk hm = refl
digits_back zero zero (suc zero) hb hk hm = refl
digits_back zero (suc zero) zero hb hk hm = refl
digits_back zero (suc zero) (suc zero) hb hk hm = refl
digits_back (suc zero) zero zero hb hk hm = refl
digits_back (suc zero) zero (suc zero) hb hk hm = refl
digits_back (suc zero) (suc zero) zero hb hk hm = refl
digits_back (suc zero) (suc zero) (suc zero) hb hk hm = refl
digits_back (suc (suc b)) k m hb hk hm = absurd (omega arith)
digits_back zero (suc (suc k)) m hb hk hm = absurd (omega arith)
digits_back (suc zero) (suc (suc k)) m hb hk hm = absurd (omega arith)
digits_back zero zero (suc (suc m)) hb hk hm = absurd (omega arith)
digits_back zero (suc zero) (suc (suc m)) hb hk hm = absurd (omega arith)
digits_back (suc zero) zero (suc (suc m)) hb hk hm = absurd (omega arith)
digits_back (suc zero) (suc zero) (suc (suc m)) hb hk hm = absurd (omega arith)

half_masked : (b k m : ℕ) → masked_twice b k m / 2 ≡ masked_twice (b / 2) (k / 2) (m / 2)
half_masked b k m = rw (xor_half, xor_half, xor_half, xor_half) refl

odd_masked : (b k m : ℕ) → masked_twice b k m % 2 ≡ b % 2
odd_masked b k m =
    rw (xor_odd, xor_odd, xor_odd, xor_odd)
      (digits_back (b % 2) (k % 2) (m % 2) (omega arith) (omega arith) (omega arith))

masked_within : (w b k m : ℕ) → b < 2 ^ w → k < 2 ^ w → m < 2 ^ w → masked_twice b k m ≡ b
masked_within zero zero zero zero hb hk hm = refl
masked_within zero (suc b) k m hb hk hm = absurd (omega arith)
masked_within zero zero (suc k) m hb hk hm = absurd (omega arith)
masked_within zero zero zero (suc m) hb hk hm = absurd (omega arith)
masked_within (suc w) b k m hb hk hm = omega (
  arith,
  half_masked b k m,
  odd_masked b k m,
  masked_within w (b / 2) (k / 2) (m / 2) (omega (arith, pow-suc 2 w)) (omega (arith, pow-suc 2 w))
      (omega (arith, pow-suc 2 w)),
)

below_power : (n : ℕ) → n < 2 ^ n
below_power zero = omega arith
below_power (suc n) = omega (arith, pow-suc 2 n, below_power n)

pub masked_twice_lem : (b k m : ℕ) → masked_twice b k m ≡ b
masked_twice_lem b k m =
    masked_within (b + k + m) b k m (omega (arith, below_power (b + k + m)))
      (omega (arith, below_power (b + k + m))) (omega (arith, below_power (b + k + m)))
