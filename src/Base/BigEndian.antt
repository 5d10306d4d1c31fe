-- ===== src/Base/BigEndian.antt =====
-- Words as their bytes, the most significant first, and the order of byte sequences.
use Prim.Native.Nat.{ℕ, zero, suc, ◌+◌, ◌*◌, ◌/◌, ◌%◌, ◌^◌, ◌<◌, ◌≤◌}
use mathlib.Core.Path.{◌≡◌, refl, ap, sym, ◌∙◌}
use mathlib.Core.Logic.{◌⊎◌, inl, inr}
use mathlib.Core.Bool.{Bool, true, false}
use mathlib.Core.List.{List, [], ◌∷◌, ◌++◌, append-nil}
use native.Mathlib.Omega.{arith}
use native.Mathlib.Nat.{
  pow-suc, div-div-eq-div-mul, div-eq_of_lt, le-div_iff_mul-le, mul-div-le, mul_comm, one-le-pow,
}
use metri_engine.Base.Tests.{ltb, nat_eq, Bool-cases, nat_eq_iff, lt→ltb, if◌then◌else◌}
use metri_engine.Base.Lists.{length}

-- `to_be_bytes` of a word of `w` bytes
unfoldable pub to_be_bytes : ℕ → ℕ → List ℕ
to_be_bytes zero n = []
to_be_bytes (suc w) n = (n / 256 ^ w % 256) ∷ to_be_bytes w n

-- `from_be_bytes`, from the value of the bytes before
unfoldable pub from_be_bytes : ℕ → List ℕ → ℕ
from_be_bytes n [] = n
from_be_bytes n (b ∷ bs) = from_be_bytes (n * 256 + b) bs

-- memcmp: `<` on `[u8]`
unfoldable pub memcmp_lt : List ℕ → List ℕ → Bool
memcmp_lt xs [] = false
memcmp_lt [] (y ∷ ys) = true
memcmp_lt (x ∷ xs) (y ∷ ys) = if nat_eq x y then memcmp_lt xs ys else ltb x y

pub length-to_be_bytes : (w n : ℕ) → length (to_be_bytes w n) ≡ w
unfolding to_be_bytes
length-to_be_bytes zero n = refl
length-to_be_bytes (suc w) n = ap suc (length-to_be_bytes w n)

-- the quotient by a power of 256, one digit on
div_step : (w n : ℕ) → n / 256 ^ w ≡ n / 256 ^ suc w * 256 + n / 256 ^ w % 256
div_step w n =
    omega
      (arith, pow-suc 256 w, div-div-eq-div-mul n (256 ^ w) 256, ap (λ k. n / k) (pow-suc 256 w))

from_be_bytes-to_be_bytes_from :
    (w n : ℕ) (bs : List ℕ)
    → from_be_bytes (n / 256 ^ w) (to_be_bytes w n ++ bs) ≡ from_be_bytes n bs
unfolding to_be_bytes from_be_bytes
from_be_bytes-to_be_bytes_from zero n bs = ap (λ k. from_be_bytes k bs) (omega arith)
from_be_bytes-to_be_bytes_from (suc w) n bs =
    ap (λ k. from_be_bytes k (to_be_bytes w n ++ bs)) (sym (div_step w n))
    ∙ from_be_bytes-to_be_bytes_from w n bs

nat_eq_refl : (x : ℕ) → nat_eq x x ≡ true
nat_eq_refl x = (nat_eq_iff x x).1 refl

split_eq : (a b : ℕ) → (nat_eq a b ≡ true) ⊎ (nat_eq a b ≡ false)
split_eq a b = Bool-cases (nat_eq a b)

-- a word that fits is read back
pub from_be_bytes-to_be_bytes : (w n : ℕ) → n < 256 ^ w → from_be_bytes 0 (to_be_bytes w n) ≡ n
unfolding from_be_bytes
from_be_bytes-to_be_bytes w n h =
    ap (from_be_bytes 0) (sym (append-nil (to_be_bytes w n)))
    ∙ ap (λ k. from_be_bytes k (to_be_bytes w n ++ [])) (sym (div-eq_of_lt h))
    ∙ from_be_bytes-to_be_bytes_from w n []

div_mono : (w m n : ℕ) → m ≤ n → m / 256 ^ w ≤ n / 256 ^ w
div_mono w m n h =
    (le-div_iff_mul-le {k = 256 ^ w} {x = m / 256 ^ w} {y = n} (one-le-pow w 256 (omega arith))).1
      (omega (arith, mul-div-le m (256 ^ w), mul_comm (256 ^ w) (m / 256 ^ w)))

-- Equal prefixes do not matter to memcmp.
pub memcmp_lt-same : (p xs ys : List ℕ) → memcmp_lt (p ++ xs) (p ++ ys) ≡ memcmp_lt xs ys
unfolding memcmp_lt
memcmp_lt-same [] xs ys = refl
memcmp_lt-same (x ∷ p) xs ys = rw (nat_eq_refl x) (memcmp_lt-same p xs ys)

-- The words of one width are ordered as numbers, whatever follows them.
pub memcmp_lt-to_be_bytes :
    (w m n : ℕ) (xs ys : List ℕ)
    → m < n
    → n / 256 ^ w ≡ m / 256 ^ w
    → memcmp_lt (to_be_bytes w m ++ xs) (to_be_bytes w n ++ ys) ≡ true
unfolding memcmp_lt to_be_bytes
memcmp_lt-to_be_bytes zero m n xs ys h e = absurd (omega arith)
memcmp_lt-to_be_bytes (suc w) m n xs ys h e =
    elim (split_eq (m / 256 ^ w % 256) (n / 256 ^ w % 256)) [
      | inl k ↦ rw k (
          memcmp_lt-to_be_bytes w m n xs ys h (
            omega (
              arith,
              div_step w m,
              div_step w n,
              (nat_eq_iff (m / 256 ^ w % 256) (n / 256 ^ w % 256)).0 k,
            )))
      | inr k ↦ rw k (
          lt→ltb (m / 256 ^ w % 256) (n / 256 ^ w % 256) (
            ground (
              arith,
              div_step w m,
              div_step w n,
              div_mono w m n (omega arith),
              nat_eq_iff (m / 256 ^ w % 256) (n / 256 ^ w % 256),
            )))
    ]

pub memcmp_lt_irrefl : (a : List ℕ) → memcmp_lt a a ≡ false
unfolding memcmp_lt
memcmp_lt_irrefl [] = refl
memcmp_lt_irrefl (x ∷ a) = ground (arith, nat_eq_refl x, memcmp_lt_irrefl a)

pub memcmp_lt_trans :
    (a b c : List ℕ) → memcmp_lt a b ≡ true → memcmp_lt b c ≡ true → memcmp_lt a c ≡ true
unfolding memcmp_lt
memcmp_lt_trans [] b [] h g = ground (arith, h, g)
memcmp_lt_trans (x ∷ a) b [] h g = ground (arith, h, g)
memcmp_lt_trans [] b (z ∷ c) h g = refl
memcmp_lt_trans (x ∷ a) [] (z ∷ c) h g = absurd cc
memcmp_lt_trans (x ∷ a) (y ∷ b) (z ∷ c) h g = ground (arith, memcmp_lt_trans a b c)

-- what lies between two sequences is above the one or below the other
pub memcmp_lt_cotrans :
    (a b c : List ℕ) → memcmp_lt a b ≡ true → (memcmp_lt a c ≡ true) ⊎ (memcmp_lt c b ≡ true)
unfolding memcmp_lt
memcmp_lt_cotrans a [] c h = absurd cc
memcmp_lt_cotrans [] (y ∷ b) [] h = inr refl
memcmp_lt_cotrans [] (y ∷ b) (z ∷ c) h = inl refl
memcmp_lt_cotrans (x ∷ a) (y ∷ b) [] h = inr refl
memcmp_lt_cotrans (x ∷ a) (y ∷ b) (z ∷ c) h = ground (arith, memcmp_lt_cotrans a b c)
