-- ===== src/Eav/Encoding/Order.antt =====
-- The order of the keys of the index by value.
use Prim.Native.Nat.{bit_xor}
use mathlib.Core.List.{append-nil}
use metri_engine.Base.{
  zero, ℕ, suc, ◌+◌, ◌-◌, ◌^◌, ◌<◌, ◌≡◌, refl, sym, ◌∙◌, ap, Bool, true, false, Option, none, some,
  List, [], ◌∷◌, ◌++◌, Text, arith, take, nat_eq_iff, ltb, ◌||◌, ◌&&◌, leb, not,
}
use metri_engine.Base.Int.{as_unsigned, ℤ, pos, negsuc, ltb_ℤ, leb_ℤ}
use metri_engine.Base.BigEndian.{to_be_bytes, memcmp_lt}
use metri_engine.Base.Memcmp.{memcmp_lt-asym, memcmp_lt-nil, compare_words}
use metri_engine.Base.Flip.{flip_low, flip_high}
use metri_engine.Eav.Types.{tag, value_type, is_avet_indexable, long}
use metri_engine.Eav.Encoding.{
  value_bytes, build_avet_sk, avet_sk_prefix, repeated, AvetBound, unbounded, inclusive, exclusive,
  sk_min, sk_max, avet_sk_range_bounds,
}

-- An i64.
abbrev pub IsLong : ℤ → Type 0
IsLong (pos n) = n < 2 ^ 63
IsLong (negsuc n) = n < 2 ^ 63

-- The word of an integer with its sign flipped: its distance from the least one.
flipped : ℤ → ℕ
flipped (pos n) = n + 2 ^ 63
flipped (negsuc n) = 2 ^ 63 - suc n

bit_xor-as_unsigned : (n : ℤ) → IsLong n → bit_xor (as_unsigned 64 n) (2 ^ 63) ≡ flipped n
unfolding flipped
bit_xor-as_unsigned (pos n) h = flip_low 63 n h
bit_xor-as_unsigned (negsuc n) h =
    flip_high 63 (2 ^ 64 - suc n) (omega arith) (omega arith) ∙ omega arith

flipped-fits : (n : ℤ) → IsLong n → flipped n < 2 ^ 64
unfolding flipped
flipped-fits (pos n) h = omega arith
flipped-fits (negsuc n) h = omega arith

ltb_ℤ-flipped : (m n : ℤ) → IsLong m → IsLong n → ltb_ℤ m n ≡ ltb (flipped m) (flipped n)
unfolding flipped
ltb_ℤ-flipped (pos m) (pos n) h g = ground arith
ltb_ℤ-flipped (pos m) (negsuc n) h g = ground arith
ltb_ℤ-flipped (negsuc m) (pos n) h g = ground arith
ltb_ℤ-flipped (negsuc m) (negsuc n) h g = ground arith

leb_ℤ-flipped : (m n : ℤ) → IsLong m → IsLong n → leb_ℤ m n ≡ leb (flipped m) (flipped n)
unfolding flipped
leb_ℤ-flipped (pos m) (pos n) h g = ground arith
leb_ℤ-flipped (pos m) (negsuc n) h g = ground arith
leb_ℤ-flipped (negsuc m) (pos n) h g = ground arith
leb_ℤ-flipped (negsuc m) (negsuc n) h g = ground arith

-- The bytes of an entity's id, of which some are there, and none is 0xFF.
abbrev pub IsUtf8 : Text → Type 0
IsUtf8 [] = Unit {0}
IsUtf8 (b ∷ bs) = (b < 0xFF) × IsUtf8 bs

-- no id is above the bytes that close a range
below_fill : (k l : ℕ) (e : Text) → IsUtf8 e → k < l → memcmp_lt (take k e) (repeated l 0xFF) ≡ true
unfolding memcmp_lt repeated
below_fill k zero e u h = absurd (omega arith)
below_fill zero (suc l) e u h = refl
below_fill (suc k) (suc l) [] u h = refl
below_fill (suc k) (suc l) (b ∷ e) u h = ground (arith, nat_eq_iff b 0xFF, u.0)

-- the key of a Long
abbrev long_key : ℤ → Text → List ℕ
long_key n e = 0x02 ∷ to_be_bytes 8 (flipped n) ++ take 26 e

-- One end of a range of integers.
pub data LongBound : Type 0 where
  end : LongBound
  closed_at open_at : ℤ → LongBound

abbrev pub bound : LongBound → AvetBound
bound end = unbounded
bound (closed_at a) = inclusive (long a)
bound (open_at a) = exclusive (long a)

abbrev pub IsLongBound : LongBound → Type 0
IsLongBound end = Unit {0}
IsLongBound (closed_at a) = IsLong a
IsLongBound (open_at a) = IsLong a

abbrev pub meets_lower : LongBound → ℤ → Bool
meets_lower end n = true
meets_lower (closed_at a) n = leb_ℤ a n
meets_lower (open_at a) n = ltb_ℤ a n

abbrev pub meets_upper : LongBound → ℤ → Bool
meets_upper end n = true
meets_upper (closed_at b) n = leb_ℤ n b
meets_upper (open_at b) n = ltb_ℤ n b

abbrev pub is_end : LongBound → Bool
is_end end = true
is_end other = false

-- `BETWEEN :sk_min AND :sk_max` on a key
abbrev pub between : Option (List ℕ × List ℕ) → List ℕ → Bool
between none key = false
between (some (lo, hi)) key = not (memcmp_lt key lo) && not (memcmp_lt hi key)

module _ (lt_zero : ℕ → Bool) where
  build_avet_sk-long :
      (n : ℤ) (e : Text) → IsLong n → build_avet_sk lt_zero (long n) e ≡ long_key n e
  unfolding build_avet_sk value_bytes tag value_type
  build_avet_sk-long n e h = ap (λ w. 0x02 ∷ to_be_bytes 8 w ++ take 26 e) (bit_xor-as_unsigned n h)

  avet_sk_prefix-long :
      (n : ℤ) → IsLong n → avet_sk_prefix lt_zero (long n) ≡ 0x02 ∷ to_be_bytes 8 (flipped n)
  unfolding avet_sk_prefix
  avet_sk_prefix-long n h =
      build_avet_sk-long n [] h ∙ ap (λ bs. 0x02 ∷ bs) (append-nil (to_be_bytes 8 (flipped n)))

  -- The keys of two integers of 64 bits are in the order of the integers, and those of one integer in
  -- the order of the entities' ids, of which the first 26 bytes count.
  pub memcmp_lt-build_avet_sk :
      (m n : ℤ) (d e : Text)
      → IsLong m
      → IsLong n
      → memcmp_lt (build_avet_sk lt_zero (long m) d) (build_avet_sk lt_zero (long n) e)
        ≡ (ltb_ℤ m n || (leb_ℤ m n && memcmp_lt (take 26 d) (take 26 e)))
  unfolding memcmp_lt
  memcmp_lt-build_avet_sk m n d e h g =
      rw
        (
          build_avet_sk-long m d h,
          build_avet_sk-long n e g,
          ltb_ℤ-flipped m n h g,
          leb_ℤ-flipped m n h g,
        )
        (compare_words (flipped m) (flipped n) (take 26 d) (take 26 e) (flipped-fits m h)
          (flipped-fits n g))

  below_inclusive :
      (a n : ℤ) (e : Text)
      → IsLong a
      → IsLong n
      → memcmp_lt (long_key n e) (0x02 ∷ to_be_bytes 8 (flipped a)) ≡ ltb_ℤ n a
  unfolding memcmp_lt
  below_inclusive a n e h g =
      rw (sym (append-nil (to_be_bytes 8 (flipped a))), ltb_ℤ-flipped n a g h)
        (compare_words (flipped n) (flipped a) (take 26 e) [] (flipped-fits n g) (flipped-fits a h)
          ∙ ground (arith, memcmp_lt-nil (take 26 e)))

  below_exclusive :
      (a n : ℤ) (e : Text)
      → IsLong a
      → IsLong n
      → IsUtf8 e
      → memcmp_lt (long_key n e) (0x02 ∷ to_be_bytes 8 (flipped a) ++ repeated 32 0xFF) ≡ leb_ℤ n a
  unfolding memcmp_lt
  below_exclusive a n e h g u = rw (leb_ℤ-flipped n a g h) (
      compare_words (flipped n) (flipped a) (take 26 e) (repeated 32 0xFF) (flipped-fits n g)
        (flipped-fits a h)
      ∙ ground (arith, below_fill 26 32 e u (omega arith)))

  above_inclusive :
      (b n : ℤ) (e : Text)
      → IsLong b
      → IsLong n
      → IsUtf8 e
      → memcmp_lt (0x02 ∷ to_be_bytes 8 (flipped b) ++ repeated 32 0xFF) (long_key n e) ≡ ltb_ℤ b n
  unfolding memcmp_lt
  above_inclusive b n e h g u = rw (ltb_ℤ-flipped b n h g) (
      compare_words (flipped b) (flipped n) (repeated 32 0xFF) (take 26 e) (flipped-fits b h)
        (flipped-fits n g)
      ∙ ground (
        arith,
        memcmp_lt-asym (take 26 e) (repeated 32 0xFF) (below_fill 26 32 e u (omega arith)),
      ))

  above_exclusive :
      (b n : ℤ) (c : ℕ) (e : Text)
      → IsLong b
      → IsLong n
      → memcmp_lt (0x02 ∷ to_be_bytes 8 (flipped b)) (long_key n (c ∷ e)) ≡ leb_ℤ b n
  unfolding memcmp_lt
  above_exclusive b n c e h g =
      rw (sym (append-nil (to_be_bytes 8 (flipped b))), leb_ℤ-flipped b n h g)
        (compare_words (flipped b) (flipped n) [] (take 26 (c ∷ e)) (flipped-fits b h)
            (flipped-fits n g)
          ∙ ground arith)

  lower_lem :
      (lower : LongBound) (n : ℤ) (e : Text)
      → IsLongBound lower
      → IsLong n
      → IsUtf8 e
      → not (memcmp_lt (long_key n e) (sk_min lt_zero 0x02 (bound lower))) ≡ meets_lower lower n
  unfolding memcmp_lt repeated to_be_bytes
  lower_lem end n e h g u = ground (
    arith,
    compare_words (flipped n) 0 (take 26 e) [] (flipped-fits n g) (omega arith),
    memcmp_lt-nil (take 26 e),
  )
  lower_lem (closed_at a) n e h g u =
      rw (avet_sk_prefix-long a h, below_inclusive a n e h g) (ground arith)
  lower_lem (open_at a) n e h g u =
      rw (avet_sk_prefix-long a h, below_exclusive a n e h g u) (ground arith)

  upper_lem :
      (upper : LongBound) (n : ℤ) (c : ℕ) (e : Text)
      → IsLongBound upper
      → IsLong n
      → IsUtf8 (c ∷ e)
      → not (memcmp_lt (sk_max lt_zero 0x02 (bound upper)) (long_key n (c ∷ e)))
        ≡ meets_upper upper n
  unfolding memcmp_lt repeated to_be_bytes
  upper_lem end n c e h g u = ground (
    arith,
    flipped-fits n g,
    compare_words (2 ^ 64 - 1) (flipped n) (repeated 32 0xFF) (take 26 (c ∷ e)) (omega arith)
        (flipped-fits n g),
    memcmp_lt-asym (take 26 (c ∷ e)) (repeated 32 0xFF) (below_fill 26 32 (c ∷ e) u (omega arith)),
  )
  upper_lem (closed_at b) n c e h g u =
      rw (avet_sk_prefix-long b h, above_inclusive b n (c ∷ e) h g u) (ground arith)
  upper_lem (open_at b) n c e h g u =
      rw (avet_sk_prefix-long b h, above_exclusive b n c e h g) (ground arith)

  bounds_lem :
      (lower upper : LongBound)
      → (is_end lower && is_end upper) ≡ false
      → avet_sk_range_bounds lt_zero (bound lower) (bound upper)
        ≡ some (sk_min lt_zero 0x02 (bound lower), sk_max lt_zero 0x02 (bound upper))
  unfolding avet_sk_range_bounds value_type is_avet_indexable tag
  bounds_lem end end h = cc
  bounds_lem end (closed_at b) h = refl
  bounds_lem end (open_at b) h = refl
  bounds_lem (closed_at a) upper h = refl
  bounds_lem (open_at a) upper h = refl

  -- The range of keys that two bounds of 64-bit integers give, at least one of which is an
  -- integer, selects the key of a 64-bit integer and an entity's id, which is not empty and has
  -- no byte 0xFF, if and only if the integer meets the bounds.
  pub range_selects :
      (lower upper : LongBound) (n : ℤ) (c : ℕ) (e : Text)
      → (is_end lower && is_end upper) ≡ false
      → IsLongBound lower
      → IsLongBound upper
      → IsLong n
      → IsUtf8 (c ∷ e)
      → between
          (avet_sk_range_bounds lt_zero (bound lower) (bound upper))
          (build_avet_sk lt_zero (long n) (c ∷ e))
        ≡ (meets_lower lower n && meets_upper upper n)
  range_selects lower upper n c e h g k l u =
      rw
        (
          bounds_lem lower upper h,
          build_avet_sk-long n (c ∷ e) l,
          lower_lem lower n (c ∷ e) g l u,
          upper_lem upper n c e k l u,
        )
        refl
