-- ===== src/Mbf/Signature/Bloom.antt =====
-- What the filters cannot miss.
use Prim.Native.Nat.{bit_or, bit_and}
use mathlib.Core.List.{Memᴰ}
use metri_engine.Base.{
  ◌≢◌, ap, ℕ, ◌^◌, Text, List, [], ◌∷◌, Bool, true, false, not, ◌||◌, nat_eq, ◌≡◌, refl, ◌⊎◌, inl,
  inr, nat_eq_iff, arith, sym, subst,
}
use metri_engine.Base.Bits.{
  has_bit, has_bit-or_left, has_bit-or_right, has_bit-and, has_bit-pow, has_bit-ne_zero,
}
use metri_engine.Mbf.Signature.{
  first_bit, second_bit, bloom_loop, compute_bloom64, from_keys, conflicts_with,
}

nat_eq-false : {x : ℕ} → x ≢ 0 → nat_eq x 0 ≡ false
nat_eq-false {x} h = ground (arith, nat_eq_iff x 0)

or_true : (b : Bool) {c : Bool} → c ≡ true → (b || c) ≡ true
or_true true h = refl
or_true false h = h

module _ (xxh64 : Text → ℕ → ℕ) where
  bloom_loop-keeps :
      (i : ℕ) (keys : List Text) (mask : ℕ)
      → has_bit i mask ≡ true
      → has_bit i (bloom_loop xxh64 keys mask) ≡ true
  unfolding bloom_loop
  bloom_loop-keeps i [] mask h = h
  bloom_loop-keeps i (k ∷ ks) mask h =
      bloom_loop-keeps i ks (bit_or (bit_or mask (2 ^ first_bit xxh64 k)) (2 ^ second_bit xxh64 k))
        (has_bit-or_left i (bit_or mask (2 ^ first_bit xxh64 k)) (2 ^ second_bit xxh64 k)
          (has_bit-or_left i mask (2 ^ first_bit xxh64 k) h))

  bloom_loop-has :
      {k : Text} {keys : List Text}
      → Memᴰ k keys
      → (mask : ℕ) → has_bit (first_bit xxh64 k) (bloom_loop xxh64 keys mask) ≡ true
  unfolding bloom_loop
  bloom_loop-has {k = k} {keys = x ∷ ks} (Memᴰ.head e) mask =
      bloom_loop-keeps (first_bit xxh64 k) ks
        (bit_or (bit_or mask (2 ^ first_bit xxh64 x)) (2 ^ second_bit xxh64 x))
        (has_bit-or_left (first_bit xxh64 k) (bit_or mask (2 ^ first_bit xxh64 x))
          (2 ^ second_bit xxh64 x)
          (has_bit-or_right (first_bit xxh64 k) mask (2 ^ first_bit xxh64 x) (
            subst (λ j. has_bit (first_bit xxh64 j) (2 ^ first_bit xxh64 x) ≡ true) (sym e)
              (has_bit-pow (first_bit xxh64 x)))))
  bloom_loop-has (Memᴰ.tail m) mask = bloom_loop-has m _

  -- Two sets with a common key have filters with a common bit.
  common_bit :
      {k : Text} {xs ys : List Text}
      → Memᴰ k xs
      → Memᴰ k ys
      → nat_eq (bit_and (compute_bloom64 xxh64 xs) (compute_bloom64 xxh64 ys)) 0 ≡ false
  common_bit {k = k} {xs = xs} {ys = ys} m n = nat_eq-false (
      has_bit-ne_zero (first_bit xxh64 k)
        (bit_and (compute_bloom64 xxh64 xs) (compute_bloom64 xxh64 ys))
        (has_bit-and (first_bit xxh64 k) (compute_bloom64 xxh64 xs) (compute_bloom64 xxh64 ys)
          (bloom_loop-has m 0) (bloom_loop-has n 0)))

  -- A transaction that read or wrote a key that a concurrent winner has written is found to be in
  -- conflict with it, whatever the hash, the epochs and the other keys of the two are.
  pub shared_key_conflicts :
      (k : Text) (reads writes : List Text) (base next : ℕ) (winner_reads winner_writes : List Text)
      (winner_base winner_next : ℕ)
      → Memᴰ k reads ⊎ Memᴰ k writes
      → Memᴰ k winner_writes
      → conflicts_with
          (from_keys xxh64 base next reads writes)
          (from_keys xxh64 winner_base winner_next winner_reads winner_writes)
        ≡ true
  unfolding conflicts_with from_keys
  shared_key_conflicts k reads writes base next _ _ _ _ (inl m) n = rw (common_bit m n) refl
  shared_key_conflicts k reads writes base next _ _ _ _ (inr m) n =
      or_true _ (ap not (common_bit m n))
