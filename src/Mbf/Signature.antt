-- ===== src/Mbf/Signature.antt =====
-- `TxConflictSignature`, src/mbf/tx/mod.rs: the keys that a transaction reads and writes, as two
-- Bloom filters of 64 bits. The hash `xxh64` of a text and a seed is a parameter.
use Prim.Native.Nat.{bit_or, bit_and}
use metri_engine.Base.{ℕ, ◌%◌, ◌^◌, Text, List, [], ◌∷◌, Bool, not, ◌||◌, nat_eq}
pub mod Bloom

pub record TxConflictSignature : Type 0 where
  pub base_epoch_id : ℕ
  pub new_epoch_id : ℕ
  pub read_set_bloom : ℕ
  pub write_set_bloom : ℕ

module _ (xxh64 : Text → ℕ → ℕ) where
  abbrev pub first_bit : Text → ℕ
  first_bit k = xxh64 k 0x12345678 % 64

  abbrev pub second_bit : Text → ℕ
  second_bit k = xxh64 k 0x87654321 % 64

  -- the loop over the keys, from the mask so far
  unfoldable pub bloom_loop : List Text → ℕ → ℕ
  bloom_loop [] mask = mask
  bloom_loop (k ∷ ks) mask =
      bloom_loop ks (bit_or (bit_or mask (2 ^ first_bit k)) (2 ^ second_bit k))

  abbrev pub compute_bloom64 : List Text → ℕ
  compute_bloom64 keys = bloom_loop keys 0

  unfoldable pub from_keys : ℕ → ℕ → List Text → List Text → TxConflictSignature
  from_keys base_epoch_id new_epoch_id reads writes = record {
    base_epoch_id = base_epoch_id;
    new_epoch_id = new_epoch_id;
    read_set_bloom = compute_bloom64 reads;
    write_set_bloom = compute_bloom64 writes;
  }

unfoldable pub conflicts_with : TxConflictSignature → TxConflictSignature → Bool
conflicts_with me winner =
    not (nat_eq (bit_and me.read_set_bloom winner.write_set_bloom) 0)
    || not (nat_eq (bit_and me.write_set_bloom winner.write_set_bloom) 0)
