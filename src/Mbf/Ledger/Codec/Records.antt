-- ===== src/Mbf/Ledger/Codec/Records.antt =====
-- The records of the zone are read back, whatever follows them.
use mathlib.Core.List.{append_assoc}
use metri_engine.Base.{
  ℕ, ◌+◌, ◌<◌, ◌^◌, ◌≡◌, refl, ap, sym, ◌∙◌, true, false, List, [], ◌∷◌, ◌++◌, Text, ok, ltb,
  length, length-append, arith,
}
use metri_engine.Base.Int.{
  ℤ, IsI64, fits, as_unsigned, as_unsigned-below, as_i64-as_unsigned, as_unsigned-lt,
  as_signed-as_unsigned,
}
use metri_engine.Base.LittleEndian.{to_le_bytes, length-to_le_bytes}
use metri_engine.Base.Sorting.{All}
use metri_engine.Mbf.Wire.Bytes.{Read, Utf8, read_slice, read_word-append, read_slice-append}
use metri_engine.Mbf.Ledger.{FixedDecimal128}
use metri_engine.Mbf.Ledger.Zone.{Batch, FinancialBlockCheckpoint, LedgerAuditHeader}
use metri_engine.Mbf.Ledger.Codec.{
  i64_bytes, i128_bytes, write_batch, write_checkpoint, write_audit_header, write_rate, write_each,
  write_counted, read_i64, read_i128, read_batch, read_checkpoint, read_audit_header, read_rate,
  read_each, read_counted,
}

-- what is written is read back
abbrev pub Reads : {A : Type 0} → (A → List ℕ) → (List ℕ → Read A) → A → Type 0
Reads write read a = (rest : List ℕ) → read (write a ++ rest) ≡ ok (a, rest)

abbrev pub IsI128 : ℤ → Type 0
IsI128 a = fits 128 a ≡ true

pub read_i64-append : (a : ℤ) → IsI64 a → Reads i64_bytes read_i64 a
unfolding read_i64
read_i64-append a h rest =
    rw (read_word-append 8 (as_unsigned 64 a) rest (as_unsigned-below a h), as_i64-as_unsigned a h)
      refl

pub read_i128-append : (a : ℤ) → IsI128 a → Reads i128_bytes read_i128 a
unfolding read_i128
read_i128-append a h rest =
    rw
      (read_word-append 16 (as_unsigned 128 a) rest (as_unsigned-lt a h), as_signed-as_unsigned a h)
      refl

-- a batch whose fields have the widths of the source
abbrev pub IsBatch : Batch → Type 0
IsBatch (layer, cost) =
    (layer.batch_id < 2 ^ 32)
    × (layer.resource_row_id < 2 ^ 32)
    × IsI64 layer.received_ms
    × IsI64 layer.expiry_ms
    × IsI64 layer.remaining_qty_scaled
    × IsI128 cost

pub read_batch-write_batch : (b : Batch) → IsBatch b → Reads write_batch read_batch b
unfolding read_batch write_batch
read_batch-write_batch (layer, cost) (hb, hr, hv, he, hq, hc) rest = simp (append_assoc) (
    rw
      (
        read_word-append 4 layer.batch_id _ hb,
        read_word-append 4 layer.resource_row_id _ hr,
        read_i64-append layer.received_ms hv _,
        read_i64-append layer.expiry_ms he _,
        read_i64-append layer.remaining_qty_scaled hq _,
        read_i128-append cost hc rest,
      )
      refl)

abbrev pub IsCheckpoint : FinancialBlockCheckpoint → Type 0
IsCheckpoint cp =
    IsI128 cp.closing_qty
    × IsI128 cp.closing_book_value
    × IsI128 cp.running_wac_unit_cost
    × IsI64 cp.block_end_epoch_ms
    × IsI64 cp.reserved

pub read_checkpoint-write_checkpoint :
    (cp : FinancialBlockCheckpoint) → IsCheckpoint cp → Reads write_checkpoint read_checkpoint cp
unfolding read_checkpoint write_checkpoint
read_checkpoint-write_checkpoint cp (hq, hv, hc, he, hr) rest = simp (append_assoc) (
    rw
      (
        read_i128-append cp.closing_qty hq _,
        read_i128-append cp.closing_book_value hv _,
        read_i128-append cp.running_wac_unit_cost hc _,
        read_i64-append cp.block_end_epoch_ms he _,
        read_i64-append cp.reserved hr rest,
      )
      refl)

-- digests of 32 bytes
abbrev pub IsAuditHeader : LedgerAuditHeader → Type 0
IsAuditHeader h = (length h.prev_block_sha256 ≡ 32) × (length h.block_merkle_root ≡ 32)

pub read_digest : (d rest : List ℕ) → length d ≡ 32 → read_slice 32 (d ++ rest) ≡ ok (d, rest)
read_digest d rest h = ap (λ n. read_slice n (d ++ rest)) (sym h) ∙ read_slice-append d rest

pub read_audit_header-write_audit_header :
    (h : LedgerAuditHeader) → IsAuditHeader h → Reads write_audit_header read_audit_header h
unfolding read_audit_header write_audit_header
read_audit_header-write_audit_header h (hp, hr) rest =
    simp (append_assoc)
      (rw (read_digest h.prev_block_sha256 _ hp, read_digest h.block_merkle_root rest hr) refl)

pub read_each-write_each :
    {A : Type 0} (write : A → List ℕ) (read : List ℕ → Read A) (P : A → Type 0)
    → ((a : A) → P a → Reads write read a)
    → (xs : List A) → All P xs
    → (rest : List ℕ) → read_each read (length xs) (write_each write xs ++ rest) ≡ ok (xs, rest)
unfolding read_each write_each
read_each-write_each write read P each [] h rest = refl
read_each-write_each write read P each (x ∷ xs) (h, hs) rest =
    rw
      (
        append_assoc (write x) (write_each write xs) rest,
        each x h (write_each write xs ++ rest),
        read_each-write_each write read P each xs hs rest,
      )
      refl

pub read_counted-write_counted :
    {A : Type 0} (write : A → List ℕ) (read : List ℕ → Read A) (P : A → Type 0)
    → ((a : A) → P a → Reads write read a)
    → (xs : List A) → All P xs
    → length xs < 2 ^ 32
    → Reads (write_counted write) (read_counted read) xs
unfolding read_counted write_counted
read_counted-write_counted write read P each xs h few rest =
    rw
      (
        append_assoc (to_le_bytes 4 (length xs)) (write_each write xs) rest,
        read_word-append 4 (length xs) (write_each write xs ++ rest) few,
      )
      (read_each-write_each write read P each xs h rest)

module _ (utf8 : Utf8) where
  -- a currency of fewer than 2^16 bytes, and an i128
  abbrev pub IsRate : Text × FixedDecimal128 → Type 0
  IsRate (currency, rate) =
      (length currency < 2 ^ 16) × (utf8.is_utf8 currency ≡ true) × IsI128 rate

  pub read_rate-write_rate :
      (r : Text × FixedDecimal128) → IsRate r → Reads write_rate (read_rate utf8) r
  unfolding read_rate write_rate
  read_rate-write_rate (currency, rate) (short, valid, hr) rest = simp (append_assoc) (
      rw
        (
          read_word-append 2 (length currency) _ short,
          enough,
          read_slice-append currency _,
          read_i128-append rate hr rest,
          utf8.lossy_valid currency valid,
        )
        refl)
    where
      enough : ltb (length (currency ++ (i128_bytes rate ++ rest))) (length currency + 16) ≡ false
      enough = ground (
        arith,
        length-append currency (i128_bytes rate ++ rest),
        length-append (i128_bytes rate) rest,
        length-to_le_bytes 16 (as_unsigned 128 rate),
      )
