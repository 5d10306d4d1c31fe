-- ===== src/Mbf/Ledger/Codec.antt =====
-- The binary form of `FinancialLedgerZone`, src/mbf/zones/financial_ledger.rs. Records are laid out as
-- `repr(C)` has it on a little-endian machine. The validity of UTF-8 is a parameter.
use metri_engine.Base.{
  ℕ, zero, suc, ◌+◌, ◌<◌, ◌^◌, Bool, List, [], ◌∷◌, ◌++◌, Text, Result, ok, err, ◌>>=◌,
  if◌then◌else◌, ltb, text_eq, codes, length, take, drop, insert, text_Eq,
}
use metri_engine.Base.Int.{ℤ, pos, as_unsigned, as_i64, as_signed}
use metri_engine.Base.LittleEndian.{to_le_bytes}
use metri_engine.Base.Sorting.{sort_by_key, insert_all}
use metri_engine.Errors.{ErrorCode, mbf_corrupt001}
use metri_engine.Mbf.Wire.Bytes.{Read, Utf8, read_slice, read_word}
use metri_engine.Mbf.Wire.Block.{pad_to_64}
use metri_engine.Mbf.Ledger.{FixedDecimal128}
use metri_engine.Mbf.Ledger.Zone.{
  ActiveBatchLayer, Batch, FinancialBlockCheckpoint, LedgerAuditHeader, FinancialLedgerZone,
}
pub mod Records
pub mod RoundTrip

abbrev pub zone4_magic : Text
zone4_magic = codes "MBFZ4FIN"

-- i64::to_le_bytes and i128::to_le_bytes
abbrev pub i64_bytes : ℤ → List ℕ
i64_bytes a = to_le_bytes 8 (as_unsigned 64 a)

abbrev pub i128_bytes : ℤ → List ℕ
i128_bytes a = to_le_bytes 16 (as_unsigned 128 a)

-- bytemuck::bytes_of, 32 bytes, and the unit cost
unfoldable pub write_batch : Batch → List ℕ
write_batch (layer, cost) =
    to_le_bytes 4 layer.batch_id
    ++ (to_le_bytes 4 layer.resource_row_id
        ++ (i64_bytes layer.received_ms
            ++ (i64_bytes layer.expiry_ms
                ++ (i64_bytes layer.remaining_qty_scaled ++ i128_bytes cost))))

-- bytemuck::bytes_of, 64 bytes
unfoldable pub write_checkpoint : FinancialBlockCheckpoint → List ℕ
write_checkpoint cp =
    i128_bytes cp.closing_qty
    ++ (i128_bytes cp.closing_book_value
        ++ (i128_bytes cp.running_wac_unit_cost
            ++ (i64_bytes cp.block_end_epoch_ms ++ i64_bytes cp.reserved)))

-- bytemuck::bytes_of, 64 bytes
unfoldable pub write_audit_header : LedgerAuditHeader → List ℕ
write_audit_header h = h.prev_block_sha256 ++ h.block_merkle_root

unfoldable pub write_rate : Text × FixedDecimal128 → List ℕ
write_rate (currency, rate) = to_le_bytes 2 (length currency) ++ (currency ++ i128_bytes rate)

-- the number of records in four bytes, and the records
unfoldable pub write_each : {A : Type 0} → (A → List ℕ) → List A → List ℕ
write_each write [] = []
write_each write (a ∷ as') = write a ++ write_each write as'

unfoldable pub write_counted : {A : Type 0} → (A → List ℕ) → List A → List ℕ
write_counted write xs = to_le_bytes 4 (length xs) ++ write_each write xs

unfoldable pub encode_zone_binary : FinancialLedgerZone → List ℕ
encode_zone_binary z = pad_to_64 (
    zone4_magic
    ++ (i64_bytes z.fiscal_lock_epoch_ms
        ++ (z.merkle_chain_tip
            ++ (write_counted write_batch z.batches
                ++ (write_counted write_checkpoint z.checkpoints
                    ++ (write_counted write_audit_header z.audit_headers
                        ++ write_counted write_rate (sort_by_key z.fx_rates_to_base)))))))

unfoldable pub read_i64 : List ℕ → Read ℤ
read_i64 bytes = read_word 8 bytes >>= λ (n, rest). ok (as_i64 n, rest)

unfoldable pub read_i128 : List ℕ → Read ℤ
read_i128 bytes = read_word 16 bytes >>= λ (n, rest). ok (as_signed 128 n, rest)

unfoldable pub read_batch : List ℕ → Read Batch
read_batch bytes = read_word 4 bytes >>= λ (batch_id, after_id).
    read_word 4 after_id >>= λ (resource_row_id, after_row).
    read_i64 after_row >>= λ (received_ms, after_received).
    read_i64 after_received >>= λ (expiry_ms, after_expiry).
    read_i64 after_expiry >>= λ (remaining, after_remaining).
    read_i128 after_remaining >>= λ (cost, rest). ok (
      (
        record {
          batch_id = batch_id;
          resource_row_id = resource_row_id;
          received_ms = received_ms;
          expiry_ms = expiry_ms;
          remaining_qty_scaled = remaining;
        },
        cost,
      ),
      rest,
    )

unfoldable pub read_checkpoint : List ℕ → Read FinancialBlockCheckpoint
read_checkpoint bytes = read_i128 bytes >>= λ (closing_qty, after_qty).
    read_i128 after_qty >>= λ (closing_book_value, after_value).
    read_i128 after_value >>= λ (unit_cost, after_cost).
    read_i64 after_cost >>= λ (block_end_epoch_ms, after_end).
    read_i64 after_end >>= λ (reserved, rest). ok (
      record {
        closing_qty = closing_qty;
        closing_book_value = closing_book_value;
        running_wac_unit_cost = unit_cost;
        block_end_epoch_ms = block_end_epoch_ms;
        reserved = reserved;
      },
      rest,
    )

unfoldable pub read_audit_header : List ℕ → Read LedgerAuditHeader
read_audit_header bytes = read_slice 32 bytes >>= λ (prev, after_prev).
    read_slice 32 after_prev >>= λ (root, rest).
    ok (record { prev_block_sha256 = prev; block_merkle_root = root }, rest)

unfoldable pub read_each : {A : Type 0} → (List ℕ → Read A) → ℕ → List ℕ → Read (List A)
read_each read zero bytes = ok ([], bytes)
read_each read (suc n) bytes = read bytes >>= λ (a, after_one).
    read_each read n after_one >>= λ (others, rest). ok (a ∷ others, rest)

unfoldable pub read_counted : {A : Type 0} → (List ℕ → Read A) → List ℕ → Read (List A)
read_counted read bytes = read_word 4 bytes >>= λ (count, rest). read_each read count rest

module _ (utf8 : Utf8) where
  -- the length is checked together with that of the rate
  unfoldable pub read_rate : List ℕ → Read (Text × FixedDecimal128)
  read_rate bytes = read_word 2 bytes >>= λ (clen, after_len).
      (if ltb (length after_len) (clen + 16)
        then err mbf_corrupt001
        else (read_slice clen after_len >>= λ (currency, after_currency).
            read_i128 after_currency >>= λ (rate, rest).
            ok ((utf8.from_utf8_lossy currency, rate), rest)))

  abbrev rates_of : List (Text × FixedDecimal128) → List (Text × FixedDecimal128)
  rates_of rates = insert_all rates []

  -- after the magic
  unfoldable pub read_zone : List ℕ → Result ErrorCode FinancialLedgerZone
  read_zone bytes = read_i64 bytes >>= λ (fiscal_lock_epoch_ms, after_lock).
      read_slice 32 after_lock >>= λ (tip, after_tip).
      read_counted read_batch after_tip >>= λ (batches, after_batches).
      read_counted read_checkpoint after_batches >>= λ (checkpoints, after_checkpoints).
      read_counted read_audit_header after_checkpoints >>= λ (audit_headers, after_headers).
      read_counted read_rate after_headers >>= λ (rates, rest). ok (record {
        fiscal_lock_epoch_ms = fiscal_lock_epoch_ms;
        batches = batches;
        checkpoints = checkpoints;
        audit_headers = audit_headers;
        merkle_chain_tip = tip;
        fx_rates_to_base = rates_of rates;
      })

  unfoldable pub decode_zone_binary : List ℕ → Result ErrorCode FinancialLedgerZone
  decode_zone_binary bytes =
      if ltb (length bytes) 48
      then err mbf_corrupt001
      else (if text_eq (take 8 bytes) zone4_magic
          then read_zone (drop 8 bytes)
          else err mbf_corrupt001)
