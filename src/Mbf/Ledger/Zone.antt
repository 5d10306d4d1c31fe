-- ===== src/Mbf/Ledger/Zone.antt =====
-- `FinancialLedgerZone`, src/mbf/zones/financial_ledger.rs: journal entries sealed in a chain of SHA-256
-- digests, exchange rates, and lots of stock that are received and issued. SHA-256 is a parameter. The
-- i64 and i128 arithmetic wraps, as in a build without overflow checks.
use metri_engine.Base.{
  ℕ, zero, suc, Option, none, some, List, [], ◌∷◌, ◌++◌, Text, Result, ok, err, ◌>>=◌,
  if◌then◌else◌, ◌&&◌, get, insert, text_Eq,
}
use metri_engine.Base.Int.{ℤ, pos, ◌+ℤ◌, ◌-ℤ◌, ◌*ℤ◌, leb_ℤ, ltb_ℤ, is_zero, wrap, fits, as_unsigned}
use metri_engine.Base.LittleEndian.{to_le_bytes}
use metri_engine.Errors.{ErrorCode, mbf_ledger_unbalanced001, mbf_fiscal_closed001}
use metri_engine.Mbf.Ledger.{FixedDecimal128, div_bankers_raw}

-- FixedDecimal128::SCALE
abbrev pub scale : ℤ
scale = pos 10000

abbrev in_i128 : ℤ → Result ErrorCode FixedDecimal128
in_i128 a = if fits 128 a then ok a else err mbf_ledger_unbalanced001

unfoldable pub checked_add : FixedDecimal128 → FixedDecimal128 → Result ErrorCode FixedDecimal128
checked_add a b = in_i128 (a +ℤ b)

unfoldable pub checked_sub : FixedDecimal128 → FixedDecimal128 → Result ErrorCode FixedDecimal128
checked_sub a b = in_i128 (a -ℤ b)

unfoldable pub mul_bankers : FixedDecimal128 → FixedDecimal128 → FixedDecimal128
mul_bankers a b = div_bankers_raw (wrap 128 (a *ℤ b)) scale

unfoldable pub div_bankers : FixedDecimal128 → FixedDecimal128 → Result ErrorCode FixedDecimal128
div_bankers a divisor =
    if is_zero divisor
    then err mbf_ledger_unbalanced001
    else ok (div_bankers_raw (wrap 128 (a *ℤ scale)) divisor)

pub data ValuationMethod : Type 0 where
  fifo lifo wac fefo : ValuationMethod

pub record ActiveBatchLayer : Type 0 where
  pub batch_id : ℕ
  pub resource_row_id : ℕ
  pub received_ms : ℤ
  pub expiry_ms : ℤ
  pub remaining_qty_scaled : ℤ

-- (layer, unit_cost_base)
abbrev pub Batch : Type 0
Batch = ActiveBatchLayer × FixedDecimal128

pub record FinancialBlockCheckpoint : Type 0 where
  pub closing_qty : FixedDecimal128
  pub closing_book_value : FixedDecimal128
  pub running_wac_unit_cost : FixedDecimal128
  pub block_end_epoch_ms : ℤ
  pub reserved : ℤ

pub record LedgerAuditHeader : Type 0 where
  pub prev_block_sha256 : List ℕ
  pub block_merkle_root : List ℕ

pub record FinancialLedgerZone : Type 0 where
  pub fiscal_lock_epoch_ms : ℤ
  pub batches : List Batch
  pub checkpoints : List FinancialBlockCheckpoint
  pub audit_headers : List LedgerAuditHeader
  pub merkle_chain_tip : List ℕ
  pub fx_rates_to_base : List (Text × FixedDecimal128)

-- [0u8; n]
abbrev pub zeros : ℕ → List ℕ
zeros zero = []
zeros (suc n) = 0 ∷ zeros n

-- FinancialLedgerZone::new
unfoldable pub new : ℤ → FinancialLedgerZone
new fiscal_lock_epoch_ms = record {
  fiscal_lock_epoch_ms = fiscal_lock_epoch_ms;
  batches = [];
  checkpoints = [];
  audit_headers = [];
  merkle_chain_tip = zeros 32;
  fx_rates_to_base = [];
}

unfoldable pub set_exchange_rate :
    Text → FixedDecimal128 → FinancialLedgerZone → FinancialLedgerZone
set_exchange_rate currency_code rate_to_base z = record z {
  fx_rates_to_base = insert z.fx_rates_to_base currency_code rate_to_base;
}

abbrev converted : FixedDecimal128 → Option FixedDecimal128 → Result ErrorCode FixedDecimal128
converted amount none = err mbf_ledger_unbalanced001
converted amount (some rate) = ok (mul_bankers amount rate)

unfoldable pub convert_to_base_currency :
    FixedDecimal128 → Text → FinancialLedgerZone → Result ErrorCode FixedDecimal128
convert_to_base_currency amount currency z = converted amount (get z.fx_rates_to_base currency)

-- iter().map(|d| d.0).sum(), with what was summed so far
unfoldable pub sum_from : ℤ → List FixedDecimal128 → ℤ
sum_from acc [] = acc
sum_from acc (d ∷ ds) = sum_from (wrap 128 (acc +ℤ d)) ds

module _ (sha256 : List ℕ → List ℕ) where
  unfoldable pub digest_of : List ℕ → ℤ → ℤ → List ℕ
  digest_of tip tx_epoch_ms sum_d = sha256 (
      tip ++ (to_le_bytes 8 (as_unsigned 64 tx_epoch_ms) ++ to_le_bytes 16 (as_unsigned 128 sum_d)))

  -- the entry sealed: its digest becomes the tip of the chain
  unfoldable pub sealed : ℤ → ℤ → FinancialLedgerZone → FinancialLedgerZone
  sealed tx_epoch_ms sum_d z =
      let digest : List ℕ = digest_of z.merkle_chain_tip tx_epoch_ms sum_d in
      record z {
        merkle_chain_tip = digest;
        audit_headers =
            z.audit_headers
            ++ (record { prev_block_sha256 = z.merkle_chain_tip; block_merkle_root = digest } ∷ []);
      }

  unfoldable pub record_journal_entry :
      ℤ
      → List FixedDecimal128
      → List FixedDecimal128
      → FinancialLedgerZone
      → Result ErrorCode (List ℕ) × FinancialLedgerZone
  record_journal_entry tx_epoch_ms debits credits z =
      let sum_d : ℤ = sum_from (pos 0) debits in
      let sum_c : ℤ = sum_from (pos 0) credits in
      let z' : FinancialLedgerZone = sealed tx_epoch_ms sum_d z in
      if leb_ℤ tx_epoch_ms z.fiscal_lock_epoch_ms
      then (err mbf_fiscal_closed001, z)
      else (if leb_ℤ sum_d sum_c && leb_ℤ sum_c sum_d
          then (ok z'.merkle_chain_tip, z')
          else (err mbf_ledger_unbalanced001, z))

-- the quantity and the value so far
abbrev pub Totals : Type 0
Totals = FixedDecimal128 × FixedDecimal128

unfoldable pub add_layer : Batch → Totals → Result ErrorCode Totals
add_layer (layer, unit_cost) (total_qty, total_val) =
    if ltb_ℤ (pos 0) layer.remaining_qty_scaled
    then (checked_add total_qty layer.remaining_qty_scaled >>= λ qty.
        checked_add total_val (mul_bankers layer.remaining_qty_scaled unit_cost) >>= λ value.
        ok (qty, value))
    else ok (total_qty, total_val)

unfoldable pub totals : List Batch → Totals → Result ErrorCode Totals
totals [] acc = ok acc
totals (b ∷ bs) acc = add_layer b acc >>= totals bs

abbrev pub average_cost : Totals → Result ErrorCode FixedDecimal128
average_cost (total_qty, total_val) =
    if ltb_ℤ (pos 0) total_qty then div_bankers total_val total_qty else ok (pos 0)

abbrev pub checkpoint_of : ℤ → Totals → Result ErrorCode FinancialBlockCheckpoint
checkpoint_of epoch_ms acc = average_cost acc >>= λ unit_cost. ok (record {
  closing_qty = acc.0;
  closing_book_value = acc.1;
  running_wac_unit_cost = unit_cost;
  block_end_epoch_ms = epoch_ms;
  reserved = pos 0;
})

unfoldable pub compute_checkpoint : List Batch → ℤ → Result ErrorCode FinancialBlockCheckpoint
compute_checkpoint batches epoch_ms = totals batches (pos 0, pos 0) >>= checkpoint_of epoch_ms
