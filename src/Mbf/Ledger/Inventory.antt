-- ===== src/Mbf/Ledger/Inventory.antt =====
-- Lots of stock, src/mbf/zones/financial_ledger.rs: `receive_batch`, `issue_inventory`, and the
-- amortisation of an asset by its use.
use metri_engine.Base.{
  ℕ, zero, suc, ◌≡◌, Bool, true, false, Option, none, some, List, [], ◌∷◌, ◌++◌, Result, ok, err,
  ◌>>=◌, if◌then◌else◌, map, get_elem?, set, ltb,
}
use metri_engine.Base.Int.{ℤ, pos, ◌-ℤ◌, ◌*ℤ◌, leb_ℤ, ltb_ℤ, is_zero, min_ℤ, wrap}
use metri_engine.Base.Sorting.{sort_by}
use metri_engine.Errors.{ErrorCode, mbf_ledger_unbalanced001, mbf_fiscal_closed001}
use metri_engine.Mbf.Ledger.{FixedDecimal128}
use metri_engine.Mbf.Ledger.Zone.{
  scale, checked_add, checked_sub, mul_bankers, div_bankers, ValuationMethod, fifo, lifo, wac, fefo,
  ActiveBatchLayer, Batch, FinancialBlockCheckpoint, FinancialLedgerZone, compute_checkpoint,
}
pub mod Stock
pub mod Rounds
pub mod Conserved

abbrev recorded :
    FinancialLedgerZone
    → Result ErrorCode FinancialBlockCheckpoint
    → Result ErrorCode FinancialBlockCheckpoint × FinancialLedgerZone
recorded z (err e) = (err e, z)
recorded z (ok cp) = (ok cp, record z { checkpoints = z.checkpoints ++ (cp ∷ []) })

unfoldable pub receive_batch :
    ℕ
    → ℕ
    → ℤ
    → ℤ
    → FixedDecimal128
    → FixedDecimal128
    → FinancialLedgerZone
    → Result ErrorCode FinancialBlockCheckpoint × FinancialLedgerZone
receive_batch batch_id resource_row_id received_ms expiry_ms qty unit_cost_base z =
    let layer : ActiveBatchLayer = record {
      batch_id = batch_id;
      resource_row_id = resource_row_id;
      received_ms = received_ms;
      expiry_ms = expiry_ms;
      remaining_qty_scaled = wrap 64 qty;
    } in
    let z' : FinancialLedgerZone = record z {
      batches = z.batches ++ ((layer, unit_cost_base) ∷ []);
    } in
    if leb_ℤ received_ms z.fiscal_lock_epoch_ms
    then (err mbf_fiscal_closed001, z)
    else recorded z' (compute_checkpoint z'.batches received_ms)

-- the layers with their indices
unfoldable pub shift : List (ℕ × Batch) → List (ℕ × Batch)
shift [] = []
shift ((i, b) ∷ bs) = (suc i, b) ∷ shift bs

unfoldable pub enumerate : List Batch → List (ℕ × Batch)
enumerate [] = []
enumerate (b ∷ bs) = (0, b) ∷ shift (enumerate bs)

-- sort_by_key, which keeps the order of equal keys
abbrev pub comes_first : ValuationMethod → ℕ × Batch → ℕ × Batch → Bool
comes_first fifo (i, (a, c)) (j, (b, d)) = ltb_ℤ a.received_ms b.received_ms
comes_first wac (i, (a, c)) (j, (b, d)) = ltb_ℤ a.received_ms b.received_ms
comes_first lifo (i, (a, c)) (j, (b, d)) = ltb_ℤ b.received_ms a.received_ms
comes_first fefo (i, (a, c)) (j, (b, d)) = ltb_ℤ a.expiry_ms b.expiry_ms

unfoldable pub in_order : ValuationMethod → List Batch → List (ℕ × Batch)
in_order method batches = sort_by (comes_first method) (enumerate batches)

-- The loop's variables.
pub record Issue : Type 0 where
  pub batches : List Batch
  pub remaining_to_issue : ℤ
  pub total_cogs : FixedDecimal128

abbrev pub unit_cost_of : ValuationMethod → FixedDecimal128 → FixedDecimal128 → FixedDecimal128
unit_cost_of wac running_wac_unit_cost unit_cost_base = running_wac_unit_cost
unit_cost_of method running_wac_unit_cost unit_cost_base = unit_cost_base

-- total_cogs.checked_add(layer_cost)?
abbrev charged : Issue → Result ErrorCode FixedDecimal128 → Result ErrorCode (Unit {0}) × Issue
charged s (err e) = (err e, s)
charged s (ok total) = (ok tt, record s { total_cogs = total })

-- what is taken from one layer
unfoldable pub take_from :
    ValuationMethod → FixedDecimal128 → ℕ → Batch → Issue → Result ErrorCode (Unit {0}) × Issue
take_from method running_wac_unit_cost idx (layer, cost) s =
    let taken : ℤ = min_ℤ layer.remaining_qty_scaled s.remaining_to_issue in
    let left : ActiveBatchLayer = record layer {
      remaining_qty_scaled = wrap 64 (layer.remaining_qty_scaled -ℤ taken);
    } in
    let s' : Issue = record s {
      batches = set s.batches idx (left, cost);
      remaining_to_issue = wrap 64 (s.remaining_to_issue -ℤ taken);
    } in
    if is_zero layer.remaining_qty_scaled
    then (ok tt, s)
    else charged s' (
        checked_add s.total_cogs
          (mul_bankers taken (unit_cost_of method running_wac_unit_cost cost)))

-- One round. After the loop's `break` every round passes by.
unfoldable pub issue_at :
    ValuationMethod → FixedDecimal128 → ℕ → Issue → Result ErrorCode (Unit {0}) × Issue
issue_at method running_wac_unit_cost idx s =
    if is_zero s.remaining_to_issue then (ok tt, s) else elim (get_elem? s.batches idx) [
      | none ↦ (ok tt, s)
      | some b ↦ take_from method running_wac_unit_cost idx b s
    ]

unfoldable pub issue_all :
    ValuationMethod
    → FixedDecimal128
    → List (ℕ × Batch)
    → Issue
    → Result ErrorCode (Unit {0}) × Issue
issue_all method running_wac_unit_cost [] s = (ok tt, s)
issue_all method running_wac_unit_cost ((idx, b) ∷ rest) s =
    let (r, s') = issue_at method running_wac_unit_cost idx s in
    elim r [ err e ↦ (err e, s') | ok u ↦ issue_all method running_wac_unit_cost rest s' ]

-- The cost of what was issued, and the checkpoint after it. An error in the loop leaves what it has taken.
abbrev Answer : Type 0
Answer = Result ErrorCode (FixedDecimal128 × FinancialBlockCheckpoint) × FinancialLedgerZone

abbrev pub closed_with :
    FixedDecimal128 → FinancialLedgerZone → Result ErrorCode FinancialBlockCheckpoint → Answer
closed_with cogs z (err e) = (err e, z)
closed_with cogs z (ok cp) = (ok (cogs, cp), record z { checkpoints = z.checkpoints ++ (cp ∷ []) })

abbrev pub issued : ℤ → FinancialLedgerZone → Result ErrorCode (Unit {0}) × Issue → Answer
issued epoch_ms z (err e, s) = (err e, record z { batches = s.batches })
issued epoch_ms z (ok u, s) =
    closed_with s.total_cogs (record z { batches = s.batches })
      (compute_checkpoint s.batches epoch_ms)

abbrev pub issue_from :
    ℤ
    → FixedDecimal128
    → ValuationMethod
    → FinancialLedgerZone
    → Result ErrorCode FinancialBlockCheckpoint
    → Answer
issue_from epoch_ms issue_qty method z (err e) = (err e, z)
issue_from epoch_ms issue_qty method z (ok current_cp) =
    if ltb_ℤ current_cp.closing_qty issue_qty
    then (err mbf_ledger_unbalanced001, z)
    else issued epoch_ms z (
        issue_all method current_cp.running_wac_unit_cost (in_order method z.batches) (record {
          batches = z.batches;
          remaining_to_issue = wrap 64 issue_qty;
          total_cogs = pos 0;
        }))

unfoldable pub issue_inventory :
    ℤ → FixedDecimal128 → ValuationMethod → FinancialLedgerZone → Answer
issue_inventory tx_epoch_ms issue_qty method z =
    if leb_ℤ tx_epoch_ms z.fiscal_lock_epoch_ms
    then (err mbf_fiscal_closed001, z)
    else issue_from tx_epoch_ms issue_qty method z (compute_checkpoint z.batches tx_epoch_ms)

-- FixedDecimal128::from_whole of a u64 as i64
abbrev from_whole : ℕ → FixedDecimal128
from_whole units = wrap 64 (pos units) *ℤ scale

unfoldable pub compute_straight_line_amortization :
    FixedDecimal128 → FixedDecimal128 → ℕ → ℕ → Result ErrorCode FixedDecimal128
compute_straight_line_amortization acquisition_cost salvage_value total_capacity_units
      consumed_units =
    let capped_units : ℕ =
      if ltb consumed_units total_capacity_units then consumed_units else total_capacity_units in
    if ltb 0 total_capacity_units
    then (checked_sub acquisition_cost salvage_value >>= λ amortizable_base.
        div_bankers (from_whole capped_units) (from_whole total_capacity_units) >>= λ ratio.
        ok (mul_bankers amortizable_base ratio))
    else err mbf_ledger_unbalanced001
