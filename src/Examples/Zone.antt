-- ===== src/Examples/Zone.antt =====
-- The ledger's zone: two lots, of ten units and of five, of which twelve are issued; two entries posted;
-- movements in an array of eight; and the zone with these lots in binary. The digests are the zeros of
-- 32 bytes, and every byte sequence counts as UTF-8.
use metri_engine.Base.{
  ℕ, ◌≡◌, ◌⊎◌, refl, true, List, [], ◌∷◌, ok, codes, get, text_eq, text_Eq, arith,
}
use metri_engine.Base.Int.{pos, negsuc, wrap, fits}
use metri_engine.Mbf.Wire.Bytes.{Utf8}
use metri_engine.Mbf.Ledger.Zone.{Batch, FinancialLedgerZone, fifo, zeros}
use metri_engine.Mbf.Ledger.Inventory.{issue_inventory}
use metri_engine.Mbf.Ledger.Inventory.Conserved.{Issued, issue_inventory-conserves}
use metri_engine.Mbf.Ledger.Chain.{Entry, accepted, post_all, Chained, post_all-Chained}
use metri_engine.Mbf.Ledger.Tamper.{Collision, post_all_commits}
use metri_engine.Mbf.Ledger.Fenwick.{with_capacity, range_sum}
use metri_engine.Mbf.Ledger.Fenwick.Sums.{Movement, add_all, total_within}
use metri_engine.Mbf.Ledger.Fenwick.Ranges.{range_sum-add_all}
use metri_engine.Mbf.Ledger.Codec.{encode_zone_binary, decode_zone_binary}
use metri_engine.Mbf.Ledger.Codec.RoundTrip.{IsZone, SameZone, decode-encode_zone_binary}

abbrev bytes_utf8 : Utf8
bytes_utf8 = record {
  is_utf8 = λ s. true;
  from_utf8_lossy = λ s. s;
  after_ascii = λ s c rest small valid. refl;
  lossy_valid = λ s valid. refl;
}

abbrev two_lots : List Batch
two_lots =
    (
      record {
        batch_id = 1;
        resource_row_id = 7;
        received_ms = pos 1000;
        expiry_ms = pos 9000;
        remaining_qty_scaled = pos 100000;
      },
      pos 20000,
    )
    ∷ (
      record {
        batch_id = 2;
        resource_row_id = 7;
        received_ms = pos 2000;
        expiry_ms = pos 8000;
        remaining_qty_scaled = pos 50000;
      },
      pos 30000,
    )
    ∷ []

abbrev stocked : FinancialLedgerZone
stocked = record {
  fiscal_lock_epoch_ms = pos 500;
  batches = two_lots;
  checkpoints = [];
  audit_headers = [];
  merkle_chain_tip = zeros 32;
  fx_rates_to_base = (codes "EUR", pos 10800) ∷ [];
}

issue_inventory-conserves_example :
    Issued 120000 two_lots (issue_inventory (pos 3000) (pos 120000) fifo stocked)
issue_inventory-conserves_example =
    issue_inventory-conserves (pos 3000) 120000 fifo stocked
      ((refl, omega arith), ((refl, omega arith), tt)) (omega arith)

abbrev digest : List ℕ → List ℕ
digest m = zeros 32

-- one entry in order, and one that is not balanced
abbrev two_entries : List Entry
two_entries =
    record { tx_epoch_ms = pos 1500; debits = pos 70 ∷ pos 30 ∷ []; credits = pos 100 ∷ [] }
    ∷ record { tx_epoch_ms = pos 1600; debits = pos 70 ∷ []; credits = pos 60 ∷ [] }
    ∷ []

post_all-Chained_example :
    Chained digest (zeros 32) stocked two_entries (post_all digest two_entries stocked)
post_all-Chained_example = post_all-Chained digest (zeros 32) two_entries stocked refl

post_all_commits_example :
    (accepted (pos 500) two_entries ≡ accepted (pos 500) two_entries) ⊎ Collision digest
post_all_commits_example =
    post_all_commits digest (λ m. refl) (zeros 32) stocked two_entries two_entries refl
      (omega arith, (omega arith, tt)) (omega arith, (omega arith, tt)) refl refl

abbrev movements : List Movement
movements = (2, pos 500) ∷ (5, negsuc 199) ∷ (2, pos 25) ∷ (7, pos 9) ∷ []

range_sum-add_all_example :
    range_sum 2 5 (add_all movements (with_capacity 8)) ≡ wrap 128 (total_within movements 2 5)
range_sum-add_all_example =
    range_sum-add_all 8 (omega arith) movements
      (omega arith, (omega arith, (omega arith, (omega arith, tt)))) 2 5 (omega arith) (omega arith)

stocked-IsZone : IsZone bytes_utf8 stocked
unfolding get text_eq zeros fits
stocked-IsZone = (
  omega arith,
  refl,
  (
    (
      (omega arith, omega arith, omega arith, omega arith, omega arith, refl),
      ((omega arith, omega arith, omega arith, omega arith, omega arith, refl), tt),
    ),
    omega arith,
  ),
  (tt, omega arith),
  (tt, omega arith),
  (((omega arith, refl, refl), tt), omega arith),
  (refl, tt),
)

decode-encode_zone_binary_example :
    (y : FinancialLedgerZone) × (decode_zone_binary bytes_utf8 (encode_zone_binary stocked) ≡ ok y)
    × SameZone y stocked
decode-encode_zone_binary_example = decode-encode_zone_binary bytes_utf8 stocked stocked-IsZone
