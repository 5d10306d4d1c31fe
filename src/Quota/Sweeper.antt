-- ===== src/Quota/Sweeper.antt =====
-- The sweep of expired reservations, src/quota/sweeper.rs (`sweep_once`), over the two interfaces it
-- is written against: `ReservationStore` and the `settle_once` of `QuotaCounter`.
pub mod Refunds
pub mod Accounting
use metri_engine.Base.{
  ℕ, ◌+◌, Bool, true, false, List, [], ◌∷◌, Text, Result, ok, err, if◌then◌else◌,
}
use metri_engine.Base.Int.{ℤ}
use metri_engine.Errors.{ErrorCode}
use metri_engine.Quota.Counter.{SettleOutcome, neg_i64}
use metri_engine.Quota.Reservations.{
  Reservation, ClaimResult, claimed, CloseReason, expired, abandoned, settlement_key,
}

-- the methods of `trait ReservationStore` that the sweep calls
pub record ReservationStore (S : Type 0) : Type 0 where
  pub sweep : ℕ → ℕ → ℕ → S → Result ErrorCode (List Reservation)
  pub claim : Text → Text → ℕ → S → Result ErrorCode ClaimResult × S
  pub close : Text → Text → CloseReason → S → Result ErrorCode (Unit {0}) × S

-- `QuotaCounter::settle_once`: tenant, quota, delta, idempotence key
pub record QuotaCounter (C : Type 0) : Type 0 where
  pub settle_once : Text → Text → ℤ → Text → C → Result ErrorCode SettleOutcome × C

pub record SweepReport : Type 0 where
  pub refunded : ℕ
  pub abandoned : ℕ
  pub skipped : ℕ
  pub failed : ℕ

unfoldable pub touched : SweepReport → ℕ
touched r = r.refunded + r.abandoned + r.skipped + r.failed

-- SWEEP_BATCH
abbrev pub sweep_batch : ℕ
sweep_batch = 25

module _ {S C : Type 0} (store : ReservationStore S) (counter : QuotaCounter C) where
  -- the report, and what the two interfaces keep
  abbrev pub Sweep : Type 0
  Sweep = SweepReport × S × C

  abbrev count_failed : SweepReport → SweepReport
  count_failed r = record r { failed = r.failed + 1 }

  abbrev count_skipped : SweepReport → SweepReport
  count_skipped r = record r { skipped = r.skipped + 1 }

  abbrev count_closed : Bool → SweepReport → SweepReport
  count_closed true r = record r { refunded = r.refunded + 1 }
  count_closed false r = record r { abandoned = r.abandoned + 1 }

  abbrev close_reason : Bool → CloseReason
  close_reason true = expired
  close_reason false = abandoned

  -- `store.close(...)` and the count
  unfoldable pub close_one : Reservation → Sweep → Sweep
  close_one r (report, s, c) =
      let (answer, s') = store.close r.tenant_id r.id (close_reason r.debited) s in
      elim answer [
        | ok _ ↦ (count_closed r.debited report, s', c)
        | err _ ↦ (count_failed report, s', c)
      ]

  -- the refund of a debited reservation, then the close
  unfoldable pub refund_one : Reservation → Sweep → Sweep
  unfolding close_one
  refund_one r (report, s, c) =
      if r.debited
      then (let (answer, c') =
            counter.settle_once r.tenant_id r.quota_id (neg_i64 r.estimated) (settlement_key r.id)
              c in
          elim answer [ ok _ ↦ close_one r (report, s, c') | err _ ↦ (count_failed report, s, c') ])
      else close_one r (report, s, c)

  -- the body of the loop over what expired
  unfoldable pub sweep_one : ℕ → Reservation → Sweep → Sweep
  unfolding refund_one
  sweep_one lease r (report, s, c) =
      let (answer, s') = store.claim r.tenant_id r.id lease s in
      elim answer [
        | ok (claimed _) ↦ refund_one r (report, s', c)
        | ok _ ↦ (count_skipped report, s', c)
        | err _ ↦ (count_failed report, s', c)
      ]

  unfoldable pub sweep_all : ℕ → List Reservation → Sweep → Sweep
  sweep_all lease [] w = w
  sweep_all lease (r ∷ rs) w = sweep_all lease rs (sweep_one lease r w)

  -- the body of the loop over the shards
  unfoldable pub sweep_shard : ℕ → ℕ → ℕ → Sweep → Sweep
  unfolding sweep_all
  sweep_shard now lease shard (report, s, c) = elim (store.sweep shard now sweep_batch s) [
    | ok rs ↦ sweep_all lease rs (report, s, c)
    | err _ ↦ (count_failed report, s, c)
  ]

  unfoldable pub sweep_once : List ℕ → ℕ → ℕ → Sweep → Sweep
  unfolding sweep_shard
  sweep_once [] now lease w = w
  sweep_once (shard ∷ shards) now lease w =
      sweep_once shards now lease (sweep_shard now lease shard w)
