-- ===== src/Quota/Sweeper/Refunds.antt =====
-- What a sweep does to the counters of quota/ledger.rs.
use metri_engine.Base.{ℕ, ◌≡◌, refl, ◌∙◌, ap, ◌⊎◌, inl, inr, true, List, [], ◌∷◌, arith}
use metri_engine.Quota.Ledger
use metri_engine.Quota.Ledger.{Ledger}
use metri_engine.Quota.Counter.Sync.{Partition}
use metri_engine.Quota.Counter.{Io, sound, neg_i64, Call, settles_once, step, run}
use metri_engine.Quota.Reservations.{Reservation, settlement_key}
use metri_engine.Quota.Sweeper.{
  ReservationStore, QuotaCounter, Sweep, close_one, refund_one, sweep_one, sweep_all,
}

-- `QuotaLedger` as the counter of the sweep
abbrev pub ledger : QuotaCounter Ledger
ledger = record { settle_once = Ledger.settle_once }

-- the refund of an expired reservation, under the settlement key of its id
abbrev pub refund_call : Reservation → Call
refund_call r = settles_once (r.tenant_id, r.quota_id) (settlement_key r.id) (neg_i64 r.estimated)

-- At most one refund for each reservation of the list, in order, and only for a debited one.
pub data Refunds : List Reservation → List (Io × Call) → Type 0 where
  done : Refunds [] []
  leave :
      (r : Reservation) {rs : List Reservation} {cs : List (Io × Call)}
      → Refunds rs cs
      → Refunds (r ∷ rs) cs
  refund :
      (r : Reservation) (io : Io) {rs : List Reservation} {cs : List (Io × Call)}
      → r.debited ≡ true
      → Refunds rs cs
      → Refunds (r ∷ rs) ((io, refund_call r) ∷ cs)

abbrev OneStep : Reservation → Partition → Partition → Type 0
OneStep r p p' = (p' ≡ p) ⊎ ((io : Io) × (r.debited ≡ true) × (p' ≡ step io (refund_call r) p))

settle_once-step :
    (r : Reservation) (ios : List Io) (p : Partition)
    → (io : Io) × ((Ledger.settle_once r.tenant_id r.quota_id
          (neg_i64 r.estimated)
          (settlement_key r.id)
          (record { meets = ios; partition = p })).1.partition
        ≡ step io (refund_call r) p)
unfolding step
settle_once-step r [] p = (sound, refl)
settle_once-step r (io ∷ ios) p = (io, refl)

module _ {S : Type 0} (store : ReservationStore S) where
  close_one-partition :
      (r : Reservation) (w : Sweep store ledger) → (close_one store ledger r w).2 ≡ w.2
  unfolding close_one
  close_one-partition r (report, s, c) = ground arith

  refund_one-OneStep :
      (r : Reservation) (w : Sweep store ledger)
      → OneStep r w.2.partition (refund_one store ledger r w).2.partition
  unfolding refund_one
  refund_one-OneStep r (report, s, c) = ground (arith, settle_once-step r c.meets c.partition)

  sweep_one-OneStep :
      (lease : ℕ) (r : Reservation) (w : Sweep store ledger)
      → OneStep r w.2.partition (sweep_one store ledger lease r w).2.partition
  unfolding sweep_one
  sweep_one-OneStep lease r (report, s, c) =
      ground (arith, refund_one-OneStep r (report, (store.claim r.tenant_id r.id lease s).1, c))

  -- Whatever the store of the reservations answers, and whatever the ledger's calls meet in S3, a sweep of
  -- a list acts on the ledger by refund calls alone: in the order of the list, at most one for each
  -- reservation, only for one whose debit was applied, of its estimate (an i64, negated), under its
  -- settlement key. What a call's sync and flush bring from S3 is part of that call.
  pub sweep_all-Refunds :
      (lease : ℕ) (rs : List Reservation) (w : Sweep store ledger)
      → (cs : List (Io × Call)) × Refunds rs cs
        × ((sweep_all store ledger lease rs w).2.partition ≡ run cs w.2.partition)
  unfolding sweep_all run
  sweep_all-Refunds lease [] w = ([], done, refl)
  sweep_all-Refunds lease (r ∷ rs) w =
      let (cs, fits, e) = sweep_all-Refunds lease rs (sweep_one store ledger lease r w) in
      elim (sweep_one-OneStep lease r w) [
        | inl same ↦ (cs, leave r fits, e ∙ ap (run cs) same)
        | inr (io, d, stepped) ↦
            ((io, refund_call r) ∷ cs, refund r io d fits, e ∙ ap (run cs) stepped)
      ]
