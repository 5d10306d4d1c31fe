-- ===== src/Quota/Sweeper/Accounting.antt =====
-- Every reservation that the sweep inspects is counted once, whatever the two interfaces answer.
use metri_engine.Base.{ℕ, ◌+◌, ◌≡◌, List, [], ◌∷◌, length, arith}
use metri_engine.Quota.Reservations.{Reservation}
use metri_engine.Quota.Sweeper.{
  ReservationStore, QuotaCounter, touched, Sweep, close_one, refund_one, sweep_one, sweep_all,
}

module _ {S C : Type 0} (store : ReservationStore S) (counter : QuotaCounter C) where
  close_one-touched :
      (r : Reservation) (w : Sweep store counter)
      → touched (close_one store counter r w).0 ≡ touched w.0 + 1
  unfolding close_one touched
  close_one-touched r (report, s, c) = ground arith

  refund_one-touched :
      (r : Reservation) (w : Sweep store counter)
      → touched (refund_one store counter r w).0 ≡ touched w.0 + 1
  unfolding refund_one touched
  refund_one-touched r (report, s, c) = ground arith

  sweep_one-touched :
      (lease : ℕ) (r : Reservation) (w : Sweep store counter)
      → touched (sweep_one store counter lease r w).0 ≡ touched w.0 + 1
  unfolding sweep_one touched
  sweep_one-touched lease r (report, s, c) = ground arith

  -- The report of a sweep grows by one for each reservation of the list: it is refunded, abandoned,
  -- skipped or failed, and never two of these.
  pub sweep_all-touched :
      (lease : ℕ) (rs : List Reservation) (w : Sweep store counter)
      → touched (sweep_all store counter lease rs w).0 ≡ touched w.0 + length rs
  unfolding sweep_all
  sweep_all-touched lease [] w = omega arith
  sweep_all-touched lease (r ∷ rs) w = omega (
    arith,
    sweep_all-touched lease rs (sweep_one store counter lease r w),
    sweep_one-touched lease r w,
  )
