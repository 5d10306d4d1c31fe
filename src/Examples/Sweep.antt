-- ===== src/Examples/Sweep.antt =====
-- The sweep at concrete inputs.
use metri_engine.Base.{◌≡◌, true, none, List, [], ◌∷◌, Text, codes, ok, text_Eq, pair_Eq}
use metri_engine.Base.Int.{ℤ, pos}
use metri_engine.Quota.Counter.Sync.{Key}
use metri_engine.Quota.Counter.{Io, Call, run}
use metri_engine.Quota.Reservations
use metri_engine.Quota.Reservations.{
  Reservation, Stored, Items, CloseReason, open_, open_reservation,
}
use metri_engine.Quota.Sweeper.{ReservationStore, Sweep, sweep_all}
use metri_engine.Quota.Sweeper.Refunds.{ledger, Refunds, sweep_all-Refunds}

-- the memory store as the interface of the sweep, its clock at 100
abbrev memory : ReservationStore Items
memory = record {
  sweep = λ shard now limit items. ok (Reservations.sweep shard now limit items);
  claim = λ tenant id lease items.
      let (answer, items') = Reservations.claim 100 tenant id lease items in (ok answer, items');
  close = λ tenant id reason items. (ok tt, Reservations.close tenant id reason items);
}

abbrev ticket : Text → ℤ → Reservation
ticket id estimated = record {
  id = id;
  tenant_id = codes "acme";
  quota_id = codes "tokens";
  estimated = estimated;
  debited = true;
  expires_at = 60;
}

abbrev two_tickets : List Reservation
two_tickets = ticket (codes "a") (pos 4) ∷ ticket (codes "b") (pos 5) ∷ []

abbrev account : Key
account = (codes "acme", codes "tokens")

abbrev before : Sweep memory ledger
before = (
  record { refunded = 0; abandoned = 0; skipped = 0; failed = 0 },
  open_reservation (ticket (codes "a") (pos 4)) (open_reservation (ticket (codes "b") (pos 5)) []),
  record {
    meets = [];
    partition = record {
      epoch_id = 0;
      last_s3_etag = none;
      quota_counters = (account, pos 9) ∷ [];
      quota_idem = [];
    };
  },
)

sweep_all-Refunds_example :
    (cs : List (Io × Call)) × Refunds two_tickets cs
    × ((sweep_all memory ledger 30 two_tickets before).2.partition ≡ run cs before.2.partition)
sweep_all-Refunds_example = sweep_all-Refunds memory 30 two_tickets before
