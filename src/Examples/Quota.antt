-- ===== src/Examples/Quota.antt =====
-- The counters and the reservations at concrete inputs.
use metri_engine.Base.{
  ◌+◌, ◌≡◌, refl, ◌↔◌, true, some, List, [], ◌∷◌, codes, text_eq, ok, err, get, insert, text_Eq,
  pair_Eq, arith, if◌then◌else◌, ltb,
}
use metri_engine.Base.Int.{ℤ, pos, negsuc, wrap, ◌+ℤ◌, ◌<ℤ◌}
use metri_engine.Errors.{infra001}
use metri_engine.Quota.Counter.Sync.{
  Key, Partition, Snapshot, unchanged, modified, written, apply_wire_snapshot, merge_counters,
  merge_idem, flush_to_s3, sync_from_s3,
}
use metri_engine.Quota.Counter.{
  Io, sound, current, map_answer, try_debit, settle_once, debited, already_applied, Call, debits,
  settles_once, run, step, quota_try_debit, quota_settle_once,
}
use metri_engine.Quota.Counter.Limit.{Decides, try_debit-Decides, try_debit_overshoots}
use metri_engine.Quota.Counter.Ceiling.{Fits, run-IsWithin}
use metri_engine.Quota.Counter.Idempotence.{settle_once_at_most_once}
use metri_engine.Quota.Reservations.{
  Reservation, Stored, Items, CloseReason, open_, expired, claimed, leased, closed, key, claim,
  close,
}
use metri_engine.Quota.Reservations.Wire.{wire_id, split_wire_id, split_wire_id_iff, IsPart}
use metri_engine.Quota.Reservations.Lease
use metri_engine.Quota.Reservations.Lease.{claim_exclusive}
use metri_engine.Quota.Reservations.Lease.Closing.{close_final}

abbrev account : Key
account = (codes "acme", codes "writes")

abbrev three_used : Partition
three_used = record {
  epoch_id = 4;
  last_s3_etag = some (codes "e4");
  quota_counters = (account, pos 3) ∷ [];
  quota_idem = [];
}

-- another instance has counted to 4
abbrev theirs : Snapshot
theirs = record { epoch_id = 6; quota_counters = (account, pos 4) ∷ []; quota_idem = [] }

-- a sync that brings theirs, and a flush that writes
abbrev news : Io
news = record { sync = modified theirs (codes "e6"); flush = written unchanged (ok (codes "e7")) }

abbrev four_used : Partition
four_used = (sync_from_s3 news.sync three_used).1

try_debit-Decides_example :
    Decides account
      (pos 1)
      (pos 5)
      (pos 0)
      four_used
      (try_debit news account (pos 1) (pos 5) (pos 0) three_used)
unfolding current get text_eq ◌+ℤ◌ sync_from_s3 apply_wire_snapshot merge_counters insert
try_debit-Decides_example =
    try_debit-Decides news account (pos 1) (pos 5) (pos 0) three_used four_used refl
      (refl, codes "e7", refl) (omega arith)

try_debit_overshoots_example :
    (usage : ℤ) × ((try_debit news account (pos 4) (pos 5) (pos 0) three_used).0
      ≡ ok (debited usage))
    × (get (try_debit news account (pos 4) (pos 5) (pos 0) three_used).1.quota_counters account
        ≡ some usage)
    × (pos 5 <ℤ usage)
unfolding current get text_eq ◌+ℤ◌ sync_from_s3 apply_wire_snapshot merge_counters insert
try_debit_overshoots_example =
    try_debit_overshoots news account (pos 4) (pos 5) (pos 0) three_used four_used refl
      (refl, codes "e7", refl) (omega arith) (omega arith) (omega arith)

-- a debit, one behind a sync that brings theirs, one whose flush fails, and a refund
abbrev some_calls : List (Io × Call)
some_calls =
    (sound, debits account (pos 1) (pos 5) (pos 0))
    ∷ (news, debits account (pos 1) (pos 5) (pos 0))
    ∷ (
      record { sync = unchanged; flush = written unchanged (err infra001) },
      debits account (pos 1) (pos 5) (pos 0),
    )
    ∷ (sound, settles_once account (codes "r#final") (negsuc 0))
    ∷ []

-- what the counter holds in the end
run-IsWithin_example : Fits account 5 (omega arith) (pos 4)
unfolding run step try_debit quota_try_debit settle_once quota_settle_once current sync_from_s3
    apply_wire_snapshot merge_counters merge_idem flush_to_s3 insert get text_eq ◌+ℤ◌ wrap
run-IsWithin_example =
    run-IsWithin account 5 (omega arith) some_calls three_used
      (
        (tt, tt, λ _. (refl, refl, (omega arith, omega arith))),
        (
          (
            (λ _. (omega arith, omega arith), tt),
            tt,
            λ _. (refl, refl, (omega arith, omega arith)),
          ),
          (
            (tt, tt, λ _. (refl, refl, (omega arith, omega arith))),
            ((tt, tt, λ _. (omega arith, omega arith)), tt),
          ),
        ),
      )
      (λ v h. ground arith) (pos 4) refl

settle_once_at_most_once_example :
    settle_once sound
      (codes "acme", codes "reads")
      (codes "r#final")
      (pos 7)
      (run some_calls (settle_once news account (codes "r#final") (negsuc 1) three_used).1)
    ≡ map_answer
        (λ u. already_applied)
        (sync_from_s3 sound.sync
          (run some_calls (settle_once news account (codes "r#final") (negsuc 1) three_used).1))
unfolding sync_from_s3
settle_once_at_most_once_example =
    settle_once_at_most_once news (codes "acme") (codes "writes") (codes "r#final") (negsuc 1)
      three_used four_used some_calls sound (codes "reads") (pos 7) refl tt
      ((tt, tt), ((tt, tt), ((tt, tt), ((tt, tt), tt)))) tt

split_wire_id_iff_example :
    (split_wire_id (codes "acme:01J") ≡ some (codes "acme", codes "01J")) ↔ (
      (codes "acme:01J" ≡ wire_id (codes "acme") (codes "01J"))
      × IsPart (codes "acme")
      × IsPart (codes "01J"))
split_wire_id_iff_example = split_wire_id_iff (codes "acme:01J") (codes "acme") (codes "01J")

abbrev ticket : Reservation
ticket = record {
  id = codes "01J";
  tenant_id = codes "acme";
  quota_id = codes "tokens";
  estimated = pos 100;
  debited = true;
  expires_at = 60;
}

abbrev stored_ticket : Stored
stored_ticket = record {
  reservation = ticket;
  status = open_;
  lease_until = pos 0;
  close_reason = CloseReason.settled;
}

abbrev one_ticket : Items
one_ticket = (codes "acme#01J", stored_ticket) ∷ []

abbrev retries : List Lease.Call
retries =
    Lease.marks (codes "acme") (codes "01J") ∷ Lease.claims 105 (codes "acme") (codes "01J") 30 ∷ []

claim_exclusive_example :
    (r' : Reservation) × ((claim 110
        (codes "acme")
        (codes "01J")
        30
        (Lease.run retries (claim 100 (codes "acme") (codes "01J") 30 one_ticket).1)).0
      ≡ (if ltb 110 (100 + 30) then leased r' else claimed r'))
unfolding claim get key text_eq
claim_exclusive_example =
    claim_exclusive 100 (codes "acme") (codes "01J") 30 one_ticket ticket retries 110 30
      (omega arith) refl (tt, ((λ _. omega arith), tt))

close_final_example :
    (r : Reservation) × (claim 300
        (codes "acme")
        (codes "01J")
        30
        (Lease.run retries (close (codes "acme") (codes "01J") expired one_ticket))
      ≡ (
        closed r expired,
        Lease.run retries (close (codes "acme") (codes "01J") expired one_ticket),
      ))
unfolding get key text_eq
close_final_example =
    close_final (codes "acme") (codes "01J") expired one_ticket stored_ticket retries 300 30 refl
      (tt, (tt, tt))
