-- ===== src/Quota/Reservations/Lease.antt =====
-- Who holds a reservation: the lease that `claim` takes.
pub mod Closing
use metri_engine.Base.{
  ℕ, ◌+◌, ◌<◌, ◌^◌, ◌≡◌, refl, sym, ◌≢◌, inl, inr, true, Option, none, some, List, [], ◌∷◌, Text,
  get, insert, get-insert, text_Eq, text_eq_iff, Option-cases, Bool-cases, eqb_refl, arith,
  if◌then◌else◌, ltb, ◌==◌,
}
use metri_engine.Base.Int.{ℤ, pos, ltb_ℤ, wrap, wrap_pos, ◌+ℤ◌}
use metri_engine.Quota.Reservations.{
  Reservation, ReservationStatus, Stored, Items, CloseReason, open_, closed_, claim_entry,
  lease_end, claimed, leased, closed, key, open_reservation, mark_debited, claim, close,
}

-- The calls of any number of replicas, in the order in which the mutex lets them through. A claim
-- comes with the time that the clock shows it.
pub data Call : Type 0 where
  opens : Reservation → Call
  marks : Text → Text → Call
  claims : ℕ → Text → Text → ℕ → Call
  closes : Text → Text → CloseReason → Call

unfoldable pub step : Call → Items → Items
unfolding open_reservation mark_debited claim close
step (opens r) items = open_reservation r items
step (marks tenant id) items = mark_debited tenant id items
step (claims now tenant id lease) items = (claim now tenant id lease items).1
step (closes tenant id reason) items = close tenant id reason items

unfoldable pub run : List Call → Items → Items
run [] items = items
run (c ∷ cs) items = run cs (step c items)

-- What a call does to the entry it names.
abbrev opened : Reservation → Stored
opened r = record {
  reservation = r;
  status = open_;
  lease_until = pos 0;
  close_reason = CloseReason.settled;
}

abbrev renewed : ℕ → ℕ → Stored → ReservationStatus → Stored
renewed now lease s closed_ = s
renewed now lease s open_ =
    if ltb_ℤ (pos now) s.lease_until then s else record s { lease_until = lease_end now lease }

-- an entry that is there is replaced by what it becomes
abbrev update : (Stored → Stored) → Option Stored → Option Stored
update f none = none
update f (some s) = some (f s)

abbrev with_debit : Stored → Stored
with_debit s = record s { reservation = record (s.reservation) { debited = true } }

abbrev ended : CloseReason → Stored → Stored
ended reason s = record s { status = closed_; close_reason = reason; lease_until = pos 0 }

abbrev entry : Call → Option Stored → Option Stored
entry (opens r) o = some (opened r)
entry (marks tenant id) o = update with_debit o
entry (claims now tenant id lease) o = update (λ s. renewed now lease s s.status) o
entry (closes tenant id reason) o = update (ended reason) o

abbrev target : Call → Text
target (opens r) = key r.tenant_id r.id
target (marks tenant id) = key tenant id
target (claims now tenant id lease) = key tenant id
target (closes tenant id reason) = key tenant id

on_target :
    (f : Stored → Stored) (j : Text) (items : Items) (k : Text)
    → get (elim (get items j) [ none ↦ items | some s ↦ insert items j (f s) ]) k
      ≡ (if j == k then update f (get items k) else get items k)
on_target f j items k = elim (Option-cases (get items j)) [
  | inl e ↦ ground (arith, text_eq_iff j k)
  | inr (s, e) ↦ ground (arith, get-insert items j (f s) k, text_eq_iff j k)
]

get-claim_entry :
    (now lease : ℕ) (j : Text) (items : Items) (s : Stored) (st : ReservationStatus) (k : Text)
    → get items j ≡ some s
    → get (claim_entry now lease j items s st).1 k
      ≡ (if j == k then some (renewed now lease s st) else get items k)
get-claim_entry now lease j items s closed_ k e = ground (arith, text_eq_iff j k)
get-claim_entry now lease j items s open_ k e =
    ground (
      arith,
      text_eq_iff j k,
      get-insert items j (record s { lease_until = lease_end now lease }) k,
    )

-- A call changes its own entry only.
get-step :
    (c : Call) (items : Items) (k : Text)
    → get (step c items) k ≡ (if target c == k then entry c (get items k) else get items k)
unfolding step
get-step (opens r) items k = get-insert items (key r.tenant_id r.id) (opened r) k
get-step (marks tenant id) items k = on_target with_debit (key tenant id) items k
get-step (claims now tenant id lease) items k = elim (Option-cases (get items (key tenant id))) [
  | inl e ↦ ground (arith, text_eq_iff (key tenant id) k)
  | inr (s, e) ↦ ground (
    arith,
    text_eq_iff (key tenant id) k,
    get-claim_entry now lease (key tenant id) items s s.status k,
  )
]
get-step (closes tenant id reason) items k = on_target (ended reason) (key tenant id) items k

-- The entry `k` is open and leased until `until`, as read from the store.
abbrev LeasedUntil : ℕ → Option Stored → Type 0
LeasedUntil until none = ⊥
LeasedUntil until (some s) = (s.status ≡ open_) × (s.lease_until ≡ pos until)

-- The call neither opens nor closes the entry `k`, and claims it, if at all, before `until`.
abbrev pub Leaves : Text → ℕ → Call → Type 0
Leaves k until (opens r) = key r.tenant_id r.id ≢ k
Leaves k until (marks tenant id) = Unit {0}
Leaves k until (claims now tenant id lease) = key tenant id ≡ k → now < until
Leaves k until (closes tenant id reason) = key tenant id ≢ k

abbrev pub AllLeave : Text → ℕ → List Call → Type 0
AllLeave k until [] = Unit {0}
AllLeave k until (c ∷ cs) = Leaves k until c × AllLeave k until cs

renewed-lease :
    (now lease until : ℕ) (s : Stored) (st : ReservationStatus)
    → st ≡ open_
    → s.lease_until ≡ pos until
    → now < until
    → renewed now lease s st ≡ s
renewed-lease now lease until s closed_ o u h = cc
renewed-lease now lease until s open_ o u h = rw u (ground (arith, h))

entry-LeasedUntil :
    (k : Text) (until : ℕ) (c : Call) (o : Option Stored)
    → Leaves k until c
    → target c ≡ k
    → LeasedUntil until o
    → LeasedUntil until (entry c o)
entry-LeasedUntil k until c none l t h = absurd h
entry-LeasedUntil k until (opens r) (some s) l t h = absurd (l t)
entry-LeasedUntil k until (marks tenant id) (some s) l t h = h
entry-LeasedUntil k until (claims now tenant id lease) (some s) l t h =
    rw (renewed-lease now lease until s s.status h.0 h.1 (l t)) h
entry-LeasedUntil k until (closes tenant id reason) (some s) l t h = absurd (l t)

step-LeasedUntil :
    (k : Text) (until : ℕ) (c : Call) (items : Items)
    → Leaves k until c
    → LeasedUntil until (get items k)
    → LeasedUntil until (get (step c items) k)
step-LeasedUntil k until c items l h = elim (Bool-cases (target c == k)) [
  | inl same ↦
      rw (get-step c items k, same)
        (entry-LeasedUntil k until c (get items k) l ((text_eq_iff (target c) k).0 same) h)
  | inr other ↦ rw (get-step c items k, other) h
]

run-LeasedUntil :
    (k : Text) (until : ℕ) (cs : List Call) (items : Items)
    → AllLeave k until cs
    → LeasedUntil until (get items k)
    → LeasedUntil until (get (run cs items) k)
unfolding run
run-LeasedUntil k until [] items l h = h
run-LeasedUntil k until (c ∷ cs) items l h =
    run-LeasedUntil k until cs (step c items) l.1 (step-LeasedUntil k until c items l.0 h)

claim-LeasedUntil :
    (now : ℕ) (tenant id : Text) (lease until : ℕ) (items : Items)
    → LeasedUntil until (get items (key tenant id))
    → (r : Reservation) × ((claim now tenant id lease items).0
        ≡ (if ltb now until then leased r else claimed r))
unfolding claim
claim-LeasedUntil now tenant id lease until items h =
    elim (Option-cases (get items (key tenant id))) [
      | inl e ↦ absurd (rw e at h)
      | inr (s, e) ↦
          let h' : LeasedUntil until (some s) = rw e at h in (s.reservation, ground (arith, h'))
    ]

lease_end_small : (now lease : ℕ) → now + lease < 2 ^ 63 → lease_end now lease ≡ pos (now + lease)
unfolding lease_end ◌+ℤ◌
lease_end_small now lease room =
    rw (wrap_pos lease (omega (arith, room))) (ground (arith, wrap_pos (now + lease) room))

claim_entry-LeasedUntil :
    (now lease : ℕ) (k : Text) (items : Items) (s : Stored) (st : ReservationStatus)
    (r : Reservation)
    → st ≡ s.status
    → (claim_entry now lease k items s st).0 ≡ claimed r
    → now + lease < 2 ^ 63
    → LeasedUntil (now + lease) (get (claim_entry now lease k items s st).1 k)
claim_entry-LeasedUntil now lease k items s closed_ r o h room = cc
claim_entry-LeasedUntil now lease k items s open_ r o h room =
    elim (Bool-cases (ltb_ℤ (pos now) s.lease_until)) [
      | inl held ↦ cc (rw held at h)
      | inr free ↦
          rw
            (
              free,
              get-insert items k (record s { lease_until = lease_end now lease }) k,
              eqb_refl k,
            )
            (sym o, lease_end_small now lease room)
    ]

claimed-LeasedUntil :
    (now : ℕ) (tenant id : Text) (lease : ℕ) (items : Items) (r : Reservation)
    → (claim now tenant id lease items).0 ≡ claimed r
    → now + lease < 2 ^ 63
    → LeasedUntil (now + lease) (get (claim now tenant id lease items).1 (key tenant id))
unfolding claim
claimed-LeasedUntil now tenant id lease items r h room =
    elim (Option-cases (get items (key tenant id))) [
      | inl e ↦ cc (rw (e, claim) at h)
      | inr (s, e) ↦
          rw (e, claim)
            (claim_entry-LeasedUntil now lease (key tenant id) items s s.status r refl
              (rw (e, claim) at h) room)
    ]

-- The lease is exclusive and ends by itself. After a claim that was granted at `now`, and after
-- any calls that neither open nor close the reservation nor claim it past the lease, a further
-- claim is told that it is leased while the lease runs, and is granted from its end on. The end of
-- the lease, in seconds since the epoch, is below 2^63, so that it is an i64.
pub claim_exclusive :
    (now : ℕ) (tenant id : Text) (lease : ℕ) (items : Items) (r : Reservation) (cs : List Call)
    (now' lease' : ℕ)
    → now + lease < 2 ^ 63
    → (claim now tenant id lease items).0 ≡ claimed r
    → AllLeave (key tenant id) (now + lease) cs
    → (r' : Reservation) × ((claim now' tenant id lease'
          (run cs (claim now tenant id lease items).1)).0
        ≡ (if ltb now' (now + lease) then leased r' else claimed r'))
claim_exclusive now tenant id lease items r cs now' lease' room granted quiet =
    claim-LeasedUntil now' tenant id lease' (now + lease) _ (
      run-LeasedUntil (key tenant id) (now + lease) cs _ quiet
        (claimed-LeasedUntil now tenant id lease items r granted room))
