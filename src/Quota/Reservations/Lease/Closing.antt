-- ===== src/Quota/Reservations/Lease/Closing.antt =====
-- What `close` ends: a closed reservation stays closed.
use metri_engine.Base.{
  ℕ, ◌≡◌, refl, ◌≢◌, inl, inr, Option, none, some, List, [], ◌∷◌, Text, get, get-insert, text_Eq,
  text_eq_iff, Option-cases, Bool-cases, eqb_refl, arith, ◌==◌,
}
use metri_engine.Quota.Reservations.{
  Reservation, ReservationStatus, Stored, Items, CloseReason, open_, closed_, closed, key, claim,
  close,
}
use metri_engine.Quota.Reservations.Lease.{
  Call, opens, marks, claims, closes, step, run, entry, target, get-step, ended, renewed,
}

-- The entry `k` is closed for `reason`.
abbrev ClosedFor : CloseReason → Option Stored → Type 0
ClosedFor reason none = ⊥
ClosedFor reason (some s) = (s.status ≡ closed_) × (s.close_reason ≡ reason)

abbrev pub Spares : Text → Call → Type 0
Spares k (opens r) = key r.tenant_id r.id ≢ k
Spares k (closes tenant id reason) = key tenant id ≢ k
Spares k c = Unit {0}

abbrev pub AllSpare : Text → List Call → Type 0
AllSpare k [] = Unit {0}
AllSpare k (c ∷ cs) = Spares k c × AllSpare k cs

renewed_closed :
    (now lease : ℕ) (s : Stored) (st : ReservationStatus)
    → st ≡ closed_
    → renewed now lease s st ≡ s
renewed_closed now lease s closed_ e = refl
renewed_closed now lease s open_ e = cc

entry-ClosedFor :
    (k : Text) (reason : CloseReason) (c : Call) (o : Option Stored)
    → Spares k c
    → target c ≡ k
    → ClosedFor reason o
    → ClosedFor reason (entry c o)
entry-ClosedFor k reason c none l t h = absurd h
entry-ClosedFor k reason (opens r) (some s) l t h = absurd (l t)
entry-ClosedFor k reason (marks tenant id) (some s) l t h = h
entry-ClosedFor k reason (claims now tenant id lease) (some s) l t h =
    rw (renewed_closed now lease s s.status h.0) h
entry-ClosedFor k reason (closes tenant id why) (some s) l t h = absurd (l t)

run-ClosedFor :
    (k : Text) (reason : CloseReason) (cs : List Call) (items : Items)
    → AllSpare k cs
    → ClosedFor reason (get items k)
    → ClosedFor reason (get (run cs items) k)
unfolding run
run-ClosedFor k reason [] items l h = h
run-ClosedFor k reason (c ∷ cs) items l h =
    run-ClosedFor k reason cs (step c items) l.1 (elim (Bool-cases (target c == k)) [
      | inl same ↦
          rw (get-step c items k, same)
            (entry-ClosedFor k reason c (get items k) l.0 ((text_eq_iff (target c) k).0 same) h)
      | inr other ↦ rw (get-step c items k, other) h
    ])

close-ClosedFor :
    (tenant id : Text) (reason : CloseReason) (items : Items) (s : Stored)
    → get items (key tenant id) ≡ some s
    → ClosedFor reason (get (close tenant id reason items) (key tenant id))
unfolding close
close-ClosedFor tenant id reason items s e =
    rw
      (
        e,
        close,
        get-insert items (key tenant id) (ended reason s) (key tenant id),
        eqb_refl (key tenant id),
      )
      (refl, refl)

claim-ClosedFor :
    (now : ℕ) (tenant id : Text) (lease : ℕ) (reason : CloseReason) (items : Items)
    → ClosedFor reason (get items (key tenant id))
    → (r : Reservation) × (claim now tenant id lease items ≡ (closed r reason, items))
unfolding claim
claim-ClosedFor now tenant id lease reason items h =
    elim (Option-cases (get items (key tenant id))) [
      | inl e ↦ absurd (rw e at h)
      | inr (s, e) ↦
          let h' : ClosedFor reason (some s) = rw e at h in (s.reservation, ground (arith, h'))
    ]

-- A closed reservation stays closed for the reason that was given: after its close, and after any
-- calls that neither open it again nor close it again, a claim is told that reason, whatever its
-- time, and changes nothing.
pub close_final :
    (tenant id : Text) (reason : CloseReason) (items : Items) (s : Stored) (cs : List Call)
    (now lease : ℕ)
    → get items (key tenant id) ≡ some s
    → AllSpare (key tenant id) cs
    → let items' = run cs (close tenant id reason items) in
      (r : Reservation) × (claim now tenant id lease items' ≡ (closed r reason, items'))
close_final tenant id reason items s cs now lease there quiet =
    claim-ClosedFor now tenant id lease reason _ (
      run-ClosedFor (key tenant id) reason cs _ quiet
        (close-ClosedFor tenant id reason items s there))
