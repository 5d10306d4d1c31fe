-- ===== src/Cedar/Rules/Isolation.antt =====
-- Who passes the rules: the tests against what they are to mean.
use mathlib.Core.List.{Memᴰ}
use metri_engine.Base.{
  ℕ, ◌+◌, ◌*◌, ◌≤◌, ◌≡◌, refl, sym, subst, ◌↔◌, ◌⊎◌, inl, inr, true, List, [], ◌∷◌, Text, codes,
  text_eq_iff, nat_eq, nat_eq_iff, ok, arith, Bool-cases,
}
use metri_engine.Cedar.Rules.{
  TimeRestriction, Instant, has_day, in_window, any_window, validate_time_window, is_master_tenant,
  check_tenant_isolation,
}

-- A restriction permits an instant of one of its days, from its first minute to its last.
abbrev pub Permits : Instant → TimeRestriction → Type 0
Permits now r =
    Memᴰ now.weekday r.days_of_week
    × (r.start_minute ≤ now.hour * 60 + now.minute)
    × (now.hour * 60 + now.minute ≤ r.end_minute)

has_day→Memᴰ : (ds : List ℕ) (d : ℕ) → has_day ds d ≡ true → Memᴰ d ds
unfolding has_day
has_day→Memᴰ [] d h = cc
has_day→Memᴰ (x ∷ xs) d h = elim (Bool-cases (nat_eq x d)) [
  | inl k ↦ Memᴰ.head (sym ((nat_eq_iff x d).0 k))
  | inr k ↦ Memᴰ.tail (has_day→Memᴰ xs d (ground arith))
]

Memᴰ→has_day : {d : ℕ} {ds : List ℕ} → Memᴰ d ds → has_day ds d ≡ true
unfolding has_day
Memᴰ→has_day {d = d} {ds = []} m = elim m [ ]
Memᴰ→has_day {d = d} {ds = x ∷ xs} (Memᴰ.head e) = ground (arith, nat_eq_iff x d)
Memᴰ→has_day {d = d} {ds = x ∷ xs} (Memᴰ.tail m) = ground (arith, Memᴰ→has_day m)

-- the two directions, for one restriction
in_window→Permits : (now : Instant) (r : TimeRestriction) → in_window now r ≡ true → Permits now r
unfolding in_window
in_window→Permits now r h =
    (has_day→Memᴰ r.days_of_week now.weekday (ground arith), ground arith, ground arith)

Permits→in_window : (now : Instant) (r : TimeRestriction) → Permits now r → in_window now r ≡ true
unfolding in_window
Permits→in_window now r (m, a, b) = ground (arith, Memᴰ→has_day m)

abbrev pub SomePermits : Instant → List TimeRestriction → Type 0
SomePermits now rs = (r : TimeRestriction) × Memᴰ r rs × Permits now r

any_window→SomePermits :
    (now : Instant) (rs : List TimeRestriction) → any_window now rs ≡ true → SomePermits now rs
unfolding any_window
any_window→SomePermits now [] h = cc
any_window→SomePermits now (r ∷ rs) h = elim (Bool-cases (in_window now r)) [
  | inl k ↦ (r, Memᴰ.head refl, in_window→Permits now r k)
  | inr k ↦ later (any_window→SomePermits now rs (ground arith))
]
  where
    later : SomePermits now rs → SomePermits now (r ∷ rs)
    later (q, m, p) = (q, Memᴰ.tail m, p)

Permits→any_window :
    (now : Instant) (r : TimeRestriction) {rs : List TimeRestriction}
    → Memᴰ r rs
    → Permits now r
    → any_window now rs ≡ true
unfolding any_window
Permits→any_window now r {rs = []} m p = elim m [ ]
Permits→any_window now r {rs = q ∷ rs} (Memᴰ.head e) p =
    ground (arith, Permits→in_window now q (subst (Permits now) e p))
Permits→any_window now r {rs = q ∷ rs} (Memᴰ.tail m) p =
    ground (arith, Permits→any_window now r m p)

-- The check of the time window passes if and only if there is no restriction, or one of them permits
-- the instant.
pub validate_time_window_iff :
    (rs : List TimeRestriction) (now : Instant)
    → (validate_time_window rs now ≡ ok tt) ↔ ((rs ≡ []) ⊎ SomePermits now rs)
unfolding validate_time_window
validate_time_window_iff [] now = (λ h. inl refl, λ p. refl)
validate_time_window_iff (r ∷ rs) now = (passed, permitted)
  where
    passed : validate_time_window (r ∷ rs) now ≡ ok tt → (r ∷ rs ≡ []) ⊎ SomePermits now (r ∷ rs)
    passed h = elim (Bool-cases (any_window now (r ∷ rs))) [
      | inl k ↦ inr (any_window→SomePermits now (r ∷ rs) k)
      | inr k ↦ absurd (ground arith)
    ]

    permitted : (r ∷ rs ≡ []) ⊎ SomePermits now (r ∷ rs) → validate_time_window (r ∷ rs) now ≡ ok tt
    permitted (inl e) = cc
    permitted (inr (q, m, p)) = rw (Permits→any_window now q m p) refl

module _ (master_tenant_id : Text) where
  -- A tenant of the system, or one that is configured to be.
  abbrev pub IsMaster : Text → Type 0
  IsMaster tenant =
      (tenant ≡ codes "system") ⊎ (tenant ≡ codes "tnt_master") ⊎ (tenant ≡ master_tenant_id)

  is_master_tenant_iff : (t : Text) → (is_master_tenant master_tenant_id t ≡ true) ↔ IsMaster t
  unfolding is_master_tenant
  is_master_tenant_iff t = ground (
    arith,
    text_eq_iff t (codes "system"),
    text_eq_iff t (codes "tnt_master"),
    text_eq_iff t master_tenant_id,
  )

  -- The check of isolation passes if and only if the target is the caller's own tenant, or the caller
  -- is of a master tenant, or the caller is the system's account.
  pub check_tenant_isolation_iff :
      (target caller user : Text)
      → (check_tenant_isolation master_tenant_id target caller user ≡ ok tt)
        ↔ ((target ≡ caller) ⊎ IsMaster caller ⊎ (user ≡ codes "usr_system_bff"))
  unfolding check_tenant_isolation
  check_tenant_isolation_iff target caller user = ground (
    arith,
    text_eq_iff target caller,
    is_master_tenant_iff caller,
    text_eq_iff user (codes "usr_system_bff"),
  )
