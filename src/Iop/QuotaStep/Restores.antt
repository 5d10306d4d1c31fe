-- ===== src/Iop/QuotaStep/Restores.antt =====
-- The quota step in the pipeline Cedar, Quota, Janus: what it debits, and that a failed write gives
-- it back.
use metri_engine.Base.{
  ℕ, zero, suc, ◌+◌, ◌<◌, ◌^◌, ◌≡◌, refl, ◌∙◌, sym, ap, subst, ◌⊎◌, inl, inr, false, Option, none,
  some, List, [], ◌∷◌, Text, Result, ok, err, upper, get, max, arith, pair_Eq, text_Eq,
}
use metri_engine.Base.Int.{ℤ, pos, ◌+ℤ◌, ◌<ℤ◌, ◌≤ℤ◌, IsI64}
use metri_engine.Errors.{ErrorCode, quota001}
use metri_engine.Quota.Counter
use metri_engine.Quota.Counter.Sync.{Key, Partition, unchanged, sync_from_s3}
use metri_engine.Quota.Counter.{Io, current, debited, exhausted}
use metri_engine.Quota.Counter.Limit.{Flushes, try_debit-Decides, release-try_debit, full_not_room}
use metri_engine.Quota.Ledger.{Ledger}
use metri_engine.Iop.Orchestrator.{IopStep, compensate_all, run_steps}
use metri_engine.Iop.Orchestrator.Compensation.{chain, run_steps_compensates}
use metri_engine.Iop.QuotaStep.{
  QuotaSpec, IopContext, Resolver, has_reversible_effects, debit_units, bypasses, limit_type,
  reserved, debit, execute, compensate, quota_step,
}

-- a ledger whose next calls meet `ios` in S3
abbrev pub meeting : List Io → Partition → Ledger
meeting ios p = record { meets = ios; partition = p }

-- the partition behind a debit that a quota governs
abbrev pub debited_partition : Io → IopContext → QuotaSpec → Partition → Partition
debited_partition io ctx quota p =
    (Counter.try_debit io (ctx.tenant_id, quota.counter_id) (debit_units ctx.records)
      quota.max_limit quota.seed_usage p).1

-- A quota governs the operation: the step is not bypassed, the operation is monitored, and the
-- resolver finds the quota.
pub record Governs (active_quota : Resolver) (ctx : IopContext) (quota : QuotaSpec) (kind : Text)
    : Type 0 where
  pub monitored : limit_type (upper ctx.operation) ≡ some kind
  pub not_bypassed : bypasses ctx ≡ false
  pub found : active_quota ctx.tenant_id ctx.entity_type kind ≡ ok (some quota)

abbrev usage : IopContext → QuotaSpec → Partition → ℤ
usage ctx quota p = current p (ctx.tenant_id, quota.counter_id) quota.seed_usage

-- as many units as there are records, and at least one
abbrev pub count_of : Option ℕ → ℕ
count_of none = 1
count_of (some n) = max 1 n

debit_units-count_of : (n : Option ℕ) → debit_units n ≡ pos (count_of n)
unfolding debit_units
debit_units-count_of none = refl
debit_units-count_of (some zero) = refl
debit_units-count_of (some (suc n)) = ap pos (omega arith)

-- What the step answers and leaves, from the partition `p` behind the sync of its debit.
abbrev pub StepDecides :
    IopContext → QuotaSpec → List Io → Partition → Result ErrorCode IopContext × Ledger → Type 0
StepDecides ctx quota ios p r =
    let key : Key = (ctx.tenant_id, quota.counter_id) in
    let now : ℤ = current p key quota.seed_usage in
    let next : ℤ = now +ℤ pos (count_of ctx.records) in
    ((now <ℤ quota.max_limit)
      × (r.0
          ≡ ok (record ctx {
            quota_reservation = some (record {
              id = quota.counter_id;
              quota_id = quota.id;
              debit = pos (count_of ctx.records);
              domain = ctx.entity_type;
              period_key = quota.period_key;
              new_usage = next;
            });
          }))
      × (get r.1.partition.quota_counters key ≡ some next)
      × (r.1.meets ≡ ios))
    ⊎ ((quota.max_limit ≤ℤ now) × (r ≡ (err quota001, meeting ios p)))

module _ (io : Io) (ios : List Io) (ctx : IopContext) (quota : QuotaSpec) (p0 p : Partition)
    (synced : sync_from_s3 io.sync p0 ≡ (ok tt, p)) (flush : Flushes io.flush)
    (small : IsI64 (
      current p (ctx.tenant_id, quota.counter_id) quota.seed_usage
      +ℤ pos (count_of ctx.records))) where
  -- the two outcomes of the debit, with the context and the partition that the code makes
  debit_decides :
      let r = debit ctx quota (meeting (io ∷ ios) p0) in
      let next = usage ctx quota p +ℤ debit_units ctx.records in
      ((usage ctx quota p <ℤ quota.max_limit)
        × (r ≡ (ok (reserved ctx quota next), meeting ios (debited_partition io ctx quota p0)))
        × (get (debited_partition io ctx quota p0).quota_counters (ctx.tenant_id, quota.counter_id)
            ≡ some next))
      ⊎ ((quota.max_limit ≤ℤ usage ctx quota p) × (r ≡ (err quota001, meeting ios p)))
  unfolding debit
  debit_decides =
      elim (try_debit-Decides io (ctx.tenant_id, quota.counter_id) (debit_units ctx.records)
        quota.max_limit quota.seed_usage p0 p synced flush
        (subst (λ u. IsI64 (usage ctx quota p +ℤ u)) (sym (debit_units-count_of ctx.records))
          small)) [
            | inl (room, answer, stored) ↦ inl (room, rw (answer, debit) refl, stored)
            | inr (full, answer, kept) ↦ inr (full, rw (answer, kept, debit) refl)
          ]

  -- For an operation that a quota governs, when the sync of its debit succeeds, and its flush, if it comes
  -- to one, finds nothing new and succeeds: if the usage behind the sync is below the ceiling, the step notes
  -- the reservation of one unit for each record, and of one at least, on the counter of the quota, and
  -- the counter holds the usage with these units added; else it answers QUOTA_001 and the counters are as
  -- the sync left them. The usage with the units added is an i64.
  pub execute_decides :
      (active_quota : Resolver) (kind : Text)
      → Governs active_quota ctx quota kind
      → StepDecides ctx quota ios p (execute active_quota ctx (meeting (io ∷ ios) p0))
  unfolding execute
  execute_decides active_quota kind g =
      rw (g.not_bypassed, g.monitored, g.found, execute)
        (elim debit_decides [
          | inl (room, answer, stored) ↦ inl (
            room,
            rw (answer, debit_units-count_of ctx.records) refl,
            rw answer (
                stored
                ∙ ap (λ u. some (usage ctx quota p +ℤ u)) (debit_units-count_of ctx.records)),
            rw answer refl,
          )
          | inr (full, answer) ↦ inr (full, answer)
        ])

debit_units_pos : (n : Option ℕ) → (k : ℕ) × (debit_units n ≡ pos (suc k))
unfolding debit_units
debit_units_pos none = (0, refl)
debit_units_pos (some zero) = (0, refl)
debit_units_pos (some (suc n)) = (n, refl)

-- what `compensate` does with the reservation that `execute` noted
compensate-reserved :
    (io : Io) (ios : List Io) (ctx : IopContext) (quota : QuotaSpec) (v : ℤ) (p : Partition)
    → compensate (reserved ctx quota v) (meeting (io ∷ ios) p)
      ≡ meeting ios
          (Counter.release io (ctx.tenant_id, quota.counter_id) (debit_units ctx.records) p).1
unfolding compensate
compensate-reserved io ios ctx quota v p = let (k, e) = debit_units_pos ctx.records in rw e refl

small_pos : (now a : ℕ) → now + a < 2 ^ 63 → IsI64 (pos now +ℤ pos a)
unfolding ◌+ℤ◌
small_pos now a h = ground arith

module _ (active_quota : Resolver) (cedar janus : IopStep IopContext Ledger) (ctx ctx' : IopContext)
    (quota : QuotaSpec) (kind : Text) (p0 p : Partition) (e : ErrorCode) (io io' : Io)
    (ios : List Io)
    (passes : cedar.execute ctx (meeting (io ∷ io' ∷ ios) p0)
      ≡ (ok ctx', meeting (io ∷ io' ∷ ios) p0))
    (inert : (c : IopContext) (l : Ledger) → cedar.compensate c l ≡ l)
    (fails : (c : IopContext) (l : Ledger) → janus.execute c l ≡ (err e, l))
    (governs : Governs active_quota ctx' quota kind) (synced : sync_from_s3 io.sync p0 ≡ (ok tt, p))
    (flush : Flushes io.flush) (synced' : io'.sync ≡ unchanged) (flush' : Flushes io'.flush)
    (now : ℕ) (at_now : current p (ctx'.tenant_id, quota.counter_id) quota.seed_usage ≡ pos now)
    (room : pos now <ℤ quota.max_limit) (small : now + count_of ctx'.records < 2 ^ 63) where
  abbrev units : ℤ
  units = debit_units ctx'.records

  abbrev noted : IopContext
  noted = reserved ctx' quota (usage ctx' quota p +ℤ units)

  abbrev debited_here : Partition
  debited_here = debited_partition io ctx' quota p0

  fits :
      IsI64 (
        current p (ctx'.tenant_id, quota.counter_id) quota.seed_usage
        +ℤ pos (count_of ctx'.records))
  fits =
      subst (λ v. IsI64 (v +ℤ pos (count_of ctx'.records))) (sym at_now)
        (small_pos now (count_of ctx'.records) small)

  step_reserves :
      execute active_quota ctx' (meeting (io ∷ io' ∷ ios) p0)
      ≡ (ok noted, meeting (io' ∷ ios) debited_here)
  unfolding execute
  step_reserves =
      rw (governs.not_bypassed, governs.monitored, governs.found, execute)
        (elim (debit_decides io (io' ∷ ios) ctx' quota p0 p synced flush fits) [
          | inl (below, answer, stored) ↦ answer
          | inr (full, answer) ↦
              absurd (full_not_room (pos now) quota.max_limit (rw at_now at full) room)
        ])

  run_releases :
      run_steps has_reversible_effects
        (cedar ∷ quota_step active_quota ∷ janus ∷ [])
        ctx
        (meeting (io ∷ io' ∷ ios) p0)
      ≡ (
        err e,
        meeting ios (Counter.release io' (ctx'.tenant_id, quota.counter_id) units debited_here).1,
      )
  unfolding chain compensate_all has_reversible_effects
  run_releases =
      run_steps_compensates has_reversible_effects (cedar ∷ quota_step active_quota ∷ []) janus []
        ctx noted (meeting (io ∷ io' ∷ ios) p0) (meeting (io' ∷ ios) debited_here) e
        (rw (passes, chain, step_reserves) refl) refl
        (ap (λ r. r.0) (fails noted (meeting (io' ∷ ios) debited_here)))
      ∙ rw
          (
            fails noted (meeting (io' ∷ ios) debited_here),
            inert,
            compensate-reserved io' ios ctx' quota (usage ctx' quota p +ℤ units) debited_here,
          )
          refl

  -- A write that fails gives the quota back. If Cedar lets the request through, a quota with room
  -- governs it, and Janus fails without touching the counters, then the run answers the error of
  -- Janus, and the counter stands where it stood behind the sync of the debit, for a usage that is not
  -- negative and stays an i64. The sync of the debit succeeds; its flush, and the sync and the flush of the
  -- release, find nothing new in S3 and succeed.
  pub failed_write_restores :
      let steps = cedar ∷ quota_step active_quota ∷ janus ∷ [] in
      let r = run_steps has_reversible_effects steps ctx (meeting (io ∷ io' ∷ ios) p0) in
      (r.0 ≡ err e)
      × (get r.1.partition.quota_counters (ctx'.tenant_id, quota.counter_id) ≡ some (pos now))
  failed_write_restores =
      let account : Key = (ctx'.tenant_id, quota.counter_id) in
      (
        ap (λ r. r.0) run_releases,
        ap (λ r. get r.1.partition.quota_counters (ctx'.tenant_id, quota.counter_id)) run_releases
            ∙ subst
                (λ u.
                  get
                    (Counter.release io' account u
                      (Counter.try_debit io account u quota.max_limit quota.seed_usage
                        p0).1).1.quota_counters
                    account
                  ≡ some (pos now))
                (sym (debit_units-count_of ctx'.records))
                (release-try_debit io io' account now (count_of ctx'.records) quota.max_limit
                  quota.seed_usage p0 p synced flush synced' flush' small at_now room),
      )
