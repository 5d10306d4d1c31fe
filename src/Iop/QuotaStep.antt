-- ===== src/Iop/QuotaStep.antt =====
-- src/iop/quota_step.rs: `QuotaGuardStep`. The quota that governs an operation comes from a resolver
-- (an argument here); the counter is the ledger of quota/ledger.rs.
-- Of `IopContext` (src/iop/core.rs) the model keeps the fields that the step reads and writes;
-- `records` is the length of `request["data"]`, if that is an array. Of an error the code is kept.
pub mod Restores
use metri_engine.Base.{
  ℕ, zero, suc, Bool, true, false, ◌&&◌, ◌||◌, Option, none, some, Text, codes, text_eq, upper,
  Result, ok, err, ◌>>=◌, if◌then◌else◌,
}
use metri_engine.Base.Int.{ℤ, pos, negsuc}
use metri_engine.Errors.{ErrorCode, quota001}
use metri_engine.Cedar.Rules.{is_quota_exempt}
use metri_engine.Quota.Resolver.{QuotaSpec}
use metri_engine.Quota.Counter.{DebitOutcome, debited, exhausted}
use metri_engine.Quota.Ledger
use metri_engine.Quota.Ledger.{Ledger}
use metri_engine.Iop.Orchestrator.{IopStep}

-- the JSON object that `execute_inner` puts into the context
pub record QuotaReservation : Type 0 where
  pub id : Text
  pub quota_id : Text
  pub debit : ℤ
  pub domain : Text
  pub period_key : Text
  pub new_usage : ℤ

pub record IopContext : Type 0 where
  pub tenant_id : Text
  pub user_id : Text
  pub entity_type : Text
  pub operation : Text
  pub is_super_master : Bool
  pub records : Option ℕ
  pub quota_reservation : Option QuotaReservation

unfoldable pub has_reversible_effects : IopContext → Bool
has_reversible_effects ctx = elim ctx.quota_reservation [ none ↦ false | some r ↦ true ]

-- `.map(len).filter(|&n| n > 0).unwrap_or(1)`
unfoldable pub debit_units : Option ℕ → ℤ
debit_units none = pos 1
debit_units (some zero) = pos 1
debit_units (some (suc n)) = pos (suc n)

unfoldable pub bypasses : IopContext → Bool
unfolding is_quota_exempt text_eq
bypasses ctx =
    ctx.is_super_master
    || (text_eq ctx.user_id (codes "usr_system_bff")
        || (text_eq ctx.user_id (codes "usr_master") || is_quota_exempt ctx.entity_type))

-- the limit type of a monitored operation
unfoldable pub limit_type : Text → Option Text
unfolding text_eq
limit_type op =
    if text_eq op (codes "CREATE")
    then some (codes "WRITE_COUNT")
    else if text_eq op (codes "GET")
    then some (codes "READ_COUNT")
    else none

-- what a debit that went through leaves in the context
abbrev pub reserved : IopContext → QuotaSpec → ℤ → IopContext
reserved ctx quota new_usage = record ctx {
  quota_reservation = some (record {
    id = quota.counter_id;
    quota_id = quota.id;
    debit = debit_units ctx.records;
    domain = ctx.entity_type;
    period_key = quota.period_key;
    new_usage = new_usage;
  });
}

-- the debit against the counter of a quota
unfoldable pub debit : IopContext → QuotaSpec → Ledger → Result ErrorCode IopContext × Ledger
unfolding debit_units
debit ctx quota l =
    let (answer, l') =
      Ledger.try_debit ctx.tenant_id quota.counter_id (debit_units ctx.records) quota.max_limit
        quota.seed_usage l in
    elim answer [
      | ok (debited new_usage) ↦ (ok (reserved ctx quota new_usage), l')
      | ok (exhausted current_usage limit) ↦ (err quota001, l')
      | err e ↦ (err e, l')
    ]

-- tenant, domain, limit type
abbrev pub Resolver : Type 0
Resolver = Text → Text → Text → Result ErrorCode (Option QuotaSpec)

abbrev on_quota :
    IopContext → Result ErrorCode (Option QuotaSpec) → Ledger → Result ErrorCode IopContext × Ledger
on_quota ctx (ok none) l = (err quota001, l)
on_quota ctx (ok (some quota)) l = debit ctx quota l
on_quota ctx (err e) l = (err e, l)

unfoldable pub execute : Resolver → IopContext → Ledger → Result ErrorCode IopContext × Ledger
unfolding bypasses limit_type debit upper
execute active_quota ctx l =
    if bypasses ctx then (ok ctx, l) else (elim (limit_type (upper ctx.operation)) [
      | none ↦ (ok ctx, l)
      | some kind ↦ on_quota ctx (active_quota ctx.tenant_id ctx.entity_type kind) l
    ])

-- `.filter(|&n| n > 0).unwrap_or(1)`
abbrev positive_or_one : ℤ → ℤ
positive_or_one (pos zero) = pos 1
positive_or_one (pos (suc n)) = pos (suc n)
positive_or_one (negsuc n) = pos 1

-- a failed release is logged and dropped
unfoldable pub compensate : IopContext → Ledger → Ledger
compensate ctx l = elim ctx.quota_reservation [
  | none ↦ l
  | some r ↦ (Ledger.release ctx.tenant_id r.id (positive_or_one r.debit) l).1
]

abbrev pub quota_step : Resolver → IopStep IopContext Ledger
quota_step active_quota = record { execute = execute active_quota; compensate = compensate }
