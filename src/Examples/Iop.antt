-- ===== src/Examples/Iop.antt =====
-- The pipeline and the quota step at concrete inputs.
use metri_engine.Base.{
  ℕ, ◌+◌, ◌≡◌, refl, Bool, true, false, none, some, List, [], ◌∷◌, Text, codes, text_eq, upper,
  Result, ok, err, get, pair_Eq, text_Eq, arith, if◌then◌else◌, nat_eq,
}
use metri_engine.Base.Int.{pos, ◌+ℤ◌}
use metri_engine.Errors.{ErrorCode, infra001, eav001}
use metri_engine.Quota.Counter.Sync.{Partition, sync_from_s3}
use metri_engine.Quota.Counter.{sound, current}
use metri_engine.Quota.Ledger.{Ledger}
use metri_engine.Cedar.Rules.{is_quota_exempt, contains}
use metri_engine.Iop.Pipeline.{Step}
use metri_engine.Iop.Orchestrator.{IopStep, run_steps}
use metri_engine.Iop.Orchestrator.Compensation.{chain, run_steps-chain}
use metri_engine.Quota.Resolver.{QuotaSpec}
use metri_engine.Iop.QuotaStep.{
  IopContext, Resolver, has_reversible_effects, quota_step, bypasses, limit_type, execute,
}
use metri_engine.Iop.QuotaStep.Restores.{
  meeting, Governs, StepDecides, execute_decides, failed_write_restores,
}

-- a step that counts up to two
abbrev counts : Step ℕ Text
counts n = if nat_eq n 2 then err (codes "full") else ok (n + 1)

-- a step that writes its name in a log, and its negative when it is undone
abbrev logs : ℕ → IopStep ℕ (List ℕ)
logs n = record {
  execute = λ ctx log. (ok (ctx + 1), n ∷ log);
  compensate = λ ctx log. (n + 100) ∷ log;
}

abbrev breaks : IopStep ℕ (List ℕ)
breaks = record { execute = λ ctx log. (err infra001, 3 ∷ log); compensate = λ ctx log. log }

-- the context carries an effect as soon as a step has run
abbrev is_positive : ℕ → Bool
is_positive n = if nat_eq n 0 then false else true

run_steps-chain_example :
    ((run_steps is_positive (logs 1 ∷ logs 2 ∷ []) 0 []).0 ≡ (chain (logs 1 ∷ logs 2 ∷ []) 0 []).0)
    × ((c : ℕ)
        → (chain (logs 1 ∷ logs 2 ∷ []) 0 []).0 ≡ ok c
        → run_steps is_positive (logs 1 ∷ logs 2 ∷ []) 0 [] ≡ chain (logs 1 ∷ logs 2 ∷ []) 0 [])
run_steps-chain_example = run_steps-chain is_positive (logs 1 ∷ logs 2 ∷ []) 0 []

abbrev writes : QuotaSpec
writes = record {
  id = codes "q1";
  counter_id = codes "q1:202611";
  max_limit = pos 10;
  seed_usage = pos 0;
  period_key = codes "202611";
}

abbrev resolver : Resolver
resolver tenant domain kind = ok (some writes)

abbrev request : IopContext
request = record {
  tenant_id = codes "acme";
  user_id = codes "ana";
  entity_type = codes "work_order";
  operation = codes "create";
  is_super_master = false;
  records = some 2;
  quota_reservation = none;
}

abbrev three_used : Partition
three_used = record {
  epoch_id = 0;
  last_s3_etag = none;
  quota_counters = ((codes "acme", codes "q1:202611"), pos 3) ∷ [];
  quota_idem = [];
}

governed : Governs resolver request writes (codes "WRITE_COUNT")
unfolding limit_type text_eq upper bypasses is_quota_exempt contains
governed = record { monitored = refl; not_bypassed = refl; found = refl }

execute_decides_example :
    StepDecides request writes [] three_used
      (execute resolver request (meeting (sound ∷ []) three_used))
unfolding current get text_eq ◌+ℤ◌ sync_from_s3
execute_decides_example =
    execute_decides sound [] request writes three_used three_used refl tt (omega arith) resolver
      (codes "WRITE_COUNT") governed

abbrev cedar : IopStep IopContext Ledger
cedar = record { execute = λ c l. (ok c, l); compensate = λ c l. l }

abbrev janus : IopStep IopContext Ledger
janus = record { execute = λ c l. (err eav001, l); compensate = λ c l. l }

abbrev failed_write : Result ErrorCode IopContext × Ledger
failed_write =
    run_steps has_reversible_effects (cedar ∷ quota_step resolver ∷ janus ∷ []) request
      (meeting (sound ∷ sound ∷ []) three_used)

failed_write_restores_example :
    (failed_write.0 ≡ err eav001)
    × (get failed_write.1.partition.quota_counters (codes "acme", codes "q1:202611") ≡ some (pos 3))
unfolding current get text_eq sync_from_s3
failed_write_restores_example =
    failed_write_restores resolver cedar janus request request writes (codes "WRITE_COUNT")
      three_used three_used eav001 sound sound [] refl (λ c l. refl) (λ c l. refl) governed refl tt
      refl tt 3 refl (omega arith) (omega arith)
