-- ===== src/Quota/Ledger.antt =====
-- `impl QuotaCounter for QuotaLedger`, src/quota/ledger.rs, as an object: the partition of the
-- counters, with what its next calls meet in S3 (nothing, once these are used up).
use metri_engine.Base.{List, [], ◌∷◌, Text, Result}
use metri_engine.Base.Int.{ℤ}
use metri_engine.Errors.{ErrorCode}
use metri_engine.Quota.Counter
use metri_engine.Quota.Counter.Sync.{Partition}
use metri_engine.Quota.Counter.{Io, sound, DebitOutcome, SettleOutcome}

pub record Ledger : Type 0 where
  pub meets : List Io
  pub partition : Partition

abbrev pub Action : Type 0 → Type 0
Action A = Ledger → Result ErrorCode A × Ledger

abbrev pub with_io :
    {A : Type 0}
    → Io
    → List Io
    → (Io → Partition → Result ErrorCode A × Partition)
    → Partition
    → Result ErrorCode A × Ledger
with_io io ios op p = let (answer, p') = op io p in (answer, record { meets = ios; partition = p' })

abbrev pub on_next :
    {A : Type 0}
    → (Io → Partition → Result ErrorCode A × Partition)
    → List Io
    → Partition
    → Result ErrorCode A × Ledger
on_next op [] p = with_io sound [] op p
on_next op (io ∷ ios) p = with_io io ios op p

abbrev pub try_debit : Text → Text → ℤ → ℤ → ℤ → Action DebitOutcome
try_debit tenant quota amount max_limit seed l =
    on_next (λ io. Counter.try_debit io (tenant, quota) amount max_limit seed) l.meets l.partition

abbrev pub settle_once : Text → Text → ℤ → Text → Action SettleOutcome
settle_once tenant quota delta idem l =
    on_next (λ io. Counter.settle_once io (tenant, quota) idem delta) l.meets l.partition

abbrev pub release : Text → Text → ℤ → Action (Unit {0})
release tenant quota amount l =
    on_next (λ io. Counter.release io (tenant, quota) amount) l.meets l.partition
