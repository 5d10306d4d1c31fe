-- ===== src/Quota/Counter.antt =====
-- The quota counters of a partition, src/mbf/storage.rs (`quota_try_debit`, `quota_settle`,
-- `quota_settle_once`), and src/quota/ledger.rs on top of them. Amounts are i64, and their sums wrap. A
-- call syncs with S3, works under the partition's write lock, and flushes to S3; what `Io` says of it is
-- what its sync and its flush meet there. A flush that fails comes after the write to memory, which stays.
pub mod Sync
pub mod Limit
pub mod Ceiling
pub mod Idempotence
use metri_engine.Base.{
  ◌≡◌, Bool, true, false, Option, none, some, List, [], ◌∷◌, Text, if◌then◌else◌, Result, ok, err,
  get, insert, pair_Eq, text_Eq,
}
use metri_engine.Base.Int.{ℤ, pos, ◌+ℤ◌, neg, wrap, leb_ℤ, max_zero}
use metri_engine.Errors.{ErrorCode}
use metri_engine.Quota.Counter.Sync.{
  Key, Partition, SyncAnswer, unchanged, FlushAnswer, skipped, sync_from_s3, flush_to_s3,
}

pub record Io : Type 0 where
  pub sync : SyncAnswer
  pub flush : FlushAnswer

-- nothing new in S3, and nothing to write there
abbrev pub sound : Io
sound = record { sync = unchanged; flush = skipped }

-- `.get(&key).copied().unwrap_or(default)`
unfoldable pub current : Partition → Key → ℤ → ℤ
current p k default = elim (get p.quota_counters k) [ none ↦ default | some v ↦ v ]

-- i64 addition and negation
abbrev pub add_i64 : ℤ → ℤ → ℤ
add_i64 a b = wrap 64 (a +ℤ b)

abbrev pub neg_i64 : ℤ → ℤ
neg_i64 a = wrap 64 (neg a)

-- the part of a call behind `sync_from_s3(...).await?`
abbrev pub after_sync :
    {A : Type 0}
    → (Partition → Result ErrorCode A × Partition)
    → Result ErrorCode (Unit {0}) × Partition
    → Result ErrorCode A × Partition
after_sync next (err e, p) = (err e, p)
after_sync next (ok u, p) = next p

-- `flush_to_s3(...).await?` and the answer
abbrev pub answered :
    {A : Type 0} → A → Result ErrorCode (Unit {0}) × Partition → Result ErrorCode A × Partition
answered a (err e, p) = (err e, p)
answered a (ok u, p) = (ok a, p)

abbrev pub with_counter : Key → ℤ → Partition → Partition
with_counter key value p = record p { quota_counters = insert p.quota_counters key value }

unfoldable pub quota_try_debit :
    Io → Key → ℤ → ℤ → ℤ → Partition → Result ErrorCode (Bool × ℤ) × Partition
unfolding current
quota_try_debit io key amount max_limit seed p =
    after_sync
      (λ p.
        let now = current p key seed in
        if leb_ℤ max_limit now
        then (ok (false, now), p)
        else answered (true, add_i64 now amount)
            (flush_to_s3 io.flush (with_counter key (add_i64 now amount) p)))
      (sync_from_s3 io.sync p)

unfoldable pub quota_settle : Io → Key → ℤ → Partition → Result ErrorCode ℤ × Partition
unfolding current
quota_settle io key delta p =
    after_sync
      (λ p.
        let next = max_zero (add_i64 (current p key (pos 0)) delta) in
        answered next (flush_to_s3 io.flush (with_counter key next p)))
      (sync_from_s3 io.sync p)

-- `ikey` is (tenant_id, idem_key), `qkey` is (tenant_id, quota_id)
unfoldable pub quota_settle_once :
    Io → Key → Text → ℤ → Partition → Result ErrorCode Bool × Partition
unfolding current
quota_settle_once io (tenant, quota) idem_key delta p =
    after_sync
      (λ p.
        let next = max_zero (add_i64 (current p (tenant, quota) (pos 0)) delta) in
        elim (get p.quota_idem (tenant, idem_key)) [
          | some applied ↦ (ok false, p)
          | none ↦ answered true (
              flush_to_s3 io.flush (record (with_counter (tenant, quota) next p) {
                quota_idem = insert p.quota_idem (tenant, idem_key) (quota, delta);
              }))
        ])
      (sync_from_s3 io.sync p)

-- quota/ledger.rs
pub data DebitOutcome : Type 0 where
  debited : ℤ → DebitOutcome
  exhausted : ℤ → ℤ → DebitOutcome

pub data SettleOutcome : Type 0 where
  applied already_applied : SettleOutcome

abbrev pub debit_outcome : ℤ → Bool × ℤ → DebitOutcome
debit_outcome max_limit (true, usage) = debited usage
debit_outcome max_limit (false, usage) = exhausted usage max_limit

abbrev pub settle_outcome : Bool → SettleOutcome
settle_outcome true = applied
settle_outcome false = already_applied

abbrev pub map_answer {ℓ κ} :
    {A : Type ℓ} {B : Type κ}
    → (A → B)
    → Result ErrorCode A × Partition
    → Result ErrorCode B × Partition
map_answer f (ok a, p) = (ok (f a), p)
map_answer f (err e, p) = (err e, p)

unfoldable pub try_debit :
    Io → Key → ℤ → ℤ → ℤ → Partition → Result ErrorCode DebitOutcome × Partition
unfolding quota_try_debit
try_debit io key amount max_limit seed p =
    map_answer (debit_outcome max_limit) (quota_try_debit io key amount max_limit seed p)

unfoldable pub settle_once :
    Io → Key → Text → ℤ → Partition → Result ErrorCode SettleOutcome × Partition
unfolding quota_settle_once
settle_once io qkey idem_key delta p =
    map_answer settle_outcome (quota_settle_once io qkey idem_key delta p)

unfoldable pub release : Io → Key → ℤ → Partition → Result ErrorCode (Unit {0}) × Partition
unfolding quota_settle
release io key amount p = map_answer (λ _. tt) (quota_settle io key (neg_i64 amount) p)

-- What any number of tasks do, in the order in which the locks let them through: whole calls, and the
-- parts of calls that others come between (its sync and its flush, and its middle as a call under `sound`).
pub data Call : Type 0 where
  debits : Key → ℤ → ℤ → ℤ → Call
  settles : Key → ℤ → Call
  settles_once : Key → Text → ℤ → Call
  syncs flushes : Call

unfoldable pub step : Io → Call → Partition → Partition
unfolding try_debit quota_settle settle_once
step io (debits key amount max_limit seed) p = (try_debit io key amount max_limit seed p).1
step io (settles key delta) p = (quota_settle io key delta p).1
step io (settles_once key idem_key delta) p = (settle_once io key idem_key delta p).1
step io syncs p = (sync_from_s3 io.sync p).1
step io flushes p = (flush_to_s3 io.flush p).1

unfoldable pub run : List (Io × Call) → Partition → Partition
run [] p = p
run ((io, c) ∷ cs) p = run cs (step io c p)
