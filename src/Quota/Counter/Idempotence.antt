-- ===== src/Quota/Counter/Idempotence.antt =====
-- Idempotence keys: once an adjustment has been applied under a key, no call applies it again, while the
-- partition's object is in S3.
use metri_engine.Base.{
  ◌≡◌, ◌≢◌, refl, inl, inr, Option, none, some, List, [], ◌∷◌, Text, Result, ok, err, get, insert,
  get-insert, arith, pair_Eq, text_Eq, pair_eq_iff, Option-cases, Bool-cases,
}
use metri_engine.Base.Int.{ℤ, leb_ℤ}
use metri_engine.Errors.{ErrorCode}
use metri_engine.Quota.Counter.Sync.{
  Key, Partition, SyncAnswer, failed, unchanged, not_found, modified, FlushAnswer, skipped, written,
  merge_idem, or_insert, apply_wire_snapshot, put_after, sync_from_s3, flush_to_s3,
}
use metri_engine.Quota.Counter.{
  Io, current, after_sync, answered, map_answer, quota_try_debit, quota_settle, quota_settle_once,
  try_debit, settle_once, already_applied, Call, debits, settles, settles_once, syncs, flushes,
  step, run,
}

-- `ikey`, a tenant with an idempotence key, has been used.
abbrev pub IsApplied : Key → Partition → Type 0
IsApplied ikey p = get p.quota_idem ikey ≢ none

-- the sync does not find the object gone
abbrev pub Keeps : SyncAnswer → Type 0
Keeps not_found = ⊥
Keeps other = Unit {0}

abbrev pub FlushKeeps : FlushAnswer → Type 0
FlushKeeps skipped = Unit {0}
FlushKeeps (written sync answer) = Keeps sync

abbrev pub AllKeep : List (Io × Call) → Type 0
AllKeep [] = Unit {0}
AllKeep ((io, c) ∷ cs) = (Keeps io.sync × FlushKeeps io.flush) × AllKeep cs

module _ (ikey : Key) where
  insert-used :
      (m : List (Key × (Text × ℤ))) (k : Key) (v : Text × ℤ)
      → get m ikey ≢ none
      → get (insert m k v) ikey ≢ none
  insert-used m k v h e = h (ground (arith, get-insert m k v ikey))

  or_insert-used :
      (m : List (Key × (Text × ℤ))) (k : Key) (v : Text × ℤ) (o : Option (Text × ℤ))
      → get m ikey ≢ none
      → get (or_insert m k v o) ikey ≢ none
  or_insert-used m k v none h = insert-used m k v h
  or_insert-used m k v (some old) h = h

  merge_idem-used :
      (remote local : List (Key × (Text × ℤ)))
      → get local ikey ≢ none
      → get (merge_idem remote local) ikey ≢ none
  unfolding merge_idem
  merge_idem-used [] local h = h
  merge_idem-used ((k, v) ∷ remote) local h =
      merge_idem-used remote (or_insert local k v (get local k))
        (or_insert-used local k v (get local k) h)

  sync_from_s3-IsApplied :
      (s : SyncAnswer) (p : Partition)
      → Keeps s
      → IsApplied ikey p
      → IsApplied ikey (sync_from_s3 s p).1
  unfolding sync_from_s3 apply_wire_snapshot
  sync_from_s3-IsApplied (failed e) p k h = h
  sync_from_s3-IsApplied unchanged p k h = h
  sync_from_s3-IsApplied not_found p k h = absurd k
  sync_from_s3-IsApplied (modified snap etag) p k h = merge_idem-used snap.quota_idem p.quota_idem h

  put_after-IsApplied :
      (answer : Result ErrorCode Text) (r : Result ErrorCode (Unit {0}) × Partition)
      → IsApplied ikey r.1
      → IsApplied ikey (put_after answer r).1
  put_after-IsApplied answer (err e, p) w = w
  put_after-IsApplied (err e) (ok u, p) w = w
  put_after-IsApplied (ok etag) (ok u, p) w = w

  flush_to_s3-IsApplied :
      (f : FlushAnswer) (p : Partition)
      → FlushKeeps f
      → IsApplied ikey p
      → IsApplied ikey (flush_to_s3 f p).1
  unfolding flush_to_s3
  flush_to_s3-IsApplied skipped p k h = h
  flush_to_s3-IsApplied (written sync answer) p k h =
      put_after-IsApplied answer (sync_from_s3 sync p) (sync_from_s3-IsApplied sync p k h)

  answered-IsApplied :
      {A : Type 0} (a : A) (f : FlushAnswer) (p : Partition)
      → FlushKeeps f
      → IsApplied ikey p
      → IsApplied ikey (answered a (flush_to_s3 f p)).1
  answered-IsApplied a f p k h = go (flush_to_s3 f p) (flush_to_s3-IsApplied f p k h)
    where
      go :
          (r : Result ErrorCode (Unit {0}) × Partition)
          → IsApplied ikey r.1
          → IsApplied ikey (answered a r).1
      go (err e, q) h = h
      go (ok u, q) h = h

  after_sync-IsApplied :
      {A : Type 0} (next : Partition → Result ErrorCode A × Partition) (s : SyncAnswer)
      (p : Partition)
      → Keeps s
      → IsApplied ikey p
      → ((q : Partition) → IsApplied ikey q → IsApplied ikey (next q).1)
      → IsApplied ikey (after_sync next (sync_from_s3 s p)).1
  after_sync-IsApplied next s p k h then = go (sync_from_s3 s p) (sync_from_s3-IsApplied s p k h)
    where
      go :
          (r : Result ErrorCode (Unit {0}) × Partition)
          → IsApplied ikey r.1
          → IsApplied ikey (after_sync next r).1
      go (err e, q) h = h
      go (ok u, q) h = then q h

  map_answer-IsApplied :
      {A B : Type 0} (f : A → B) (r : Result ErrorCode A × Partition)
      → IsApplied ikey r.1
      → IsApplied ikey (map_answer f r).1
  map_answer-IsApplied f (ok a, p) h = h
  map_answer-IsApplied f (err e, p) h = h

  step-IsApplied :
      (io : Io) (c : Call) (p : Partition)
      → Keeps io.sync
      → FlushKeeps io.flush
      → IsApplied ikey p
      → IsApplied ikey (step io c p)
  unfolding step try_debit settle_once quota_try_debit quota_settle quota_settle_once
  step-IsApplied io (debits k amount limit seed) p ks kf h = map_answer-IsApplied _ _ (
      after_sync-IsApplied _ io.sync p ks h (λ q u.
        elim (Bool-cases (leb_ℤ limit (current q k seed))) [
          | inl full ↦ rw full u
          | inr room ↦ rw room (answered-IsApplied _ io.flush _ kf u)
        ]))
  step-IsApplied io (settles k delta) p ks kf h =
      after_sync-IsApplied _ io.sync p ks h (λ q u. answered-IsApplied _ io.flush _ kf u)
  step-IsApplied io (settles_once (t, q) idem_key delta) p ks kf h = map_answer-IsApplied _ _ (
      after_sync-IsApplied _ io.sync p ks h (λ x u.
        elim (Option-cases (get x.quota_idem (t, idem_key))) [
          | inr (old, e) ↦ rw e u
          | inl e ↦ rw e (
              answered-IsApplied _ io.flush _ kf
                (insert-used x.quota_idem (t, idem_key) (q, delta) u))
        ]))
  step-IsApplied io syncs p ks kf h = sync_from_s3-IsApplied io.sync p ks h
  step-IsApplied io flushes p ks kf h = flush_to_s3-IsApplied io.flush p kf h

  run-IsApplied :
      (cs : List (Io × Call)) (p : Partition)
      → AllKeep cs
      → IsApplied ikey p
      → IsApplied ikey (run cs p)
  unfolding run
  run-IsApplied [] p k h = h
  run-IsApplied ((io, c) ∷ cs) p ((ks, kf), k) h =
      run-IsApplied cs (step io c p) k (step-IsApplied io c p ks kf h)

  inserted-used : (m : List (Key × (Text × ℤ))) (v : Text × ℤ) → get (insert m ikey v) ikey ≢ none
  inserted-used m v e = ground (arith, get-insert m ikey v ikey, pair_eq_iff ikey ikey)

quota_settle_once-IsApplied :
    (io : Io) (tenant quota idem_key : Text) (delta : ℤ) (p q : Partition)
    → sync_from_s3 io.sync p ≡ (ok tt, q)
    → FlushKeeps io.flush
    → IsApplied (tenant, idem_key) (quota_settle_once io (tenant, quota) idem_key delta p).1
unfolding quota_settle_once
quota_settle_once-IsApplied io tenant quota idem_key delta p q synced kf =
    elim (Option-cases (get q.quota_idem (tenant, idem_key))) [
      | inr (old, e) ↦ rw (synced, after_sync, e) (λ none_there. clash old e none_there)
      | inl e ↦
          rw (synced, after_sync, e)
            (answered-IsApplied (tenant, idem_key) _ io.flush _ kf
              (inserted-used (tenant, idem_key) q.quota_idem (quota, delta)))
    ]
  where
    clash :
        (old : Text × ℤ)
        → get q.quota_idem (tenant, idem_key) ≡ some old
        → get q.quota_idem (tenant, idem_key) ≡ none
        → ⊥
    clash old e f = cc

-- a call that got past the sync has used its key, whatever it answers
settle_once-IsApplied :
    (io : Io) (tenant quota idem_key : Text) (delta : ℤ) (p q : Partition)
    → sync_from_s3 io.sync p ≡ (ok tt, q)
    → FlushKeeps io.flush
    → IsApplied (tenant, idem_key) (settle_once io (tenant, quota) idem_key delta p).1
unfolding settle_once
settle_once-IsApplied io tenant quota idem_key delta p q synced kf =
    map_answer-IsApplied (tenant, idem_key) _ _
      (quota_settle_once-IsApplied io tenant quota idem_key delta p q synced kf)

-- a key that is used: the call answers so, or the error of its sync, and changes nothing behind the sync
settle_once-applied :
    (io : Io) (tenant quota idem_key : Text) (delta : ℤ) (p : Partition)
    → Keeps io.sync
    → IsApplied (tenant, idem_key) p
    → settle_once io (tenant, quota) idem_key delta p
      ≡ map_answer (λ u. already_applied) (sync_from_s3 io.sync p)
unfolding settle_once quota_settle_once
settle_once-applied io tenant quota idem_key delta p k h =
    go (sync_from_s3 io.sync p) refl (sync_from_s3-IsApplied (tenant, idem_key) io.sync p k h)
  where
    go :
        (r : Result ErrorCode (Unit {0}) × Partition)
        → sync_from_s3 io.sync p ≡ r
        → IsApplied (tenant, idem_key) r.1
        → settle_once io (tenant, quota) idem_key delta p
          ≡ map_answer (λ u. already_applied) (sync_from_s3 io.sync p)
    go (err e, q) synced used = rw synced refl
    go (ok u, q) synced used = elim (Option-cases (get q.quota_idem (tenant, idem_key))) [
      | inl e ↦ absurd (used e)
      | inr (old, e) ↦ rw (synced, after_sync, e) refl
    ]

-- An adjustment is applied at most once under its key, while the partition's object is not gone from S3.
-- After a first call that got past the sync, even one that answered an error because its flush failed,
-- and after anything that other tasks do, a call with the same tenant and key answers that it was
-- applied already, or the error of its sync, and the partition is as the sync left it.
pub settle_once_at_most_once :
    (io : Io) (tenant quota idem_key : Text) (delta : ℤ) (p q : Partition) (cs : List (Io × Call))
    (io' : Io) (quota' : Text) (delta' : ℤ)
    → sync_from_s3 io.sync p ≡ (ok tt, q)
    → FlushKeeps io.flush
    → AllKeep cs
    → Keeps io'.sync
    → let p' = run cs (settle_once io (tenant, quota) idem_key delta p).1 in
      settle_once io' (tenant, quota') idem_key delta' p'
      ≡ map_answer (λ u. already_applied) (sync_from_s3 io'.sync p')
settle_once_at_most_once io tenant quota idem_key delta p q cs io' quota' delta' synced kf ks k' =
    settle_once-applied io' tenant quota' idem_key delta' _ k' (
      run-IsApplied (tenant, idem_key) cs _ ks
        (settle_once-IsApplied io tenant quota idem_key delta p q synced kf))
