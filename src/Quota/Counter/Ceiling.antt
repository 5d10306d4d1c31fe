-- ===== src/Quota/Counter/Ceiling.antt =====
-- A counter that is debited one unit at a time stays within its limit.
use metri_engine.Base.{
  ℕ, ◌<◌, ◌^◌, ◌≡◌, refl, inl, inr, Option, none, some, List, [], ◌∷◌, subst, Bool, true, false,
  Text, Result, ok, err, get, insert, get-insert, arith, pair_Eq, text_Eq, pair_eq_iff,
  Option-cases, Bool-cases,
}
use metri_engine.Base.Int.{ℤ, pos, negsuc, ◌+ℤ◌, ◌≤ℤ◌, ◌<ℤ◌, leb_ℤ, max_zero, wrap, IsI64}
use metri_engine.Errors.{ErrorCode}
use metri_engine.Quota.Counter.Sync.{
  Key, Partition, SyncAnswer, failed, unchanged, not_found, modified, FlushAnswer, skipped, written,
  merged, merge_counters, apply_wire_snapshot, put_after, sync_from_s3, flush_to_s3,
}
use metri_engine.Quota.Counter.{
  Io, current, add_i64, after_sync, answered, quota_try_debit, quota_settle, quota_settle_once,
  map_answer, try_debit, settle_once, Call, debits, settles, settles_once, syncs, flushes, step,
  run,
}

module _ (key : Key) (n : ℕ) (small : n < 2 ^ 63) where
  -- not negative, and at most the limit
  abbrev pub Fits : ℤ → Type 0
  Fits v = (pos 0 ≤ℤ v) × (v ≤ℤ pos n)

  abbrev pub AllWithin : List (Key × ℤ) → Type 0
  AllWithin m = (v : ℤ) → get m key ≡ some v → Fits v

  -- the value of `key`, if it has one
  abbrev pub IsWithin : Partition → Type 0
  IsWithin p = AllWithin p.quota_counters

  -- a snapshot in S3 brings the key only values that fit
  abbrev pub Brings : List (Key × ℤ) → Type 0
  Brings [] = Unit {0}
  Brings ((k, v) ∷ remote) = (k ≡ key → Fits v) × Brings remote

  abbrev pub SyncFits : SyncAnswer → Type 0
  SyncFits (modified snap etag) = Brings snap.quota_counters
  SyncFits other = Unit {0}

  abbrev pub FlushFits : FlushAnswer → Type 0
  FlushFits skipped = Unit {0}
  FlushFits (written sync answer) = SyncFits sync

  -- What is asked of a call, so that the counter stays within the limit: debits of one unit
  -- against that limit, and adjustments that give back.
  abbrev pub Respects : Call → Type 0
  Respects (debits k amount limit seed) = k ≡ key → (amount ≡ pos 1) × (limit ≡ pos n) × Fits seed
  Respects (settles k delta) = k ≡ key → (delta ≤ℤ pos 0) × IsI64 delta
  Respects (settles_once k idem_key delta) = k ≡ key → (delta ≤ℤ pos 0) × IsI64 delta
  Respects syncs = Unit {0}
  Respects flushes = Unit {0}

  abbrev pub AllRespect : List (Io × Call) → Type 0
  AllRespect [] = Unit {0}
  AllRespect ((io, c) ∷ cs) = (SyncFits io.sync × FlushFits io.flush × Respects c) × AllRespect cs

  insert-AllWithin :
      (m : List (Key × ℤ)) (k : Key) (x : ℤ)
      → AllWithin m
      → (k ≡ key → Fits x)
      → AllWithin (insert m k x)
  insert-AllWithin m k x w fits v e = ground (arith, get-insert m k x key, pair_eq_iff k key, w v)

  merged-Fits :
      (newer : Bool) (o : Option ℤ) (v : ℤ)
      → ((u : ℤ) → o ≡ some u → Fits u)
      → Fits v
      → Fits (merged newer o v)
  merged-Fits true o v h f = f
  merged-Fits false none v h f = ground arith
  merged-Fits false (some u) v h f = ground (arith, h u refl)

  merge_counters-AllWithin :
      (newer : Bool) (remote local : List (Key × ℤ))
      → Brings remote
      → AllWithin local
      → AllWithin (merge_counters newer remote local)
  unfolding merge_counters
  merge_counters-AllWithin newer [] local b w = w
  merge_counters-AllWithin newer ((k, v) ∷ remote) local (fits, b) w =
      merge_counters-AllWithin newer remote (insert local k (merged newer (get local k) v)) b (
        insert-AllWithin local k (merged newer (get local k) v) w (λ same.
          merged-Fits newer (get local k) v (λ u e. w u (subst (λ j. get local j ≡ some u) same e))
            (fits same)))

  sync_from_s3-IsWithin :
      (s : SyncAnswer) (p : Partition) → SyncFits s → IsWithin p → IsWithin (sync_from_s3 s p).1
  unfolding sync_from_s3 apply_wire_snapshot get
  sync_from_s3-IsWithin (failed e) p f w = w
  sync_from_s3-IsWithin unchanged p f w = w
  sync_from_s3-IsWithin not_found p f w = elim (Option-cases p.last_s3_etag) [
    | inl e ↦ rw e w
    | inr (etag, e) ↦ rw e (λ v h. cc)
  ]
  sync_from_s3-IsWithin (modified snap etag) p f w =
      merge_counters-AllWithin _ snap.quota_counters p.quota_counters f w

  put_after-IsWithin :
      (answer : Result ErrorCode Text) (r : Result ErrorCode (Unit {0}) × Partition)
      → IsWithin r.1
      → IsWithin (put_after answer r).1
  put_after-IsWithin answer (err e, p) w = w
  put_after-IsWithin (err e) (ok u, p) w = w
  put_after-IsWithin (ok etag) (ok u, p) w = w

  flush_to_s3-IsWithin :
      (f : FlushAnswer) (p : Partition) → FlushFits f → IsWithin p → IsWithin (flush_to_s3 f p).1
  unfolding flush_to_s3
  flush_to_s3-IsWithin skipped p f w = w
  flush_to_s3-IsWithin (written sync answer) p f w =
      put_after-IsWithin answer (sync_from_s3 sync p) (sync_from_s3-IsWithin sync p f w)

  after_sync-IsWithin :
      {A : Type 0} (next : Partition → Result ErrorCode A × Partition) (s : SyncAnswer)
      (p : Partition)
      → SyncFits s
      → IsWithin p
      → ((q : Partition) → IsWithin q → IsWithin (next q).1)
      → IsWithin (after_sync next (sync_from_s3 s p)).1
  after_sync-IsWithin next s p f w then = go (sync_from_s3 s p) (sync_from_s3-IsWithin s p f w)
    where
      go :
          (r : Result ErrorCode (Unit {0}) × Partition)
          → IsWithin r.1
          → IsWithin (after_sync next r).1
      go (err e, q) h = h
      go (ok u, q) h = then q h

  answered-IsWithin :
      {A : Type 0} (a : A) (f : FlushAnswer) (p : Partition)
      → FlushFits f
      → IsWithin p
      → IsWithin (answered a (flush_to_s3 f p)).1
  answered-IsWithin a f p fits w = go (flush_to_s3 f p) (flush_to_s3-IsWithin f p fits w)
    where
      go : (r : Result ErrorCode (Unit {0}) × Partition) → IsWithin r.1 → IsWithin (answered a r).1
      go (err e, q) h = h
      go (ok u, q) h = h

  current-Fits :
      (k : Key) (seed : ℤ) (p : Partition)
      → IsWithin p
      → k ≡ key
      → Fits seed
      → Fits (current p k seed)
  unfolding current
  current-Fits k seed p w same s = rw same (elim (Option-cases (get p.quota_counters key)) [
    | inl e ↦ rw (e, current) s
    | inr (v, e) ↦ rw (e, current) (w v e)
  ])

  one_more-Fits : (now : ℤ) → Fits now → now <ℤ pos n → Fits (add_i64 now (pos 1))
  unfolding ◌+ℤ◌ wrap
  one_more-Fits (pos v) h room = ground arith
  one_more-Fits (negsuc v) h room = absurd (omega (arith, h.0))

  settled-Fits :
      (now delta : ℤ)
      → Fits now
      → delta ≤ℤ pos 0
      → IsI64 delta
      → Fits (max_zero (add_i64 now delta))
  unfolding ◌+ℤ◌ wrap
  settled-Fits (pos v) (pos d) h below i = ground arith
  settled-Fits (pos v) (negsuc d) h below i = ground arith
  settled-Fits (negsuc v) delta h below i = absurd (omega (arith, h.0))

  try_debit-IsWithin :
      (io : Io) (k : Key) (amount limit seed : ℤ) (p : Partition)
      → SyncFits io.sync
      → FlushFits io.flush
      → Respects (debits k amount limit seed)
      → IsWithin p
      → IsWithin (quota_try_debit io k amount limit seed p).1
  unfolding quota_try_debit
  try_debit-IsWithin io k amount limit seed p sf ff r w =
      after_sync-IsWithin _ io.sync p sf w (λ q h.
        elim (Bool-cases (leb_ℤ limit (current q k seed))) [
          | inl full ↦ rw full h
          | inr room ↦ rw room (
              answered-IsWithin _ io.flush _ ff (
                insert-AllWithin q.quota_counters k (add_i64 (current q k seed) amount) h
                  (λ same. added q h same (r same) room)))
        ])
    where
      added :
          (q : Partition)
          → IsWithin q
          → k ≡ key
          → (amount ≡ pos 1) × (limit ≡ pos n) × Fits seed
          → leb_ℤ limit (current q k seed) ≡ false
          → Fits (add_i64 (current q k seed) amount)
      added q h same (one, at_limit, s) room = rw one (
          one_more-Fits (current q k seed) (current-Fits k seed q h same s)
            (below (current q k seed) limit at_limit room))
        where
          below : (now l : ℤ) → l ≡ pos n → leb_ℤ l now ≡ false → now <ℤ pos n
          below now l e h = ground (arith, rw e at h)

  settle-IsWithin :
      (io : Io) (k : Key) (delta : ℤ) (p : Partition)
      → SyncFits io.sync
      → FlushFits io.flush
      → Respects (settles k delta)
      → IsWithin p
      → IsWithin (quota_settle io k delta p).1
  unfolding quota_settle
  settle-IsWithin io k delta p sf ff r w = after_sync-IsWithin _ io.sync p sf w (λ q h.
      answered-IsWithin _ io.flush _ ff (
        insert-AllWithin q.quota_counters k _ h (λ same.
          settled-Fits (current q k (pos 0)) delta
            (current-Fits k (pos 0) q h same (omega arith, omega arith)) (r same).0 (r same).1)))

  settle_once-IsWithin :
      (io : Io) (k : Key) (idem_key : Text) (delta : ℤ) (p : Partition)
      → SyncFits io.sync
      → FlushFits io.flush
      → Respects (settles_once k idem_key delta)
      → IsWithin p
      → IsWithin (quota_settle_once io k idem_key delta p).1
  unfolding quota_settle_once
  settle_once-IsWithin io (t, q) idem_key delta p sf ff r w =
      after_sync-IsWithin _ io.sync p sf w (λ x h.
        elim (Option-cases (get x.quota_idem (t, idem_key))) [
          | inr (old, e) ↦ rw e h
          | inl e ↦ rw e (
              answered-IsWithin _ io.flush _ ff (
                insert-AllWithin x.quota_counters (t, q) _ h
                  (λ same.
                    settled-Fits (current x (t, q) (pos 0)) delta
                      (current-Fits (t, q) (pos 0) x h same (omega arith, omega arith)) (r same).0
                      (r same).1)))
        ])

  map_answer-IsWithin :
      {A B : Type 0} (f : A → B) (r : Result ErrorCode A × Partition)
      → IsWithin r.1
      → IsWithin (map_answer f r).1
  map_answer-IsWithin f (ok a, p) h = h
  map_answer-IsWithin f (err e, p) h = h

  step-IsWithin :
      (io : Io) (c : Call) (p : Partition)
      → SyncFits io.sync
      → FlushFits io.flush
      → Respects c
      → IsWithin p
      → IsWithin (step io c p)
  unfolding step try_debit settle_once
  step-IsWithin io (debits k amount limit seed) p sf ff r w =
      map_answer-IsWithin _ _ (try_debit-IsWithin io k amount limit seed p sf ff r w)
  step-IsWithin io (settles k delta) p sf ff r w = settle-IsWithin io k delta p sf ff r w
  step-IsWithin io (settles_once k idem_key delta) p sf ff r w =
      map_answer-IsWithin _ _ (settle_once-IsWithin io k idem_key delta p sf ff r w)
  step-IsWithin io syncs p sf ff r w = sync_from_s3-IsWithin io.sync p sf w
  step-IsWithin io flushes p sf ff r w = flush_to_s3-IsWithin io.flush p ff w

  -- Whatever tasks debit and give back, in whatever order the locks let their calls and parts of calls
  -- through, and whatever the syncs and flushes meet: failures, an object that is gone, and snapshots in
  -- which the counter is within the limit. If the debits of the counter are of one unit each, against one
  -- limit, an i64 that is not negative, with a seed from 0 to it, and its adjustments are i64 and not
  -- positive, then the counter, once from 0 to the limit, stays so.
  pub run-IsWithin :
      (cs : List (Io × Call)) (p : Partition) → AllRespect cs → IsWithin p → IsWithin (run cs p)
  unfolding run
  run-IsWithin [] p r w = w
  run-IsWithin ((io, c) ∷ cs) p ((sf, ff, here), r) w =
      run-IsWithin cs (step io c p) r (step-IsWithin io c p sf ff here w)
