-- ===== src/Quota/Counter/Limit.antt =====
-- The ceiling of a counter: what a debit promises, and where it exceeds the limit.
use metri_engine.Base.{
  ℕ, ◌+◌, ◌<◌, ◌^◌, ◌≡◌, refl, ◌⊎◌, inl, inr, some, List, ap, ◌∙◌, true, false, Text, Result, ok,
  get, insert, get-insert, arith, pair_Eq, text_Eq, Bool-cases, eqb_refl,
}
use metri_engine.Base.Int.{
  ℤ, pos, negsuc, ◌+ℤ◌, ◌≤ℤ◌, ◌<ℤ◌, leb_ℤ, neg, max_zero, wrap, IsI64, +ℤ_cancel,
}
use metri_engine.Errors.{ErrorCode}
use metri_engine.Quota.Counter.Sync.{
  Key, Partition, unchanged, FlushAnswer, skipped, written, sync_from_s3, flush_to_s3,
}
use metri_engine.Quota.Counter.{
  DebitOutcome, Io, current, with_counter, try_debit, release, debited, exhausted,
}

-- an i64 is what it is in 64 bits
pub wrap-IsI64 : (a : ℤ) → IsI64 a → wrap 64 a ≡ a
unfolding wrap
wrap-IsI64 (pos n) h = ground arith
wrap-IsI64 (negsuc n) h = ground arith

-- Nobody else has written the object before the flush, and the put succeeds, where there is one.
abbrev pub Flushes : FlushAnswer → Type 0
Flushes skipped = Unit {0}
Flushes (written sync answer) = (sync ≡ unchanged) × (etag : Text) × (answer ≡ ok etag)

-- the partition behind such a flush
abbrev pub Flushed : FlushAnswer → Partition → Type 0
Flushed f p =
    (q : Partition) × (flush_to_s3 f p ≡ (ok tt, q))
    × (q.quota_counters ≡ p.quota_counters)
    × (q.quota_idem ≡ p.quota_idem)

pub flush_to_s3-Flushed : (f : FlushAnswer) (p : Partition) → Flushes f → Flushed f p
unfolding flush_to_s3 sync_from_s3
flush_to_s3-Flushed skipped p h = (p, refl, refl, refl)
flush_to_s3-Flushed (written sync answer) p (same, etag, e) = rw (same, e) (_, refl, refl, refl)

get_inserted : (key : Key) (v : ℤ) (m : List (Key × ℤ)) → get (insert m key v) key ≡ some v
get_inserted key v m = get-insert m key v key ∙ rw (eqb_refl key) refl

-- What a debit answers and leaves, from the partition `p` behind its sync.
abbrev pub Decides :
    Key → ℤ → ℤ → ℤ → Partition → Result ErrorCode DebitOutcome × Partition → Type 0
Decides key amount max_limit seed p r =
    let now = current p key seed in
    ((now <ℤ max_limit)
      × (r.0 ≡ ok (debited (now +ℤ amount)))
      × (get r.1.quota_counters key ≡ some (now +ℤ amount)))
    ⊎ ((max_limit ≤ℤ now) × (r.0 ≡ ok (exhausted now max_limit)) × (r.1 ≡ p))

-- A debit whose sync succeeds, and whose flush, if it comes to one, finds nothing new and succeeds: it
-- is let through if the usage behind the sync is below the limit, and answers the usage with the amount
-- added, which is what the counter holds then; else it answers that the quota is exhausted, with the usage
-- and the limit, and changes nothing. The usage with the amount added is an i64.
pub try_debit-Decides :
    (io : Io) (key : Key) (amount max_limit seed : ℤ) (p0 p : Partition)
    → sync_from_s3 io.sync p0 ≡ (ok tt, p)
    → Flushes io.flush
    → IsI64 (current p key seed +ℤ amount)
    → Decides key amount max_limit seed p (try_debit io key amount max_limit seed p0)
unfolding try_debit
try_debit-Decides io key amount max_limit seed p0 p synced flush small =
    elim (Bool-cases (leb_ℤ max_limit (current p key seed))) [
      | inl full ↦ rw (synced, full) (inr (full_le full, refl, refl))
      | inr room ↦
          let (q, flushed, counters, idem) = flush_to_s3-Flushed io.flush next flush in
          rw (synced, room, wrap-IsI64 (current p key seed +ℤ amount) small, flushed)
            (inl (
              room_lt room,
              refl,
              ap (λ m. get m key) counters
                  ∙ get_inserted key (current p key seed +ℤ amount) p.quota_counters,
            ))
    ]
  where
    next : Partition
    next = with_counter key (current p key seed +ℤ amount) p

    full_le : leb_ℤ max_limit (current p key seed) ≡ true → max_limit ≤ℤ current p key seed
    full_le h = ground arith

    room_lt : leb_ℤ max_limit (current p key seed) ≡ false → current p key seed <ℤ max_limit
    room_lt h = ground arith

-- A debit against a usage below the limit that takes it past the limit is let through, and the counter is
-- past the limit then: only the usage before the debit is compared with it. The sync succeeds, the flush
-- finds nothing new and succeeds, and the usage with the amount added is an i64.
pub try_debit_overshoots :
    (io : Io) (key : Key) (amount max_limit seed : ℤ) (p0 p : Partition)
    → sync_from_s3 io.sync p0 ≡ (ok tt, p)
    → Flushes io.flush
    → IsI64 (current p key seed +ℤ amount)
    → current p key seed <ℤ max_limit
    → max_limit <ℤ (current p key seed +ℤ amount)
    → let r = try_debit io key amount max_limit seed p0 in
      (usage : ℤ) × (r.0 ≡ ok (debited usage))
      × (get r.1.quota_counters key ≡ some usage)
      × (max_limit <ℤ usage)
try_debit_overshoots io key amount max_limit seed p0 p synced flush small room past =
    elim (try_debit-Decides io key amount max_limit seed p0 p synced flush small) [
      | inl (_, answer, stored) ↦ (current p key seed +ℤ amount, answer, stored, past)
      | inr (full, _, _) ↦ absurd (omega arith)
    ]

give_back : (now a : ℕ) → max_zero (pos now +ℤ pos a +ℤ neg (pos a)) ≡ pos now
give_back now a = rw +ℤ_cancel

pub full_not_room : (now limit : ℤ) → limit ≤ℤ now → now <ℤ limit → ⊥
full_not_room now limit h k = omega arith

neg-IsI64 : (a : ℕ) → a < 2 ^ 63 → IsI64 (neg (pos a))
unfolding neg
neg-IsI64 a h = ground arith

same_partition : (p : Partition) → sync_from_s3 unchanged p ≡ (ok tt, p)
unfolding sync_from_s3
same_partition p = refl

current-get :
    (key : Key) (v : ℤ) (p : Partition)
    → get p.quota_counters key ≡ some v
    → current p key (pos 0) ≡ v
unfolding current
current-get key v p e = rw (e, current) refl

-- what a release leaves in a counter that has a value
pub get-release :
    (io : Io) (key : Key) (a : ℕ) (v : ℤ) (p : Partition)
    → io.sync ≡ unchanged
    → Flushes io.flush
    → a < 2 ^ 63
    → IsI64 (v +ℤ neg (pos a))
    → get p.quota_counters key ≡ some v
    → get (release io key (pos a) p).1.quota_counters key ≡ some (max_zero (v +ℤ neg (pos a)))
unfolding release
get-release io key a v p synced flush small diff e =
    let (q, flushed, counters, idem) =
      flush_to_s3-Flushed io.flush (with_counter key (max_zero (v +ℤ neg (pos a))) p) flush in
    rw
      (
        synced_as synced,
        current-get key v p e,
        wrap-IsI64 (neg (pos a)) (neg-IsI64 a small),
        wrap-IsI64 (v +ℤ neg (pos a)) diff,
        flushed,
      )
      (ap (λ m. get m key) counters
        ∙ get_inserted key (max_zero (v +ℤ neg (pos a))) p.quota_counters)
  where
    synced_as : io.sync ≡ unchanged → sync_from_s3 io.sync p ≡ (ok tt, p)
    synced_as h = rw h (same_partition p)

small_sum : (now a : ℕ) → now + a < 2 ^ 63 → IsI64 (pos now +ℤ pos a)
unfolding ◌+ℤ◌
small_sum now a h = ground arith

-- For a usage and an amount that are not negative, with a sum that is an i64: a debit that is let through
-- and then released, when the syncs of the release and the flushes find nothing new and no call fails,
-- leaves the counter at the usage before the debit.
pub release-try_debit :
    (io io' : Io) (key : Key) (now a : ℕ) (max_limit seed : ℤ) (p0 p : Partition)
    → sync_from_s3 io.sync p0 ≡ (ok tt, p)
    → Flushes io.flush
    → io'.sync ≡ unchanged
    → Flushes io'.flush
    → now + a < 2 ^ 63
    → current p key seed ≡ pos now
    → pos now <ℤ max_limit
    → let p' = (try_debit io key (pos a) max_limit seed p0).1 in
      get (release io' key (pos a) p').1.quota_counters key ≡ some (pos now)
release-try_debit io io' key now a max_limit seed p0 p synced flush synced' flush' small e room =
    elim (try_debit-Decides io key (pos a) max_limit seed p0 p synced flush
      (rw e (small_sum now a small))) [
        | inl (_, _, stored) ↦
            get-release io' key a (pos now +ℤ pos a) _ synced' flush' (omega arith)
              (rw (+ℤ_cancel (pos now) (pos a)) (omega arith)) (stored ∙ rw e refl)
            ∙ ap some (give_back now a)
        | inr (full, _, _) ↦ absurd (full_not_room (pos now) max_limit (rw e at full) room)
      ]
