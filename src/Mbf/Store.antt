-- ===== src/Mbf/Store.antt =====
-- `IMbfObjectStore`, src/domain/protocols.rs, and `InMemoryChaosS3Store`, src/mbf/mod.rs: objects
-- with an ETag and a conditional put. SHA-256 and the hexadecimal encoding are parameters. A lock is
-- poisoned only by a panic, which the code does not contain: those branches are left out.
use metri_engine.Base.{
  ℕ, ◌+◌, ◌-◌, ◌%◌, ◌^◌, Bool, true, false, ◌||◌, Option, none, some, List, [], ◌∷◌, Text, Result,
  ok, err, get, insert, text_Eq, ◌==◌, if◌then◌else◌, ltb, length, take, drop,
}
use metri_engine.Errors.{ErrorCode, mbf_corrupt001, mbf_cas_conflict001}
pub mod Shared

abbrev pub Bytes : Type 0
Bytes = List ℕ

pub record MbfObjectPayload : Type 0 where
  pub bytes : Bytes
  pub etag : Text

pub data MbfConditionalGet : Type 0 where
  not_modified not_found : MbfConditionalGet
  modified : MbfObjectPayload → MbfConditionalGet

-- The operations of the trait that the write path calls, on a store of the type `W`.
pub record ObjectStore (W : Type 0) : Type 1 where
  pub get_object : Text → W → Result ErrorCode (Option MbfObjectPayload) × W
  pub put_if_match : Text → Bytes → Option Text → W → Result ErrorCode Text × W

pub record InMemoryChaosS3Store : Type 0 where
  pub objects : List (Text × MbfObjectPayload)
  pub injected_winners : List (Text × Bytes)
  pub gets_count : ℕ
  pub puts_count : ℕ
  pub range_gets_count : ℕ
  pub not_modified_304_hits : ℕ
  pub conflict_412_count : ℕ

-- fetch_add(1) on an AtomicU64
abbrev pub incremented : ℕ → ℕ
incremented n = (n + 1) % 2 ^ 64

-- map.remove(key)
unfoldable pub remove : {V : Type 0} → List (Text × V) → Text → List (Text × V)
remove [] k = []
remove ((j, v) ∷ m) k = if j == k then m else (j, v) ∷ remove m k

abbrev pub inject_concurrent_winner_on_next_put :
    Text → Bytes → InMemoryChaosS3Store → InMemoryChaosS3Store
inject_concurrent_winner_on_next_put key winner_bytes s = record s {
  injected_winners = insert s.injected_winners key winner_bytes;
}

-- match (guard.get(key), expected_etag)
abbrev pub precondition : Option MbfObjectPayload → Option Text → Bool
precondition none none = true
precondition (some existing) (some e) = existing.etag == e
precondition none (some e) = false
precondition (some existing) none = false

unfoldable pub get_object :
    Text → InMemoryChaosS3Store → Result ErrorCode (Option MbfObjectPayload) × InMemoryChaosS3Store
get_object key s = (ok (get s.objects key), record s { gets_count = incremented s.gets_count })

abbrev revalidate :
    Option MbfObjectPayload
    → Text
    → InMemoryChaosS3Store
    → Result ErrorCode MbfConditionalGet × InMemoryChaosS3Store
revalidate none cached_etag s = (ok not_found, s)
revalidate (some obj) cached_etag s =
    if obj.etag == cached_etag
    then (ok not_modified, record s { not_modified_304_hits = incremented s.not_modified_304_hits })
    else (ok (modified obj), record s { gets_count = incremented s.gets_count })

unfoldable pub get_if_none_match :
    Text → Text → InMemoryChaosS3Store → Result ErrorCode MbfConditionalGet × InMemoryChaosS3Store
get_if_none_match key cached_etag s = revalidate (get s.objects key) cached_etag s

abbrev range : Option MbfObjectPayload → ℕ → ℕ → Result ErrorCode Bytes
range none start end = err mbf_corrupt001
range (some obj) start end =
    if ltb end start || ltb (length obj.bytes) end
    then err mbf_corrupt001
    else ok (take (end - start) (drop start obj.bytes))

unfoldable pub get_byte_range :
    Text → ℕ → ℕ → InMemoryChaosS3Store → Result ErrorCode Bytes × InMemoryChaosS3Store
get_byte_range key start end s = (
  range (get s.objects key) start end,
  record s { range_gets_count = incremented s.range_gets_count },
)

module _ (sha256 : Bytes → Bytes) (hex_encode : Bytes → Text) where
  unfoldable pub compute_etag : Bytes → Text
  compute_etag bytes = hex_encode (take 16 (sha256 bytes))

  abbrev pub payload : Bytes → MbfObjectPayload
  payload bytes = record { bytes = bytes; etag = compute_etag bytes }

  abbrev conflicted : InMemoryChaosS3Store → Result ErrorCode Text × InMemoryChaosS3Store
  conflicted s =
      (err mbf_cas_conflict001, record s { conflict_412_count = incremented s.conflict_412_count })

  -- the winner that is waiting for this key, if any, is stored first
  abbrev put_after :
      Option Bytes
      → Text
      → Bytes
      → Option Text
      → InMemoryChaosS3Store
      → Result ErrorCode Text × InMemoryChaosS3Store
  put_after (some winner_bytes) key bytes expected_etag s = conflicted (record s {
    objects = insert s.objects key (payload winner_bytes);
    injected_winners = remove s.injected_winners key;
  })
  put_after none key bytes expected_etag s =
      if precondition (get s.objects key) expected_etag
      then (
        ok (compute_etag bytes),
        record s {
          objects = insert s.objects key (payload bytes);
          puts_count = incremented s.puts_count;
        },
      )
      else conflicted s

  unfoldable pub put_if_match :
      Text
      → Bytes
      → Option Text
      → InMemoryChaosS3Store
      → Result ErrorCode Text × InMemoryChaosS3Store
  put_if_match key bytes expected_etag s =
      put_after (get s.injected_winners key) key bytes expected_etag s
