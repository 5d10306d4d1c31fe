-- ===== src/Quota/Counter/Sync.antt =====
-- The quota counters of a partition and S3, src/mbf/storage.rs: `sync_from_s3` (forced), `flush_to_s3` and
-- `apply_wire_snapshot`. Of a partition the model keeps the counters, the idempotence keys, the epoch and the
-- ETag. What S3 answers is an argument.
use metri_engine.Base.{
  ℕ, ◌+◌, ◌%◌, ◌^◌, Bool, true, false, Option, none, some, List, [], ◌∷◌, Text, if◌then◌else◌, leb,
  max, Result, ok, err, get, insert, pair_Eq, text_Eq,
}
use metri_engine.Base.Int.{ℤ, pos, ltb_ℤ}
use metri_engine.Errors.{ErrorCode}

-- (tenant_id, quota_id) and (tenant_id, idem_key)
abbrev pub Key : Type 0
Key = Text × Text

pub record Partition : Type 0 where
  pub epoch_id : ℕ
  pub last_s3_etag : Option Text
  pub quota_counters : List (Key × ℤ)
  pub quota_idem : List (Key × (Text × ℤ))

-- MbfPartitionStore::default
abbrev pub default : Partition
default = record { epoch_id = 0; last_s3_etag = none; quota_counters = []; quota_idem = [] }

-- of MbfPartitionWireSnapshot, the same parts
pub record Snapshot : Type 0 where
  pub epoch_id : ℕ
  pub quota_counters : List (Key × ℤ)
  pub quota_idem : List (Key × (Text × ℤ))

-- entry.or_insert(0)
abbrev pub local_or_zero : Option ℤ → ℤ
local_or_zero none = pos 0
local_or_zero (some v) = v

abbrev pub merged : Bool → Option ℤ → ℤ → ℤ
merged true entry v = v
merged false entry v = if ltb_ℤ (local_or_zero entry) v then v else local_or_zero entry

unfoldable pub merge_counters : Bool → List (Key × ℤ) → List (Key × ℤ) → List (Key × ℤ)
merge_counters remote_is_newer [] local = local
merge_counters remote_is_newer ((k, v) ∷ remote) local =
    merge_counters remote_is_newer remote (insert local k (merged remote_is_newer (get local k) v))

-- entry(k).or_insert(v)
abbrev pub or_insert :
    List (Key × (Text × ℤ)) → Key → (Text × ℤ) → Option (Text × ℤ) → List (Key × (Text × ℤ))
or_insert local k v none = insert local k v
or_insert local k v (some old) = local

unfoldable pub merge_idem :
    List (Key × (Text × ℤ)) → List (Key × (Text × ℤ)) → List (Key × (Text × ℤ))
merge_idem [] local = local
merge_idem ((k, v) ∷ remote) local = merge_idem remote (or_insert local k v (get local k))

unfoldable pub apply_wire_snapshot : Snapshot → Text → Partition → Partition
apply_wire_snapshot snap etag p = record {
  epoch_id = max p.epoch_id snap.epoch_id;
  last_s3_etag = some etag;
  quota_counters =
      merge_counters (leb p.epoch_id snap.epoch_id) snap.quota_counters p.quota_counters;
  quota_idem = merge_idem snap.quota_idem p.quota_idem;
}

-- What a sync meets. Nothing changes without an S3 store, in bulk mode, for an object that is not modified,
-- and for one that cannot be decoded.
pub data SyncAnswer : Type 0 where
  failed : ErrorCode → SyncAnswer
  unchanged not_found : SyncAnswer
  modified : Snapshot → Text → SyncAnswer

-- a partition that was in S3 and is gone there
abbrev pub forgotten : Option Text → Partition → Partition
forgotten none p = p
forgotten (some etag) p = default

unfoldable pub sync_from_s3 : SyncAnswer → Partition → Result ErrorCode (Unit {0}) × Partition
sync_from_s3 (failed e) p = (err e, p)
sync_from_s3 unchanged p = (ok tt, p)
sync_from_s3 not_found p = (ok tt, forgotten p.last_s3_etag p)
sync_from_s3 (modified snap etag) p = (ok tt, apply_wire_snapshot snap etag p)

-- What a flush meets: no S3 store, or bulk mode; else a sync, and the answer to the put, which is an ETag.
pub data FlushAnswer : Type 0 where
  skipped : FlushAnswer
  written : SyncAnswer → Result ErrorCode Text → FlushAnswer

-- serialize_flush_artifacts counts the epoch, then the object is put
abbrev pub put_partition :
    Result ErrorCode Text → Partition → Result ErrorCode (Unit {0}) × Partition
put_partition (err e) p = (err e, record p { epoch_id = (p.epoch_id + 1) % 2 ^ 64 })
put_partition (ok etag) p =
    (ok tt, record p { epoch_id = (p.epoch_id + 1) % 2 ^ 64; last_s3_etag = some etag })

abbrev pub put_after :
    Result ErrorCode Text
    → Result ErrorCode (Unit {0}) × Partition
    → Result ErrorCode (Unit {0}) × Partition
put_after answer (err e, p) = (err e, p)
put_after answer (ok u, p) = put_partition answer p

unfoldable pub flush_to_s3 : FlushAnswer → Partition → Result ErrorCode (Unit {0}) × Partition
flush_to_s3 skipped p = (ok tt, p)
flush_to_s3 (written sync answer) p = put_after answer (sync_from_s3 sync p)
