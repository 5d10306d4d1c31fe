-- ===== src/Mbf/Coordinator.antt =====
-- `MbfWriteCoordinator`, src/mbf/tx/mod.rs: a transaction is one more frame in the object of its
-- cell, put there if the object is still the one that was read. The mutex makes the commits of one
-- coordinator follow each other; other instances write through the store. The binary form of an
-- object and the cell of an entity type are parameters. The clock's readings that `encode` writes in
-- the object's header are never read back, and left out.
use metri_engine.Base.{
  ℕ, zero, suc, ◌+◌, ◌%◌, ◌^◌, Bool, true, false, ◌&&◌, ◌≡◌, refl, Option, none, some, List, [],
  ◌∷◌, ◌++◌, Text, Result, ok, err, if◌then◌else◌, ltb, codes,
}
use metri_engine.Base.Decimal.{decimal}
use metri_engine.Errors.{ErrorCode, mbf_cas_conflict001}
use metri_engine.Mbf.Store.{Bytes, MbfObjectPayload, ObjectStore, incremented}
use metri_engine.Mbf.Signature.{TxConflictSignature, from_keys, conflicts_with}
pub mod Rounds
pub mod Appends
pub mod Alone

pub record CommittedDeltaFrame : Type 0 where
  pub signature : TxConflictSignature
  pub payload_json : Text

-- CommittedDeltaFrame::encode_hot_head_binary and decode_hot_head_binary
pub record HotHead : Type 0 where
  pub encode : Text → ℕ → List CommittedDeltaFrame → Bytes
  pub decode : Bytes → Result ErrorCode (List CommittedDeltaFrame)

pub record MbfWriteCoordinator (W : Type 0) : Type 0 where
  pub store : W
  pub total_commits : ℕ
  pub total_auto_rebases : ℕ

-- frames.last().map_or(0, |f| f.signature.new_epoch_id)
unfoldable pub last_epoch : List CommittedDeltaFrame → ℕ
last_epoch [] = 0
last_epoch (f ∷ []) = f.signature.new_epoch_id
last_epoch (f ∷ g ∷ fs) = last_epoch (g ∷ fs)

-- `last_epoch + 1`, on 64 bits
unfoldable pub next_epoch : List CommittedDeltaFrame → ℕ
next_epoch frames = (last_epoch frames + 1) % 2 ^ 64

unfoldable pub s3_hot_head_key : Text → ℕ → Text
s3_hot_head_key tenant_id cell_id =
    codes "tenants/" ++ tenant_id ++ codes "/head/HOT_HEAD_c" ++ decimal cell_id ++ codes ".mbf"

abbrev pub is_cas_conflict : ErrorCode → Bool
is_cas_conflict mbf_cas_conflict001 = true
is_cas_conflict other = false

-- The arguments of `commit_transaction`, with the cell that the router gives.
pub record Transaction : Type 0 where
  pub tenant_id : Text
  pub cell_id : ℕ
  pub read_keys : List Text
  pub write_keys : List Text
  pub payload : Text

-- some frame committed after `base` conflicts with `me`
unfoldable pub any_conflict : TxConflictSignature → ℕ → List CommittedDeltaFrame → Bool
any_conflict me base [] = false
any_conflict me base (f ∷ fs) =
    if ltb base (f.signature.new_epoch_id) && conflicts_with me (f.signature)
    then true
    else any_conflict me base fs

-- What one round of the loop comes to.
pub data Round (W : Type 0) : Type 0 where
  done : Result ErrorCode ℕ → MbfWriteCoordinator W → Round W
  rebased : List CommittedDeltaFrame → Option Text → MbfWriteCoordinator W → Round W

abbrev pub tx_key : Transaction → Text
tx_key tx = s3_hot_head_key tx.tenant_id tx.cell_id

abbrev pub signed : (Text → ℕ → ℕ) → Transaction → ℕ → ℕ → TxConflictSignature
signed xxh64 tx base next = from_keys xxh64 base next tx.read_keys tx.write_keys

-- candidate_frames
abbrev pub candidate :
    (Text → ℕ → ℕ) → Transaction → ℕ → List CommittedDeltaFrame → List CommittedDeltaFrame
candidate xxh64 tx base frames =
    frames
    ++ record { signature = signed xxh64 tx base (next_epoch frames); payload_json = tx.payload }
      ∷ []

abbrev pub serialized :
    HotHead → (Text → ℕ → ℕ) → Transaction → ℕ → List CommittedDeltaFrame → Bytes
serialized hot_head xxh64 tx base frames =
    hot_head.encode tx.tenant_id tx.cell_id (candidate xxh64 tx base frames)

module _ {W : Type 0} (objects : ObjectStore W) (hot_head : HotHead) (xxh64 : Text → ℕ → ℕ)
    (tx : Transaction) where
  abbrev with_store : MbfWriteCoordinator W → W → MbfWriteCoordinator W
  with_store c w = record c { store = w }

  -- the frames of the winner are read: rebase on them, unless one conflicts
  abbrev pub inspect :
      ℕ
      → TxConflictSignature
      → Text
      → Result ErrorCode (List CommittedDeltaFrame)
      → MbfWriteCoordinator W
      → Round W
  inspect base me etag (err e) c = done (err e) c
  inspect base me etag (ok remote_frames) c =
      if any_conflict me base remote_frames
      then done (err mbf_cas_conflict001) c
      else rebased remote_frames (some etag)
          (record c { total_auto_rebases = incremented c.total_auto_rebases })

  abbrev pub refetched :
      ℕ
      → TxConflictSignature
      → ErrorCode
      → Result ErrorCode (Option MbfObjectPayload) × W
      → MbfWriteCoordinator W
      → Round W
  refetched base me e (err e', w) c = done (err e') (with_store c w)
  refetched base me e (ok none, w) c = done (err e) (with_store c w)
  refetched base me e (ok (some remote_obj), w) c =
      inspect base me remote_obj.etag (hot_head.decode remote_obj.bytes) (with_store c w)

  -- match self.store.put_if_match(...)
  abbrev pub on_put :
      Bool
      → ℕ
      → List CommittedDeltaFrame
      → Result ErrorCode Text × W
      → MbfWriteCoordinator W
      → Round W
  on_put retry base frames (ok tag, w) c =
      done (ok (next_epoch frames))
        (record c { store = w; total_commits = incremented c.total_commits })
  on_put retry base frames (err e, w) c =
      if is_cas_conflict e && retry
      then refetched base (signed xxh64 tx base (next_epoch frames)) e
          (objects.get_object (tx_key tx) w) c
      else done (err e) (with_store c w)

  unfoldable pub attempt :
      Bool → ℕ → List CommittedDeltaFrame → Option Text → MbfWriteCoordinator W → Round W
  attempt retry base frames etag c =
      on_put retry base frames
        (objects.put_if_match (tx_key tx) (serialized hot_head xxh64 tx base frames) etag c.store) c

  abbrev pub and_then :
      (List CommittedDeltaFrame
        → Option Text
        → MbfWriteCoordinator W
        → Result ErrorCode ℕ × MbfWriteCoordinator W)
      → Round W
      → Result ErrorCode ℕ × MbfWriteCoordinator W
  and_then k (done answer c) = (answer, c)
  and_then k (rebased frames etag c) = k frames etag c

  -- `for attempt in 0..8`, with the number of rounds that are left
  unfoldable pub rounds :
      ℕ
      → ℕ
      → List CommittedDeltaFrame
      → Option Text
      → MbfWriteCoordinator W
      → Result ErrorCode ℕ × MbfWriteCoordinator W
  rounds zero base frames etag c = (err mbf_cas_conflict001, c)
  rounds (suc left) base frames etag c =
      and_then (rounds left base) (attempt (ltb 0 left) base frames etag c)

  abbrev pub with_base :
      Result ErrorCode (List CommittedDeltaFrame)
      → Option Text
      → MbfWriteCoordinator W
      → Result ErrorCode ℕ × MbfWriteCoordinator W
  with_base (err e) etag c = (err e, c)
  with_base (ok frames) etag c = rounds 8 (last_epoch frames) frames etag c

  abbrev pub on_snapshot :
      Result ErrorCode (Option MbfObjectPayload) × W
      → MbfWriteCoordinator W
      → Result ErrorCode ℕ × MbfWriteCoordinator W
  on_snapshot (err e, w) c = (err e, with_store c w)
  on_snapshot (ok none, w) c = with_base (ok []) none (with_store c w)
  on_snapshot (ok (some obj), w) c =
      with_base (hot_head.decode obj.bytes) (some obj.etag) (with_store c w)

  unfoldable pub commit_transaction :
      MbfWriteCoordinator W → Result ErrorCode ℕ × MbfWriteCoordinator W
  commit_transaction c = on_snapshot (objects.get_object (tx_key tx) c.store) c
