-- ===== src/Mbf/Coordinator/Appends.antt =====
-- What `commit_transaction` does to the objects of a store that others write to as well.
use metri_engine.Base.{ℕ, ◌≡◌, Option, List, Text, Result, ok, err, get, text_Eq}
use metri_engine.Errors.{ErrorCode}
use metri_engine.Mbf.Store.{Bytes}
use metri_engine.Mbf.Store.Shared.{Shared, written}
use metri_engine.Mbf.Store.Shared.Steps.{Objects, WellTagged}
use metri_engine.Mbf.Coordinator.{
  CommittedDeltaFrame, HotHead, MbfWriteCoordinator, last_epoch, Transaction, tx_key,
}
use metri_engine.Mbf.Coordinator.Rounds.{Holds, IsRead, NoneMissed, Appended, Explained}

module _ (sha256 : Bytes → Bytes) (hex_encode : Bytes → Text) (hot_head : HotHead)
    (xxh64 : Text → ℕ → ℕ) (tx : Transaction) where
  -- a way to go on from any frames that were read
  abbrev Continues :
      ℕ
      → (List CommittedDeltaFrame
          → Option Text
          → MbfWriteCoordinator Shared
          → Result ErrorCode ℕ × MbfWriteCoordinator Shared)
      → Type 0
  Continues base k =
      (frames : List CommittedDeltaFrame) (etag : Option Text) (c : MbfWriteCoordinator Shared)
      → WellTagged sha256 hex_encode c.store.store.objects
      → IsRead sha256 hex_encode hot_head xxh64 tx frames etag
      → NoneMissed sha256 hex_encode hot_head xxh64 tx base frames
      → Explained sha256 hex_encode hot_head xxh64 tx c.store.store.objects base (k frames etag c)

  -- What a commit comes to. It succeeds with the epoch after the last: the others' puts `before` led
  -- to the frames `read`, and their puts `between` to the frames `rest`; none of `rest` that is newer
  -- than `read` conflicts with the transaction, and the object is `rest` with one frame more. Or it
  -- fails, and the objects are as the others' puts have left them.
  abbrev pub Committed : Objects → Result ErrorCode ℕ × MbfWriteCoordinator Shared → Type 0
  Committed o (ok epoch, c) =
      (before : List (Text × Bytes)) × (read : List CommittedDeltaFrame) × (between : List
        (Text × Bytes))
      × (rest : List CommittedDeltaFrame) × Holds hot_head
          (get (written sha256 hex_encode before o) (tx_key tx)) read
      × Appended sha256 hex_encode hot_head xxh64 tx (written sha256 hex_encode before o)
          (last_epoch read) between rest epoch c.store.store.objects
  Committed o (err e, c) =
      (ws : List (Text × Bytes)) × (c.store.store.objects ≡ written sha256 hex_encode ws o)
