-- ===== src/Mbf/HotHead/Commits.antt =====
-- The commits of a coordinator over HOT_HEAD objects in their binary form.
use metri_engine.Base.{ℕ, ◌<◌, ◌^◌, ◌≡◌, some, List, Text, Result, text_Eq, length}
use metri_engine.Base.Int.{ℤ}
use metri_engine.Errors.{ErrorCode}
use metri_engine.Mbf.Store.{Bytes}
use metri_engine.Mbf.Store.Shared.{Shared, shared_store}
use metri_engine.Mbf.Coordinator.{
  CommittedDeltaFrame, MbfWriteCoordinator, last_epoch, Transaction, candidate, commit_transaction,
}
use metri_engine.Mbf.Seal.{EngineConfig}
use metri_engine.Mbf.HotHead.{Crates, hot_head}

module _ (crates : Crates) (small_crc : (m : List ℕ) → crates.crc32 m < 2 ^ 32)
    (mac_length : (key m mac : List ℕ) → crates.hmac_sha256 key m ≡ some mac → length mac ≡ 32)
    (cfg : EngineConfig) (now_ms : ℤ) (hex_encode : Bytes → Text) (tx : Transaction) where
  abbrev commit : MbfWriteCoordinator Shared → Result ErrorCode ℕ × MbfWriteCoordinator Shared
  commit c =
      commit_transaction (shared_store crates.sha256 hex_encode) (hot_head crates cfg now_ms)
        crates.xxh64 tx c

  abbrev appended : List CommittedDeltaFrame → List CommittedDeltaFrame
  appended frames = candidate crates.xxh64 tx (last_epoch frames) frames
