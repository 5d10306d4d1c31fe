-- ===== src/Mbf/Store/Shared.antt =====
-- The store as one instance sees it while others write to it: a schedule gives, for each of its next
-- calls, the puts of the others that come before it (none, once the schedule is used up).
use metri_engine.Base.{Option, none, some, List, [], ◌∷◌, Text, Result, insert, text_Eq}
use metri_engine.Errors.{ErrorCode}
use metri_engine.Mbf.Store
use metri_engine.Mbf.Store.{Bytes, MbfObjectPayload, ObjectStore, InMemoryChaosS3Store, payload}
pub mod Steps

pub record Shared : Type 0 where
  pub store : InMemoryChaosS3Store
  pub schedule : List (List (Text × Bytes))

module _ (sha256 : Bytes → Bytes) (hex_encode : Bytes → Text) where
  -- the objects after the puts of the others
  unfoldable pub written :
      List (Text × Bytes) → List (Text × MbfObjectPayload) → List (Text × MbfObjectPayload)
  written [] objects = objects
  written ((k, b) ∷ ws) objects = written ws (insert objects k (payload sha256 hex_encode b))

  abbrev pub with_writes : List (Text × Bytes) → InMemoryChaosS3Store → InMemoryChaosS3Store
  with_writes ws s = record s { objects = written ws s.objects }

  abbrev pub resume :
      {A : Type 0}
      → List (List (Text × Bytes))
      → Result ErrorCode A × InMemoryChaosS3Store
      → Result ErrorCode A × Shared
  resume later (answer, s) = (answer, record { store = s; schedule = later })

  abbrev pub interleave :
      {A : Type 0}
      → (InMemoryChaosS3Store → Result ErrorCode A × InMemoryChaosS3Store)
      → List (List (Text × Bytes))
      → InMemoryChaosS3Store
      → Result ErrorCode A × Shared
  interleave op [] s = resume [] (op s)
  interleave op (ws ∷ later) s = resume later (op (with_writes ws s))

  abbrev pub shared_store : ObjectStore Shared
  shared_store = record {
    get_object = λ key w. interleave (Store.get_object key) w.schedule w.store;
    put_if_match = λ key bytes expected_etag w.
        interleave (Store.put_if_match sha256 hex_encode key bytes expected_etag) w.schedule
          w.store;
  }
