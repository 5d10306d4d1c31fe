-- ===== src/Examples/Mbf.antt =====
-- The write coordinator at concrete inputs.
use mathlib.Core.List.{Memᴰ}
use metri_engine.Base.{
  zero, suc, ◌*◌, map, ℕ, ◌+◌, ◌≡◌, refl, inl, true, List, [], ◌∷◌, Text, codes, text_eq, ok, get,
  insert, length, text_Eq,
}
use metri_engine.Mbf.Store
use metri_engine.Mbf.Store.{Bytes, InMemoryChaosS3Store, compute_etag}
use metri_engine.Mbf.Store.Shared.{Shared, shared_store, written}
use metri_engine.Mbf.Signature.{conflicts_with, from_keys, bloom_loop}
use metri_engine.Mbf.Signature.Bloom.{shared_key_conflicts}
use metri_engine.Mbf.Coordinator.{
  HotHead, MbfWriteCoordinator, Transaction, CommittedDeltaFrame, commit_transaction, last_epoch,
  next_epoch, s3_hot_head_key, rounds, attempt, any_conflict,
}

-- a hash: the length of the text
abbrev hash : Text → ℕ → ℕ
hash t seed = length t + seed

shared_key_conflicts_example :
    conflicts_with
      (from_keys hash 3 4 (codes "ab" ∷ codes "c" ∷ []) (codes "d" ∷ []))
      (from_keys hash 3 4 [] (codes "c" ∷ []))
    ≡ true
shared_key_conflicts_example =
    shared_key_conflicts hash (codes "c") (codes "ab" ∷ codes "c" ∷ []) (codes "d" ∷ []) 3 4 []
      (codes "c" ∷ []) 3 4 (inl (Memᴰ.tail (Memᴰ.head refl))) (Memᴰ.head refl)

-- Byte sequences as numbers, one to one, in place of their SHA-256.
abbrev shifted : ℕ → ℕ → ℕ
shifted zero m = 2 * m + 1
shifted (suc x) m = 2 * shifted x m

abbrev number : Bytes → ℕ
number [] = 0
number (b ∷ bs) = shifted b (number bs)

abbrev sha256 : Bytes → Bytes
sha256 b = number b ∷ []

-- an object is here the epochs of its frames
abbrev frame : ℕ → CommittedDeltaFrame
frame n = record { signature = from_keys hash 0 n [] []; payload_json = [] }

abbrev epochs : HotHead
epochs = record {
  encode = λ tenant cell frames. map (λ f. f.signature.new_epoch_id) frames;
  decode = λ bytes. ok (map frame bytes);
}

abbrev tx : Transaction
tx = record {
  tenant_id = codes "acme";
  cell_id = 2;
  read_keys = codes "ab" ∷ [];
  write_keys = codes "c" ∷ [];
  payload = codes "{}";
}

abbrev empty_store : InMemoryChaosS3Store
empty_store = record {
  objects = [];
  injected_winners = [];
  gets_count = 0;
  puts_count = 0;
  range_gets_count = 0;
  not_modified_304_hits = 0;
  conflict_412_count = 0;
}

-- another instance puts an object between the read and the put
abbrev coordinator : List (List (Text × Bytes)) → MbfWriteCoordinator Shared
coordinator schedule = record {
  store = record { store = empty_store; schedule = schedule };
  total_commits = 0;
  total_auto_rebases = 0;
}

abbrev raced : MbfWriteCoordinator Shared
raced = coordinator ([] ∷ ((s3_hot_head_key (codes "acme") 2, 1 ∷ []) ∷ []) ∷ [])

-- the transaction is rebased on that object
raced_commits : (commit_transaction (shared_store sha256 (λ b. b)) epochs hash tx raced).0 ≡ ok 2
unfolding commit_transaction Store.get_object Store.put_if_match written get insert text_eq rounds
    attempt any_conflict conflicts_with from_keys bloom_loop last_epoch next_epoch s3_hot_head_key
    compute_etag
raced_commits = refl
