-- ===== src/Mbf/Coordinator/Alone.antt =====
-- `commit_transaction` on a store that nobody else writes to.
use metri_engine.Base.{
  subst, eqb_refl, ℕ, suc, ◌≡◌, refl, inl, inr, true, Option, none, some, List, [], Text, ok, get,
  insert, text_Eq, Option-cases,
}
use metri_engine.Mbf.Store
use metri_engine.Mbf.Store.{Bytes, MbfObjectPayload, InMemoryChaosS3Store, precondition}
use metri_engine.Mbf.Store.Shared.{Shared, shared_store}
use metri_engine.Mbf.Coordinator.{
  CommittedDeltaFrame, HotHead, MbfWriteCoordinator, last_epoch, next_epoch, Transaction, tx_key,
  commit_transaction, rounds, attempt, serialized,
}
use metri_engine.Mbf.Coordinator.Rounds.{Holds}

module _ (sha256 : Bytes → Bytes) (hex_encode : Bytes → Text) (hot_head : HotHead)
    (xxh64 : Text → ℕ → ℕ) (tx : Transaction) where
  put_alone :
      (key : Text) (b : Bytes) (etag : Option Text) (s : InMemoryChaosS3Store)
      → get s.injected_winners key ≡ none
      → precondition (get s.objects key) etag ≡ true
      → (Store.put_if_match sha256 hex_encode key b etag s).0
        ≡ ok (Store.compute_etag sha256 hex_encode b)
  unfolding Store.put_if_match
  put_alone key b etag s quiet pre = rw (quiet, pre) refl

  -- one round, when the put is answered by `ok`
  round_alone :
      (base left : ℕ) (frames : List CommittedDeltaFrame) (etag : Option Text)
      (c : MbfWriteCoordinator Shared)
      → c.store.schedule ≡ []
      → get c.store.store.injected_winners (tx_key tx) ≡ none
      → precondition (get c.store.store.objects (tx_key tx)) etag ≡ true
      → (rounds (shared_store sha256 hex_encode) hot_head xxh64 tx (suc left) base frames etag c).0
        ≡ ok (next_epoch frames)
  unfolding rounds attempt Store.put_if_match
  round_alone base left frames etag c e quiet pre = rw (e, quiet, pre) refl

  -- A commit that nobody interferes with succeeds at its first round, with the epoch after the last
  -- one of the frames that the object holds.
  pub commit_alone :
      (frames : List CommittedDeltaFrame) (c : MbfWriteCoordinator Shared)
      → c.store.schedule ≡ []
      → get c.store.store.injected_winners (tx_key tx) ≡ none
      → Holds hot_head (get c.store.store.objects (tx_key tx)) frames
      → (commit_transaction (shared_store sha256 hex_encode) hot_head xxh64 tx c).0
        ≡ ok (next_epoch frames)
  unfolding commit_transaction Store.get_object
  commit_alone frames c e quiet holds =
      elim (Option-cases (get c.store.store.objects (tx_key tx))) [
        | inl h ↦
            rw (e, h, subst (λ o. Holds hot_head o frames) h holds)
              (round_alone (last_epoch []) 7 [] none _ refl quiet (rw h refl))
        | inr (obj, h) ↦
            rw (e, h, subst (λ o. Holds hot_head o frames) h holds)
              (round_alone (last_epoch frames) 7 frames (some obj.etag) _ refl quiet
                (rw h (eqb_refl obj.etag)))
      ]

  abbrev pub put_candidate :
      List CommittedDeltaFrame → MbfWriteCoordinator Shared → List (Text × MbfObjectPayload)
  put_candidate frames c =
      insert c.store.store.objects (tx_key tx)
        (Store.payload sha256 hex_encode (serialized hot_head xxh64 tx (last_epoch frames) frames))

  round_alone_puts :
      (left : ℕ) (frames : List CommittedDeltaFrame) (etag : Option Text)
      (c : MbfWriteCoordinator Shared)
      → c.store.schedule ≡ []
      → get c.store.store.injected_winners (tx_key tx) ≡ none
      → precondition (get c.store.store.objects (tx_key tx)) etag ≡ true
      → (rounds
          (shared_store sha256 hex_encode)
          hot_head
          xxh64
          tx
          (suc left)
          (last_epoch frames)
          frames
          etag
          c).1.store.store.objects
        ≡ put_candidate frames c
  unfolding rounds attempt Store.put_if_match
  round_alone_puts left frames etag c e quiet pre = rw (e, quiet, pre) refl

  pub commit_alone_puts :
      (frames : List CommittedDeltaFrame) (c : MbfWriteCoordinator Shared)
      → c.store.schedule ≡ []
      → get c.store.store.injected_winners (tx_key tx) ≡ none
      → Holds hot_head (get c.store.store.objects (tx_key tx)) frames
      → (commit_transaction
          (shared_store sha256 hex_encode)
          hot_head
          xxh64
          tx
          c).1.store.store.objects
        ≡ put_candidate frames c
  unfolding commit_transaction Store.get_object
  commit_alone_puts frames c e quiet holds =
      elim (Option-cases (get c.store.store.objects (tx_key tx))) [
        | inl h ↦
            rw (e, h, subst (λ o. Holds hot_head o frames) h holds)
              (round_alone_puts 7 [] none _ refl quiet (rw h refl))
        | inr (obj, h) ↦
            rw (e, h, subst (λ o. Holds hot_head o frames) h holds)
              (round_alone_puts 7 frames (some obj.etag) _ refl quiet (rw h (eqb_refl obj.etag)))
      ]
