-- ===== src/Mbf/Coordinator/Rounds.antt =====
-- What one round of `commit_transaction` does to the objects of a store that others write to as well.
use mathlib.Core.List.{Memᴰ}
use metri_engine.Base.{
  ℕ, ◌<◌, lt→ltb, ◌≡◌, refl, sym, ◌∙◌, ap, subst, ◌⊎◌, inl, inr, Bool, true, false, ◌&&◌, Option,
  none, some, List, [], ◌∷◌, ◌++◌, Text, Result, ok, err, get, insert, text_Eq, text_eq_iff, arith,
  Bool-cases,
}
use metri_engine.Errors.{ErrorCode}
use metri_engine.Mbf.Store.{Bytes, MbfObjectPayload, payload, precondition, compute_etag}
use metri_engine.Mbf.Store.Shared.{Shared, written, shared_store}
use metri_engine.Mbf.Store.Shared.Steps.{
  Objects, WellTagged, written-WellTagged, written-append, GetFact, PutFact, get_fact,
}
use metri_engine.Mbf.Signature.{from_keys, conflicts_with}
use metri_engine.Mbf.Coordinator.{
  CommittedDeltaFrame, HotHead, MbfWriteCoordinator, last_epoch, next_epoch, is_cas_conflict,
  Transaction, any_conflict, Round, done, rebased, tx_key, signed, serialized, inspect, refetched,
  on_put,
}

-- The frames of an object, none if there is no object.
abbrev pub Holds : HotHead → Option MbfObjectPayload → List CommittedDeltaFrame → Type 0
Holds hot_head none frames = frames ≡ []
Holds hot_head (some obj) frames = hot_head.decode obj.bytes ≡ ok frames

module _ (sha256 : Bytes → Bytes) (hex_encode : Bytes → Text) (hot_head : HotHead)
    (xxh64 : Text → ℕ → ℕ) (tx : Transaction) where
  -- The frames and the ETag were read from some object.
  unfoldable pub IsRead : List CommittedDeltaFrame → Option Text → Type 0
  IsRead frames none = frames ≡ []
  IsRead frames (some etag) =
      (bytes : Bytes) × (hot_head.decode bytes ≡ ok frames)
      × (compute_etag sha256 hex_encode bytes ≡ etag)

  -- Two byte sequences with one ETag are the same.
  abbrev pub Distinguishes : Type 0
  Distinguishes =
      (a b : Bytes) → compute_etag sha256 hex_encode a ≡ compute_etag sha256 hex_encode b → a ≡ b

  -- the precondition of the put: what is there now is what was read
  read_again :
      (o : Option MbfObjectPayload) (frames : List CommittedDeltaFrame) (etag : Option Text)
      → Distinguishes
      → ((p : MbfObjectPayload) → o ≡ some p → p.etag ≡ compute_etag sha256 hex_encode p.bytes)
      → IsRead frames etag
      → precondition o etag ≡ true
      → Holds hot_head o frames
  unfolding IsRead
  read_again none frames none d t r h = r
  read_again none frames (some e) d t r h = cc
  read_again (some p) frames none d t r h = cc
  read_again (some p) frames (some e) d t (bytes, decoded, tagged) h =
      subst (λ b. hot_head.decode b ≡ ok frames)
        (d bytes p.bytes (tagged ∙ sym ((text_eq_iff p.etag e).0 h) ∙ t p refl)) decoded

  -- no frame newer than the base conflicts with the transaction, and none is newer if the last is not
  abbrev pub NoneMissed : ℕ → List CommittedDeltaFrame → Type 0
  NoneMissed base frames =
      (base ≡ last_epoch frames)
      ⊎ ((f : CommittedDeltaFrame)
          → Memᴰ f frames
          → base < f.signature.new_epoch_id
          → conflicts_with (signed xxh64 tx base (next_epoch frames)) f.signature ≡ false)

  abbrev after_puts : List (Text × Bytes) → Objects → Objects
  after_puts ws o = written sha256 hex_encode ws o

  -- From the objects `o`, the puts `ws` of others led to objects where the key holds `frames`; the
  -- transaction put these with one frame more, of the given epoch.
  abbrev pub Appended :
      Objects → ℕ → List (Text × Bytes) → List CommittedDeltaFrame → ℕ → Objects → Type 0
  Appended o base ws frames epoch after =
      Holds hot_head (get (written sha256 hex_encode ws o) (tx_key tx)) frames
      × (epoch ≡ next_epoch frames)
      × (after
          ≡ insert (written sha256 hex_encode ws o) (tx_key tx)
              (payload sha256 hex_encode (serialized hot_head xxh64 tx base frames)))
      × NoneMissed base frames

  abbrev pub Explained : Objects → ℕ → Result ErrorCode ℕ × MbfWriteCoordinator Shared → Type 0
  Explained o base (ok epoch, c) =
      (ws : List (Text × Bytes)) × (frames : List CommittedDeltaFrame) × Appended o base ws frames
        epoch c.store.store.objects
  Explained o base (err e, c) =
      (ws : List (Text × Bytes)) × (c.store.store.objects ≡ written sha256 hex_encode ws o)

  abbrev pub ExplainedRound : Objects → ℕ → Round Shared → Type 0
  ExplainedRound o base (done answer c) = Explained o base (answer, c)
  ExplainedRound o base (rebased frames etag c) =
      (ws : List (Text × Bytes)) × (c.store.store.objects ≡ written sha256 hex_encode ws o)
      × IsRead frames etag
      × NoneMissed base frames

  -- the loop over the winner's frames; the epoch of the transaction does not matter to it
  none_missed :
      (base m n : ℕ) (frames : List CommittedDeltaFrame)
      → any_conflict (signed xxh64 tx base m) base frames ≡ false
      → (f : CommittedDeltaFrame) → Memᴰ f frames
      → base < f.signature.new_epoch_id
      → conflicts_with (signed xxh64 tx base n) f.signature ≡ false
  unfolding any_conflict from_keys conflicts_with
  none_missed base m n [] h f i newer = elim i [ ]
  none_missed base m n (g ∷ fs) h f (Memᴰ.head e) newer = rw e (
      ground
        (arith, lt→ltb base f.signature.new_epoch_id newer, ap (λ x. x.signature.new_epoch_id) e))
  none_missed base m n (g ∷ fs) h f (Memᴰ.tail i) newer =
      none_missed base m n fs (ground arith) f i newer

  pub later :
      (ws : List (Text × Bytes)) (o : Objects) (base : ℕ)
      (r : Result ErrorCode ℕ × MbfWriteCoordinator Shared)
      → Explained (written sha256 hex_encode ws o) base r
      → Explained o base r
  later ws o base (ok epoch, c) (vs, frames, h) =
      (ws ++ vs, frames, rw (written-append sha256 hex_encode ws vs o) h)
  later ws o base (err e, c) (vs, h) = (ws ++ vs, rw (written-append sha256 hex_encode ws vs o) h)

  inspect-Explained :
      (base m : ℕ) (bytes : Bytes) (r : Result ErrorCode (List CommittedDeltaFrame))
      → hot_head.decode bytes ≡ r
      → (o : Objects) (ws : List (Text × Bytes)) (c : MbfWriteCoordinator Shared)
      → c.store.store.objects ≡ written sha256 hex_encode ws o
      → ExplainedRound o base (
          inspect
            (shared_store sha256 hex_encode)
            hot_head
            xxh64
            tx
            base
            (signed xxh64 tx base m)
            (compute_etag sha256 hex_encode bytes)
            r
            c)
  unfolding IsRead
  inspect-Explained base m bytes (err e) d o ws c h = (ws, h)
  inspect-Explained base m bytes (ok frames) d o ws c h =
      elim (Bool-cases (any_conflict (signed xxh64 tx base m) base frames)) [
        | inl k ↦ rw k (ws, h)
        | inr k ↦
            rw k (ws, h, (bytes, d, refl), inr (none_missed base m (next_epoch frames) frames k))
      ]

  pub chained :
      (vs ws : List (Text × Bytes)) (o p : Objects)
      → p ≡ written sha256 hex_encode ws (written sha256 hex_encode vs o)
      → p ≡ written sha256 hex_encode (vs ++ ws) o
  chained vs ws o p h = h ∙ sym (written-append sha256 hex_encode vs ws o)

  refetched-Explained :
      (base m : ℕ) (e : ErrorCode) (r : Result ErrorCode (Option MbfObjectPayload) × Shared)
      (o : Objects) (vs : List (Text × Bytes)) (c : MbfWriteCoordinator Shared)
      → WellTagged sha256 hex_encode o
      → GetFact sha256 hex_encode (written sha256 hex_encode vs o) (tx_key tx) r
      → ExplainedRound o base (
          refetched
            (shared_store sha256 hex_encode)
            hot_head
            xxh64
            tx
            base
            (signed xxh64 tx base m)
            e
            r
            c)
  unfolding WellTagged
  refetched-Explained base m e (err e', w) o vs c t (ws, h) =
      (vs ++ ws, chained vs ws o w.store.objects h)
  refetched-Explained base m e (ok none, w) o vs c t (ws, h, g) =
      (vs ++ ws, chained vs ws o w.store.objects h)
  refetched-Explained base m e (ok (some obj), w) o vs c t (ws, h, g) =
      rw
        (written-WellTagged sha256 hex_encode ws _ (written-WellTagged sha256 hex_encode vs o t)
          (tx_key tx) obj (sym g))
        (inspect-Explained base m obj.bytes (hot_head.decode obj.bytes) refl o (vs ++ ws)
          (record c { store = w }) (chained vs ws o w.store.objects h))

  pub on_put-Explained :
      Distinguishes
      → (retry : Bool) (base : ℕ) (frames : List CommittedDeltaFrame) (etag : Option Text)
        (r : Result ErrorCode Text × Shared) (o : Objects) (c : MbfWriteCoordinator Shared)
      → WellTagged sha256 hex_encode o
      → IsRead frames etag
      → NoneMissed base frames
      → PutFact sha256 hex_encode o (tx_key tx) (serialized hot_head xxh64 tx base frames) etag r
      → ExplainedRound o base
          (on_put (shared_store sha256 hex_encode) hot_head xxh64 tx retry base frames r c)
  unfolding WellTagged
  on_put-Explained d retry base frames etag (ok tag, w) o c t read missed (ws, pre, h) = (
    ws,
    frames,
    (
      read_again (get (written sha256 hex_encode ws o) (tx_key tx)) frames etag d
          (written-WellTagged sha256 hex_encode ws o t (tx_key tx)) read pre,
      refl,
      h,
      missed,
    ),
  )
  on_put-Explained d retry base frames etag (err e, w) o c t read missed (ws, h) =
      elim (Bool-cases (is_cas_conflict e && retry)) [
        | inl k ↦ rw k (
            refetched-Explained base (next_epoch frames) e
              ((shared_store sha256 hex_encode).get_object (tx_key tx) w) o ws c t
              (subst
                (λ p.
                  GetFact sha256 hex_encode p (tx_key tx)
                    ((shared_store sha256 hex_encode).get_object (tx_key tx) w))
                h (get_fact sha256 hex_encode (tx_key tx) w)))
        | inr k ↦ rw k (ws, h)
      ]
