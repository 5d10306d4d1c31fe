-- ===== src/Mbf/Store/Shared/Steps.antt =====
-- What one call on the shared store does to the objects.
use metri_engine.Base.{
  inl, inr, ◌≡◌, refl, sym, true, Option, none, some, List, [], ◌∷◌, ◌++◌, Text, Result, ok, err,
  get, insert, text_Eq, get-insert, arith, Bool-cases,
}
use metri_engine.Errors.{ErrorCode}
use metri_engine.Mbf.Store
use metri_engine.Mbf.Store.{
  Bytes, MbfObjectPayload, ObjectStore, InMemoryChaosS3Store, payload, precondition, compute_etag,
  put_after,
}
use metri_engine.Mbf.Store.Shared.{Shared, written, shared_store, with_writes, resume, interleave}

abbrev pub Objects : Type 0
Objects = List (Text × MbfObjectPayload)

module _ (sha256 : Bytes → Bytes) (hex_encode : Bytes → Text) where
  -- every object's ETag is that of its bytes
  unfoldable pub WellTagged : Objects → Type 0
  WellTagged o =
      (k : Text) (p : MbfObjectPayload)
      → get o k ≡ some p
      → p.etag ≡ compute_etag sha256 hex_encode p.bytes

  pub insert-WellTagged :
      (o : Objects)
      → WellTagged o
      → (k : Text) (b : Bytes) → WellTagged (insert o k (payload sha256 hex_encode b))
  unfolding WellTagged
  insert-WellTagged o h k b j p e =
      ground (arith, get-insert o k (payload sha256 hex_encode b) j, h j p)

  pub written-WellTagged :
      (ws : List (Text × Bytes)) (o : Objects)
      → WellTagged o
      → WellTagged (written sha256 hex_encode ws o)
  unfolding written
  written-WellTagged [] o h = h
  written-WellTagged ((k, b) ∷ ws) o h =
      written-WellTagged ws (insert o k (payload sha256 hex_encode b)) (insert-WellTagged o h k b)

  pub written-append :
      (ws vs : List (Text × Bytes)) (o : Objects)
      → written sha256 hex_encode (ws ++ vs) o
        ≡ written sha256 hex_encode vs (written sha256 hex_encode ws o)
  unfolding written
  written-append [] vs o = refl
  written-append ((k, b) ∷ ws) vs o = written-append ws vs _

  -- A read answers with the object that is there after some puts of the others.
  abbrev pub GetFact : Objects → Text → Result ErrorCode (Option MbfObjectPayload) × Shared → Type 0
  GetFact o key (ok m, w) =
      (ws : List (Text × Bytes)) × (w.store.objects ≡ written sha256 hex_encode ws o)
      × (m ≡ get (written sha256 hex_encode ws o) key)
  GetFact o key (err e, w) =
      (ws : List (Text × Bytes)) × (w.store.objects ≡ written sha256 hex_encode ws o)

  -- A conditional put stores its bytes if its precondition holds after some puts of the others, and
  -- else leaves what the others have put.
  abbrev pub PutFact :
      Objects → Text → Bytes → Option Text → Result ErrorCode Text × Shared → Type 0
  PutFact o key b etag (ok tag, w) =
      (ws : List (Text × Bytes)) × (precondition (get (written sha256 hex_encode ws o) key) etag
        ≡ true)
      × (w.store.objects
          ≡ insert (written sha256 hex_encode ws o) key (payload sha256 hex_encode b))
  PutFact o key b etag (err e, w) =
      (ws : List (Text × Bytes)) × (w.store.objects ≡ written sha256 hex_encode ws o)

  get_at :
      (key : Text) (schedule : List (List (Text × Bytes))) (s : InMemoryChaosS3Store)
      → GetFact s.objects key (interleave sha256 hex_encode (Store.get_object key) schedule s)
  unfolding Store.get_object written
  get_at key [] s = ([], refl, refl)
  get_at key (ws ∷ later) s = (ws, refl, refl)

  pub get_fact :
      (key : Text) (w : Shared)
      → GetFact w.store.objects key ((shared_store sha256 hex_encode).get_object key w)
  get_fact key w = get_at key w.schedule w.store

  store_put :
      (winner : Option Bytes) (ws : List (Text × Bytes)) (later : List (List (Text × Bytes)))
      (key : Text) (b : Bytes) (etag : Option Text) (s : InMemoryChaosS3Store)
      → PutFact s.objects key b etag (
          resume sha256 hex_encode later
            (put_after sha256 hex_encode winner key b etag (with_writes sha256 hex_encode ws s)))
  unfolding written
  store_put (some v) ws later key b etag s =
      (ws ++ ((key, v) ∷ []), sym (written-append ws ((key, v) ∷ []) s.objects))
  store_put none ws later key b etag s =
      elim (Bool-cases (precondition (get (written sha256 hex_encode ws s.objects) key) etag)) [
        | inl h ↦ rw h (ws, h, refl)
        | inr h ↦ rw h (ws, refl)
      ]

  put_at :
      (key : Text) (b : Bytes) (etag : Option Text) (schedule : List (List (Text × Bytes)))
      (s : InMemoryChaosS3Store)
      → PutFact s.objects key b etag (
          interleave sha256 hex_encode (Store.put_if_match sha256 hex_encode key b etag) schedule s)
  unfolding Store.put_if_match written
  put_at key b etag [] s = store_put (get s.injected_winners key) [] [] key b etag s
  put_at key b etag (ws ∷ later) s = store_put (get s.injected_winners key) ws later key b etag s

  pub put_fact :
      (key : Text) (b : Bytes) (etag : Option Text) (w : Shared)
      → PutFact w.store.objects key b etag
          ((shared_store sha256 hex_encode).put_if_match key b etag w)
  put_fact key b etag w = put_at key b etag w.schedule w.store
