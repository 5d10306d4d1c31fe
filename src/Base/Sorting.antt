-- ===== src/Base/Sorting.antt =====
-- `sort_by(|a, b| a.0.cmp(b.0))` of the entries of a map by their keys, and maps without repeated
-- keys, whose entries may be in any order.
use mathlib.Core.Path.{◌≡◌, refl, ap, ◌∙◌}
use mathlib.Core.Option.{Option, none, some}
use mathlib.Core.List.{List, [], ◌∷◌}
use mathlib.Core.Bool.{Bool}
use native.Mathlib.Omega.{arith}
use metri_engine.Base.Tests.{HasEq, ◌==◌, if◌then◌else◌, Text, text_Eq, text_eq_iff, Bool-cases}
use Prim.Native.Nat.{ℕ, zero, suc}
use mathlib.Core.Logic.{inl, inr}
use metri_engine.Base.Lists.{length, take}
use metri_engine.Base.Dict.{get, insert, get-insert}
use metri_engine.Base.BigEndian.{memcmp_lt}

abbrev pub or_get {ℓ} : {V : Type ℓ} → Option V → Option V → Option V
or_get (some v) o = some v
or_get none o = o

-- every element satisfies P
abbrev pub All {ℓ κ} : {A : Type ℓ} → (A → Type κ) → List A → Type κ
All P [] = Unit
All P (x ∷ xs) = P x × All P xs

-- no key occurs twice
module _ {ℓ κ} {K : Type κ} {V : Type ℓ} ⦃e : HasEq K⦄ where
  abbrev pub IsMap : List (K × V) → Type ℓ
  IsMap [] = Unit
  IsMap ((k, v) ∷ m) = (get m k ≡ none) × IsMap m

  -- map.insert of one entry after the other
  unfoldable pub insert_all : List (K × V) → List (K × V) → List (K × V)
  insert_all [] m = m
  insert_all ((k, v) ∷ es) m = insert_all es (insert m k v)

  pub get-insert_all :
      (es m : List (K × V)) (k : K)
      → IsMap es
      → get (insert_all es m) k ≡ or_get (get es k) (get m k)
  unfolding get insert_all
  get-insert_all [] m k h = refl
  get-insert_all ((j, v) ∷ es) m k (new, h) =
      ground (arith, get-insert_all es (insert m j v) k h, get-insert m j v k, e.eqb_iff j k, new)

module _ {ℓ} {V : Type ℓ} where
  unfoldable pub place : Text × V → List (Text × V) → List (Text × V)
  place (k, v) [] = (k, v) ∷ []
  place (k, v) ((j, w) ∷ es) =
      if memcmp_lt j k then (j, w) ∷ place (k, v) es else (k, v) ∷ (j, w) ∷ es

  unfoldable pub sort_by_key : List (Text × V) → List (Text × V)
  sort_by_key [] = []
  sort_by_key (entry ∷ es) = place entry (sort_by_key es)

  get-place :
      (k : Text) (v : V) (es : List (Text × V)) (j : Text)
      → get es k ≡ none
      → get (place (k, v) es) j ≡ (if k == j then some v else get es j)
  unfolding get place
  get-place k v [] j h = refl
  get-place k v ((i, w) ∷ es) j h =
      ground (arith, text_eq_iff i k, text_eq_iff i j, text_eq_iff k j, get-place k v es j, h)

  pub get-sort_by_key :
      (es : List (Text × V)) (k : Text) → IsMap es → get (sort_by_key es) k ≡ get es k
  unfolding get sort_by_key
  get-sort_by_key [] k h = refl
  get-sort_by_key ((j, v) ∷ es) k (new, h) =
      get-place j v (sort_by_key es) k (get-sort_by_key es j h ∙ new)
      ∙ ap (λ o. if j == k then some v else o) (get-sort_by_key es k h)

  length-place :
      (entry : Text × V) (es : List (Text × V)) → length (place entry es) ≡ suc (length es)
  unfolding place
  length-place (k, v) [] = refl
  length-place (k, v) ((j, w) ∷ es) = ground (arith, length-place (k, v) es)

  pub length-sort_by_key : (es : List (Text × V)) → length (sort_by_key es) ≡ length es
  unfolding sort_by_key
  length-sort_by_key [] = refl
  length-sort_by_key (entry ∷ es) =
      length-place entry (sort_by_key es) ∙ ap suc (length-sort_by_key es)

  place-All :
      (P : Text × V → Type ℓ) (entry : Text × V) (es : List (Text × V))
      → P entry
      → All P es
      → All P (place entry es)
  unfolding place
  place-All P (k, v) [] h hs = (h, tt)
  place-All P (k, v) ((j, w) ∷ es) h (g, hs) = elim (Bool-cases (memcmp_lt j k)) [
    | inl e ↦ rw e (g, place-All P (k, v) es h hs)
    | inr e ↦ rw e (h, (g, hs))
  ]

  pub sort_by_key-All :
      (P : Text × V → Type ℓ) (es : List (Text × V)) → All P es → All P (sort_by_key es)
  unfolding sort_by_key
  sort_by_key-All P [] h = tt
  sort_by_key-All P (entry ∷ es) (h, hs) =
      place-All P entry (sort_by_key es) h (sort_by_key-All P es hs)

  place-IsMap :
      (k : Text) (v : V) (es : List (Text × V))
      → get es k ≡ none
      → IsMap es
      → IsMap (place (k, v) es)
  unfolding place get
  place-IsMap k v [] h hs = (refl, tt)
  place-IsMap k v ((j, w) ∷ es) h (new, hs) = elim (Bool-cases (memcmp_lt j k)) [
    | inl e ↦ rw e (
      get-place k v es j (ground (arith, h))
          ∙ ground (arith, text_eq_iff j k, text_eq_iff k j, h, new),
      place-IsMap k v es (ground (arith, h)) hs,
    )
    | inr e ↦ rw e (h, (new, hs))
  ]

  pub sort_by_key-IsMap : (es : List (Text × V)) → IsMap es → IsMap (sort_by_key es)
  unfolding sort_by_key
  sort_by_key-IsMap [] h = tt
  sort_by_key-IsMap ((k, v) ∷ es) (new, h) =
      place-IsMap k v (sort_by_key es) (get-sort_by_key es k h ∙ new) (sort_by_key-IsMap es h)

-- `sort_by` with the test that says what comes first
module _ {ℓ} {A : Type ℓ} where
  unfoldable pub insert_by : (A → A → Bool) → A → List A → List A
  insert_by before x [] = x ∷ []
  insert_by before x (y ∷ ys) = if before y x then y ∷ insert_by before x ys else x ∷ y ∷ ys

  unfoldable pub sort_by : (A → A → Bool) → List A → List A
  sort_by before [] = []
  sort_by before (x ∷ xs) = insert_by before x (sort_by before xs)

  length-insert_by :
      (before : A → A → Bool) (x : A) (ys : List A)
      → length (insert_by before x ys) ≡ suc (length ys)
  unfolding insert_by
  length-insert_by before x [] = refl
  length-insert_by before x (y ∷ ys) = ground (arith, length-insert_by before x ys)

  pub length-sort_by :
      (before : A → A → Bool) (xs : List A) → length (sort_by before xs) ≡ length xs
  unfolding sort_by
  length-sort_by before [] = refl
  length-sort_by before (x ∷ xs) =
      length-insert_by before x (sort_by before xs) ∙ ap suc (length-sort_by before xs)

  insert_by-All :
      (P : A → Type 0) (before : A → A → Bool) (x : A) (ys : List A)
      → P x
      → All P ys
      → All P (insert_by before x ys)
  unfolding insert_by
  insert_by-All P before x [] h hs = (h, tt)
  insert_by-All P before x (y ∷ ys) h (g, hs) = elim (Bool-cases (before y x)) [
    | inl e ↦ rw e (g, insert_by-All P before x ys h hs)
    | inr e ↦ rw e (h, (g, hs))
  ]

  pub sort_by-All :
      (P : A → Type 0) (before : A → A → Bool) (xs : List A) → All P xs → All P (sort_by before xs)
  unfolding sort_by
  sort_by-All P before [] h = tt
  sort_by-All P before (x ∷ xs) (h, hs) =
      insert_by-All P before x (sort_by before xs) h (sort_by-All P before xs hs)

  insert_by_All :
      (P : A → Type 0) (before : A → A → Bool) (x : A) (ys : List A)
      → All P (insert_by before x ys)
      → P x × All P ys
  unfolding insert_by
  insert_by_All P before x [] (h, hs) = (h, tt)
  insert_by_All P before x (y ∷ ys) hs = elim (Bool-cases (before y x)) [
    | inl e ↦
        let (g, rest) : P y × All P (insert_by before x ys) = rw e at hs in
        let (h, others) = insert_by_All P before x ys rest in (h, (g, others))
    | inr e ↦ rw e at hs
  ]

  -- nothing is lost in sorting
  pub sort_by_All :
      (P : A → Type 0) (before : A → A → Bool) (xs : List A) → All P (sort_by before xs) → All P xs
  unfolding sort_by
  sort_by_All P before [] h = tt
  sort_by_All P before (x ∷ xs) hs =
      let (h, rest) = insert_by_All P before x (sort_by before xs) hs in
      (h, sort_by_All P before xs rest)

  pub take-All : (P : A → Type 0) (n : ℕ) (xs : List A) → All P xs → All P (take n xs)
  take-All P zero xs h = tt
  take-All P (suc n) [] h = tt
  take-All P (suc n) (x ∷ xs) (h, hs) = (h, take-All P n xs hs)
