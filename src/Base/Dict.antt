-- ===== src/Base/Dict.antt =====
-- Rust's `HashMap` as an association list. The order of a list is the unspecified order in which
-- the map is iterated, so what is proved of every list holds for every order.
use mathlib.Core.Path.{◌≡◌, refl, subst}
use mathlib.Core.Logic.{inl, inr}
use mathlib.Core.Option.{Option, none, some}
use mathlib.Core.List.{List, [], ◌∷◌}
use native.Mathlib.Omega.{arith}
use metri_engine.Base.Tests.{HasEq, ◌==◌, if◌then◌else◌, Bool-cases}

module _ {ℓ κ} {K : Type κ} {V : Type ℓ} ⦃e : HasEq K⦄ where
  -- map.get(k)
  unfoldable pub get : List (K × V) → K → Option V
  get [] k = none
  get ((j, v) ∷ m) k = if j == k then some v else get m k

  -- map.insert(k, v)
  unfoldable pub insert : List (K × V) → K → V → List (K × V)
  insert [] k v = (k, v) ∷ []
  insert ((j, old) ∷ rest) k new = if j == k then (k, new) ∷ rest else (j, old) ∷ insert rest k new

  pub get-insert :
      (m : List (K × V)) (k : K) (v : V) (j : K)
      → get (insert m k v) j ≡ (if k == j then some v else get m j)
  unfolding get insert
  get-insert [] k v j = refl
  get-insert ((i, w) ∷ m) k v j =
      ground (arith, e.eqb_iff k j, e.eqb_iff i k, e.eqb_iff i j, get-insert m k v j)

  -- map.remove(k)
  unfoldable pub remove : List (K × V) → K → List (K × V)
  remove [] k = []
  remove ((j, v) ∷ rest) k =
      let others = remove rest k in if j == k then others else (j, v) ∷ others

  pub get-remove :
      (m : List (K × V)) (k j : K) → get (remove m k) j ≡ (if k == j then none else get m j)
  unfolding get remove
  get-remove [] k j = ground arith
  get-remove ((i, w) ∷ m) k j =
      ground (arith, e.eqb_iff k j, e.eqb_iff i k, e.eqb_iff i j, get-remove m k j)

  -- every entry satisfies P
  abbrev pub Holds {μ} : (K → V → Type μ) → List (K × V) → Type (κ ⊔ ℓ ⊔ μ)
  Holds P m = (k : K) (v : V) → get m k ≡ some v → P k v

  pub insert-Holds {μ} :
      (P : K → V → Type μ) (m : List (K × V)) (k : K) (v : V)
      → P k v
      → Holds P m
      → Holds P (insert m k v)
  insert-Holds P m k v p h j w found = elim (Bool-cases (k == j)) [
    | inl q ↦
        subst (λ i. P i w) ((e.eqb_iff k j).0 q)
          (subst (P k) (same (rw (get-insert m k v j, q) at found)) p)
    | inr q ↦ h j w (rw (get-insert m k v j, q) at found)
  ]
    where
      same : {x y : V} → some x ≡ some y → x ≡ y
      same f = cc

  pub remove-Holds {μ} :
      (P : K → V → Type μ) (m : List (K × V)) (k : K) → Holds P m → Holds P (remove m k)
  remove-Holds P m k h j w found = elim (Bool-cases (k == j)) [
    | inl q ↦ absurd (missing (rw (get-remove m k j, q) at found))
    | inr q ↦ h j w (rw (get-remove m k j, q) at found)
  ]
    where
      missing : {y : V} → none ≡ some y → ⊥
      missing f = cc
