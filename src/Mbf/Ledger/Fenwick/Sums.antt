-- ===== src/Mbf/Ledger/Fenwick/Sums.antt =====
-- The tree's sums are those of the movements that were added to it.
use Prim.Native.Nat.{bit_and}
use metri_engine.Base.{
  ℕ, zero, suc, ◌+◌, ◌-◌, ◌^◌, ◌≤◌, ◌<◌, ◌≡◌, inl, inr, refl, sym, ap, ◌∙◌, Bool, true, false, not,
  ◌&&◌, List, [], ◌∷◌, if◌then◌else◌, ltb, leb, nat_eq, nat_eq_iff, length, arith, Bool-cases,
}
use metri_engine.Base.Int.{ℤ, pos, ◌+ℤ◌, ◌-ℤ◌, wrap, int_laws}
use metri_engine.Base.Wrap.{wrap-add_left, wrap-add_right}
use metri_engine.Base.LowBit.{low_bit-pos, bit_and-clear}
use metri_engine.Mbf.Ledger.{FixedDecimal128}
use metri_engine.Mbf.Ledger.Fenwick.{FenwickPrefixSum128, zeros, at, add_at, sum_loop}
use metri_engine.Mbf.Ledger.Fenwick.Nodes.{low, covers, length-add_loop, at-add_loop}

-- a movement: an index and an amount
abbrev pub Movement : Type 0
Movement = ℕ × FixedDecimal128

unfoldable pub add_all : List Movement → FenwickPrefixSum128 → FenwickPrefixSum128
add_all [] fw = fw
add_all ((idx, delta) ∷ ms) fw = add_all ms (add_at idx delta fw)

-- the movements below an index
unfoldable pub total_below : List Movement → ℕ → ℤ
total_below [] q = pos 0
total_below ((idx, delta) ∷ ms) q = (if ltb idx q then delta else pos 0) +ℤ total_below ms q

-- the movements from an index to another
unfoldable pub total_within : List Movement → ℕ → ℕ → ℤ
total_within [] start end = pos 0
total_within ((idx, delta) ∷ ms) start end =
    (if leb start idx && leb idx end then delta else pos 0) +ℤ total_within ms start end

-- each value at its place in the slice
unfoldable pub positions : ℕ → List FixedDecimal128 → List Movement
positions i [] = []
positions i (v ∷ vs) = (i, v) ∷ positions (suc i) vs

-- Every node holds the sum over its range; `sums q` is the sum below index `q`.
unfoldable pub IsTree : List ℤ → (ℕ → ℤ) → Type 0
IsTree tree sums =
    (j : ℕ) → 0 < j → j < length tree → at tree j ≡ wrap 128 (sums j -ℤ sums (j - low j))

at-zeros : (n j : ℕ) → at (zeros n) j ≡ pos 0
unfolding at zeros
at-zeros zero j = refl
at-zeros (suc n) zero = refl
at-zeros (suc n) (suc j) = at-zeros n j

pub length-zeros : (n : ℕ) → length (zeros n) ≡ n
unfolding zeros
length-zeros zero = refl
length-zeros (suc n) = ap suc (length-zeros n)

-- the empty tree
pub zeros-IsTree : (n : ℕ) → IsTree (zeros n) (λ q. pos 0)
unfolding IsTree wrap ◌-ℤ◌
zeros-IsTree n j pos_j lt = at-zeros n j

covers_iff :
    (idx j : ℕ) → (leb (idx + 1) j && covers (idx + 1) j) ≡ (ltb idx j && not (ltb idx (j - low j)))
covers_iff idx j = ground arith

-- what an update adds to a range that ends below `j`, by whether the ends are above the index
moved_by :
    (d a b : ℤ) (top bottom : Bool)
    → (bottom ≡ true → top ≡ true)
    → (if top && not bottom then wrap 128 (wrap 128 (a -ℤ b) +ℤ d) else wrap 128 (a -ℤ b))
      ≡ wrap 128 (((if top then d else pos 0) +ℤ a) -ℤ ((if bottom then d else pos 0) +ℤ b))
moved_by d a b true true h = ap (wrap 128) (omega int_laws)
moved_by d a b true false h = wrap-add_left (a -ℤ b) d ∙ ap (wrap 128) (omega int_laws)
moved_by d a b false true h = absurd (contradiction (h refl))
  where
    contradiction : false ≡ true → ⊥
    contradiction e = cc
moved_by d a b false false h = ap (wrap 128) (omega int_laws)

moved :
    (idx j : ℕ) (d a b : ℤ)
    → 0 < j
    → (if leb (idx + 1) j && covers (idx + 1) j
        then wrap 128 (wrap 128 (a -ℤ b) +ℤ d)
        else wrap 128 (a -ℤ b))
      ≡ wrap 128 (
          ((if ltb idx j then d else pos 0) +ℤ a)
          -ℤ ((if ltb idx (j - low j) then d else pos 0) +ℤ b))
moved idx j d a b pos_j =
    ap (λ t. if t then wrap 128 (wrap 128 (a -ℤ b) +ℤ d) else wrap 128 (a -ℤ b)) (covers_iff idx j)
    ∙ moved_by d a b (ltb idx j) (ltb idx (j - low j)) (λ h. ground arith)

pub add_at-IsTree :
    (idx : ℕ) (d : FixedDecimal128) (fw : FenwickPrefixSum128) (sums : ℕ → ℤ)
    → length fw.tree ≤ 2 ^ 63
    → idx + 1 < length fw.tree
    → IsTree fw.tree sums
    → IsTree (add_at idx d fw).tree (λ q. (if ltb idx q then d else pos 0) +ℤ sums q)
unfolding IsTree add_at
add_at-IsTree idx d fw sums b within h j pos_j lt =
    at-add_loop (length fw.tree) (idx + 1) (idx + 1) d fw.tree j (omega arith)
      (self (idx + 1) (omega arith)) b (omega arith) there
    ∙ ap (λ x. if leb (idx + 1) j && covers (idx + 1) j then wrap 128 (x +ℤ d) else x)
        (h j pos_j there)
    ∙ moved idx j d (sums j) (sums (j - low j)) pos_j
  where
    there : j < length fw.tree
    there = omega (arith, lt, length-add_loop (length fw.tree) (idx + 1) d fw.tree)

    self : (p : ℕ) → 0 < p → covers p p ≡ true
    self p pos_p = ground (arith, low_bit-pos 64 p)

none_left :
    (i : ℕ) (a : ℤ) (sums : ℕ → ℤ) → sums 0 ≡ pos 0 → i ≡ 0 → wrap 128 a ≡ wrap 128 (a +ℤ sums i)
none_left i a sums z e = ap (wrap 128) (same a ∙ ap (λ x. a +ℤ x) (sym (ap sums e ∙ z)))
  where
    same : (a : ℤ) → a ≡ a +ℤ pos 0
    same a = omega int_laws

pub sum_loop-sums :
    (fuel i : ℕ) (tree : List ℤ) (sums : ℕ → ℤ) (a : ℤ)
    → IsTree tree sums
    → sums 0 ≡ pos 0
    → length tree ≤ 2 ^ 63
    → i < length tree
    → i ≤ fuel
    → sum_loop fuel i tree (wrap 128 a) ≡ wrap 128 (a +ℤ sums i)
unfolding sum_loop IsTree
sum_loop-sums zero i tree sums a h z b lt f = none_left i a sums z (omega arith)
sum_loop-sums (suc fuel) i tree sums a h z b lt f = elim (Bool-cases (nat_eq i 0)) [
  | inl e ↦ rw e (none_left i a sums z ((nat_eq_iff i 0).0 e))
  | inr e ↦
      let pos_i : 0 < i = ground (arith, e) in
      let down : bit_and i (i - 1) ≡ i - low i = bit_and-clear 64 i pos_i (omega arith) in
      rw (e, down, h i pos_i lt, wrap-add_left, wrap-add_right)
        (sum_loop-sums fuel (i - low i) tree sums (a +ℤ (sums i -ℤ sums (i - low i))) h z b
            (omega arith) (omega (arith, low_bit-pos 64 i))
          ∙ ap (wrap 128) (omega int_laws))
]
