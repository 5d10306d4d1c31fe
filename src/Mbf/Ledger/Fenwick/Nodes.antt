-- ===== src/Mbf/Ledger/Fenwick/Nodes.antt =====
-- Each node of the tree holds a range of the array; which nodes an update reaches.
use Prim.Native.Nat.{bit_and}
use metri_engine.Base.{
  ℕ, zero, suc, ◌+◌, ◌-◌, ◌^◌, ◌≤◌, ◌<◌, ◌≡◌, inl, inr, refl, ap, subst, ◌∙◌, Bool, true, false,
  ◌&&◌, List, [], ◌∷◌, if◌then◌else◌, ltb, leb, nat_eq, length, set, length-set, arith, Bool-cases,
}
use metri_engine.Base.Int.{ℤ, ◌+ℤ◌, wrap}
use metri_engine.Base.LowBit.{
  low_bit, low_bit-pos, low_bit-le, low_bit-add, low_bit-double, bit_and-low_bit,
}
use metri_engine.Mbf.Ledger.Fenwick.{at, complement, add_loop}

abbrev pub low : ℕ → ℕ
low i = low_bit 64 i

-- the node `j` holds position `p`, which is counted from 1
abbrev pub covers : ℕ → ℕ → Bool
covers p j = ltb (j - low j) p && leb p j

-- one node between an index and the next that the update visits does not hold its position
between : (p i j : ℕ) → 0 < i → j < 2 ^ 63 → p ≤ i → i < j → j < i + low i → covers p j ≡ false
between p i j pos_i b le lt gt =
    ground (arith, same_low, low_bit-le 64 (j - i) (omega arith) (omega arith))
  where
    same_low : low j ≡ low (j - i)
    same_low =
        ap (low_bit 64) (rejoin lt)
        ∙ low_bit-add 64 i (j - i) (omega arith) (omega arith) (omega arith)
      where
        rejoin : i < j → j ≡ i + (j - i)
        rejoin h = omega arith

at-set :
    (tree : List ℤ) (i j : ℕ) (v : ℤ)
    → i < length tree
    → at (set tree i v) j ≡ (if nat_eq i j then v else at tree j)
unfolding at
at-set [] i j v h = absurd (omega arith)
at-set (x ∷ tree) zero zero v h = refl
at-set (x ∷ tree) zero (suc j) v h = ground arith
at-set (x ∷ tree) (suc i) zero v h = ground arith
at-set (x ∷ tree) (suc i) (suc j) v h = ground (arith, at-set tree i j v (omega arith))

next_index : (i : ℕ) → 0 < i → i < 2 ^ 63 → i + bit_and i (complement i) ≡ i + low i
next_index i p h =
    ap (λ k. i + k) (bit_and-low_bit 64 i (complement i) p (omega arith) (omega arith))

pub length-add_loop :
    (fuel i : ℕ) (d : ℤ) (tree : List ℤ) → length (add_loop fuel i d tree) ≡ length tree
unfolding add_loop
length-add_loop zero i d tree = refl
length-add_loop (suc fuel) i d tree = elim (Bool-cases (ltb i (length tree))) [
  | inl e ↦ rw e (
      length-add_loop fuel (i + bit_and i (complement i)) d (set tree i (wrap 128 (at tree i +ℤ d)))
      ∙ length-set tree i (wrap 128 (at tree i +ℤ d)))
  | inr e ↦ rw e refl
]

next_covers : (p i : ℕ) → 0 < i → i < 2 ^ 63 → covers p i ≡ true → covers p (i + low i) ≡ true
next_covers p i pos_i b c = ground (
  arith,
  low_bit-double 64 i pos_i (omega (arith, low_bit-le 64 i pos_i (omega arith))),
  low_bit-pos 64 i,
)

-- one round, at node `j`: what the later rounds make of it, `r`, from what this one did, `y`
round_at :
    (i j n : ℕ) (cov : Bool) (x y r v w wy : ℤ)
    → r ≡ (if leb n j && cov then wy else y)
    → y ≡ (if nat_eq i j then v else x)
    → i < n
    → (i < j → j < n → cov ≡ false)
    → (i ≡ j → (cov ≡ true) × (v ≡ w))
    → (y ≡ x → wy ≡ w)
    → r ≡ (if leb i j && cov then w else x)
round_at i j n cov x y r v w wy later now lt mid self other = ground arith

-- An update of position `p`, from a node that holds it on, changes the nodes that hold it.
pub at-add_loop :
    (fuel i p : ℕ) (d : ℤ) (tree : List ℤ) (j : ℕ)
    → 0 < i
    → covers p i ≡ true
    → length tree ≤ 2 ^ 63
    → length tree ≤ i + fuel
    → j < length tree
    → at (add_loop fuel i d tree) j
      ≡ (if leb i j && covers p j then wrap 128 (at tree j +ℤ d) else at tree j)
unfolding add_loop
at-add_loop zero i p d tree j pos_i c b f h = ground (arith)
at-add_loop (suc fuel) i p d tree j pos_i c b f h = elim (Bool-cases (ltb i (length tree))) [
  | inr e ↦ rw e (ground arith)
  | inl e ↦
      let tree1 : List ℤ = set tree i (wrap 128 (at tree i +ℤ d)) in
      let within : i < length tree = ground (arith, e) in
      rw (e, next_index i pos_i (omega arith))
        (round_at i j (i + low i) (covers p j) (at tree j) (at tree1 j) _
          (wrap 128 (at tree i +ℤ d)) (wrap 128 (at tree j +ℤ d)) (wrap 128 (at tree1 j +ℤ d))
          (at-add_loop fuel (i + low i) p d tree1 j (omega arith)
            (next_covers p i pos_i (omega arith) c)
            (omega (arith, length-set tree i (wrap 128 (at tree i +ℤ d))))
            (omega (arith, length-set tree i (wrap 128 (at tree i +ℤ d)), low_bit-pos 64 i))
            (omega (arith, length-set tree i (wrap 128 (at tree i +ℤ d)))))
          (at-set tree i j (wrap 128 (at tree i +ℤ d)) within) (omega (arith, low_bit-pos 64 i))
          (between p i j pos_i (omega arith) (held c))
          (λ same.
            (subst (λ k. covers p k ≡ true) same c, ap (λ k. wrap 128 (at tree k +ℤ d)) same))
          (λ same. ap (λ x. wrap 128 (x +ℤ d)) same))
]
  where
    held : covers p i ≡ true → p ≤ i
    held c = ground arith
