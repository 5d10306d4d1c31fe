-- ===== src/Mbf/Ledger/Fenwick/Ranges.antt =====
-- Sums over ranges of the array: `prefix_sum` and `range_sum` against the movements themselves.
use metri_engine.Base.{
  ℕ, suc, ◌+◌, ◌-◌, ◌^◌, ◌≤◌, ◌<◌, ◌≡◌, refl, sym, ap, subst, ◌∙◌, Bool, true, false, not, ◌&&◌,
  List, [], ◌∷◌, ◌++◌, if◌then◌else◌, ltb, leb, nat_eq, nat_eq_iff, min, length, arith, Bool-cases,
  inl, inr,
}
use metri_engine.Base.Int.{ℤ, pos, ◌+ℤ◌, ◌-ℤ◌, wrap, int_laws}
use metri_engine.Base.Wrap.{wrap-sub}
use metri_engine.Base.Sorting.{All}
use metri_engine.Mbf.Ledger.{FixedDecimal128}
use metri_engine.Mbf.Ledger.Fenwick.{
  FenwickPrefixSum128, zeros, with_capacity, add_at, sum_loop, prefix_sum, range_sum, add_from,
  from_slice,
}
use metri_engine.Mbf.Ledger.Fenwick.Nodes.{length-add_loop}
use metri_engine.Mbf.Ledger.Fenwick.Sums.{
  Movement, IsTree, zeros-IsTree, length-zeros, add_all, total_below, total_within, positions,
  add_at-IsTree, sum_loop-sums,
}

IsTree-ext : (tree : List ℤ) (s t : ℕ → ℤ) → ((q : ℕ) → s q ≡ t q) → IsTree tree s → IsTree tree t
unfolding IsTree
IsTree-ext tree s t e h j p l = h j p l ∙ rw (e j, e) refl

length-add_all :
    (ms : List Movement) (fw : FenwickPrefixSum128) → length (add_all ms fw).tree ≡ length fw.tree
unfolding add_all add_at
length-add_all [] fw = refl
length-add_all ((idx, d) ∷ ms) fw =
    length-add_all ms (add_at idx d fw) ∙ length-add_loop (length fw.tree) (idx + 1) d fw.tree

add_all-IsTree :
    (ms : List Movement) (fw : FenwickPrefixSum128) (sums : ℕ → ℤ)
    → length fw.tree ≤ 2 ^ 63
    → All (λ m. m.0 + 1 < length fw.tree) ms
    → IsTree fw.tree sums
    → IsTree (add_all ms fw).tree (λ q. total_below ms q +ℤ sums q)
unfolding add_all total_below
add_all-IsTree [] fw sums b within h = IsTree-ext fw.tree sums _ (λ q. omega int_laws) h
add_all-IsTree ((idx, d) ∷ ms) fw sums b (here, there) h =
    IsTree-ext (add_all ms (add_at idx d fw)).tree _ _ (λ q. omega int_laws)
      (add_all-IsTree ms (add_at idx d fw) (λ q. (if ltb idx q then d else pos 0) +ℤ sums q)
        (omega (arith, same)) (subst (λ l. All (λ m. m.0 + 1 < l) ms) (sym same) there)
        (add_at-IsTree idx d fw sums b here h))
  where
    same : length (add_at idx d fw).tree ≡ length fw.tree
    same = length-add_all ((idx, d) ∷ []) fw

-- the movements of a slice, each value at its index
add_from-add_all :
    (i : ℕ) (vs : List FixedDecimal128) (fw : FenwickPrefixSum128)
    → add_from i vs fw ≡ add_all (positions i vs) fw
unfolding add_from add_all positions
add_from-add_all i [] fw = refl
add_from-add_all i (v ∷ vs) fw = add_from-add_all (suc i) vs (add_at i v fw)

add_all-append :
    (ms ns : List Movement) (fw : FenwickPrefixSum128)
    → add_all (ms ++ ns) fw ≡ add_all ns (add_all ms fw)
unfolding add_all
add_all-append [] ns fw = refl
add_all-append ((idx, d) ∷ ms) ns fw = add_all-append ms ns (add_at idx d fw)

none_below_zero : (ms : List Movement) → total_below ms 0 ≡ pos 0
unfolding total_below ◌+ℤ◌
none_below_zero [] = refl
none_below_zero ((idx, d) ∷ ms) =
    ap (λ t. (if t then d else pos 0) +ℤ total_below ms 0) (not_below idx)
    ∙ ap (λ t. pos 0 +ℤ t) (none_below_zero ms)
  where
    not_below : (idx : ℕ) → ltb idx 0 ≡ false
    not_below idx = ground arith

none_below : (ms : List Movement) → total_below ms 0 +ℤ pos 0 ≡ pos 0
unfolding ◌+ℤ◌
none_below ms = ap (λ t. t +ℤ pos 0) (none_below_zero ms)

zero_wrapped : pos 0 ≡ wrap 128 (pos 0)
unfolding wrap
zero_wrapped = refl

from_start :
    (ms : List Movement) (start end : ℕ)
    → start ≡ 0
    → total_below ms (end + 1) ≡ total_within ms start end
unfolding total_below total_within
from_start [] start end e = refl
from_start ((idx, d) ∷ ms) start end e =
    ap (λ t. (if t then d else pos 0) +ℤ total_below ms (end + 1)) tests
    ∙ ap (λ t. (if leb start idx && leb idx end then d else pos 0) +ℤ t) (from_start ms start end e)
  where
    tests : ltb idx (end + 1) ≡ (leb start idx && leb idx end)
    tests = ground arith

difference :
    (d a b : ℤ) (below_end below_start : Bool)
    → (below_start ≡ true → below_end ≡ true)
    → ((if below_end then d else pos 0) +ℤ a) -ℤ ((if below_start then d else pos 0) +ℤ b)
      ≡ (if below_end && not below_start then d else pos 0) +ℤ (a -ℤ b)
difference d a b true true h = omega int_laws
difference d a b true false h = omega int_laws
difference d a b false true h = absurd (contradiction (h refl))
  where
    contradiction : false ≡ true → ⊥
    contradiction e = cc
difference d a b false false h = omega int_laws

-- the movements below the end, less those below the start
from_below :
    (ms : List Movement) (start end : ℕ)
    → 0 < start
    → start ≤ end
    → total_below ms (end + 1) -ℤ total_below ms (start - 1 + 1) ≡ total_within ms start end
unfolding total_below total_within
from_below [] start end p h = omega int_laws
from_below ((idx, d) ∷ ms) start end p h =
    difference d (total_below ms (end + 1)) (total_below ms (start - 1 + 1)) (ltb idx (end + 1))
      (ltb idx (start - 1 + 1)) (λ e. ground arith)
    ∙ ap
        (λ t.
          (if t then d else pos 0) +ℤ (total_below ms (end + 1) -ℤ total_below ms (start - 1 + 1)))
        tests
    ∙ ap (λ t. (if leb start idx && leb idx end then d else pos 0) +ℤ t)
        (from_below ms start end p h)
  where
    tests : (ltb idx (end + 1) && not (ltb idx (start - 1 + 1))) ≡ (leb start idx && leb idx end)
    tests = ground arith

module _ (n : ℕ) (small : n < 2 ^ 63) (ms : List Movement) (within : All (λ m. m.0 < n) ms) where
  abbrev moved : FenwickPrefixSum128
  moved = add_all ms (with_capacity n)

  length-moved : length moved.tree ≡ n + 1
  unfolding with_capacity
  length-moved = length-add_all ms (with_capacity n) ∙ length-zeros (n + 1)

  all_below :
      (l : ℕ) → l ≡ n + 1 → (ns : List Movement) → All (λ m. m.0 < n) ns → All (λ m. m.0 + 1 < l) ns
  all_below l e [] h = tt
  all_below l e (m ∷ ns) (h, hs) = (omega arith, all_below l e ns hs)

  moved-IsTree : IsTree moved.tree (λ q. total_below ms q +ℤ pos 0)
  unfolding with_capacity
  moved-IsTree =
      add_all-IsTree ms (with_capacity n) (λ q. pos 0) (omega (arith, length-zeros (n + 1)))
        (all_below (length (zeros (n + 1))) (length-zeros (n + 1)) ms within) (zeros-IsTree (n + 1))

  prefix_sum-moved :
      (idx : ℕ) → idx < n → prefix_sum idx moved ≡ wrap 128 (total_below ms (idx + 1))
  unfolding prefix_sum
  prefix_sum-moved idx h =
      ap (λ i. sum_loop i i moved.tree (pos 0)) (whole idx h)
      ∙ ap (sum_loop (idx + 1) (idx + 1) moved.tree) (zero_wrapped)
      ∙ sum_loop-sums (idx + 1) (idx + 1) moved.tree (λ q. total_below ms q +ℤ pos 0) (pos 0)
          moved-IsTree (none_below ms) (omega (arith, length-moved)) (omega (arith, length-moved))
          (omega arith)
      ∙ ap (wrap 128) (omega int_laws)
    where
      whole : (idx : ℕ) → idx < n → min (idx + 1) (length moved.tree - 1) ≡ idx + 1
      whole idx h = omega (arith, length-moved)

  -- The sum over a range of the array, after any movements, is that of the movements within it: from the
  -- first index to the last, both included, as an i128. The array has `n` places, fewer than 2^63.
  pub range_sum-add_all :
      (start end : ℕ)
      → start ≤ end
      → end < n
      → range_sum start end moved ≡ wrap 128 (total_within ms start end)
  unfolding range_sum
  range_sum-add_all start end h lt = elim (Bool-cases (nat_eq start 0)) [
    | inl e ↦
        rw (ordered, e)
          (prefix_sum-moved end lt
            ∙ ap (wrap 128) (from_start ms start end ((nat_eq_iff start 0).0 e)))
    | inr e ↦
        rw (ordered, e)
          (ap (λ x. wrap 128 (x -ℤ prefix_sum (start - 1) moved)) (prefix_sum-moved end lt)
            ∙ ap (λ y. wrap 128 (wrap 128 (total_below ms (end + 1)) -ℤ y))
                (prefix_sum-moved (start - 1) (omega arith))
            ∙ wrap-sub (total_below ms (end + 1)) (total_below ms (start - 1 + 1))
            ∙ ap (wrap 128) (from_below ms start end (ground (arith, e)) h))
  ]
    where
      ordered : ltb end start ≡ false
      ordered = ground arith

-- A slice put into the tree, as its movements.
pub from_slice-add_all :
    (vs : List FixedDecimal128)
    → from_slice vs ≡ add_all (positions 0 vs) (with_capacity (length vs))
unfolding from_slice
from_slice-add_all vs = add_from-add_all 0 vs (with_capacity (length vs))
