-- ===== src/Mbf/Ledger/Fenwick.antt =====
-- `FenwickPrefixSum128`, src/mbf/zones/financial_ledger.rs: sums of movements by a tree in an array. An
-- index is a usize of 64 bits, and i128 addition wraps.
use Prim.Native.Nat.{bit_and}
use metri_engine.Base.{
  ℕ, zero, suc, ◌+◌, ◌-◌, ◌^◌, List, [], ◌∷◌, if◌then◌else◌, ltb, nat_eq, min, length, set,
}
use metri_engine.Base.Int.{ℤ, pos, ◌+ℤ◌, ◌-ℤ◌, wrap}
use metri_engine.Mbf.Ledger.{FixedDecimal128}
pub mod Nodes
pub mod Sums
pub mod Ranges

pub record FenwickPrefixSum128 : Type 0 where
  pub tree : List ℤ

-- vec![0; n]
unfoldable pub zeros : ℕ → List ℤ
zeros zero = []
zeros (suc n) = pos 0 ∷ zeros n

unfoldable pub with_capacity : ℕ → FenwickPrefixSum128
with_capacity len = record { tree = zeros (len + 1) }

-- tree[i]; the code never indexes past the end
unfoldable pub at : List ℤ → ℕ → ℤ
at [] i = pos 0
at (x ∷ xs) zero = x
at (x ∷ xs) (suc i) = at xs i

-- !i + 1
abbrev pub complement : ℕ → ℕ
complement i = 2 ^ 64 - 1 - i + 1

-- while i < self.tree.len()
unfoldable pub add_loop : ℕ → ℕ → ℤ → List ℤ → List ℤ
add_loop zero i delta tree = tree
add_loop (suc fuel) i delta tree =
    let rest : List ℤ =
      add_loop fuel (i + bit_and i (complement i)) delta
        (set tree i (wrap 128 (at tree i +ℤ delta))) in
    if ltb i (length tree) then rest else tree

unfoldable pub add_at : ℕ → FixedDecimal128 → FenwickPrefixSum128 → FenwickPrefixSum128
add_at idx delta fw = record { tree = add_loop (length fw.tree) (idx + 1) delta fw.tree }

-- while i > 0
unfoldable pub sum_loop : ℕ → ℕ → List ℤ → ℤ → ℤ
sum_loop zero i tree sum = sum
sum_loop (suc fuel) i tree sum =
    let rest : ℤ = sum_loop fuel (bit_and i (i - 1)) tree (wrap 128 (sum +ℤ at tree i)) in
    if nat_eq i 0 then sum else rest

unfoldable pub prefix_sum : ℕ → FenwickPrefixSum128 → FixedDecimal128
prefix_sum idx fw = let i : ℕ = min (idx + 1) (length fw.tree - 1) in sum_loop i i fw.tree (pos 0)

unfoldable pub range_sum : ℕ → ℕ → FenwickPrefixSum128 → FixedDecimal128
range_sum start end fw =
    if ltb end start
    then pos 0
    else (if nat_eq start 0
        then prefix_sum end fw
        else wrap 128 (prefix_sum end fw -ℤ prefix_sum (start - 1) fw))

unfoldable pub add_from : ℕ → List FixedDecimal128 → FenwickPrefixSum128 → FenwickPrefixSum128
add_from i [] fw = fw
add_from i (v ∷ vs) fw = add_from (suc i) vs (add_at i v fw)

unfoldable pub from_slice : List FixedDecimal128 → FenwickPrefixSum128
from_slice values = add_from 0 values (with_capacity (length values))
