-- ===== src/Mbf/Ledger/Inventory/Rounds.antt =====
-- What one round of `issue_inventory` takes from a layer.
use metri_engine.Base.{
  ℕ, zero, suc, ◌+◌, ◌-◌, ◌^◌, ◌<◌, ◌≤◌, ◌≡◌, ◌⊎◌, refl, ap, sym, ◌∙◌, true, some, List, [], ◌∷◌,
  Result, ok, err, get_elem?, set, length, length-set, arith, Bool-cases, Option-cases, inl, inr,
  nat_eq_iff, leb,
}
use metri_engine.Base.Int.{ℤ, pos, negsuc, pos_part, ◌-ℤ◌, min_ℤ, wrap, wrap_pos, is_zero, leb_ℤ}
use metri_engine.Base.Sorting.{All}
use metri_engine.Errors.{ErrorCode}
use metri_engine.Mbf.Ledger.{FixedDecimal128}
use metri_engine.Mbf.Ledger.Zone.{ActiveBatchLayer, Batch, ValuationMethod}
use metri_engine.Mbf.Ledger.Inventory.{Issue, charged, take_from, issue_at}
use metri_engine.Mbf.Ledger.Inventory.Stock.{
  quantity, IsLayer, stock, stock-set, set-All, get_elem?-All,
}

-- the layer at `j`, if there is one, holds nothing
abbrev pub IsEmpty : List Batch → ℕ → Type 0
IsEmpty bs j = (b : Batch) → get_elem? bs j ≡ some b → quantity b ≡ 0

-- From `s`, with `r` left to issue, the loop has come to `s'`.
abbrev pub Takes : ℕ → Issue → ℕ → Issue → Type 0
Takes r s r' s' =
    (s'.remaining_to_issue ≡ pos r')
    × (r' ≤ r)
    × All IsLayer s'.batches
    × (stock s'.batches + r ≡ stock s.batches + r')
    × (length s'.batches ≡ length s.batches)
    × ((j : ℕ) → IsEmpty s.batches j → IsEmpty s'.batches j)

less_min : (a r : ℕ) → a < 2 ^ 63 → wrap 64 (pos a -ℤ min_ℤ (pos a) (pos r)) ≡ pos (a - r)
unfolding ◌-ℤ◌
less_min a r h = elim (Bool-cases (leb_ℤ (pos a) (pos r))) [
  | inl e ↦ rw e (ground (arith, wrap_pos 0 (omega arith)))
  | inr e ↦ rw e (ground (arith, wrap_pos (a - r) (omega arith)))
]

less_min_other : (a r : ℕ) → r < 2 ^ 63 → wrap 64 (pos r -ℤ min_ℤ (pos a) (pos r)) ≡ pos (r - a)
unfolding ◌-ℤ◌
less_min_other a r h = elim (Bool-cases (leb_ℤ (pos a) (pos r))) [
  | inl e ↦ rw e (ground (arith, wrap_pos (r - a) (omega arith)))
  | inr e ↦ rw e (ground (arith, wrap_pos 0 (omega arith)))
]

set-IsEmpty :
    (bs : List Batch) (i j : ℕ) (b new : Batch)
    → get_elem? bs i ≡ some b
    → quantity new ≤ quantity b
    → IsEmpty bs j
    → IsEmpty (set bs i new) j
set-IsEmpty [] i j b new f h e c g = cc
set-IsEmpty (x ∷ bs) zero zero b new f h e c g = ground (arith, e x)
set-IsEmpty (x ∷ bs) zero (suc j) b new f h e c g = e c g
set-IsEmpty (x ∷ bs) (suc i) zero b new f h e c g = e c g
set-IsEmpty (x ∷ bs) (suc i) (suc j) b new f h e c g = set-IsEmpty bs i j b new f h e c g

get_elem?-set_self :
    (bs : List Batch) (i : ℕ) (b new c : Batch)
    → get_elem? bs i ≡ some b
    → get_elem? (set bs i new) i ≡ some c
    → c ≡ new
get_elem?-set_self [] i b new c f g = cc
get_elem?-set_self (x ∷ bs) zero b new c f g = cc
get_elem?-set_self (x ∷ bs) (suc i) b new c f g = get_elem?-set_self bs i b new c f g

zero_of : (a : ℤ) → is_zero a ≡ true → pos_part a ≡ 0
zero_of (pos n) h = (nat_eq_iff n 0).0 h
zero_of (negsuc n) h = refl

same_layer : {b c : Batch} → some b ≡ some c → b ≡ c
same_layer h = cc

-- one layer less by what it gives, or unchanged
module _ (s : Issue) (r : ℕ) (rest : s.remaining_to_issue ≡ pos r) (small : r < 2 ^ 63)
    (layers : All IsLayer s.batches) where
  pub same : Takes r s r s
  same = (rest, omega arith, layers, refl, refl, λ j e. e)

  module _ (i a : ℕ) (layer : ActiveBatchLayer) (cost : FixedDecimal128)
      (found : get_elem? s.batches i ≡ some (layer, cost))
      (avail : layer.remaining_qty_scaled ≡ pos a) (fits : a < 2 ^ 63) where
    abbrev left : Batch
    left = (record layer { remaining_qty_scaled = pos (a - r) }, cost)

    abbrev less : FixedDecimal128 → Issue
    less cogs = record {
      batches = set s.batches i left;
      remaining_to_issue = pos (r - a);
      total_cogs = cogs;
    }

    less-Takes : (cogs : FixedDecimal128) → Takes r s (r - a) (less cogs)
    less-Takes cogs = (
      refl,
      omega arith,
      set-All IsLayer s.batches i left (refl, omega arith) layers,
      omega (arith, stock-set s.batches i (layer, cost) left found, ap pos_part avail),
      length-set s.batches i left,
      λ j. set-IsEmpty s.batches i j (layer, cost) left found (omega (arith, ap pos_part avail)),
    )

    less-emptied : (cogs : FixedDecimal128) → IsEmpty (less cogs).batches i ⊎ (r - a ≡ 0)
    less-emptied cogs = elim (Bool-cases (leb a r)) [
      | inl e ↦ inl (λ b g.
          ap quantity (get_elem?-set_self s.batches i (layer, cost) left b found g) ∙ ground arith)
      | inr e ↦ inr (ground arith)
    ]

    -- a round's outcome
    abbrev Round : Issue → Type 0
    Round s' = (r' : ℕ) × Takes r s r' s' × (IsEmpty s'.batches i ⊎ (r' ≡ 0))

    quantity_left :
        wrap 64
          (layer.remaining_qty_scaled -ℤ min_ℤ layer.remaining_qty_scaled s.remaining_to_issue)
        ≡ pos (a - r)
    quantity_left =
        ap (λ x. wrap 64 (x -ℤ min_ℤ x s.remaining_to_issue)) avail
        ∙ ap (λ y. wrap 64 (pos a -ℤ min_ℤ (pos a) y)) rest
        ∙ less_min a r fits

    left_to_issue :
        wrap 64 (s.remaining_to_issue -ℤ min_ℤ layer.remaining_qty_scaled s.remaining_to_issue)
        ≡ pos (r - a)
    left_to_issue =
        ap (λ x. wrap 64 (s.remaining_to_issue -ℤ min_ℤ x s.remaining_to_issue)) avail
        ∙ ap (λ y. wrap 64 (y -ℤ min_ℤ (pos a) y)) rest
        ∙ less_min_other a r small

    charged-Round :
        (x y : ℤ) (t : Result ErrorCode FixedDecimal128)
        → x ≡ pos (a - r)
        → y ≡ pos (r - a)
        → Round
            (charged
              (record s {
                batches = set s.batches i (record layer { remaining_qty_scaled = x }, cost);
                remaining_to_issue = y;
              })
              t).1
    charged-Round x y (ok cogs) ex ey = rw (ex, ey) (r - a, less-Takes cogs, less-emptied cogs)
    charged-Round x y (err e) ex ey =
        rw (ex, ey) (r - a, less-Takes s.total_cogs, less-emptied s.total_cogs)

    take_from-Round :
        (method : ValuationMethod) (u : FixedDecimal128)
        → Round (take_from method u i (layer, cost) s).1
    unfolding take_from
    take_from-Round method u = elim (Bool-cases (is_zero layer.remaining_qty_scaled)) [
      | inl e ↦ rw e (
        r,
        same,
        inl (λ b g.
            ap quantity (same_layer (sym g ∙ found)) ∙ zero_of layer.remaining_qty_scaled e),
      )
      | inr e ↦ rw e (charged-Round _ _ _ quantity_left left_to_issue)
    ]

  pub issue_at-Takes :
      (method : ValuationMethod) (u : FixedDecimal128) (i : ℕ)
      → (r' : ℕ) × Takes r s r' (issue_at method u i s).1
        × (IsEmpty (issue_at method u i s).1.batches i ⊎ (r' ≡ 0))
  unfolding issue_at
  issue_at-Takes method u i = elim (Bool-cases (is_zero s.remaining_to_issue)) [
    | inl e ↦ rw e (r, same, inr (sym (ap pos_part rest) ∙ zero_of s.remaining_to_issue e))
    | inr n ↦ elim (Option-cases (get_elem? s.batches i)) [
      | inl e ↦ rw (n, e) (r, same, inl (λ b g. cc))
      | inr ((layer, cost), e) ↦
          let held : IsLayer (layer, cost) =
            get_elem?-All IsLayer s.batches i (layer, cost) layers e in
          rw (n, e) (take_from-Round i (quantity (layer, cost)) layer cost e held.0 held.1 method u)
    ]
  ]
