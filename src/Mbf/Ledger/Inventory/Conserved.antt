-- ===== src/Mbf/Ledger/Inventory/Conserved.antt =====
-- What `issue_inventory` takes from the layers.
use metri_engine.Base.{
  ℕ, ◌+◌, ◌-◌, ◌^◌, ◌<◌, ◌≤◌, ◌≡◌, ◌⊎◌, refl, ap, sym, subst, ◌∙◌, false, List, [], ◌∷◌, Result, ok,
  err, length, arith, Bool-cases, inl, inr, Result-cases,
}
use metri_engine.Base.Int.{ℤ, pos, wrap, wrap_pos, ltb_ℤ, leb_ℤ}
use metri_engine.Base.Sorting.{All, sort_by_All}
use metri_engine.Errors.{ErrorCode}
use metri_engine.Mbf.Ledger.{FixedDecimal128}
use metri_engine.Mbf.Ledger.Zone.{
  Batch, FinancialBlockCheckpoint, FinancialLedgerZone, ValuationMethod, compute_checkpoint,
}
use metri_engine.Mbf.Ledger.Inventory.{
  Issue, issue_at, issue_all, in_order, enumerate, shift, issue_inventory, issue_from, issued,
  closed_with, comes_first,
}
use metri_engine.Mbf.Ledger.Inventory.Stock.{IsLayer, stock, closing_qty-stock}
use metri_engine.Mbf.Ledger.Inventory.Rounds.{IsEmpty, Takes, same, issue_at-Takes}

Takes-trans :
    (r r' r'' : ℕ) (s s' s'' : Issue) → Takes r s r' s' → Takes r' s' r'' s'' → Takes r s r'' s''
Takes-trans r r' r'' s s' s'' (e, le, layers, sum, len, keep)
      (e', le', layers', sum', len', keep') =
    (e', omega arith, layers', omega arith, len' ∙ len, λ j h. keep' j (keep j h))

-- the layers that the loop has passed are empty, or nothing is left to issue
abbrev Drained : List (ℕ × Batch) → Issue → ℕ → Type 0
Drained order s r = All (λ p. IsEmpty s.batches p.0) order ⊎ (r ≡ 0)

carry_over :
    (i : ℕ) (b : Batch) (order : List (ℕ × Batch)) (s1 s2 : Issue) (r1 r2 : ℕ)
    → Takes r1 s1 r2 s2
    → IsEmpty s1.batches i ⊎ (r1 ≡ 0)
    → Drained order s2 r2
    → Drained ((i, b) ∷ order) s2 r2
carry_over i b order s1 s2 r1 r2 more passed (inr none_left) = inr none_left
carry_over i b order s1 s2 r1 r2 more (inr done) (inl drained) = inr (omega arith)
carry_over i b order s1 s2 r1 r2 more (inl empty) (inl drained) = inl (more.5 i empty, drained)

All-shift :
    (b : Batch) (bs : List Batch) (ps : List (ℕ × Batch))
    → All (λ p. IsEmpty (b ∷ bs) p.0) (shift ps)
    → All (λ p. IsEmpty bs p.0) ps
unfolding shift
All-shift b bs [] h = tt
All-shift b bs ((i, c) ∷ ps) (h, hs) = (h, All-shift b bs ps hs)

-- what the loop over `order` comes to
abbrev Passed : List (ℕ × Batch) → ℕ → Issue → Result ErrorCode (Unit {0}) × Issue → Type 0
Passed order r s (result, s') = (r' : ℕ) × Takes r s r' s' × (result ≡ ok tt → Drained order s' r')

abbrev pub next_round :
    ValuationMethod
    → FixedDecimal128
    → List (ℕ × Batch)
    → Result ErrorCode (Unit {0}) × Issue
    → Result ErrorCode (Unit {0}) × Issue
next_round method u order (err e, s) = (err e, s)
next_round method u order (ok t, s) = issue_all method u order s

one_round :
    (method : ValuationMethod) (u : FixedDecimal128) (order : List (ℕ × Batch))
    (x : Result ErrorCode (Unit {0}) × Issue)
    → (elim x.0 as (λ q. Result ErrorCode (Unit {0}) × Issue) [
      | err e ↦ (err e, x.1)
      | ok t ↦ issue_all method u order x.1
    ])
      ≡ next_round method u order x
one_round method u order (err e, s) = refl
one_round method u order (ok t, s) = refl

next_round-Passed :
    (method : ValuationMethod) (u : FixedDecimal128) (i : ℕ) (b : Batch) (order : List (ℕ × Batch))
    (s : Issue) (r r1 : ℕ) (x : Result ErrorCode (Unit {0}) × Issue)
    → Takes r s r1 x.1
    → IsEmpty x.1.batches i ⊎ (r1 ≡ 0)
    → Passed order r1 x.1 (issue_all method u order x.1)
    → Passed ((i, b) ∷ order) r s (next_round method u order x)
next_round-Passed method u i b order s r r1 (err e, s1) taken passed rest = (r1, taken, λ h. cc)
next_round-Passed method u i b order s r r1 (ok t, s1) taken passed (r2, more, drained) = (
  r2,
  Takes-trans r r1 r2 s s1 (issue_all method u order s1).1 taken more,
  λ h. carry_over i b order s1 (issue_all method u order s1).1 r1 r2 more passed (drained h),
)

issue_all-Passed :
    (method : ValuationMethod) (u : FixedDecimal128) (order : List (ℕ × Batch)) (s : Issue) (r : ℕ)
    → s.remaining_to_issue ≡ pos r
    → r < 2 ^ 63
    → All IsLayer s.batches
    → Passed order r s (issue_all method u order s)
unfolding issue_all
issue_all-Passed method u [] s r rest small layers = (r, same s r rest small layers, λ e. inl tt)
issue_all-Passed method u ((i, b) ∷ order) s r rest small layers =
    let (r1, taken, passed) = issue_at-Takes s r rest small layers method u i in
    let s1 : Issue = (issue_at method u i s).1 in
    subst (Passed ((i, b) ∷ order) r s) (sym (one_round method u order (issue_at method u i s))) (
      next_round-Passed method u i b order s r r1 (issue_at method u i s) taken passed
        (issue_all-Passed method u order s1 r1 (taken.0) (omega arith) (taken.2)))

all_empty :
    (bs bs0 : List Batch)
    → length bs ≡ length bs0
    → All (λ p. IsEmpty bs p.0) (enumerate bs0)
    → stock bs ≡ 0
unfolding stock enumerate
all_empty [] bs0 e h = refl
all_empty (b ∷ bs) [] e h = absurd (omega arith)
all_empty (b ∷ bs) (c ∷ bs0) e (here, there) =
    omega
      (arith, here b refl, all_empty bs bs0 (omega arith) (All-shift b bs (enumerate bs0) there))

-- what an issue of `n` from these layers may come to
abbrev pub Issued :
    ℕ
    → List Batch
    → Result ErrorCode (FixedDecimal128 × FinancialBlockCheckpoint) × FinancialLedgerZone
    → Type 0
Issued n before (ok (cogs, cp), z) =
    All IsLayer z.batches
    × (stock z.batches + n ≡ stock before)
    × (cp.closing_qty ≡ pos (stock z.batches))
Issued n before (err e, z) =
    (taken : ℕ) × All IsLayer z.batches × (taken ≤ n) × (stock z.batches + taken ≡ stock before)

closed_with-Issued :
    (n : ℕ) (before : List Batch) (cogs : FixedDecimal128) (z : FinancialLedgerZone) (epoch : ℤ)
    → All IsLayer z.batches
    → stock z.batches + n ≡ stock before
    → Issued n before (closed_with cogs z (compute_checkpoint z.batches epoch))
closed_with-Issued n before cogs z epoch layers sum =
    elim (Result-cases (compute_checkpoint z.batches epoch)) [
      | inl (cp, e) ↦ rw e (layers, sum, closing_qty-stock z.batches epoch cp layers e)
      | inr (f, e) ↦ rw e (n, layers, omega arith, sum)
    ]

-- how the loop's end becomes the answer
issued-Issued :
    (n : ℕ) (z : FinancialLedgerZone) (epoch : ℤ) (order : List (ℕ × Batch))
    (x : Result ErrorCode (Unit {0}) × Issue) (start : Issue)
    → start.batches ≡ z.batches
    → Passed order n start x
    → ((s : Issue)
        → length s.batches ≡ length z.batches
        → All (λ p. IsEmpty s.batches p.0) order
        → stock s.batches ≡ 0)
    → n ≤ stock z.batches
    → Issued n z.batches (issued epoch z x)
issued-Issued n z epoch order (err e, s) start b (r', taken, drained) empty enough =
    (n - r', taken.2, omega arith, omega (arith, ap stock b, taken.3))
issued-Issued n z epoch order (ok t, s) start b (r', taken, drained) empty enough =
    closed_with-Issued n z.batches s.total_cogs (record z { batches = s.batches }) epoch (taken.2)
      sum
  where
    none_left : Drained order s r' → r' ≡ 0
    none_left (inl e) = omega (arith, ap stock b, taken.3, empty s (taken.4 ∙ ap length b) e)
    none_left (inr e) = e

    sum : stock s.batches + n ≡ stock z.batches
    sum = omega (arith, ap stock b, taken.3, none_left (drained refl))

issue_from-Issued :
    (n : ℕ) (z : FinancialLedgerZone) (epoch : ℤ) (method : ValuationMethod)
    (r : Result ErrorCode FinancialBlockCheckpoint)
    → compute_checkpoint z.batches epoch ≡ r
    → All IsLayer z.batches
    → n < 2 ^ 63
    → Issued n z.batches (issue_from epoch (pos n) method z r)
unfolding in_order
issue_from-Issued n z epoch method (err e) h layers small = (0, layers, omega arith, omega arith)
issue_from-Issued n z epoch method (ok cp) h layers small =
    elim (Bool-cases (ltb_ℤ cp.closing_qty (pos n))) [
      | inl e ↦ rw e (0, layers, omega arith, omega arith)
      | inr e ↦ rw e (
          issued-Issued n z epoch (in_order method z.batches) _ start refl
            (issue_all-Passed method cp.running_wac_unit_cost (in_order method z.batches) start n
              (wrap_pos n small) small layers)
            (λ s len h. all_empty s.batches z.batches len (
              sort_by_All (λ p. IsEmpty s.batches p.0) (comes_first method) (enumerate z.batches)
                h))
            (enough e))
    ]
  where
    start : Issue
    start = record { batches = z.batches; remaining_to_issue = wrap 64 (pos n); total_cogs = pos 0 }

    closing : cp.closing_qty ≡ pos (stock z.batches)
    closing = closing_qty-stock z.batches epoch cp layers h

    enough : ltb_ℤ cp.closing_qty (pos n) ≡ false → n ≤ stock z.batches
    enough e = ground (arith, closing, e)

-- An issue of stock that succeeds takes exactly its quantity: the layers hold that much less in all, none
-- of them becomes negative, and the checkpoint closes with what is left. One that is refused, or that an
-- overflow of the cost ends, takes no more than its quantity, in any valuation method. The layers hold
-- i64 quantities that are not negative, and the quantity is not negative and below 2^63 raw units.
pub issue_inventory-conserves :
    (epoch : ℤ) (n : ℕ) (method : ValuationMethod) (z : FinancialLedgerZone)
    → All IsLayer z.batches
    → n < 2 ^ 63
    → Issued n z.batches (issue_inventory epoch (pos n) method z)
unfolding issue_inventory
issue_inventory-conserves epoch n method z layers small =
    elim (Bool-cases (leb_ℤ epoch z.fiscal_lock_epoch_ms)) [
      | inl e ↦ rw e (0, layers, omega arith, omega arith)
      | inr e ↦ rw e (
          issue_from-Issued n z epoch method (compute_checkpoint z.batches epoch) refl layers small)
    ]
