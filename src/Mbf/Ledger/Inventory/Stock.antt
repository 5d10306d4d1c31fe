-- ===== src/Mbf/Ledger/Inventory/Stock.antt =====
-- The quantity in stock, over the layers of `FinancialLedgerZone`.
use metri_engine.Base.{
  subst, ◌≢◌, ℕ, zero, suc, ◌+◌, ◌^◌, ◌<◌, ◌≡◌, refl, ap, ◌∙◌, some, List, [], ◌∷◌, ok, get_elem?,
  set, arith, inl, inr, Result-cases,
}
use metri_engine.Base.Int.{ℤ, pos, pos_part, ◌+ℤ◌}
use metri_engine.Base.Sorting.{All}
use metri_engine.Mbf.Ledger.{FixedDecimal128}
use metri_engine.Mbf.Ledger.Zone.{
  Batch, FinancialBlockCheckpoint, add_layer, totals, checked_add, Totals, average_cost,
  checkpoint_of, compute_checkpoint,
}

-- the quantity of a layer
abbrev pub quantity : Batch → ℕ
quantity (layer, cost) = pos_part layer.remaining_qty_scaled

-- a layer holds an i64 that is not negative
abbrev pub IsLayer : Batch → Type 0
IsLayer b = (b.0.remaining_qty_scaled ≡ pos (quantity b)) × (quantity b < 2 ^ 63)

unfoldable pub stock : List Batch → ℕ
stock [] = 0
stock (b ∷ bs) = quantity b + stock bs

pub stock-set :
    (bs : List Batch) (i : ℕ) (b new : Batch)
    → get_elem? bs i ≡ some b
    → stock (set bs i new) + quantity b ≡ stock bs + quantity new
unfolding stock
stock-set [] i b new h = cc
stock-set (x ∷ bs) zero b new h = ground arith
stock-set (x ∷ bs) (suc i) b new h = omega (arith, stock-set bs i b new h)

pub set-All :
    (P : Batch → Type 0) (bs : List Batch) (i : ℕ) (new : Batch)
    → P new
    → All P bs
    → All P (set bs i new)
set-All P [] i new p hs = tt
set-All P (x ∷ bs) zero new p (h, hs) = (p, hs)
set-All P (x ∷ bs) (suc i) new p (h, hs) = (h, set-All P bs i new p hs)

pub get_elem?-All :
    (P : Batch → Type 0) (bs : List Batch) (i : ℕ) (b : Batch)
    → All P bs
    → get_elem? bs i ≡ some b
    → P b
get_elem?-All P [] i b hs h = cc
get_elem?-All P (x ∷ bs) zero b (p, hs) h = subst P (cc) p
get_elem?-All P (x ∷ bs) (suc i) b (p, hs) h = get_elem?-All P bs i b hs h

pub get_elem?-set_other :
    (bs : List Batch) (i j : ℕ) (new : Batch) → i ≢ j → get_elem? (set bs i new) j ≡ get_elem? bs j
get_elem?-set_other [] i j new h = refl
get_elem?-set_other (x ∷ bs) zero zero new h = absurd (h refl)
get_elem?-set_other (x ∷ bs) zero (suc j) new h = refl
get_elem?-set_other (x ∷ bs) (suc i) zero new h = refl
get_elem?-set_other (x ∷ bs) (suc i) (suc j) new h =
    get_elem?-set_other bs i j new (λ e. h (ap suc e))

add_layer-quantity :
    (b : Batch) (q : ℕ) (v : FixedDecimal128) (q' v' : FixedDecimal128)
    → IsLayer b
    → add_layer b (pos q, v) ≡ ok (q', v')
    → q' ≡ pos (q + quantity b)
unfolding add_layer checked_add ◌+ℤ◌
add_layer-quantity (layer, cost) q v q' v' (e, h) r = ground arith

totals-stock :
    (bs : List Batch) (q : ℕ) (v : FixedDecimal128) (q' v' : FixedDecimal128)
    → All IsLayer bs
    → totals bs (pos q, v) ≡ ok (q', v')
    → q' ≡ pos (q + stock bs)
unfolding totals stock
totals-stock [] q v q' v' hs r = ground arith
totals-stock (b ∷ bs) q v q' v' (h, hs) r = elim (Result-cases (add_layer b (pos q, v))) [
  | inr (e, f) ↦ cc
  | inl ((q1, v1), f) ↦
      let first : q1 ≡ pos (q + quantity b) = add_layer-quantity b q v q1 v1 h f in
      let next : totals bs (q1, v1) ≡ ok (q', v') = rw f at r in
      totals-stock bs (q + quantity b) v1 q' v' hs
        (subst (λ x. totals bs (x, v1) ≡ ok (q', v')) first next)
      ∙ ap pos (omega arith)
]

closing_qty_of :
    (epoch : ℤ) (t : Totals) (cp : FinancialBlockCheckpoint)
    → checkpoint_of epoch t ≡ ok cp
    → cp.closing_qty ≡ t.0
closing_qty_of epoch t cp h = elim (Result-cases (average_cost t)) [
  | inl (c, e) ↦ let closed = rw e at h in cc
  | inr (f, e) ↦ let closed = rw e at h in cc
]

-- A checkpoint closes with the quantity in stock.
pub closing_qty-stock :
    (bs : List Batch) (epoch : ℤ) (cp : FinancialBlockCheckpoint)
    → All IsLayer bs
    → compute_checkpoint bs epoch ≡ ok cp
    → cp.closing_qty ≡ pos (stock bs)
unfolding compute_checkpoint
closing_qty-stock bs epoch cp hs h = elim (Result-cases (totals bs (pos 0, pos 0))) [
  | inl ((q, v), e) ↦
      closing_qty_of epoch (q, v) cp (rw e at h)
      ∙ totals-stock bs 0 (pos 0) q v hs e
      ∙ ap pos (omega arith)
  | inr (f, e) ↦ cc
]
