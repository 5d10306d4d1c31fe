-- ===== src/Examples/Ledger.antt =====
-- The ledger's numbers: -0.0100 over three equal weights, and -25 divided by 10.
use metri_engine.Base.{ℕ, ◌≡◌, List, [], ◌∷◌, length, ok, arith}
use metri_engine.Base.Int.{pos, negsuc}
use metri_engine.Mbf.Ledger.{
  FixedDecimal128, unsigned_abs, is_negative, times_sign, xor, div_bankers_raw, allocate_hamilton,
  weight_sum,
}
use metri_engine.Mbf.Ledger.Hamilton.{total_of, allocate_hamilton-total_of}
use metri_engine.Mbf.Ledger.Rounding.{IsNearest, div_bankers_raw-IsNearest}

abbrev thirds : List ℕ
thirds = 1 ∷ 1 ∷ 1 ∷ []

allocate_hamilton-total_of_example :
    (shares : List FixedDecimal128) × (allocate_hamilton (negsuc 99) thirds ≡ ok shares)
    × (length shares ≡ length thirds)
    × (total_of shares ≡ negsuc 99)
unfolding weight_sum
allocate_hamilton-total_of_example =
    allocate_hamilton-total_of (negsuc 99) thirds (λ e. omega (arith, e))
      (omega arith, (omega arith, (omega arith, tt)))

div_bankers_raw-IsNearest_example :
    (m : ℕ) × (div_bankers_raw (negsuc 24) (pos 10)
      ≡ times_sign (xor (is_negative (negsuc 24)) (is_negative (pos 10))) m)
    × IsNearest (unsigned_abs (negsuc 24)) (unsigned_abs (pos 10)) m
div_bankers_raw-IsNearest_example =
    div_bankers_raw-IsNearest (negsuc 24) (pos 10) (omega arith) (omega arith) (omega arith)
