-- ===== src/Examples/Eav.antt =====
-- The sort keys at concrete inputs.
use metri_engine.Base.{◌≡◌, refl, true, false, some, codes, arith}
use metri_engine.Base.Int.{pos, negsuc}
use metri_engine.Eav.Types.{long}
use metri_engine.Eav.Encoding.{build_eavt_sk, decode_eavt_sk, build_avet_sk, avet_sk_range_bounds}
use metri_engine.Eav.Encoding.Eavt.{decode_eavt_sk-build_eavt_sk}
use metri_engine.Eav.Encoding.Order.{closed_at, open_at, bound, between, range_selects}

decode_eavt_sk-build_eavt_sk_example :
    decode_eavt_sk (build_eavt_sk 513 1700000000000 true) ≡ some (513, 1700000000000, true)
decode_eavt_sk-build_eavt_sk_example =
    decode_eavt_sk-build_eavt_sk 513 1700000000000 true (omega arith) (omega arith)

-- -5 < 0 ≤ 7
range_selects_example :
    between
      (avet_sk_range_bounds (λ d. false) (bound (open_at (negsuc 4))) (bound (closed_at (pos 7))))
      (build_avet_sk (λ d. false) (long (pos 0)) (codes "e1"))
    ≡ true
range_selects_example =
    range_selects (λ d. false) (open_at (negsuc 4)) (closed_at (pos 7)) (pos 0) 101 (codes "1") refl
      (omega arith) (omega arith) (omega arith) (omega arith, (omega arith, tt))
