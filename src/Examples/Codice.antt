-- ===== src/Examples/Codice.antt =====
-- The sequences at concrete inputs.
use metri_engine.Base.{
  arith, ◌≡◌, refl, some, List, [], ◌∷◌, Text, codes, text_eq, ok, get, insert, text_Eq,
}
use metri_engine.Base.Int.{ℤ, pos}
use metri_engine.Codice.Sequence.{
  SeqAttrConfig, nearest_registered, build_sequence_code, scope_tag_from_pk, next,
}
use metri_engine.Codice.Sequence.Keys.{scope_tag_from_pk-build_sequence_code}
use metri_engine.Codice.Sequence.Counting.{next-counts}

scope_tag_from_pk-build_sequence_code_example :
    scope_tag_from_pk
      (build_sequence_code (codes "acme") (codes "code") (some (codes "L1")))
      (codes "acme")
      (codes "code")
    ≡ some (codes "L1")
scope_tag_from_pk-build_sequence_code_example =
    scope_tag_from_pk-build_sequence_code (codes "acme") (codes "code") 76 (codes "1")

abbrev work_orders : SeqAttrConfig
work_orders = record {
  name = codes "code";
  prefix = codes "WO-";
  padding = 4;
  scope_resolution = nearest_registered;
}

-- the own scope L1 has no counter, its ancestor L0 has counted to 41
abbrev counters : List (Text × ℤ)
counters = (codes "acme:code:L0_seq", pos 41) ∷ (codes "acme:code_seq", pos 7) ∷ []

next-counts_example :
    next work_orders
      (some (codes "L1"))
      (codes "acme")
      (codes "L0" ∷ [])
      (some (codes "L-K9"))
      (record { counters = counters; meets = [] })
    ≡ (
      ok (codes "WO-L-K9-0042"),
      record {
        counters = (codes "acme:code:L0_seq", pos 42) ∷ (codes "acme:code_seq", pos 7) ∷ [];
        meets = [];
      },
    )
unfolding get insert text_eq build_sequence_code
next-counts_example =
    next-counts work_orders (some (codes "L1")) (codes "acme") (codes "L0" ∷ [])
      (some (codes "L-K9")) counters (codes "acme:code:L0_seq") 41 refl refl (omega arith)
