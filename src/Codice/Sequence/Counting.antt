-- ===== src/Codice/Sequence/Counting.antt =====
-- Which counter a number comes from.
use mathlib.Core.List.{append_assoc}
use metri_engine.Base.{
  ℕ, zero, suc, ◌-◌, ◌<◌, ◌^◌, ◌≡◌, refl, sym, ap, ◌∙◌, inl, inr, Option, none, some, List, [], ◌∷◌,
  ◌++◌, Text, ok, get, insert, text_Eq, Option-cases, length, map, arith,
}
use metri_engine.Base.Decimal.{decimal}
use metri_engine.Base.Int.{ℤ, pos, ◌+ℤ◌, wrap}
use metri_engine.Codice.Sequence.{
  SeqAttrConfig, build_sequence_code, format_code, padded, zeros, ancestor_codes, as_u64, unsigned,
  synced, read_sequence, one_more, sequence_increment, first_active, candidates, next,
}

abbrev pick : Text → Option ℕ → Option Text → Option Text
pick k none rest = rest
pick k (some n) rest = some k

-- The first of the keys that has a counter, which is not negative.
abbrev pub chosen : List Text → List (Text × ℤ) → Option Text
chosen [] counters = none
chosen (k ∷ ks) counters = pick k (unsigned (get counters k)) (chosen ks counters)

abbrev or_default : Text → Option Text → Text
or_default k none = k
or_default k (some j) = j

-- the scopes from the nearest on: the own one, then its ancestors
abbrev pub scopes : Option Text → List Text → List Text
scopes none ancestors = ancestors
scopes (some own) ancestors = own ∷ ancestors

-- the key of the counter that a number comes from
abbrev pub source : SeqAttrConfig → Option Text → Text → List Text → List (Text × ℤ) → Text
source config scope_tag tenant_id ancestors counters =
    or_default (build_sequence_code tenant_id config.name none) (
      chosen
        (map (λ s. build_sequence_code tenant_id config.name (some s)) (scopes scope_tag ancestors))
        counters)

-- the counter has reached `n`, or is not there and `n` is 0
abbrev pub HasCounted : ℕ → Option ℤ → Type 0
HasCounted n none = n ≡ 0
HasCounted n (some v) = v ≡ pos n

abbrev pub fill : ℕ → Text
fill zero = []
fill (suc n) = b'0' ∷ fill n

abbrev pub with_dash : Option Text → Text
with_dash none = []
with_dash (some []) = []
with_dash (some (c ∷ segment)) = (c ∷ segment) ++ (b'-' ∷ [])

-- prefix, segment, and the number with zeros in front
abbrev pub written_code : SeqAttrConfig → Option Text → ℕ → Text
written_code config segment n =
    config.prefix
    ++ (with_dash segment ++ (fill (config.padding - length (decimal n)) ++ decimal n))

zeros-fill : (n : ℕ) → zeros n ≡ fill n
unfolding zeros
zeros-fill zero = refl
zeros-fill (suc n) = ap (λ t. b'0' ∷ t) (zeros-fill n)

format_code-written_code :
    (config : SeqAttrConfig) (segment : Option Text) (n : ℕ)
    → format_code config.prefix segment config.padding n ≡ written_code config segment n
unfolding format_code padded
format_code-written_code config none n =
    ap (λ t. config.prefix ++ (t ++ decimal n)) (zeros-fill (config.padding - length (decimal n)))
format_code-written_code config (some []) n =
    ap (λ t. config.prefix ++ (t ++ decimal n)) (zeros-fill (config.padding - length (decimal n)))
format_code-written_code config (some (c ∷ segment)) n =
    ap (λ t. config.prefix ++ ((c ∷ segment) ++ (b'-' ∷ (t ++ decimal n))))
      (zeros-fill (config.padding - length (decimal n)))
    ∙ ap (λ t. config.prefix ++ t) (sym (append_assoc (c ∷ segment) (b'-' ∷ []) _))

ancestor_codes-map :
    (tenant_id name : Text) (ancestors : List Text)
    → ancestor_codes tenant_id name ancestors
      ≡ map (λ s. build_sequence_code tenant_id name (some s)) ancestors
unfolding ancestor_codes
ancestor_codes-map tenant_id name [] = refl
ancestor_codes-map tenant_id name (a ∷ ancestors) =
    ap (λ t. build_sequence_code tenant_id name (some a) ∷ t)
      (ancestor_codes-map tenant_id name ancestors)

candidates-scopes :
    (config : SeqAttrConfig) (scope_tag : Option Text) (tenant_id : Text) (ancestors : List Text)
    → candidates config scope_tag tenant_id ancestors
      ≡ map (λ s. build_sequence_code tenant_id config.name (some s)) (scopes scope_tag ancestors)
candidates-scopes config none tenant_id ancestors =
    ancestor_codes-map tenant_id config.name ancestors
candidates-scopes config (some own) tenant_id ancestors =
    ap (λ t. build_sequence_code tenant_id config.name (some own) ∷ t)
      (ancestor_codes-map tenant_id config.name ancestors)

one_more_counted :
    (n : ℕ) (o : Option ℤ) → suc n < 2 ^ 63 → HasCounted n o → one_more o ≡ pos (suc n)
unfolding ◌+ℤ◌ wrap
one_more_counted n none room h = ground (arith, h)
one_more_counted n (some v) room h = rw h (ground arith)

-- reads that meet neither faults nor news change nothing
first_active_sound :
    (ks : List Text) (counters : List (Text × ℤ))
    → first_active ks (record { counters = counters; meets = [] })
      ≡ (ok (chosen ks counters), record { counters = counters; meets = [] })
unfolding first_active read_sequence synced
first_active_sound [] counters = refl
first_active_sound (k ∷ ks) counters = elim (Option-cases (unsigned (get counters k))) [
  | inl h ↦ rw (h, chosen) (first_active_sound ks counters)
  | inr (n, h) ↦ rw (h, chosen) refl
]

counts_from :
    (config : SeqAttrConfig) (segment : Option Text) (scope_tag : Option Text) (tenant_id : Text)
    (ancestors : List Text) (counters : List (Text × ℤ)) (o : Option Text)
    → chosen (candidates config scope_tag tenant_id ancestors) counters ≡ o
    → (key : Text) → key ≡ or_default (build_sequence_code tenant_id config.name none) o
    → next config scope_tag tenant_id ancestors segment (record { counters = counters; meets = [] })
      ≡ (
        ok (
            format_code config.prefix segment config.padding
              (as_u64 (one_more (get counters key)))),
        record { counters = insert counters key (one_more (get counters key)); meets = [] },
      )
unfolding next sequence_increment read_sequence synced
counts_from config segment scope_tag tenant_id ancestors counters none h key e =
    rw (e, first_active_sound (candidates config scope_tag tenant_id ancestors) counters, h) refl
counts_from config segment scope_tag tenant_id ancestors counters (some k) h key e =
    rw (e, first_active_sound (candidates config scope_tag tenant_id ancestors) counters, h) refl

-- When the calls meet neither a fault nor news from S3, a number is taken from the counter of the nearest
-- scope, the own one before its ancestors, that has one which is not negative, else from the global
-- counter. If that counter stands at `n`, not negative and with suc n below 2^63, or is not there and
-- `n` is 0, it alone is changed, to n + 1, and the code is the prefix, the segment with a dash if there is
-- one that is not empty, and n + 1 in decimal with zeros in front up to the width.
pub next-counts :
    (config : SeqAttrConfig) (scope_tag : Option Text) (tenant_id : Text) (ancestors : List Text)
    (segment : Option Text) (counters : List (Text × ℤ)) (key : Text) (n : ℕ)
    → key ≡ source config scope_tag tenant_id ancestors counters
    → HasCounted n (get counters key)
    → suc n < 2 ^ 63
    → next config scope_tag tenant_id ancestors segment (record { counters = counters; meets = [] })
      ≡ (
        ok (written_code config segment (suc n)),
        record { counters = insert counters key (pos (suc n)); meets = [] },
      )
next-counts config scope_tag tenant_id ancestors segment counters key n e h room =
    counts_from config segment scope_tag tenant_id ancestors counters _ refl key
      (rw (candidates-scopes config scope_tag tenant_id ancestors) e)
    ∙ rw
        (
          one_more_counted n (get counters key) room h,
          format_code-written_code config segment (suc n),
        )
        refl
