-- ===== src/Codice/Sequence/Keys.antt =====
-- The keys of the counters.
use mathlib.Core.List.{append_assoc}
use metri_engine.Base.Strings.{strip_prefix-append}
use metri_engine.Base.{
  ℕ, ◌-◌, ◌≡◌, refl, ap, some, [], ◌∷◌, ◌++◌, Text, text_eq_iff, text_Eq, arith, length, take,
  length-append, nat_Eq,
}
use metri_engine.Codice.Sequence.{
  build_sequence_code, strip_suffix, scope_tag_from_pk, seq_suffix, colon,
}

take-append : (xs ys : Text) → take (length xs) (xs ++ ys) ≡ xs
take-append [] ys = refl
take-append (x ∷ xs) ys = ap (λ t. x ∷ t) (take-append xs ys)

strip_suffix-append : (s suffix : Text) → strip_suffix (s ++ suffix) suffix ≡ some s
unfolding strip_suffix
strip_suffix-append s suffix =
    rw (kept, take-append s suffix, (text_eq_iff (s ++ suffix) (s ++ suffix)).1 refl) refl
  where
    kept : length (s ++ suffix) - length suffix ≡ length s
    kept = omega (arith, length-append s suffix)

-- a key, parted after its second colon
key_split :
    (t f rest : Text)
    → t ++ (colon ∷ f ++ (colon ∷ rest)) ≡ (t ++ (colon ∷ f ++ (colon ∷ []))) ++ rest
key_split t f rest = rw (append_assoc, append_assoc) refl

-- The key of a scope's counter is read back to the scope, if the scope is not empty.
pub scope_tag_from_pk-build_sequence_code :
    (tenant_id field_name : Text) (c : ℕ) (tag : Text)
    → scope_tag_from_pk
        (build_sequence_code tenant_id field_name (some (c ∷ tag)))
        tenant_id
        field_name
      ≡ some (c ∷ tag)
unfolding scope_tag_from_pk build_sequence_code
scope_tag_from_pk-build_sequence_code tenant_id field_name c tag =
    rw
      (
        key_split tenant_id field_name (c ∷ tag ++ seq_suffix),
        strip_prefix-append (tenant_id ++ (colon ∷ field_name ++ (colon ∷ [])))
            (c ∷ tag ++ seq_suffix),
        strip_suffix-append (c ∷ tag) seq_suffix,
      )
      refl
