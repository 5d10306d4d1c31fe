-- ===== src/Mbf/Ledger/Tamper.antt =====
-- What the tip of the journal's chain commits to.
use metri_engine.Base.{
  text_eq, text_eq_iff, ◌≢◌, ◌⊎◌, ℕ, ◌^◌, ◌<◌, ◌≡◌, refl, ap, sym, ◌∙◌, true, false, List, [], ◌∷◌,
  ◌++◌, length, append_inj, arith, Bool-cases, inl, inr,
}
use metri_engine.Base.Int.{
  ℤ, pos, ◌+ℤ◌, fits, wrap, wrap-fits, IsI64, as_unsigned, as_i64, as_unsigned-below,
  as_i64-as_unsigned, as_signed, as_signed-as_unsigned, as_unsigned-lt,
}
use metri_engine.Base.LittleEndian.{
  to_le_bytes, from_le_bytes, length-to_le_bytes, from_le_bytes-to_le_bytes,
}
use metri_engine.Base.Sorting.{All}
use metri_engine.Mbf.Ledger.{FixedDecimal128}
use metri_engine.Mbf.Ledger.Zone.{FinancialLedgerZone, sum_from, digest_of}
use metri_engine.Mbf.Ledger.Chain.{
  Entry, Links, Seal, is_accepted, accepted, tip_of, post_all, post_all-Chained,
}

to_le_bytes_inj :
    (w a b : ℕ) → a < 256 ^ w → b < 256 ^ w → to_le_bytes w a ≡ to_le_bytes w b → a ≡ b
to_le_bytes_inj w a b ha hb e =
    sym (from_le_bytes-to_le_bytes w a ha) ∙ ap from_le_bytes e ∙ from_le_bytes-to_le_bytes w b hb

-- the time is an i64, the sum an i128
abbrev IsSeal : Seal → Type 0
IsSeal (t, sum) = IsI64 t × (fits 128 sum ≡ true)

sum_from-fits :
    (acc : ℤ) (ds : List FixedDecimal128) → fits 128 acc ≡ true → fits 128 (sum_from acc ds) ≡ true
unfolding sum_from
sum_from-fits acc [] h = h
sum_from-fits acc (d ∷ ds) h = sum_from-fits (wrap 128 (acc +ℤ d)) ds (wrap-fits (acc +ℤ d))

accepted-IsSeal :
    (lock : ℤ) (es : List Entry) → All (λ e. IsI64 e.tx_epoch_ms) es → All IsSeal (accepted lock es)
unfolding accepted
accepted-IsSeal lock [] h = tt
accepted-IsSeal lock (e ∷ es) (h, hs) = elim (Bool-cases (is_accepted lock e)) [
  | inl a ↦ rw a ((h, sum_from-fits (pos 0) e.debits (refl)), accepted-IsSeal lock es hs)
  | inr a ↦ rw a (accepted-IsSeal lock es hs)
]

-- two messages with one digest
abbrev pub Collision : (List ℕ → List ℕ) → Type 0
Collision sha256 = (m : List ℕ) × (n : List ℕ) × (m ≢ n) × (sha256 m ≡ sha256 n)

same_or_collide :
    (sha256 : List ℕ → List ℕ) (m n : List ℕ) → sha256 m ≡ sha256 n → (m ≡ n) ⊎ Collision sha256
same_or_collide sha256 m n e = elim (Bool-cases (text_eq m n)) [
  | inl t ↦ inl ((text_eq_iff m n).0 t)
  | inr f ↦ inr (m, n, (λ p. false_true (sym f ∙ (text_eq_iff m n).1 p)), e)
]
  where
    false_true : false ≡ true → ⊥
    false_true h = cc

module _ (sha256 : List ℕ → List ℕ) (length_of : (m : List ℕ) → length (sha256 m) ≡ 32) where
  message_inj :
      (tip tip' : List ℕ) (t t' sum sum' : ℤ)
      → length tip ≡ length tip'
      → IsSeal (t, sum)
      → IsSeal (t', sum')
      → tip ++ (to_le_bytes 8 (as_unsigned 64 t) ++ to_le_bytes 16 (as_unsigned 128 sum))
        ≡ tip' ++ (to_le_bytes 8 (as_unsigned 64 t') ++ to_le_bytes 16 (as_unsigned 128 sum'))
      → (tip ≡ tip') × (t ≡ t') × (sum ≡ sum')
  message_inj tip tip' t t' sum sum' len (ht, hs) (ht', hs') e =
      let (same_tip, rest) = append_inj tip tip' _ _ len e in
      let (times, sums) =
        append_inj (to_le_bytes 8 (as_unsigned 64 t)) (to_le_bytes 8 (as_unsigned 64 t')) _ _
          (length-to_le_bytes 8 (as_unsigned 64 t) ∙ sym (length-to_le_bytes 8 (as_unsigned 64 t')))
          rest in
      (
        same_tip,
        sym (as_i64-as_unsigned t ht)
            ∙ ap as_i64
                (to_le_bytes_inj 8 _ _ (as_unsigned-below t ht) (as_unsigned-below t' ht') times)
            ∙ as_i64-as_unsigned t' ht',
        sym (as_signed-as_unsigned sum hs)
            ∙ ap (as_signed 128)
                (to_le_bytes_inj 16 _ _ (as_unsigned-lt sum hs) (as_unsigned-lt sum' hs') sums)
            ∙ as_signed-as_unsigned sum' hs',
      )

  digest_of_inj :
      (tip tip' : List ℕ) (t t' sum sum' : ℤ)
      → length tip ≡ length tip'
      → IsSeal (t, sum)
      → IsSeal (t', sum')
      → digest_of sha256 tip t sum ≡ digest_of sha256 tip' t' sum'
      → ((tip ≡ tip') × (t ≡ t') × (sum ≡ sum')) ⊎ Collision sha256
  unfolding digest_of
  digest_of_inj tip tip' t t' sum sum' len h h' e = elim (same_or_collide sha256 _ _ e) [
    | inl m ↦ inl (message_inj tip tip' t t' sum sum' len h h' m)
    | inr c ↦ inr c
  ]

  length-digest_of : (tip : List ℕ) (t sum : ℤ) → length (digest_of sha256 tip t sum) ≡ 32
  unfolding digest_of
  length-digest_of tip t sum = length_of _

  tip_of_inj :
      (ss ss' : List Seal) (tip tip' : List ℕ)
      → length tip ≡ length tip'
      → All IsSeal ss
      → All IsSeal ss'
      → length ss ≡ length ss'
      → tip_of sha256 tip ss ≡ tip_of sha256 tip' ss'
      → ((tip ≡ tip') × (ss ≡ ss')) ⊎ Collision sha256
  unfolding tip_of
  tip_of_inj [] [] tip tip' len h h' n e = inl (e, refl)
  tip_of_inj [] (s ∷ ss') tip tip' len h h' n e = absurd (omega (arith, n))
  tip_of_inj (s ∷ ss) [] tip tip' len h h' n e = absurd (omega (arith, n))
  tip_of_inj ((t, sum) ∷ ss) ((t', sum') ∷ ss') tip tip' len (h, hs) (h', hs') n e =
      elim (tip_of_inj ss ss' (digest_of sha256 tip t sum) (digest_of sha256 tip' t' sum')
        (length-digest_of tip t sum ∙ sym (length-digest_of tip' t' sum')) hs hs' (omega (arith, n))
        e) [
          | inr c ↦ inr c
          | inl (digests, rest) ↦ elim (digest_of_inj tip tip' t t' sum sum' len h h' digests) [
            | inr c ↦ inr c
            | inl (tips, times, sums) ↦ inl (tips, cc)
          ]
        ]

  -- The tip of the chain commits to the journal. Two runs of postings from one zone that end with the
  -- same tip, after as many accepted entries, have accepted the same entries in the same order (the same
  -- times and the same sums of debits), or else two messages are at hand with one digest. The digests
  -- have 32 bytes, the zone's headers form a chain, and the times are i64.
  pub post_all_commits :
      (from : List ℕ) (z : FinancialLedgerZone) (es es' : List Entry)
      → Links from z.audit_headers z.merkle_chain_tip
      → All (λ e. IsI64 e.tx_epoch_ms) es
      → All (λ e. IsI64 e.tx_epoch_ms) es'
      → length (accepted z.fiscal_lock_epoch_ms es) ≡ length (accepted z.fiscal_lock_epoch_ms es')
      → (post_all sha256 es z).merkle_chain_tip ≡ (post_all sha256 es' z).merkle_chain_tip
      → (accepted z.fiscal_lock_epoch_ms es ≡ accepted z.fiscal_lock_epoch_ms es')
        ⊎ Collision sha256
  post_all_commits from z es es' l h h' n e =
      let (links, tip, counted, kept) = post_all-Chained sha256 from es z l in
      let (links', tip', counted', kept') = post_all-Chained sha256 from es' z l in
      elim (tip_of_inj (accepted z.fiscal_lock_epoch_ms es) (accepted z.fiscal_lock_epoch_ms es')
        z.merkle_chain_tip z.merkle_chain_tip refl (accepted-IsSeal z.fiscal_lock_epoch_ms es h)
        (accepted-IsSeal z.fiscal_lock_epoch_ms es' h') n (sym tip ∙ e ∙ tip')) [
          | inl (same_tip, same) ↦ inl same
          | inr c ↦ inr c
        ]
