-- ===== src/Mbf/Ledger/Chain.antt =====
-- The chain of digests that seals the journal, and the fiscal lock.
use metri_engine.Base.{
  ℕ, suc, ◌+◌, length-append, ◌≡◌, refl, sym, subst, ◌∙◌, Bool, true, false, not, List, [], ◌∷◌,
  ◌++◌, ◌&&◌, if◌then◌else◌, length, arith, Bool-cases, inl, inr,
}
use metri_engine.Base.Int.{ℤ, pos, leb_ℤ}
use metri_engine.Mbf.Ledger.{FixedDecimal128}
use metri_engine.Mbf.Ledger.Zone.{
  LedgerAuditHeader, FinancialLedgerZone, sum_from, digest_of, sealed, record_journal_entry,
}

-- an entry to post: its time, its debits and its credits
pub record Entry : Type 0 where
  pub tx_epoch_ms : ℤ
  pub debits : List FixedDecimal128
  pub credits : List FixedDecimal128

-- Each header starts where the one before it ended, the last one at the tip.
abbrev pub Links : List ℕ → List LedgerAuditHeader → List ℕ → Type 0
Links from [] tip = from ≡ tip
Links from (h ∷ hs) tip = (h.prev_block_sha256 ≡ from) × Links h.block_merkle_root hs tip

-- the entry is not in a closed period, and its debits and credits have one sum
abbrev pub is_accepted : ℤ → Entry → Bool
is_accepted lock e =
    not (leb_ℤ e.tx_epoch_ms lock)
    && (leb_ℤ (sum_from (pos 0) e.debits) (sum_from (pos 0) e.credits)
        && leb_ℤ (sum_from (pos 0) e.credits) (sum_from (pos 0) e.debits))

-- what an entry seals: its time and the sum of its debits
abbrev pub Seal : Type 0
Seal = ℤ × ℤ

-- the entries that a zone with this lock accepts
unfoldable pub accepted : ℤ → List Entry → List Seal
accepted lock [] = []
accepted lock (e ∷ es) =
    let rest : List Seal = accepted lock es in
    if is_accepted lock e then (e.tx_epoch_ms, sum_from (pos 0) e.debits) ∷ rest else rest

module _ (sha256 : List ℕ → List ℕ) where
  unfoldable pub post_all : List Entry → FinancialLedgerZone → FinancialLedgerZone
  post_all [] z = z
  post_all (e ∷ es) z =
      post_all es ((record_journal_entry sha256 e.tx_epoch_ms e.debits e.credits z).1)

  unfoldable pub tip_of : List ℕ → List Seal → List ℕ
  tip_of tip [] = tip
  tip_of tip ((t, sum) ∷ seals) = tip_of (digest_of sha256 tip t sum) seals

  -- One entry: sealed if it is accepted, and else the zone stays as it was.
  record_journal_entry_seals :
      (e : Entry) (z : FinancialLedgerZone)
      → (record_journal_entry sha256 e.tx_epoch_ms e.debits e.credits z).1 ≡ (
          if is_accepted z.fiscal_lock_epoch_ms e
          then sealed sha256 e.tx_epoch_ms (sum_from (pos 0) e.debits) z
          else z)
  unfolding record_journal_entry
  record_journal_entry_seals e z = ground arith

  Links-concat :
      (from : List ℕ) (hs : List LedgerAuditHeader) (h : LedgerAuditHeader) (tip : List ℕ)
      → Links from hs tip
      → h.prev_block_sha256 ≡ tip
      → Links from (hs ++ (h ∷ [])) h.block_merkle_root
  Links-concat from [] h tip l e = (e ∙ sym l, refl)
  Links-concat from (g ∷ hs) h tip (e1, l) e = (e1, Links-concat g.block_merkle_root hs h tip l e)

  -- what posting makes of a zone
  abbrev pub Chained : List ℕ → FinancialLedgerZone → List Entry → FinancialLedgerZone → Type 0
  Chained from z es z' =
      Links from z'.audit_headers z'.merkle_chain_tip
      × (z'.merkle_chain_tip ≡ tip_of z.merkle_chain_tip (accepted z.fiscal_lock_epoch_ms es))
      × (length z'.audit_headers
          ≡ length z.audit_headers + length (accepted z.fiscal_lock_epoch_ms es))
      × (z'.batches ≡ z.batches)

  -- Posting any entries keeps the headers a chain from its first link to the tip. The tip is the digest
  -- over the accepted entries in their order, and there is one header more for each of them: entries in
  -- the closed period and unbalanced ones leave nothing behind. The stock stays as it was.
  pub post_all-Chained :
      (from : List ℕ) (es : List Entry) (z : FinancialLedgerZone)
      → Links from z.audit_headers z.merkle_chain_tip
      → Chained from z es (post_all es z)
  unfolding post_all accepted tip_of sealed
  post_all-Chained from [] z l = (l, refl, omega arith, refl)
  post_all-Chained from (e ∷ es) z l = elim (Bool-cases (is_accepted z.fiscal_lock_epoch_ms e)) [
    | inl a ↦
        subst (λ x. Chained from z (e ∷ es) (post_all es x)) (sym (opened a))
          (rw a (sealed_first (post_all es z') (post_all-Chained from es z' (linked l))))
    | inr a ↦
        subst (λ x. Chained from z (e ∷ es) (post_all es x)) (sym (refused a))
          (rw a (post_all-Chained from es z l))
  ]
    where
      z' : FinancialLedgerZone
      z' = sealed sha256 e.tx_epoch_ms (sum_from (pos 0) e.debits) z

      after : FinancialLedgerZone
      after = (record_journal_entry sha256 e.tx_epoch_ms e.debits e.credits z).1

      opened : is_accepted z.fiscal_lock_epoch_ms e ≡ true → after ≡ z'
      opened a = rw a at (record_journal_entry_seals e z)

      refused : is_accepted z.fiscal_lock_epoch_ms e ≡ false → after ≡ z
      refused a = rw a at (record_journal_entry_seals e z)

      linked :
          Links from z.audit_headers z.merkle_chain_tip
          → Links from z'.audit_headers z'.merkle_chain_tip
      linked l = Links-concat from z.audit_headers _ z.merkle_chain_tip l refl

      sealed_first :
          (y : FinancialLedgerZone)
          → Chained from z' es y
          → Links from y.audit_headers y.merkle_chain_tip
            × (y.merkle_chain_tip ≡ tip_of z'.merkle_chain_tip (accepted z.fiscal_lock_epoch_ms es))
            × (length y.audit_headers
                ≡ length z.audit_headers + suc (length (accepted z.fiscal_lock_epoch_ms es)))
            × (y.batches ≡ z.batches)
      sealed_first y (links, tip, len, kept) =
          (links, tip, omega (arith, len, length-append z.audit_headers (_ ∷ [])), kept)
