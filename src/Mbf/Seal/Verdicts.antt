-- ===== src/Mbf/Seal/Verdicts.antt =====
-- What one key comes to, on the seal of a block.
use metri_engine.Base.{
  ℕ, ◌≡◌, ◌⊎◌, inl, inr, refl, ap, sym, false, Option, none, some, List, ◌++◌, Text, Result, ok,
  err, ◌>>=◌, text_eq, text_eq_iff, Bool-cases,
}
use native.Mathlib.Omega.{arith}
use metri_engine.Errors.{ErrorCode, mbf_corrupt001, mbf_tenant_seal001}
use metri_engine.Mbf.Seal.{
  MbfTenantCryptoSeal, derive_tenant_key, compute_context_hash, compared, sealed, verify_block,
}

-- an answer is not both an error and a success
pub disjoint : (r : Result ErrorCode (Unit {0})) (e : ErrorCode) → r ≡ ok tt → r ≡ err e → ⊥
disjoint r e x y = cc

module _ (sha256 : List ℕ → List ℕ) (hmac_sha256 : List ℕ → List ℕ → Option (List ℕ)) where
  pub sealed_fields :
      (context_hash nonce : List ℕ) (o : Option (List ℕ)) (flags : ℕ) (seal : MbfTenantCryptoSeal)
      → (sealed sha256 hmac_sha256 context_hash nonce o >>= λ s.
          ok (record s { crypto_flags = flags }))
        ≡ ok seal
      → (seal.tenant_context_hash ≡ context_hash) × (seal.nonce ≡ nonce) × (o ≡ some seal.keyed_mac)
  sealed_fields context_hash nonce none flags seal h = cc
  sealed_fields context_hash nonce (some mac) flags seal h = (cc, cc, cc)

module _ (sha256 : List ℕ → List ℕ) (hmac_sha256 : List ℕ → List ℕ → Option (List ℕ))
    (any_key : (key m : List ℕ) → (mac : List ℕ) × (hmac_sha256 key m ≡ some mac)) where
  -- the MAC is that of the payload under the key, for this tenant
  abbrev pub Vouches : Text → List ℕ → MbfTenantCryptoSeal → Text → Type 0
  Vouches tenant_id payload seal key =
      hmac_sha256 (derive_tenant_key sha256 hmac_sha256 key tenant_id)
        (seal.tenant_context_hash ++ (seal.nonce ++ payload))
      ≡ some seal.keyed_mac

  -- what the MAC of one key comes to
  abbrev pub Judged : Type 0 → Result ErrorCode (Unit {0}) → Type 0
  Judged Same r = (Same × (r ≡ ok tt)) ⊎ ((Same → ⊥) × (r ≡ err mbf_corrupt001))

  compared-Judged :
      (keyed_mac : List ℕ) (o : Option (List ℕ))
      → (mac : List ℕ) × (o ≡ some mac)
      → Judged (o ≡ some keyed_mac) (compared sha256 hmac_sha256 keyed_mac o)
  compared-Judged keyed_mac none (mac, h) = absurd cc
  compared-Judged keyed_mac (some m) (mac, h) = elim (Bool-cases (text_eq keyed_mac m)) [
    | inl e ↦ inl (ap some (sym ((text_eq_iff keyed_mac m).0 e)), rw e refl)
    | inr e ↦ inr ((λ same. other e same), rw e refl)
  ]
    where
      other : text_eq keyed_mac m ≡ false → some m ≡ some keyed_mac → ⊥
      other e same = ground (arith, e, same, text_eq_iff keyed_mac m)

  module _ (tenant_id entity_type : Text) (payload : List ℕ) (seal : MbfTenantCryptoSeal) where
    abbrev context : List ℕ
    context = compute_context_hash sha256 hmac_sha256 tenant_id entity_type

    abbrev verified : List ℕ → Result ErrorCode (Unit {0})
    verified key = verify_block sha256 hmac_sha256 key tenant_id entity_type payload seal

    pub verify_block-Judged :
        (key : Text)
        → seal.tenant_context_hash ≡ context
        → Judged (Vouches tenant_id payload seal key) (verified key)
    unfolding verify_block
    verify_block-Judged key h =
        rw ((text_eq_iff seal.tenant_context_hash context).1 h)
          (compared-Judged seal.keyed_mac _ (any_key _ _))

    pub verify_block-stranger :
        (key : Text)
        → (seal.tenant_context_hash ≡ context → ⊥)
        → verified key ≡ err mbf_tenant_seal001
    unfolding verify_block
    verify_block-stranger key h = ground (arith, h, text_eq_iff seal.tenant_context_hash context)

    pub ok-Vouches :
        (key : Text)
        → seal.tenant_context_hash ≡ context
        → verified key ≡ ok tt
        → Vouches tenant_id payload seal key
    ok-Vouches key h e = elim (verify_block-Judged key h) [
      | inl (same, e') ↦ same
      | inr (other, e') ↦ absurd (disjoint (verified key) mbf_corrupt001 e e')
    ]

    pub Vouches-ok :
        (key : Text)
        → seal.tenant_context_hash ≡ context
        → Vouches tenant_id payload seal key
        → verified key ≡ ok tt
    Vouches-ok key h same = elim (verify_block-Judged key h) [
      | inl (same', e) ↦ e
      | inr (other, e) ↦ absurd (other same)
    ]
