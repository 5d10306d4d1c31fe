-- ===== src/Mbf/Seal/Keyring.antt =====
-- Which seals are accepted, and that keys can be rotated.
use metri_engine.Base.{
  ℕ, ◌≡◌, ◌⊎◌, ◌↔◌, inl, inr, refl, ap, sym, ◌∙◌, Bool, true, false, not, ◌&&◌, Option, none, some,
  List, Text, Result, ok, err, if◌then◌else◌, text_eq, text_eq_iff, subst, Bool-cases,
}
use native.Mathlib.Omega.{arith}
use metri_engine.Errors.{ErrorCode, mbf_corrupt001, mbf_tenant_seal001}
use metri_engine.Mbf.Seal.{
  EngineConfig, legacy_mbf_seal_key, non_empty, active_mbf_seal_key, MbfTenantCryptoSeal, is_ok,
  compute_context_hash, seal_block, verify_block, seal_active, verify_with_keyring, by_hmac_secret,
  after_active,
}
use metri_engine.Mbf.Seal.Verdicts.{
  disjoint, sealed_fields, Vouches, verify_block-Judged, verify_block-stranger, ok-Vouches,
  Vouches-ok,
}

-- a key that the configuration accepts
abbrev pub Accepts : EngineConfig → Text → Type 0
Accepts cfg key =
    (key ≡ active_mbf_seal_key cfg)
    ⊎ (non_empty cfg.hmac_secret ≡ some key)
    ⊎ (key ≡ legacy_mbf_seal_key)

second_false : (a b : Bool) → b ≡ false → (a && b) ≡ true → ⊥
second_false true b h e = cc
second_false false b h e = cc

module _ (sha256 : List ℕ → List ℕ) (hmac_sha256 : List ℕ → List ℕ → Option (List ℕ))
    (any_key : (key m : List ℕ) → (mac : List ℕ) × (hmac_sha256 key m ≡ some mac)) where
  module _ (cfg : EngineConfig) (tenant_id entity_type : Text) (payload : List ℕ)
      (seal : MbfTenantCryptoSeal) where
    abbrev context : List ℕ
    context = compute_context_hash sha256 hmac_sha256 tenant_id entity_type

    abbrev verified : List ℕ → Result ErrorCode (Unit {0})
    verified key = verify_block sha256 hmac_sha256 key tenant_id entity_type payload seal

    abbrev hmac_key : Option Text → Bool
    hmac_key o = by_hmac_secret sha256 hmac_sha256 cfg tenant_id entity_type payload seal o

    abbrev later : Result ErrorCode (Unit {0}) → Result ErrorCode (Unit {0})
    later r = after_active sha256 hmac_sha256 cfg tenant_id entity_type payload seal r

    hmac_key-Vouches :
        (o : Option Text)
        → seal.tenant_context_hash ≡ context
        → hmac_key o ≡ true
        → (key : Text) × (o ≡ some key)
          × Vouches sha256 hmac_sha256 any_key tenant_id payload seal key
    hmac_key-Vouches none h e = cc
    hmac_key-Vouches (some key) h e =
        elim (verify_block-Judged sha256 hmac_sha256 any_key tenant_id entity_type payload seal key
          h) [ inl (same, e') ↦ (key, refl, same) | inr (other, e') ↦ absurd (refused e e') ]
      where
        refused : hmac_key (some key) ≡ true → verified key ≡ err mbf_corrupt001 → ⊥
        refused e e' =
            second_false (not (text_eq key (active_mbf_seal_key cfg))) (is_ok (verified key))
              (ap is_ok e') e

    hmac_key_accepts :
        (key : Text) (o : Option Text)
        → seal.tenant_context_hash ≡ context
        → o ≡ some key
        → (key ≡ active_mbf_seal_key cfg → ⊥)
        → Vouches sha256 hmac_sha256 any_key tenant_id payload seal key
        → hmac_key o ≡ true
    hmac_key_accepts key o h e other same =
        subst (λ x. hmac_key x ≡ true) (sym e)
          (rw
            (
              unlike,
              Vouches-ok sha256 hmac_sha256 any_key tenant_id entity_type payload seal key h same,
            )
            refl)
      where
        unlike : text_eq key (active_mbf_seal_key cfg) ≡ false
        unlike = ground (arith, other, text_eq_iff key (active_mbf_seal_key cfg))

    -- An active key that does not vouch leaves it to the other keys.
    later_ok :
        verified (active_mbf_seal_key cfg) ≡ err mbf_corrupt001
        → later (verified (active_mbf_seal_key cfg)) ≡ (
            if hmac_key (non_empty cfg.hmac_secret)
            then ok tt
            else (if text_eq (active_mbf_seal_key cfg) legacy_mbf_seal_key
                then err mbf_corrupt001
                else verified legacy_mbf_seal_key))
    later_ok e = rw e refl

    later-Vouches :
        seal.tenant_context_hash ≡ context
        → verified (active_mbf_seal_key cfg) ≡ err mbf_corrupt001
        → later (verified (active_mbf_seal_key cfg)) ≡ ok tt
        → (key : Text) × Accepts cfg key
          × Vouches sha256 hmac_sha256 any_key tenant_id payload seal key
    later-Vouches h e accepted = elim (Bool-cases (hmac_key (non_empty cfg.hmac_secret))) [
      | inl by_secret ↦
          let (key, held, same) = hmac_key-Vouches (non_empty cfg.hmac_secret) h by_secret in
          (key, inr (inl held), same)
      | inr not_secret ↦ elim (Bool-cases (text_eq (active_mbf_seal_key cfg) legacy_mbf_seal_key)) [
        | inl one ↦
            absurd (disjoint _ mbf_corrupt001 accepted (rw (not_secret, one) at (later_ok e)))
        | inr two ↦ (
          legacy_mbf_seal_key,
          inr (inr refl),
          ok-Vouches sha256 hmac_sha256 any_key tenant_id entity_type payload seal
              legacy_mbf_seal_key h (sym (rw (not_secret, two) at (later_ok e)) ∙ accepted),
        )
      ]
    ]

    accepted_later :
        (key : Text)
        → seal.tenant_context_hash ≡ context
        → verified (active_mbf_seal_key cfg) ≡ err mbf_corrupt001
        → Accepts cfg key
        → Vouches sha256 hmac_sha256 any_key tenant_id payload seal key
        → later (verified (active_mbf_seal_key cfg)) ≡ ok tt
    accepted_later key h e accepts same = elim accepts [
      | inl k ↦ absurd (not_active k)
      | inr (inl held) ↦
          later_ok e
          ∙ rw (hmac_key_accepts key (non_empty cfg.hmac_secret) h held not_active same) refl
      | inr (inr legacy) ↦ elim (Bool-cases (hmac_key (non_empty cfg.hmac_secret))) [
        | inl by_secret ↦ later_ok e ∙ rw by_secret refl
        | inr not_secret ↦
            later_ok e
            ∙ rw (not_secret, unlike legacy)
                (Vouches-ok sha256 hmac_sha256 any_key tenant_id entity_type payload seal
                  legacy_mbf_seal_key h
                  (subst (Vouches sha256 hmac_sha256 any_key tenant_id payload seal) legacy same))
      ]
    ]
      where
        not_active : key ≡ active_mbf_seal_key cfg → ⊥
        not_active k =
            disjoint (verified key) mbf_corrupt001
              (Vouches-ok sha256 hmac_sha256 any_key tenant_id entity_type payload seal key h same)
              (subst (λ x. verified x ≡ err mbf_corrupt001) (sym k) e)

        unlike :
            key ≡ legacy_mbf_seal_key
            → text_eq (active_mbf_seal_key cfg) legacy_mbf_seal_key ≡ false
        unlike legacy =
            ground
              (arith, not_active, legacy, text_eq_iff (active_mbf_seal_key cfg) legacy_mbf_seal_key)

    -- The keyring accepts just those seals that carry the context of this tenant and entity type, and
    -- whose MAC is that of the payload under the active key, the HMAC secret if it is not empty, or the
    -- legacy key. HMAC takes keys of any length.
    pub verify_with_keyring_iff :
        verify_with_keyring sha256 hmac_sha256 cfg tenant_id entity_type payload seal ≡ ok tt ↔ (
          (seal.tenant_context_hash ≡ compute_context_hash sha256 hmac_sha256 tenant_id entity_type)
          × (key : Text) × Accepts cfg key
          × Vouches sha256 hmac_sha256 any_key tenant_id payload seal key)
    unfolding verify_with_keyring
    verify_with_keyring_iff = (
      λ accepted. elim (Bool-cases (text_eq seal.tenant_context_hash context)) [
        | inl t ↦
            let h : seal.tenant_context_hash ≡ context =
              (text_eq_iff seal.tenant_context_hash context).0 t in
            let (key, accepts, same) = vouched h accepted in (h, key, accepts, same)
        | inr f ↦ absurd (stranger f accepted)
      ],
      λ (h, key, accepts, same).
          elim (verify_block-Judged sha256 hmac_sha256 any_key tenant_id entity_type payload seal
            (active_mbf_seal_key cfg) h) [
              | inl (vouched, e) ↦ rw e refl
              | inr (other, e) ↦ accepted_later key h e accepts same
            ],
    )
      where
        vouched :
            seal.tenant_context_hash ≡ context
            → later (verified (active_mbf_seal_key cfg)) ≡ ok tt
            → (key : Text) × Accepts cfg key
              × Vouches sha256 hmac_sha256 any_key tenant_id payload seal key
        vouched h accepted =
            elim (verify_block-Judged sha256 hmac_sha256 any_key tenant_id entity_type payload seal
              (active_mbf_seal_key cfg) h) [
                | inl (same, e) ↦ (active_mbf_seal_key cfg, inl refl, same)
                | inr (other, e) ↦ later-Vouches h e accepted
              ]

        stranger :
            text_eq seal.tenant_context_hash context ≡ false
            → later (verified (active_mbf_seal_key cfg)) ≡ ok tt
            → ⊥
        stranger f accepted = disjoint _ mbf_tenant_seal001 accepted (
            ap later (
              verify_block-stranger sha256 hmac_sha256 any_key tenant_id entity_type payload seal
                (active_mbf_seal_key cfg) unlike))
          where
            unlike : seal.tenant_context_hash ≡ context → ⊥
            unlike h = ground (arith, h, f, text_eq_iff seal.tenant_context_hash context)

  -- Keys can be rotated while blocks are in use. A seal that was made under one configuration is accepted
  -- under another, for the same tenant, entity type and payload, if its key is the other's active one, its
  -- HMAC secret and not empty, or the legacy key. HMAC takes keys of any length.
  pub verify_with_keyring-seal_active :
      (before after : EngineConfig) (tenant_id entity_type : Text) (epoch_id : ℕ) (payload : List ℕ)
      (seal : MbfTenantCryptoSeal)
      → seal_active sha256 hmac_sha256 before tenant_id entity_type epoch_id payload ≡ ok seal
      → Accepts after (active_mbf_seal_key before)
      → verify_with_keyring sha256 hmac_sha256 after tenant_id entity_type payload seal ≡ ok tt
  unfolding seal_active seal_block
  verify_with_keyring-seal_active before after tenant_id entity_type epoch_id payload seal h
        accepts =
      let (same_context, same_nonce, mac) = sealed_fields sha256 hmac_sha256 _ _ _ _ seal h in
      (verify_with_keyring_iff after tenant_id entity_type payload seal).1
        (same_context, active_mbf_seal_key before, accepts, rw (same_context, same_nonce) mac)
