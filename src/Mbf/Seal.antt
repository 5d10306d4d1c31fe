-- ===== src/Mbf/Seal.antt =====
-- The seal of a block, `MbfTenantCryptoSeal` of src/mbf/format/mod.rs, under the keys of the configuration,
-- src/domain/config.rs. SHA-256 and HMAC-SHA256 are parameters; HMAC may refuse a key.
use metri_engine.Base.{
  ℕ, ◌≡◌, Bool, true, false, not, ◌&&◌, Option, none, some, List, [], ◌∷◌, ◌++◌, Text, Result, ok,
  err, ◌>>=◌, if◌then◌else◌, ltb, text_eq, codes, length, take,
}
use metri_engine.Base.LittleEndian.{to_le_bytes}
use metri_engine.Errors.{ErrorCode, mbf_corrupt001, mbf_tenant_seal001}
use metri_engine.Mbf.Wire.Bytes.{Read, read_slice, read_word}
use metri_engine.Mbf.Format.{MbfFooterTrailer}
pub mod Verdicts
pub mod Keyring

-- the fields of `EngineConfig` that the seals depend on
pub record EngineConfig : Type 0 where
  pub mbf_seal_key : Option Text
  pub hmac_secret : Option Text

abbrev pub legacy_mbf_seal_key : Text
legacy_mbf_seal_key = codes "METRI_VORTEX_MBF_SEAL_KEY_2026"

-- if let Some(k), and !k.is_empty()
abbrev pub non_empty : Option Text → Option Text
non_empty none = none
non_empty (some []) = none
non_empty (some (c ∷ cs)) = some (c ∷ cs)

abbrev pub first_key : Option Text → Option Text → Text
first_key (some k) other = k
first_key none (some k) = k
first_key none none = legacy_mbf_seal_key

unfoldable pub active_mbf_seal_key : EngineConfig → Text
active_mbf_seal_key cfg = first_key (non_empty cfg.mbf_seal_key) (non_empty cfg.hmac_secret)

pub record MbfTenantCryptoSeal : Type 0 where
  pub tenant_context_hash : List ℕ
  pub nonce : List ℕ
  pub crypto_flags : ℕ
  pub keyed_mac : List ℕ

-- MbfTenantCryptoSeal::to_bytes
unfoldable pub seal_to_bytes : MbfTenantCryptoSeal → List ℕ
seal_to_bytes seal =
    seal.tenant_context_hash ++ (seal.nonce ++ (to_le_bytes 4 seal.crypto_flags ++ seal.keyed_mac))

unfoldable pub read_seal : List ℕ → Read MbfTenantCryptoSeal
read_seal bytes = read_slice 16 bytes >>= λ (context_hash, after_context).
    read_slice 12 after_context >>= λ (nonce, after_nonce).
    read_word 4 after_nonce >>= λ (crypto_flags, after_flags).
    read_slice 32 after_flags >>= λ (keyed_mac, rest). ok (
      record {
        tenant_context_hash = context_hash;
        nonce = nonce;
        crypto_flags = crypto_flags;
        keyed_mac = keyed_mac;
      },
      rest,
    )

-- MbfTenantCryptoSeal::from_bytes
unfoldable pub seal_from_bytes : List ℕ → Result ErrorCode MbfTenantCryptoSeal
seal_from_bytes bytes =
    if ltb (length bytes) 64
    then err mbf_corrupt001
    else (read_seal bytes >>= λ (seal, rest). ok seal)

unfoldable pub truncated_hmac_24 : MbfTenantCryptoSeal → List ℕ
truncated_hmac_24 seal = take 24 seal.keyed_mac

unfoldable pub verify_footer_tag :
    MbfFooterTrailer → MbfTenantCryptoSeal → Result ErrorCode (Unit {0})
verify_footer_tag footer seal =
    if text_eq (truncated_hmac_24 seal) footer.hmac_tag_truncated then ok tt else err mbf_corrupt001

-- the nonce holds the epoch, and four zeros
abbrev pub nonce_of : ℕ → List ℕ
nonce_of epoch_id = to_le_bytes 8 epoch_id ++ (0 ∷ 0 ∷ 0 ∷ 0 ∷ [])

abbrev pub is_tenant_seal : ErrorCode → Bool
is_tenant_seal mbf_tenant_seal001 = true
is_tenant_seal other = false

abbrev pub is_ok : Result ErrorCode (Unit {0}) → Bool
is_ok (ok u) = true
is_ok (err e) = false

module _ (sha256 : List ℕ → List ℕ) (hmac_sha256 : List ℕ → List ℕ → Option (List ℕ)) where
  unfoldable pub derive_tenant_key : List ℕ → Text → List ℕ
  derive_tenant_key master_secret tenant_id =
      sha256 (codes "METRI_MBF_V1_TENANT_KDF:" ++ (master_secret ++ (codes ":" ++ tenant_id)))

  unfoldable pub compute_context_hash : Text → Text → List ℕ
  compute_context_hash tenant_id entity_type =
      take 16 (sha256 (tenant_id ++ (codes "#" ++ entity_type)))

  abbrev pub sealed : List ℕ → List ℕ → Option (List ℕ) → Result ErrorCode MbfTenantCryptoSeal
  sealed context_hash nonce none = err mbf_tenant_seal001
  sealed context_hash nonce (some mac) = ok (record {
    tenant_context_hash = context_hash;
    nonce = nonce;
    crypto_flags = 1;
    keyed_mac = mac;
  })

  unfoldable pub seal_block :
      List ℕ → Text → Text → ℕ → List ℕ → Result ErrorCode MbfTenantCryptoSeal
  seal_block master_secret tenant_id entity_type epoch_id payload =
      let context_hash : List ℕ = compute_context_hash tenant_id entity_type in
      sealed context_hash (nonce_of epoch_id) (
        hmac_sha256 (derive_tenant_key master_secret tenant_id)
          (context_hash ++ (nonce_of epoch_id ++ payload)))

  abbrev pub compared : List ℕ → Option (List ℕ) → Result ErrorCode (Unit {0})
  compared keyed_mac none = err mbf_tenant_seal001
  compared keyed_mac (some expected_mac) =
      if text_eq keyed_mac expected_mac then ok tt else err mbf_corrupt001

  unfoldable pub verify_block :
      List ℕ → Text → Text → List ℕ → MbfTenantCryptoSeal → Result ErrorCode (Unit {0})
  verify_block master_secret expected_tenant_id expected_entity_type payload seal =
      if text_eq seal.tenant_context_hash
        (compute_context_hash expected_tenant_id expected_entity_type)
      then compared seal.keyed_mac (
          hmac_sha256 (derive_tenant_key master_secret expected_tenant_id)
            (seal.tenant_context_hash ++ (seal.nonce ++ payload)))
      else err mbf_tenant_seal001

  unfoldable pub seal_active :
      EngineConfig → Text → Text → ℕ → List ℕ → Result ErrorCode MbfTenantCryptoSeal
  seal_active cfg tenant_id entity_type epoch_id payload =
      let active_key : Text = active_mbf_seal_key cfg in
      seal_block active_key tenant_id entity_type epoch_id payload >>= λ seal.
      ok (record seal { crypto_flags = if text_eq active_key legacy_mbf_seal_key then 1 else 2 })

  module _ (cfg : EngineConfig) (tenant_id entity_type : Text) (payload : List ℕ)
      (seal : MbfTenantCryptoSeal) where
    abbrev pub verified_by : List ℕ → Result ErrorCode (Unit {0})
    verified_by key = verify_block key tenant_id entity_type payload seal

    abbrev pub by_hmac_secret : Option Text → Bool
    by_hmac_secret none = false
    by_hmac_secret (some raw_hmac) =
        not (text_eq raw_hmac (active_mbf_seal_key cfg)) && is_ok (verified_by raw_hmac)

    -- match on the answer of the active key
    abbrev pub after_active : Result ErrorCode (Unit {0}) → Result ErrorCode (Unit {0})
    after_active (ok u) = ok u
    after_active (err e) =
        if is_tenant_seal e
        then err e
        else (if by_hmac_secret (non_empty cfg.hmac_secret)
            then ok tt
            else (if text_eq (active_mbf_seal_key cfg) legacy_mbf_seal_key
                then err mbf_corrupt001
                else verified_by legacy_mbf_seal_key))

    unfoldable pub verify_with_keyring : Result ErrorCode (Unit {0})
    verify_with_keyring = after_active (verified_by (active_mbf_seal_key cfg))
