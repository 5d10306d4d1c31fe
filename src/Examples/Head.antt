-- ===== src/Examples/Head.antt =====
-- HOT_HEAD objects and seals: an object of two frames, a commit to a store that is empty, and a seal that was
-- made before the key was changed. The hashes and the compression are simple stand-ins.
use metri_engine.Base.{
  ℕ, ◌+◌, ◌%◌, ◌<◌, ◌^◌, ◌≡◌, ◌↔◌, inl, inr, refl, ap, true, Option, none, some, List, [], ◌∷◌,
  ◌++◌, Text, ok, codes, text_eq, text_Eq, length, take, arith,
}
use metri_engine.Base.Int.{pos}
use metri_engine.Mbf.Ledger.Zone.{zeros}
use metri_engine.Mbf.Store.Shared.{Shared}
use metri_engine.Mbf.Coordinator.{CommittedDeltaFrame, MbfWriteCoordinator, Transaction}
use metri_engine.Mbf.Seal.{
  EngineConfig, MbfTenantCryptoSeal, seal_active, seal_block, derive_tenant_key,
  verify_with_keyring, active_mbf_seal_key, nonce_of, compute_context_hash,
}
use metri_engine.Mbf.Seal.Verdicts.{Vouches}
use metri_engine.Mbf.Seal.Keyring.{
  Accepts, verify_with_keyring_iff, verify_with_keyring-seal_active,
}
use metri_engine.Mbf.HotHead.{Crates, encode_hot_head_binary, decode_hot_head_binary}
use metri_engine.Mbf.HotHead.RoundTrip.{decode-encode_hot_head_binary}

abbrev crates : Crates
crates = record {
  lz4 = record {
    compress = λ raw. raw;
    decompress = λ packed. some packed;
    decompress-compress = λ raw. refl;
  };
  utf8 = record {
    is_utf8 = λ s. true;
    from_utf8_lossy = λ s. s;
    after_ascii = λ s c rest small valid. refl;
    lossy_valid = λ s valid. refl;
  };
  crc32 = λ m. length m % 2 ^ 32;
  sha256 = λ m. zeros 32;
  hmac_sha256 = λ key m. some (zeros 32);
  xxh64 = λ t seed. length t + seed % 64;
}

small_crc : (m : List ℕ) → crates.crc32 m < 2 ^ 32
small_crc m = omega arith

mac_length : (key m mac : List ℕ) → crates.hmac_sha256 key m ≡ some mac → length mac ≡ 32
mac_length key m mac h = ap length (same h)
  where
    same : some (zeros 32) ≡ some mac → mac ≡ zeros 32
    same h = cc

abbrev cfg : EngineConfig
cfg = record { mbf_seal_key = some (codes "new"); hmac_secret = some (codes "old") }

abbrev earlier : EngineConfig
earlier = record { mbf_seal_key = none; hmac_secret = some (codes "old") }

abbrev two_frames : List CommittedDeltaFrame
two_frames =
    record {
      signature = record {
        base_epoch_id = 0;
        new_epoch_id = 1;
        read_set_bloom = 5;
        write_set_bloom = 2;
      };
      payload_json = codes "{}";
    }
    ∷ record {
      signature = record {
        base_epoch_id = 1;
        new_epoch_id = 2;
        read_set_bloom = 8;
        write_set_bloom = 8;
      };
      payload_json = codes "[1]";
    }
    ∷ []

decode-encode_hot_head_binary_example :
    decode_hot_head_binary crates
      (encode_hot_head_binary crates cfg (pos 1700) (codes "acme") 2 two_frames)
    ≡ ok two_frames
decode-encode_hot_head_binary_example =
    decode-encode_hot_head_binary crates small_crc mac_length cfg (pos 1700) (codes "acme") 2
      two_frames
      (
        ((omega arith, omega arith, omega arith, omega arith), refl, omega arith),
        (((omega arith, omega arith, omega arith, omega arith), refl, omega arith), tt),
      )
      (omega arith)

abbrev tx : Transaction
tx = record {
  tenant_id = codes "acme";
  cell_id = 2;
  read_keys = codes "ab" ∷ [];
  write_keys = codes "c" ∷ [];
  payload = codes "{}";
}

abbrev empty_coordinator : MbfWriteCoordinator Shared
empty_coordinator = record {
  store = record {
    store = record {
      objects = [];
      injected_winners = [];
      gets_count = 0;
      puts_count = 0;
      range_gets_count = 0;
      not_modified_304_hits = 0;
      conflict_412_count = 0;
    };
    schedule = [];
  };
  total_commits = 0;
  total_auto_rebases = 0;
}

-- an HMAC that depends on the key
abbrev hmac : List ℕ → List ℕ → Option (List ℕ)
hmac key m = some (take 32 (key ++ m))

abbrev sealed_before : MbfTenantCryptoSeal
sealed_before = record {
  tenant_context_hash = take 16 (codes "acme#hot_head");
  nonce = nonce_of 7;
  crypto_flags = 2;
  keyed_mac = take 32 (codes "METRI_MBF_V1_TENANT_KDF:old:acme");
}

verify_with_keyring-seal_active_example :
    verify_with_keyring (λ m. m) hmac cfg (codes "acme") (codes "hot_head") (9 ∷ []) sealed_before
    ≡ ok tt
unfolding seal_active seal_block active_mbf_seal_key compute_context_hash derive_tenant_key text_eq
verify_with_keyring-seal_active_example =
    verify_with_keyring-seal_active (λ m. m) hmac (λ key m. (take 32 (key ++ m), refl)) earlier cfg
      (codes "acme") (codes "hot_head") 7 (9 ∷ []) sealed_before refl (inr (inl refl))

verify_with_keyring_iff_example :
    verify_with_keyring (λ m. m) hmac cfg (codes "acme") (codes "hot_head") (9 ∷ []) sealed_before
      ≡ ok tt
    ↔ ((sealed_before.tenant_context_hash
          ≡ compute_context_hash (λ m. m) hmac (codes "acme") (codes "hot_head"))
        × (key : Text) × Accepts cfg key
        × Vouches
            (λ m. m)
            hmac
            (λ key m. (take 32 (key ++ m), refl))
            (codes "acme")
            (9 ∷ [])
            sealed_before
            key)
verify_with_keyring_iff_example =
    verify_with_keyring_iff (λ m. m) hmac (λ key m. (take 32 (key ++ m), refl)) cfg (codes "acme")
      (codes "hot_head") (9 ∷ []) sealed_before
