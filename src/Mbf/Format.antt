-- ===== src/Mbf/Format.antt =====
-- The fixed parts of a file of the engine, src/mbf/format/mod.rs: the header and the footer of 64 bytes, laid
-- out as `repr(C)` has it on a little-endian machine. A digest or a tag is a list of bytes.
use Prim.Native.Nat.{bit_and, bit_or}
use metri_engine.Base.{
  ℕ, ◌+◌, ◌-◌, ◌*◌, ◌/◌, ◌<◌, ◌^◌, ◌≡◌, Bool, true, false, not, ◌||◌, List, [], ◌∷◌, ◌++◌, Text,
  Result, ok, err, ◌>>=◌, if◌then◌else◌, ltb, nat_eq, min, text_eq, codes, length, take,
}
use metri_engine.Base.Int.{ℤ, pos, as_unsigned}
use metri_engine.Base.LittleEndian.{to_le_bytes}
use metri_engine.Errors.{ErrorCode, mbf_corrupt001}
use metri_engine.Mbf.Wire.Bytes.{Read, read_slice, read_word}
use metri_engine.Mbf.Ledger.Codec.{i64_bytes, read_i64}
pub mod Fixed

abbrev pub mbf_magic : Text
mbf_magic = codes "METRIBIN"

abbrev pub mbf_idx_magic : Text
mbf_idx_magic = codes "MBFINDEX"

abbrev pub mbf_footer_magic : Text
mbf_footer_magic = codes "MBFFOOTR"

abbrev pub mbf_format_version : ℕ
mbf_format_version = 1

abbrev pub flag_hot_head : ℕ
flag_hot_head = 1

-- 0b0111_1111 << 2
abbrev pub flag_zone_all : ℕ
flag_zone_all = 508

-- 0x3F << 10
abbrev pub cell_mask : ℕ
cell_mask = 64512

pub record MbfHeader : Type 0 where
  pub magic : List ℕ
  pub version : ℕ
  pub flags : ℕ
  pub row_count : ℕ
  pub tenant_hash : List ℕ
  pub min_tx_id : ℕ
  pub max_tx_id : ℕ
  pub min_timestamp_ms : ℤ
  pub max_timestamp_ms : ℤ

-- MbfHeader::new
unfoldable pub new_header : ℕ → ℕ → ℕ → ℕ → ℤ → ℤ → MbfHeader
new_header cell_id row_count epoch_id schema_fingerprint fiscal_lock_epoch_ms created_at_ms =
    record {
      magic = mbf_magic;
      version = mbf_format_version;
      flags = bit_or flag_zone_all (bit_and cell_id 0x3F * 2 ^ 10);
      row_count = min row_count (2 ^ 32 - 1);
      tenant_hash = to_le_bytes 8 schema_fingerprint ++ i64_bytes fiscal_lock_epoch_ms;
      min_tx_id = if ltb 0 epoch_id then 1 else 0;
      max_tx_id = epoch_id;
      min_timestamp_ms = fiscal_lock_epoch_ms;
      max_timestamp_ms = created_at_ms;
    }

unfoldable pub new_idx_mirror : ℕ → ℕ → ℕ → ℕ → ℤ → ℤ → MbfHeader
new_idx_mirror cell row_count epoch_id schema_fingerprint fiscal_lock_epoch_ms created_at_ms =
    record (new_header cell row_count epoch_id schema_fingerprint fiscal_lock_epoch_ms
      created_at_ms) { magic = mbf_idx_magic }

module _ (sha256 : List ℕ → List ℕ) where
  unfoldable pub compute_tenant_hash : Text → List ℕ
  compute_tenant_hash tenant_id = take 16 (sha256 (codes "MBF_TENANT_ID_V1:" ++ tenant_id))

  unfoldable pub new_with_tenant : Text → ℕ → Bool → ℕ → ℕ → ℕ → ℕ → ℤ → ℤ → MbfHeader
  new_with_tenant tenant_id cell hot_head zone_mask row_count min_tx_id max_tx_id min_timestamp_ms
        max_timestamp_ms =
      let zone_bits : ℕ = bit_and zone_mask 0x7F * 2 ^ 2 in
      let with_mode : ℕ = if hot_head then bit_or zone_bits flag_hot_head else zone_bits in
      record {
        magic = mbf_magic;
        version = mbf_format_version;
        flags = bit_or with_mode (bit_and cell 0x3F * 2 ^ 10);
        row_count = row_count;
        tenant_hash = compute_tenant_hash tenant_id;
        min_tx_id = min_tx_id;
        max_tx_id = max_tx_id;
        min_timestamp_ms = min_timestamp_ms;
        max_timestamp_ms = max_timestamp_ms;
      }

unfoldable pub with_flags : ℕ → MbfHeader → MbfHeader
with_flags extra_flags h = record h { flags = bit_or (bit_and h.flags cell_mask) extra_flags }

unfoldable pub cell_id : MbfHeader → ℕ
cell_id h = bit_and (h.flags / 2 ^ 10) 0x3F

unfoldable pub is_hot_head : MbfHeader → Bool
is_hot_head h = not (nat_eq (bit_and h.flags flag_hot_head) 0)

unfoldable pub validate : MbfHeader → Result ErrorCode (Unit {0})
validate h =
    if text_eq h.magic mbf_magic || text_eq h.magic mbf_idx_magic
    then (if nat_eq h.version mbf_format_version then ok tt else err mbf_corrupt001)
    else err mbf_corrupt001

-- MbfHeader::to_bytes
unfoldable pub header_to_bytes : MbfHeader → List ℕ
header_to_bytes h =
    h.magic
    ++ (to_le_bytes 2 h.version
        ++ (to_le_bytes 2 h.flags
            ++ (to_le_bytes 4 h.row_count
                ++ (h.tenant_hash
                    ++ (to_le_bytes 8 h.min_tx_id
                        ++ (to_le_bytes 8 h.max_tx_id
                            ++ (i64_bytes h.min_timestamp_ms ++ i64_bytes h.max_timestamp_ms)))))))

unfoldable pub read_header : List ℕ → Read MbfHeader
read_header bytes = read_slice 8 bytes >>= λ (magic, after_magic).
    read_word 2 after_magic >>= λ (version, after_version).
    read_word 2 after_version >>= λ (flags, after_flags).
    read_word 4 after_flags >>= λ (row_count, after_rows).
    read_slice 16 after_rows >>= λ (tenant_hash, after_hash).
    read_word 8 after_hash >>= λ (min_tx_id, after_min).
    read_word 8 after_min >>= λ (max_tx_id, after_max).
    read_i64 after_max >>= λ (min_timestamp_ms, after_from).
    read_i64 after_from >>= λ (max_timestamp_ms, rest). ok (
      record {
        magic = magic;
        version = version;
        flags = flags;
        row_count = row_count;
        tenant_hash = tenant_hash;
        min_tx_id = min_tx_id;
        max_tx_id = max_tx_id;
        min_timestamp_ms = min_timestamp_ms;
        max_timestamp_ms = max_timestamp_ms;
      },
      rest,
    )

-- MbfHeader::from_bytes
unfoldable pub header_from_bytes : List ℕ → Result ErrorCode MbfHeader
header_from_bytes bytes =
    if ltb (length bytes) 64
    then err mbf_corrupt001
    else (read_header bytes >>= λ (header, rest). validate header >>= λ valid. ok header)

pub record MbfFooterTrailer : Type 0 where
  pub directory_offset : ℕ
  pub directory_len : ℕ
  pub header_crc32c : ℕ
  pub directory_crc32c : ℕ
  pub schema_fingerprint_hi : ℕ
  pub fiscal_lock_epoch_ms : ℤ
  pub hmac_tag_truncated : List ℕ
  pub footer_magic : List ℕ

-- MbfFooterTrailer::to_bytes
unfoldable pub footer_to_bytes : MbfFooterTrailer → List ℕ
footer_to_bytes f =
    to_le_bytes 8 f.directory_offset
    ++ (to_le_bytes 4 f.directory_len
        ++ (to_le_bytes 4 f.header_crc32c
            ++ (to_le_bytes 4 f.directory_crc32c
                ++ (to_le_bytes 4 f.schema_fingerprint_hi
                    ++ (i64_bytes f.fiscal_lock_epoch_ms
                        ++ (f.hmac_tag_truncated ++ f.footer_magic))))))

unfoldable pub read_footer : List ℕ → Read MbfFooterTrailer
read_footer bytes = read_word 8 bytes >>= λ (directory_offset, after_offset).
    read_word 4 after_offset >>= λ (directory_len, after_len).
    read_word 4 after_len >>= λ (header_crc32c, after_header).
    read_word 4 after_header >>= λ (directory_crc32c, after_directory).
    read_word 4 after_directory >>= λ (schema_fingerprint_hi, after_schema).
    read_i64 after_schema >>= λ (fiscal_lock_epoch_ms, after_lock).
    read_slice 24 after_lock >>= λ (tag, after_tag).
    read_slice 8 after_tag >>= λ (footer_magic, rest). ok (
      record {
        directory_offset = directory_offset;
        directory_len = directory_len;
        header_crc32c = header_crc32c;
        directory_crc32c = directory_crc32c;
        schema_fingerprint_hi = schema_fingerprint_hi;
        fiscal_lock_epoch_ms = fiscal_lock_epoch_ms;
        hmac_tag_truncated = tag;
        footer_magic = footer_magic;
      },
      rest,
    )

-- MbfFooterTrailer::from_bytes
unfoldable pub footer_from_bytes : List ℕ → Result ErrorCode MbfFooterTrailer
footer_from_bytes bytes =
    if ltb (length bytes) 64
    then err mbf_corrupt001
    else (read_footer bytes >>= λ (footer, rest).
        if text_eq footer.footer_magic mbf_footer_magic then ok footer else err mbf_corrupt001)
