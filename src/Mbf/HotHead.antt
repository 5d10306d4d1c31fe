-- ===== src/Mbf/HotHead.antt =====
-- The binary form of a HOT_HEAD object, `CommittedDeltaFrame` of src/mbf/tx/mod.rs: a header, the frames with
-- their payloads compressed and masked, and a footer. CRC32C, xxh64, SHA-256, HMAC, LZ4 and the validity of
-- UTF-8 are parameters, and so is the clock's reading, one for both stamps of the header.
use Prim.Native.Nat.{bit_xor}
use metri_engine.Base.{
  ℕ, zero, suc, ◌+◌, ◌-◌, ◌*◌, ◌%◌, ◌^◌, Bool, not, ◌||◌, ◌&&◌, Option, none, some, List, [], ◌∷◌,
  ◌++◌, Text, Result, ok, err, ◌>>=◌, if◌then◌else◌, ltb, nat_eq, text_eq, codes, length, take,
  drop,
}
use metri_engine.Base.Int.{ℤ, pos}
use metri_engine.Base.LittleEndian.{to_le_bytes}
use metri_engine.Errors.{ErrorCode, mbf_corrupt001}
use metri_engine.Mbf.Store.{Bytes}
use metri_engine.Mbf.Signature.{TxConflictSignature}
use metri_engine.Mbf.Coordinator.{CommittedDeltaFrame, HotHead, last_epoch}
use metri_engine.Mbf.Wire.Bytes.{Read, Utf8, read_slice, read_word}
use metri_engine.Mbf.Wire.Block.{Lz4, pad_to_64}
use metri_engine.Mbf.Ledger.Codec.{write_each, read_each}
use metri_engine.Mbf.Format.{
  MbfHeader, new_header, with_flags, flag_hot_head, header_to_bytes, MbfFooterTrailer,
  footer_to_bytes, footer_from_bytes, mbf_magic, mbf_footer_magic,
}
use metri_engine.Mbf.Seal.{EngineConfig, MbfTenantCryptoSeal, seal_active, truncated_hmac_24}
pub mod Frames
pub mod Parts
pub mod RoundTrip
pub mod Commits

-- b ^ 0xA5 ^ ((i as u8).wrapping_mul(31))
abbrev pub mask_byte : ℕ → ℕ → ℕ
mask_byte i b = bit_xor (bit_xor b 0xA5) (i % 256 * 31 % 256)

-- iter().enumerate().map(...)
unfoldable pub mask_from : ℕ → List ℕ → List ℕ
mask_from i [] = []
mask_from i (b ∷ bs) = mask_byte i b ∷ mask_from (suc i) bs

-- bytemuck::bytes_of
unfoldable pub signature_bytes : TxConflictSignature → List ℕ
signature_bytes sig =
    to_le_bytes 8 sig.base_epoch_id
    ++ (to_le_bytes 8 sig.new_epoch_id
        ++ (to_le_bytes 8 sig.read_set_bloom ++ to_le_bytes 8 sig.write_set_bloom))

unfoldable pub read_signature : List ℕ → Read TxConflictSignature
read_signature bytes = read_word 8 bytes >>= λ (base_epoch_id, after_base).
    read_word 8 after_base >>= λ (new_epoch_id, after_new).
    read_word 8 after_new >>= λ (read_set_bloom, after_read).
    read_word 8 after_read >>= λ (write_set_bloom, rest). ok (
      record {
        base_epoch_id = base_epoch_id;
        new_epoch_id = new_epoch_id;
        read_set_bloom = read_set_bloom;
        write_set_bloom = write_set_bloom;
      },
      rest,
    )

module _ (lz4 : Lz4) (utf8 : Utf8) where
  unfoldable pub write_frame : CommittedDeltaFrame → List ℕ
  write_frame frame =
      let payload : List ℕ = mask_from 0 (lz4.compress frame.payload_json) in
      signature_bytes frame.signature ++ (to_le_bytes 4 (length payload) ++ payload)

  abbrev pub frame_of : TxConflictSignature → Option (List ℕ) → Result ErrorCode CommittedDeltaFrame
  frame_of sig none = err mbf_corrupt001
  frame_of sig (some decompressed) =
      if utf8.is_utf8 decompressed
      then ok (record { signature = sig; payload_json = decompressed })
      else err mbf_corrupt001

  -- the 36 bytes in front of a payload are checked field by field
  unfoldable pub read_frame : List ℕ → Read CommittedDeltaFrame
  read_frame bytes = read_signature bytes >>= λ (sig, after_signature).
      read_word 4 after_signature >>= λ (masked_len, after_len).
      read_slice masked_len after_len >>= λ (payload, rest).
      frame_of sig (lz4.decompress (mask_from 0 payload)) >>= λ frame. ok (frame, rest)

  unfoldable pub frames_bytes : List CommittedDeltaFrame → List ℕ
  frames_bytes frames =
      to_le_bytes 4 (length frames) ++ (to_le_bytes 4 0 ++ write_each write_frame frames)

  -- what stands between the header and the footer
  unfoldable pub read_frames : List ℕ → Result ErrorCode (List CommittedDeltaFrame)
  read_frames payload =
      if ltb (length payload) 8
      then ok []
      else (read_word 4 payload >>= λ (count, rest).
          read_each read_frame count (drop 4 rest) >>= λ (frames, after_frames). ok frames)

-- [0x48; 24]
unfoldable pub untagged : ℕ → List ℕ
untagged zero = []
untagged (suc n) = 0x48 ∷ untagged n

abbrev pub tag_of : Result ErrorCode MbfTenantCryptoSeal → List ℕ
tag_of (ok seal) = truncated_hmac_24 seal
tag_of (err e) = untagged 24

-- the code of other crates that the encoding calls
pub record Crates : Type 0 where
  pub lz4 : Lz4
  pub utf8 : Utf8
  pub crc32 : List ℕ → ℕ
  pub sha256 : List ℕ → List ℕ
  pub hmac_sha256 : List ℕ → List ℕ → Option (List ℕ)
  pub xxh64 : Text → ℕ → ℕ

module _ (crates : Crates) where
  abbrev pub tenant_hash : Text → ℕ
  tenant_hash tenant_id = crates.xxh64 tenant_id 0x4D45545249323032

  abbrev pub head_of : ℤ → Text → ℕ → List CommittedDeltaFrame → MbfHeader
  head_of now_ms tenant_id cell frames =
      with_flags flag_hot_head
        (new_header cell (length frames) (last_epoch frames) (tenant_hash tenant_id) now_ms now_ms)

  -- the footer of the padded buffer, which has the header in its first 64 bytes
  abbrev pub footer_of : EngineConfig → Text → ℕ → ℕ → List ℕ → MbfFooterTrailer
  footer_of cfg tenant_id epoch dir_offset buf = record {
    directory_offset = dir_offset;
    directory_len = (length buf - dir_offset) % 2 ^ 32;
    header_crc32c = crates.crc32 (take 64 buf);
    directory_crc32c = crates.crc32 (drop dir_offset buf);
    schema_fingerprint_hi = tenant_hash tenant_id % 2 ^ 32;
    fiscal_lock_epoch_ms = pos 0;
    hmac_tag_truncated = tag_of (
        seal_active crates.sha256 crates.hmac_sha256 cfg tenant_id (codes "hot_head") epoch
          (drop dir_offset buf));
    footer_magic = mbf_footer_magic;
  }

  unfoldable pub encode_hot_head_binary :
      EngineConfig → ℤ → Text → ℕ → List CommittedDeltaFrame → List ℕ
  encode_hot_head_binary cfg now_ms tenant_id cell frames =
      let header : List ℕ = header_to_bytes (head_of now_ms tenant_id cell frames) in
      let buf : List ℕ = pad_to_64 (header ++ frames_bytes crates.lz4 crates.utf8 frames) in
      buf ++ footer_to_bytes (footer_of cfg tenant_id (last_epoch frames) (length header) buf)

  unfoldable pub decode_hot_head_binary : List ℕ → Result ErrorCode (List CommittedDeltaFrame)
  decode_hot_head_binary bytes =
      if ltb (length bytes) 128 || not (nat_eq (length bytes % 64) 0)
      then err mbf_corrupt001
      else (if text_eq (take 8 bytes) mbf_magic
            && text_eq (drop (length bytes - 8) bytes) mbf_footer_magic
          then (footer_from_bytes (drop (length bytes - 64) bytes) >>= λ footer.
              if nat_eq footer.header_crc32c (crates.crc32 (take 64 bytes))
              then read_frames crates.lz4 crates.utf8 (take (length bytes - 128) (drop 64 bytes))
              else err mbf_corrupt001)
          else err mbf_corrupt001)

  -- what the coordinator uses
  abbrev pub hot_head : EngineConfig → ℤ → HotHead
  hot_head cfg now_ms = record {
    encode = encode_hot_head_binary cfg now_ms;
    decode = decode_hot_head_binary;
  }
