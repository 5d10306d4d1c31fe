-- ===== src/Mbf/HotHead/RoundTrip.antt =====
-- HOT_HEAD objects are read back.
use mathlib.Core.List.{append_assoc}
use metri_engine.Base.{
  ℕ, ◌%◌, ◌<◌, ◌^◌, ◌≡◌, refl, ap, ◌∙◌, some, List, ◌++◌, Text, Result, ok, err, length,
  length-append, length-take, take, take-of-append, arith,
}
use metri_engine.Base.Int.{ℤ}
use metri_engine.Base.LittleEndian.{length-to_le_bytes}
use metri_engine.Base.Sorting.{All}
use metri_engine.Errors.{ErrorCode}
use metri_engine.Mbf.Coordinator.{CommittedDeltaFrame, last_epoch}
use metri_engine.Mbf.Wire.Block.{pad_to_64, pad_to_64-extends}
use metri_engine.Mbf.Format.{
  new_header, with_flags, header_to_bytes, MbfFooterTrailer, footer_to_bytes, mbf_magic,
}
use metri_engine.Mbf.Format.Fixed.{length-header_to_bytes, IsFooter}
use metri_engine.Mbf.Seal.{
  EngineConfig, MbfTenantCryptoSeal, seal_active, seal_block, truncated_hmac_24,
}
use metri_engine.Mbf.Seal.Verdicts.{sealed_fields}
use metri_engine.Mbf.HotHead.{
  Crates, tag_of, untagged, head_of, footer_of, frames_bytes, encode_hot_head_binary,
  decode_hot_head_binary,
}
use metri_engine.Mbf.HotHead.Frames.{IsFrame, read_frames-frames_bytes}
use metri_engine.Mbf.HotHead.Parts.{pad_to_64_aligned, header_starts, decode-parts}

module _ (crates : Crates) (small_crc : (m : List ℕ) → crates.crc32 m < 2 ^ 32)
    (mac_length : (key m mac : List ℕ) → crates.hmac_sha256 key m ≡ some mac → length mac ≡ 32)
    (cfg : EngineConfig) where
  length-tag_of :
      (r : Result ErrorCode MbfTenantCryptoSeal)
      → ((seal : MbfTenantCryptoSeal) → r ≡ ok seal → length seal.keyed_mac ≡ 32)
      → length (tag_of r) ≡ 24
  unfolding truncated_hmac_24 untagged
  length-tag_of (err e) h = refl
  length-tag_of (ok seal) h = length-take 24 seal.keyed_mac ∙ omega (arith, h seal refl)

  footer_of-IsFooter :
      (tenant_id : Text) (epoch : ℕ) (buf : List ℕ)
      → IsFooter (footer_of crates cfg tenant_id epoch 64 buf)
  unfolding seal_active seal_block
  footer_of-IsFooter tenant_id epoch buf = (
    omega arith,
    omega arith,
    small_crc _,
    small_crc _,
    omega arith,
    omega arith,
    length-tag_of _ (λ seal h.
        mac_length _ _ _ (sealed_fields crates.sha256 crates.hmac_sha256 _ _ _ _ seal h).2),
    refl,
  )

  length-head_of :
      (now_ms : ℤ) (tenant_id : Text) (cell : ℕ) (frames : List CommittedDeltaFrame)
      → length (header_to_bytes (head_of crates now_ms tenant_id cell frames)) ≡ 64
  unfolding with_flags new_header
  length-head_of now_ms tenant_id cell frames =
      length-header_to_bytes (head_of crates now_ms tenant_id cell frames) refl
        (simp (length-append, length-to_le_bytes) refl)

  head_of_starts :
      (now_ms : ℤ) (tenant_id : Text) (cell : ℕ) (frames : List CommittedDeltaFrame)
      → (tail : List ℕ) × (header_to_bytes (head_of crates now_ms tenant_id cell frames)
          ≡ mbf_magic ++ tail)
  unfolding with_flags new_header
  head_of_starts now_ms tenant_id cell frames =
      header_starts (head_of crates now_ms tenant_id cell frames)

  module _ (tenant_id : Text) (epoch : ℕ) (frames : List CommittedDeltaFrame)
      (fits : All (IsFrame crates.lz4 crates.utf8) frames) (few : length frames < 2 ^ 32) where
    -- the buffer before the footer: the header, the frames, and the padding
    decode-buffer :
        (header tail zs buf : List ℕ) (dir_offset : ℕ)
        → length header ≡ 64
        → header ≡ mbf_magic ++ tail
        → dir_offset ≡ 64
        → buf ≡ header ++ (frames_bytes crates.lz4 crates.utf8 frames ++ zs)
        → length buf % 64 ≡ 0
        → decode_hot_head_binary crates
            (buf ++ footer_to_bytes (footer_of crates cfg tenant_id epoch dir_offset buf))
          ≡ ok frames
    decode-buffer header tail zs buf dir_offset len starts at_64 e aligned =
        ap
          (λ d.
            decode_hot_head_binary crates
              (buf ++ footer_to_bytes (footer_of crates cfg tenant_id epoch d buf)))
          at_64
        ∙ ap (λ b. decode_hot_head_binary crates (b ++ footer_to_bytes f)) e
        ∙ ap (decode_hot_head_binary crates) (append_assoc header mid (footer_to_bytes f))
        ∙ decode-parts crates header tail mid f len starts mid_aligned
            (footer_of-IsFooter tenant_id epoch buf)
            (ap crates.crc32 (ap (take 64) e ∙ take-of-append 64 header mid len))
        ∙ read_frames-frames_bytes crates.lz4 crates.utf8 frames zs fits few
      where
        mid : List ℕ
        mid = frames_bytes crates.lz4 crates.utf8 frames ++ zs

        f : MbfFooterTrailer
        f = footer_of crates cfg tenant_id epoch 64 buf

        mid_aligned : length mid % 64 ≡ 0
        mid_aligned = omega (arith, aligned, ap length e, length-append header mid, len)

  -- The frames of a HOT_HEAD object are read back in their order: fewer than 2^32 of them, with words of
  -- 64 bits and payloads in UTF-8 that compress to fewer than 2^32 bytes. A CRC32C has 32 bits, an
  -- HMAC-SHA256 32 bytes.
  pub decode-encode_hot_head_binary :
      (now_ms : ℤ) (tenant_id : Text) (cell : ℕ) (frames : List CommittedDeltaFrame)
      → All (IsFrame crates.lz4 crates.utf8) frames
      → length frames < 2 ^ 32
      → decode_hot_head_binary crates
          (encode_hot_head_binary crates cfg now_ms tenant_id cell frames)
        ≡ ok frames
  unfolding encode_hot_head_binary
  decode-encode_hot_head_binary now_ms tenant_id cell frames fits few =
      let header : List ℕ = header_to_bytes (head_of crates now_ms tenant_id cell frames) in
      let body : List ℕ = frames_bytes crates.lz4 crates.utf8 frames in
      let (zs, padded) = pad_to_64-extends (header ++ body) in
      let (tail, starts) = head_of_starts now_ms tenant_id cell frames in
      decode-buffer tenant_id (last_epoch frames) frames fits few header tail zs
        (pad_to_64 (header ++ body)) (length header) (length-head_of now_ms tenant_id cell frames)
        starts (length-head_of now_ms tenant_id cell frames) (padded ∙ append_assoc header body zs)
        (pad_to_64_aligned (header ++ body))
