-- ===== src/Mbf/HotHead/Frames.antt =====
-- The frames between the header and the footer are read back.
use mathlib.Core.List.{append_assoc}
use metri_engine.Base.{
  ℕ, suc, ◌%◌, ◌*◌, ◌<◌, ◌^◌, ◌≡◌, refl, ap, true, false, List, [], ◌∷◌, ◌++◌, ok, ltb, length,
  length-append, drop-of-append, arith,
}
use metri_engine.Base.LittleEndian.{to_le_bytes, length-to_le_bytes}
use metri_engine.Base.Mask.{masked_twice_lem}
use metri_engine.Base.Sorting.{All}
use metri_engine.Mbf.Signature.{TxConflictSignature}
use metri_engine.Mbf.Coordinator.{CommittedDeltaFrame}
use metri_engine.Mbf.Wire.Bytes.{Utf8, read_word-append, read_slice-append}
use metri_engine.Mbf.Wire.Block.{Lz4}
use metri_engine.Mbf.Ledger.Codec.{write_each}
use metri_engine.Mbf.Ledger.Codec.Records.{read_each-write_each}
use metri_engine.Mbf.HotHead.{
  mask_from, signature_bytes, read_signature, write_frame, read_frame, frames_bytes, read_frames,
}

-- masking twice gives the bytes again
mask_from_twice : (i : ℕ) (bs : List ℕ) → mask_from i (mask_from i bs) ≡ bs
unfolding mask_from
mask_from_twice i [] = refl
mask_from_twice i (b ∷ bs) =
    rw (masked_twice_lem b 0xA5 (i % 256 * 31 % 256), mask_from_twice (suc i) bs) refl

length-mask_from : (i : ℕ) (bs : List ℕ) → length (mask_from i bs) ≡ length bs
unfolding mask_from
length-mask_from i [] = refl
length-mask_from i (b ∷ bs) = ap suc (length-mask_from (suc i) bs)

-- four words of 64 bits
abbrev pub IsSignature : TxConflictSignature → Type 0
IsSignature sig =
    (sig.base_epoch_id < 2 ^ 64)
    × (sig.new_epoch_id < 2 ^ 64)
    × (sig.read_set_bloom < 2 ^ 64)
    × (sig.write_set_bloom < 2 ^ 64)

read_signature-signature_bytes :
    (sig : TxConflictSignature) (rest : List ℕ)
    → IsSignature sig
    → read_signature (signature_bytes sig ++ rest) ≡ ok (sig, rest)
unfolding read_signature signature_bytes
read_signature-signature_bytes sig rest (hb, hn, hr, hw) = simp (append_assoc) (
    rw
      (
        read_word-append 8 sig.base_epoch_id _ hb,
        read_word-append 8 sig.new_epoch_id _ hn,
        read_word-append 8 sig.read_set_bloom _ hr,
        read_word-append 8 sig.write_set_bloom rest hw,
      )
      refl)

module _ (lz4 : Lz4) (utf8 : Utf8) where
  -- words of 64 bits, and UTF-8 that compresses to fewer than 2^32 bytes
  abbrev pub IsFrame : CommittedDeltaFrame → Type 0
  IsFrame frame =
      IsSignature frame.signature
      × (utf8.is_utf8 frame.payload_json ≡ true)
      × (length (lz4.compress frame.payload_json) < 2 ^ 32)

  read_frame-write_frame :
      (frame : CommittedDeltaFrame)
      → IsFrame frame
      → (rest : List ℕ)
      → read_frame lz4 utf8 (write_frame lz4 utf8 frame ++ rest) ≡ ok (frame, rest)
  unfolding read_frame write_frame
  read_frame-write_frame frame (signed, valid, short) rest = simp (append_assoc) (
      rw
        (
          read_signature-signature_bytes frame.signature _ signed,
          read_word-append 4 (length packed) (packed ++ rest) (omega (arith, short, same_length)),
          read_slice-append packed rest,
          mask_from_twice 0 (lz4.compress frame.payload_json),
          lz4.decompress-compress frame.payload_json,
          valid,
        )
        refl)
    where
      packed : List ℕ
      packed = mask_from 0 (lz4.compress frame.payload_json)

      same_length : length packed ≡ length (lz4.compress frame.payload_json)
      same_length = length-mask_from 0 (lz4.compress frame.payload_json)

  -- whatever follows, the padding above all
  pub read_frames-frames_bytes :
      (frames : List CommittedDeltaFrame) (rest : List ℕ)
      → All IsFrame frames
      → length frames < 2 ^ 32
      → read_frames lz4 utf8 (frames_bytes lz4 utf8 frames ++ rest) ≡ ok frames
  unfolding read_frames frames_bytes
  read_frames-frames_bytes frames rest h few =
      rw
        (
          enough,
          append_assoc (to_le_bytes 4 (length frames)) (to_le_bytes 4 0 ++ body) rest,
          append_assoc (to_le_bytes 4 0) body rest,
          read_word-append 4 (length frames) (to_le_bytes 4 0 ++ (body ++ rest)) few,
          drop-of-append 4 (to_le_bytes 4 0) (body ++ rest) (length-to_le_bytes 4 0),
          read_each-write_each (write_frame lz4 utf8) (read_frame lz4 utf8) IsFrame
              read_frame-write_frame frames h rest,
        )
        refl
    where
      body : List ℕ
      body = write_each (write_frame lz4 utf8) frames

      enough :
          ltb (length ((to_le_bytes 4 (length frames) ++ (to_le_bytes 4 0 ++ body)) ++ rest)) 8
          ≡ false
      enough = ground (
        arith,
        length-append (to_le_bytes 4 (length frames) ++ (to_le_bytes 4 0 ++ body)) rest,
        length-append (to_le_bytes 4 (length frames)) (to_le_bytes 4 0 ++ body),
        length-append (to_le_bytes 4 0) body,
        length-to_le_bytes 4 (length frames),
        length-to_le_bytes 4 0,
      )
