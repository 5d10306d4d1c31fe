-- ===== src/Mbf/Format/Fixed.antt =====
-- Headers and footers have 64 bytes and are read back.
use mathlib.Core.List.{append_assoc, append-nil}
use metri_engine.Base.{
  ℕ, ◌<◌, ◌^◌, ◌≡◌, ◌⊎◌, inl, inr, refl, ap, sym, ◌∙◌, false, List, [], ◌++◌, ok, ltb, length,
  length-append, text_eq, text_eq_iff, arith,
}
use metri_engine.Base.Int.{IsI64}
use metri_engine.Base.LittleEndian.{length-to_le_bytes}
use metri_engine.Mbf.Wire.Bytes.{read_slice, read_word-append, read_slice-append}
use metri_engine.Mbf.Ledger.Codec.Records.{read_i64-append}
use metri_engine.Mbf.Format.{
  MbfHeader, header_to_bytes, read_header, header_from_bytes, validate, MbfFooterTrailer,
  footer_to_bytes, read_footer, footer_from_bytes, mbf_magic, mbf_idx_magic, mbf_footer_magic,
  mbf_format_version,
}

pub read_bytes : (n : ℕ) (d rest : List ℕ) → length d ≡ n → read_slice n (d ++ rest) ≡ ok (d, rest)
read_bytes n d rest h = ap (λ k. read_slice k (d ++ rest)) (sym h) ∙ read_slice-append d rest

-- the last of them, with nothing behind it
read_bytes_last : (n : ℕ) (d : List ℕ) → length d ≡ n → read_slice n d ≡ ok (d, [])
read_bytes_last n d h = ap (read_slice n) (sym (append-nil d)) ∙ read_bytes n d [] h

-- the fields have the widths of the source
abbrev pub IsHeader : MbfHeader → Type 0
IsHeader h =
    ((h.magic ≡ mbf_magic) ⊎ (h.magic ≡ mbf_idx_magic))
    × (h.version ≡ mbf_format_version)
    × (h.flags < 2 ^ 16)
    × (h.row_count < 2 ^ 32)
    × (length h.tenant_hash ≡ 16)
    × (h.min_tx_id < 2 ^ 64)
    × (h.max_tx_id < 2 ^ 64)
    × IsI64 h.min_timestamp_ms
    × IsI64 h.max_timestamp_ms

magic_length : (magic : List ℕ) → (magic ≡ mbf_magic) ⊎ (magic ≡ mbf_idx_magic) → length magic ≡ 8
magic_length magic (inl e) = ap length e
magic_length magic (inr e) = ap length e

pub length-header_to_bytes :
    (h : MbfHeader)
    → length h.magic ≡ 8
    → length h.tenant_hash ≡ 16
    → length (header_to_bytes h) ≡ 64
unfolding header_to_bytes
length-header_to_bytes h eight sixteen =
    simp (length-append, length-to_le_bytes) (omega (arith, eight, sixteen))

valid :
    (h : MbfHeader)
    → (h.magic ≡ mbf_magic) ⊎ (h.magic ≡ mbf_idx_magic)
    → h.version ≡ mbf_format_version
    → validate h ≡ ok tt
unfolding validate text_eq
valid h (inl e) v = rw (e, v) refl
valid h (inr e) v = rw (e, v) refl

read_header-header_to_bytes :
    (h : MbfHeader) (rest : List ℕ)
    → IsHeader h
    → read_header (header_to_bytes h ++ rest) ≡ ok (h, rest)
unfolding read_header header_to_bytes
read_header-header_to_bytes h rest k = simp (append_assoc) (
    rw
      (
        read_bytes 8 h.magic _ (magic_length h.magic k.0),
        read_word-append 2 h.version _ (omega (arith, k.1)),
        read_word-append 2 h.flags _ k.2,
        read_word-append 4 h.row_count _ k.3,
        read_bytes 16 h.tenant_hash _ k.4,
        read_word-append 8 h.min_tx_id _ k.5,
        read_word-append 8 h.max_tx_id _ k.6,
        read_i64-append h.min_timestamp_ms k.7 _,
        read_i64-append h.max_timestamp_ms k.8 rest,
      )
      refl)

-- A header of the present version is read back, whatever follows its 64 bytes.
pub header_from_bytes-header_to_bytes :
    (h : MbfHeader) (rest : List ℕ)
    → IsHeader h
    → header_from_bytes (header_to_bytes h ++ rest) ≡ ok h
unfolding header_from_bytes
header_from_bytes-header_to_bytes h rest k =
    rw (enough, read_header-header_to_bytes h rest k, valid h k.0 k.1) refl
  where
    enough : ltb (length (header_to_bytes h ++ rest)) 64 ≡ false
    enough = ground (
      arith,
      length-append (header_to_bytes h) rest,
      length-header_to_bytes h (magic_length h.magic k.0) k.4,
    )

abbrev pub IsFooter : MbfFooterTrailer → Type 0
IsFooter f =
    (f.directory_offset < 2 ^ 64)
    × (f.directory_len < 2 ^ 32)
    × (f.header_crc32c < 2 ^ 32)
    × (f.directory_crc32c < 2 ^ 32)
    × (f.schema_fingerprint_hi < 2 ^ 32)
    × IsI64 f.fiscal_lock_epoch_ms
    × (length f.hmac_tag_truncated ≡ 24)
    × (f.footer_magic ≡ mbf_footer_magic)

pub length-footer_to_bytes : (f : MbfFooterTrailer) → IsFooter f → length (footer_to_bytes f) ≡ 64
unfolding footer_to_bytes
length-footer_to_bytes f k =
    simp (length-append, length-to_le_bytes) (omega (arith, k.6, ap length k.7))

read_footer-footer_to_bytes :
    (f : MbfFooterTrailer) → IsFooter f → read_footer (footer_to_bytes f) ≡ ok (f, [])
unfolding read_footer footer_to_bytes
read_footer-footer_to_bytes f k =
    rw
      (
        read_word-append 8 f.directory_offset _ k.0,
        read_word-append 4 f.directory_len _ k.1,
        read_word-append 4 f.header_crc32c _ k.2,
        read_word-append 4 f.directory_crc32c _ k.3,
        read_word-append 4 f.schema_fingerprint_hi _ k.4,
        read_i64-append f.fiscal_lock_epoch_ms k.5 _,
        read_bytes 24 f.hmac_tag_truncated _ k.6,
        read_bytes_last 8 f.footer_magic (ap length k.7),
      )
      refl

pub footer_from_bytes-footer_to_bytes :
    (f : MbfFooterTrailer) → IsFooter f → footer_from_bytes (footer_to_bytes f) ≡ ok f
unfolding footer_from_bytes
footer_from_bytes-footer_to_bytes f k =
    rw
      (enough, read_footer-footer_to_bytes f k, (text_eq_iff f.footer_magic mbf_footer_magic).1 k.7)
      refl
  where
    enough : ltb (length (footer_to_bytes f)) 64 ≡ false
    enough = ground (arith, length-footer_to_bytes f k)
