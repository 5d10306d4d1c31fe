-- ===== src/Mbf/HotHead/Parts.antt =====
-- The three parts of a HOT_HEAD object: a header, what is between, and a footer.
use mathlib.Core.List.{append_assoc}
use metri_engine.Base.{
  ℕ, zero, suc, ◌+◌, ◌-◌, ◌%◌, ◌≡◌, refl, ap, sym, ◌∙◌, true, false, not, ◌||◌, List, ◌++◌, ok, ltb,
  nat_eq, nat_eq_iff, text_eq, text_eq_iff, length, length-append, take, drop, take-of-append,
  drop-of-append, arith, Bool-cases, inl, inr,
}
use metri_engine.Base.LittleEndian.{to_le_bytes}
use metri_engine.Mbf.Wire.Block.{pad_to_64, zero_bytes}
use metri_engine.Mbf.Ledger.Codec.{i64_bytes}
use metri_engine.Mbf.Format.{
  MbfHeader, header_to_bytes, MbfFooterTrailer, footer_to_bytes, footer_from_bytes, mbf_magic,
  mbf_footer_magic,
}
use metri_engine.Mbf.Format.Fixed.{
  IsFooter, length-footer_to_bytes, footer_from_bytes-footer_to_bytes,
}
use metri_engine.Mbf.HotHead.{Crates, read_frames, decode_hot_head_binary}

length-zero_bytes : (n : ℕ) → length (zero_bytes n) ≡ n
unfolding zero_bytes
length-zero_bytes zero = refl
length-zero_bytes (suc n) = ap suc (length-zero_bytes n)

pub pad_to_64_aligned : (buf : List ℕ) → length (pad_to_64 buf) % 64 ≡ 0
unfolding pad_to_64
pad_to_64_aligned buf = elim (Bool-cases (nat_eq (length buf % 64) 0)) [
  | inl e ↦ rw e ((nat_eq_iff (length buf % 64) 0).0 e)
  | inr e ↦ rw e (
      omega (
        arith,
        length-append buf (zero_bytes (64 - length buf % 64)),
        length-zero_bytes (64 - length buf % 64),
      ))
]

footer_ends :
    (f : MbfFooterTrailer) → (front : List ℕ) × (footer_to_bytes f ≡ front ++ f.footer_magic)
unfolding footer_to_bytes
footer_ends f = (
  to_le_bytes 8 f.directory_offset
      ++ (to_le_bytes 4 f.directory_len
          ++ (to_le_bytes 4 f.header_crc32c
              ++ (to_le_bytes 4 f.directory_crc32c
                  ++ (to_le_bytes 4 f.schema_fingerprint_hi
                      ++ (i64_bytes f.fiscal_lock_epoch_ms ++ f.hmac_tag_truncated))))),
  simp (append_assoc) refl,
)

pub header_starts : (h : MbfHeader) → (rest : List ℕ) × (header_to_bytes h ≡ h.magic ++ rest)
unfolding header_to_bytes
header_starts h = (_, refl)

module _ (crates : Crates) where
  -- A file of three parts: the header, what is between, and the footer.
  pub decode-parts :
      (head tail mid : List ℕ) (f : MbfFooterTrailer)
      → length head ≡ 64
      → head ≡ mbf_magic ++ tail
      → length mid % 64 ≡ 0
      → IsFooter f
      → f.header_crc32c ≡ crates.crc32 head
      → decode_hot_head_binary crates (head ++ (mid ++ footer_to_bytes f))
        ≡ read_frames crates.lz4 crates.utf8 mid
  unfolding decode_hot_head_binary
  decode-parts head tail mid f len magic aligned fits crc =
      rw
        (
          sizes,
          starts,
          ends,
          footer_is,
          head_is,
          (nat_eq_iff f.header_crc32c (crates.crc32 head)).1 crc,
        )
        (ap (read_frames crates.lz4 crates.utf8) mid_is)
    where
      foot : List ℕ
      foot = footer_to_bytes f

      bytes : List ℕ
      bytes = head ++ (mid ++ foot)

      foot_length : length foot ≡ 64
      foot_length = length-footer_to_bytes f fits

      all_length : length bytes ≡ 128 + length mid
      all_length =
          omega (arith, length-append head (mid ++ foot), length-append mid foot, len, foot_length)

      sizes : (ltb (length bytes) 128 || not (nat_eq (length bytes % 64) 0)) ≡ false
      sizes = ground (arith, all_length, aligned)

      head_is : take 64 bytes ≡ head
      head_is = take-of-append 64 head (mid ++ foot) len

      starts : text_eq (take 8 bytes) mbf_magic ≡ true
      starts =
          (text_eq_iff (take 8 bytes) mbf_magic).1 (ap (λ h. take 8 (h ++ (mid ++ foot))) magic)

      front_length : (front : List ℕ) → foot ≡ front ++ f.footer_magic → length front ≡ 56
      front_length front e =
          omega
            (arith, foot_length, ap length e, length-append front f.footer_magic, ap length fits.7)

      ends : text_eq (drop (length bytes - 8) bytes) mbf_footer_magic ≡ true
      ends =
          let (front, e) = footer_ends f in
          (text_eq_iff (drop (length bytes - 8) bytes) mbf_footer_magic).1 (
            ap (λ b. drop (length bytes - 8) (head ++ (mid ++ b)))
              (e ∙ ap (λ m. front ++ m) (fits.7))
            ∙ ap (drop (length bytes - 8)) (simp (append_assoc) refl)
            ∙ drop-of-append (length bytes - 8) (head ++ (mid ++ front)) mbf_footer_magic (
                omega (
                  arith,
                  all_length,
                  len,
                  length-append head (mid ++ front),
                  length-append mid front,
                  front_length front e,
                )))

      footer_is : footer_from_bytes (drop (length bytes - 64) bytes) ≡ ok f
      footer_is =
          ap footer_from_bytes (
            ap (drop (length bytes - 64)) (sym (append_assoc head mid foot))
            ∙ drop-of-append (length bytes - 64) (head ++ mid) foot
                (omega (arith, all_length, length-append head mid, len)))
          ∙ footer_from_bytes-footer_to_bytes f fits

      mid_is : take (length bytes - 128) (drop 64 bytes) ≡ mid
      mid_is =
          ap (take (length bytes - 128)) (drop-of-append 64 head (mid ++ foot) len)
          ∙ take-of-append (length bytes - 128) mid foot (omega (arith, all_length))
