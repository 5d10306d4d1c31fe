-- ===== src/Mbf/Wire/Block.antt =====
-- The outer form of the snapshots: eight bytes that name the format, the length of the compressed
-- stream in eight more, the stream, and zeros up to a multiple of 64. src/mbf/storage.rs and `pad_to_64`
-- of src/mbf/format/mod.rs. The compression (lz4_flex) is a parameter.
use metri_engine.Base.{
  ℕ, zero, suc, ◌+◌, ◌-◌, ◌%◌, ◌^◌, ◌≤◌, ◌<◌, ◌≡◌, ◌≢◌, ◌⊎◌, ◌↔◌, refl, ap, sym, ◌∙◌, Bool, true,
  false, Option, none, some, List, [], ◌∷◌, ◌++◌, Text, Result, ok, err, if◌then◌else◌, ltb, nat_eq,
  text_eq, text_eq_iff, length, take, drop, length-append, take-of-append, drop-of-append,
  Bool-cases, inl, inr, arith,
}
use mathlib.Core.List.{append_assoc, append-nil}
use metri_engine.Base.LittleEndian.{
  to_le_bytes, from_le_bytes, length-to_le_bytes, from_le_bytes-to_le_bytes,
}
use metri_engine.Errors.{ErrorCode, mbf_corrupt001}

-- What a call comes to: it may panic in place of returning.
pub data Outcome {ℓ} (A : Type ℓ) : Type ℓ where
  panic : Outcome A
  returned : Result ErrorCode A → Outcome A

-- after a value, what may fail but not panic
abbrev pub and_then {ℓ κ} :
    {A : Type ℓ} {B : Type κ} → (A → Result ErrorCode B) → Outcome A → Outcome B
and_then next panic = panic
and_then next (returned (err e)) = returned (err e)
and_then next (returned (ok a)) = returned (next a)

-- it panics where what comes before it does
pub and_then-panics {ℓ κ} :
    {A : Type ℓ} {B : Type κ} (next : A → Result ErrorCode B) (o : Outcome A)
    → (and_then next o ≡ panic) ↔ (o ≡ panic)
and_then-panics next panic = (λ h. refl, λ h. refl)
and_then-panics next (returned (err e)) = (λ h. absurd cc, λ h. absurd cc)
and_then-panics next (returned (ok a)) = (λ h. absurd cc, λ h. absurd cc)

-- lz4_flex::compress_prepend_size and decompress_size_prepended
pub record Lz4 : Type 0 where
  pub compress : List ℕ → List ℕ
  pub decompress : List ℕ → Option (List ℕ)
  pub decompress-compress : (raw : List ℕ) → decompress (compress raw) ≡ some raw

-- a `Vec` holds no more bytes than an isize counts
abbrev pub IsVec : List ℕ → Type 0
IsVec bytes = length bytes < 2 ^ 63

-- vec![0; n]
unfoldable pub zero_bytes : ℕ → List ℕ
zero_bytes zero = []
zero_bytes (suc n) = 0 ∷ zero_bytes n

unfoldable pub pad_to_64 : List ℕ → List ℕ
pad_to_64 buf =
    let rem = length buf % 64 in if nat_eq rem 0 then buf else buf ++ zero_bytes (64 - rem)

-- the length in a header
abbrev pub declared : List ℕ → ℕ
declared bytes = from_le_bytes (take 8 (drop 8 bytes))

pub pad_to_64-extends : (buf : List ℕ) → (zs : List ℕ) × (pad_to_64 buf ≡ buf ++ zs)
unfolding pad_to_64
pad_to_64-extends buf = elim (Bool-cases (nat_eq (length buf % 64) 0)) [
  | inl e ↦ ([], rw e (sym (append-nil buf)))
  | inr e ↦ (zero_bytes (64 - length buf % 64), rw e refl)
]

module _ (lz4 : Lz4) where
  unfoldable pub write_block : Text → List ℕ → List ℕ
  unfolding pad_to_64
  write_block magic raw =
      pad_to_64 (magic ++ (to_le_bytes 8 (length (lz4.compress raw)) ++ lz4.compress raw))

  abbrev unpacked : Bool → Option (List ℕ) → Outcome (Bool × List ℕ)
  unpacked is_v2 none = returned (err mbf_corrupt001)
  unpacked is_v2 (some raw) = returned (ok (is_v2, raw))

  -- The slice `&bytes[16..end]`, where `end` is `16 + comp_len` on 64 bits, which wraps.
  abbrev slice_to : Bool → ℕ → List ℕ → Outcome (Bool × List ℕ)
  slice_to is_v2 end bytes =
      if ltb (length bytes) end
      then returned (err mbf_corrupt001)
      else (if ltb end 16
          then panic
          else unpacked is_v2 (lz4.decompress (take (end - 16) (drop 16 bytes))))

  -- `magic` of the present version, or `magic_v1` of the one before, and the stream unpacked
  unfoldable pub read_block : Text → Text → List ℕ → Outcome (Bool × List ℕ)
  read_block magic magic_v1 bytes =
      if ltb (length bytes) 16
      then returned (err mbf_corrupt001)
      else (if text_eq (take 8 bytes) magic
          then slice_to true ((16 + declared bytes) % 2 ^ 64) bytes
          else (if text_eq (take 8 bytes) magic_v1
              then slice_to false ((16 + declared bytes) % 2 ^ 64) bytes
              else returned (err mbf_corrupt001)))

  -- the three parts of a block and what follows them
  abbrev laid_out : Text → List ℕ → List ℕ → List ℕ
  laid_out magic packed zs = magic ++ (to_le_bytes 8 (length packed) ++ (packed ++ zs))

  read-laid_out :
      (magic magic_v1 : Text) (packed zs : List ℕ)
      → length magic ≡ 8
      → IsVec packed
      → read_block magic magic_v1 (laid_out magic packed zs) ≡ unpacked true (lz4.decompress packed)
  unfolding read_block
  read-laid_out magic magic_v1 packed zs eight fits =
      rw
        (
          long_enough,
          take-of-append 8 magic (size ++ (packed ++ zs)) eight,
          (text_eq_iff magic magic).1 refl,
          end_is,
          reaches,
          no_wrap,
        )
        (ap (λ b. unpacked true (lz4.decompress b)) stream)
    where
      size : List ℕ
      size = to_le_bytes 8 (length packed)

      size_length : length size ≡ 8
      size_length = length-to_le_bytes 8 (length packed)

      all_length : length (laid_out magic packed zs) ≡ 16 + length packed + length zs
      all_length = omega (
        arith,
        eight,
        size_length,
        length-append magic (size ++ (packed ++ zs)),
        length-append size (packed ++ zs),
        length-append packed zs,
      )

      long_enough : ltb (length (laid_out magic packed zs)) 16 ≡ false
      long_enough = ground (arith, all_length)

      end_is : (16 + declared (laid_out magic packed zs)) % 2 ^ 64 ≡ 16 + length packed
      end_is =
          ap (λ b. (16 + from_le_bytes (take 8 b)) % 2 ^ 64)
            (drop-of-append 8 magic (size ++ (packed ++ zs)) eight)
          ∙ ap (λ b. (16 + from_le_bytes b) % 2 ^ 64)
              (take-of-append 8 size (packed ++ zs) size_length)
          ∙ ap (λ n. (16 + n) % 2 ^ 64) (from_le_bytes-to_le_bytes 8 (length packed) (omega arith))
          ∙ omega arith

      reaches : ltb (length (laid_out magic packed zs)) (16 + length packed) ≡ false
      reaches = ground (arith, all_length)

      no_wrap : ltb (16 + length packed) 16 ≡ false
      no_wrap = ground arith

      stream : take (16 + length packed - 16) (drop 16 (laid_out magic packed zs)) ≡ packed
      stream =
          ap (λ b. take (16 + length packed - 16) (drop 16 b))
            (sym (append_assoc magic size (packed ++ zs)))
          ∙ ap (take (16 + length packed - 16)) (
              drop-of-append 16 (magic ++ size) (packed ++ zs)
                (omega (arith, length-append magic size, eight, size_length)))
          ∙ take-of-append (16 + length packed - 16) packed zs (omega arith)

  pub read_block-write_block :
      (magic magic_v1 : Text) (raw : List ℕ)
      → length magic ≡ 8
      → IsVec (lz4.compress raw)
      → read_block magic magic_v1 (write_block magic raw) ≡ returned (ok (true, raw))
  unfolding write_block
  read_block-write_block magic magic_v1 raw eight fits =
      let packed : List ℕ = lz4.compress raw in
      let block : List ℕ = magic ++ (to_le_bytes 8 (length packed) ++ packed) in
      let (zs, padded) = pad_to_64-extends block in
      ap (read_block magic magic_v1) (
        padded
        ∙ append_assoc magic (to_le_bytes 8 (length packed) ++ packed) zs
        ∙ ap (λ b. magic ++ b) (append_assoc (to_le_bytes 8 (length packed)) packed zs))
      ∙ read-laid_out magic magic_v1 packed zs eight fits
      ∙ ap (unpacked true) (lz4.decompress-compress raw)

  unpacked-returns : (v : Bool) (o : Option (List ℕ)) → unpacked v o ≢ panic
  unpacked-returns v none = λ e. cc
  unpacked-returns v (some raw) = λ e. cc

  slice_to-panics :
      (v : Bool) (end : ℕ) (bytes : List ℕ)
      → 16 ≤ length bytes
      → (slice_to v end bytes ≡ panic) ↔ (end < 16)
  slice_to-panics v end bytes h =
      ground (arith, unpacked-returns v (lz4.decompress (take (end - 16) (drop 16 bytes))))

  -- Reading a block panics on just those blocks that are long enough, have one of the two names, and
  -- declare a length that comes to less than 16 on 64 bits when 16 is added.
  pub read_block-panics :
      (magic magic_v1 : Text) (bytes : List ℕ)
      → (read_block magic magic_v1 bytes ≡ panic) ↔ (
          (16 ≤ length bytes)
          × ((take 8 bytes ≡ magic) ⊎ (take 8 bytes ≡ magic_v1))
          × ((16 + declared bytes) % 2 ^ 64 < 16))
  unfolding read_block
  read_block-panics magic magic_v1 bytes = ground (
    arith,
    text_eq_iff (take 8 bytes) magic,
    text_eq_iff (take 8 bytes) magic_v1,
    unpacked-returns true
        (lz4.decompress (take ((16 + declared bytes) % 2 ^ 64 - 16) (drop 16 bytes))),
    unpacked-returns false
        (lz4.decompress (take ((16 + declared bytes) % 2 ^ 64 - 16) (drop 16 bytes))),
  )
