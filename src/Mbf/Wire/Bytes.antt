-- ===== src/Mbf/Wire/Bytes.antt =====
-- Slices and strings behind their length in four bytes: src/mbf/storage.rs. UTF-8 validity
-- (`String::from_utf8`) is a parameter.
use metri_engine.Base.{
  ℕ, ◌^◌, ◌<◌, ◌≡◌, Bool, true, false, List, ◌∷◌, ◌++◌, Text, Result, ok, err, ◌>>=◌, if◌then◌else◌,
  ltb, length, take, drop, length-append, take-append, drop-append, refl, ap, ◌∙◌, sym, arith,
}
use mathlib.Core.List.{append_assoc}
use metri_engine.Base.LittleEndian.{
  to_le_bytes, from_le_bytes, length-to_le_bytes, from_le_bytes-to_le_bytes,
}
use metri_engine.Errors.{ErrorCode, mbf_corrupt001}

-- What a reader gives: the value and the bytes after it, or the error.
abbrev pub Read {ℓ} : Type ℓ → Type ℓ
Read A = Result ErrorCode (A × List ℕ)

-- the next `n` bytes, if there are as many
unfoldable pub read_slice : ℕ → List ℕ → Read (List ℕ)
read_slice n bytes =
    if ltb (length bytes) n then err mbf_corrupt001 else ok (take n bytes, drop n bytes)

abbrev word_of : List ℕ × List ℕ → Read ℕ
word_of (word, rest) = ok (from_le_bytes word, rest)

-- an unsigned word of `w` bytes
unfoldable pub read_word : ℕ → List ℕ → Read ℕ
read_word w bytes = read_slice w bytes >>= word_of

unfoldable pub write_bytes_slice : List ℕ → List ℕ
write_bytes_slice bytes = to_le_bytes 4 (length bytes) ++ bytes

abbrev body_of : ℕ × List ℕ → Read (List ℕ)
body_of (len, rest) = read_slice len rest

unfoldable pub read_bytes_slice : List ℕ → Read (List ℕ)
read_bytes_slice bytes = read_word 4 bytes >>= body_of

-- fewer bytes than the length in front of them can say
abbrev pub IsShort : List ℕ → Type 0
IsShort bytes = length bytes < 256 ^ 4

pub read_slice-append : (s rest : List ℕ) → read_slice (length s) (s ++ rest) ≡ ok (s, rest)
unfolding read_slice
read_slice-append s rest = rw (enough, take-append s rest, drop-append s rest) refl
  where
    enough : ltb (length (s ++ rest)) (length s) ≡ false
    enough = ground (arith, length-append s rest)

pub read_word-append :
    (w n : ℕ) (rest : List ℕ) → n < 256 ^ w → read_word w (to_le_bytes w n ++ rest) ≡ ok (n, rest)
unfolding read_word
read_word-append w n rest h =
    ap (λ k. read_slice k (to_le_bytes w n ++ rest) >>= word_of) (sym (length-to_le_bytes w n))
    ∙ ap (λ r. r >>= word_of) (read_slice-append (to_le_bytes w n) rest)
    ∙ ap (λ k. ok (k, rest)) (from_le_bytes-to_le_bytes w n h)

-- A slice of fewer than 2^32 bytes is read back, whatever follows it.
pub read_bytes_slice-write_bytes_slice :
    (s rest : List ℕ) → IsShort s → read_bytes_slice (write_bytes_slice s ++ rest) ≡ ok (s, rest)
unfolding read_bytes_slice write_bytes_slice
read_bytes_slice-write_bytes_slice s rest h =
    ap read_bytes_slice (append_assoc (to_le_bytes 4 (length s)) s rest)
    ∙ ap (λ r. r >>= body_of) (read_word-append 4 (length s) (s ++ rest) h)
    ∙ read_slice-append s rest

-- What the standard library says of UTF-8: which bytes are valid, and `String::from_utf8_lossy`.
pub record Utf8 : Type 0 where
  pub is_utf8 : List ℕ → Bool
  pub from_utf8_lossy : List ℕ → Text
  -- a character starts after one of one byte
  pub after_ascii :
      (s : Text) (c : ℕ) (rest : Text)
      → c < 128
      → is_utf8 (s ++ (c ∷ rest)) ≡ true
      → is_utf8 rest ≡ true
  -- nothing is replaced in what is valid
  pub lossy_valid : (s : Text) → is_utf8 s ≡ true → from_utf8_lossy s ≡ s

module _ (utf8 : Utf8) where
  unfoldable pub read_str_binary : List ℕ → Read Text
  read_str_binary bytes = read_bytes_slice bytes >>= λ (raw, rest).
      if utf8.is_utf8 raw then ok (raw, rest) else err mbf_corrupt001

  -- a string of fewer than 2^32 bytes
  abbrev pub IsStr : Text → Type 0
  IsStr s = IsShort s × (utf8.is_utf8 s ≡ true)

  pub read_str_binary-append :
      (s rest : List ℕ) → IsStr s → read_str_binary (write_bytes_slice s ++ rest) ≡ ok (s, rest)
  unfolding read_str_binary
  read_str_binary-append s rest (short, valid) =
      rw (read_bytes_slice-write_bytes_slice s rest short, valid) refl
