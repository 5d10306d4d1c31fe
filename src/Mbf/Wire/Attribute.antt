-- ===== src/Mbf/Wire/Attribute.antt =====
-- Attribute values in binary: src/mbf/storage.rs. A string of an index (`ap`, `vp`, `rp`) loses the
-- tenant prefix that it shares with the partition key.
use metri_engine.Base.{
  ℕ, ◌≡◌, refl, ap, ◌∙◌, sym, length, length-append, Bool, true, false, not, Option, none, some,
  List, [], ◌∷◌, ◌++◌, Text, ok, err, ◌>>=◌, if◌then◌else◌, nat_eq, codes, Option-cases, inl, inr,
  ◌⊎◌, arith,
}
use mathlib.Core.List.{append_assoc}
use metri_engine.Base.Strings.{strip_prefix, strip_prefix_sound, split_once}
use metri_engine.Errors.{mbf_corrupt001}
use metri_engine.Mbf.Wire.Bytes.{
  Read, Utf8, read_bytes_slice, write_bytes_slice, read_str_binary, read_str_binary-append,
  read_bytes_slice-write_bytes_slice, IsShort, IsStr,
}

pub data AttributeValue : Type 0 where
  str : Text → AttributeValue
  num : Text → AttributeValue
  blob : List ℕ → AttributeValue
  bool : Bool → AttributeValue
  null : Bool → AttributeValue

-- `T#<tenant>#`, if the key starts with it
unfoldable pub extract_tenant_prefix : Text → Option Text
extract_tenant_prefix pk = elim (strip_prefix pk (codes "T#")) [
  | none ↦ none
  | some rest ↦ elim (split_once b'#' rest) [
    | none ↦ none
    | some (tenant, entity) ↦ some (codes "T#" ++ tenant ++ codes "#")
  ]
]

abbrev from_bool : Bool → ℕ
from_bool true = 1
from_bool false = 0

unfoldable pub write_attribute_value_binary : AttributeValue → List ℕ
write_attribute_value_binary (str s) = 0x01 ∷ write_bytes_slice s
write_attribute_value_binary (num n) = 0x02 ∷ write_bytes_slice n
write_attribute_value_binary (blob b) = 0x03 ∷ write_bytes_slice b
write_attribute_value_binary (bool b) = 0x04 ∷ from_bool b ∷ []
write_attribute_value_binary (null n) = 0x05 ∷ from_bool n ∷ []

-- the code of an index's letter after the tenant prefix, and what follows the letter
unfoldable pub index_suffix : Text → Option (ℕ × Text)
index_suffix after_tp = elim (strip_prefix after_tp (codes "A#")) [
  | some suffix ↦ some (0x11, suffix)
  | none ↦ elim (strip_prefix after_tp (codes "V#")) [
    | some suffix ↦ some (0x12, suffix)
    | none ↦ elim (strip_prefix after_tp (codes "R#")) [
      | some suffix ↦ some (0x13, suffix)
      | none ↦ none
    ]
  ]
]

unfoldable pub compacted : Text → Text → Option (ℕ × Text)
compacted tp s = elim (strip_prefix s tp) [ some after_tp ↦ index_suffix after_tp | none ↦ none ]

unfoldable pub write_attribute_value_compact : AttributeValue → Option Text → List ℕ
write_attribute_value_compact (str s) (some tp) = elim (compacted tp s) [
  | some (code, suffix) ↦ code ∷ write_bytes_slice suffix
  | none ↦ write_attribute_value_binary (str s)
]
write_attribute_value_compact value tenant_prefix = write_attribute_value_binary value

-- the three forms of an index's string
abbrev FromIndex : Text → Text → ℕ → Text → Type 0
FromIndex tp s code suffix =
    ((code ≡ 0x11) × (s ≡ tp ++ (codes "A#" ++ suffix)))
    ⊎ (((code ≡ 0x12) × (s ≡ tp ++ (codes "V#" ++ suffix)))
        ⊎ ((code ≡ 0x13) × (s ≡ tp ++ (codes "R#" ++ suffix))))

same_pair : {p q : ℕ × Text} → some p ≡ some q → (q.0 ≡ p.0) × (p.1 ≡ q.1)
same_pair h = (cc, cc)

no_pair : {q : ℕ × Text} → none ≡ some q → ⊥
no_pair h = cc

index_suffix-inv :
    (after_tp : Text) (code : ℕ) (suffix : Text)
    → index_suffix after_tp ≡ some (code, suffix)
    → FromIndex [] after_tp code suffix
unfolding index_suffix
index_suffix-inv after_tp code suffix h = elim (Option-cases (strip_prefix after_tp (codes "A#"))) [
  | inr (r, e) ↦
      let (c, t) = same_pair (rw (e, index_suffix) at h) in
      inl (c, strip_prefix_sound after_tp (codes "A#") suffix (e ∙ ap some t))
  | inl e ↦ elim (Option-cases (strip_prefix after_tp (codes "V#"))) [
    | inr (r, f) ↦
        let (c, t) = same_pair (rw (e, f, index_suffix) at h) in
        inr (inl (c, strip_prefix_sound after_tp (codes "V#") suffix (f ∙ ap some t)))
    | inl f ↦ elim (Option-cases (strip_prefix after_tp (codes "R#"))) [
      | inr (r, g) ↦
          let (c, t) = same_pair (rw (e, f, g, index_suffix) at h) in
          inr (inr (c, strip_prefix_sound after_tp (codes "R#") suffix (g ∙ ap some t)))
      | inl g ↦ absurd (no_pair (rw (e, f, g, index_suffix) at h))
    ]
  ]
]

after_prefix :
    (tp s after_tp : Text) (code : ℕ) (suffix : Text)
    → s ≡ tp ++ after_tp
    → FromIndex [] after_tp code suffix
    → FromIndex tp s code suffix
after_prefix tp s after_tp code suffix e (inl (c, f)) = inl (c, e ∙ ap (λ t. tp ++ t) f)
after_prefix tp s after_tp code suffix e (inr (inl (c, f))) = inr (inl (c, e ∙ ap (λ t. tp ++ t) f))
after_prefix tp s after_tp code suffix e (inr (inr (c, f))) = inr (inr (c, e ∙ ap (λ t. tp ++ t) f))

compacted-inv :
    (tp s : Text) (code : ℕ) (suffix : Text)
    → compacted tp s ≡ some (code, suffix)
    → FromIndex tp s code suffix
unfolding compacted
compacted-inv tp s code suffix h = elim (Option-cases (strip_prefix s tp)) [
  | inl e ↦ absurd (no_pair (rw (e, compacted) at h))
  | inr (after_tp, e) ↦
      after_prefix tp s after_tp code suffix (strip_prefix_sound s tp after_tp e)
        (index_suffix-inv after_tp code suffix (rw (e, compacted) at h))
]

-- tenant_prefix.unwrap_or("T#system#")
abbrev pub prefix_or_system : Option Text → Text
prefix_or_system (some tp) = tp
prefix_or_system none = codes "T#system#"

abbrev pub as_value {ℓ} : {A : Type ℓ} → (A → AttributeValue) → A × List ℕ → Read AttributeValue
as_value wrap (a, rest) = ok (wrap a, rest)

-- the byte of a truth value: all but 0 is true
unfoldable pub read_flag : (Bool → AttributeValue) → List ℕ → Read AttributeValue
read_flag wrap [] = err mbf_corrupt001
read_flag wrap (b ∷ rest) = ok (wrap (not (nat_eq b 0)), rest)

module _ (utf8 : Utf8) where
  unfoldable pub read_attribute_value_compact : List ℕ → Option Text → Read AttributeValue
  read_attribute_value_compact [] tenant_prefix = err mbf_corrupt001
  read_attribute_value_compact (tag ∷ bytes) tenant_prefix =
      let tp : Text = prefix_or_system tenant_prefix in
      if nat_eq tag 0x01
      then read_str_binary utf8 bytes >>= as_value str
      else (if nat_eq tag 0x02
          then read_str_binary utf8 bytes >>= as_value num
          else (if nat_eq tag 0x03
              then read_bytes_slice bytes >>= as_value blob
              else (if nat_eq tag 0x04
                  then read_flag bool bytes
                  else (if nat_eq tag 0x05
                      then read_flag null bytes
                      else (if nat_eq tag 0x11
                          then read_str_binary utf8 bytes
                            >>= as_value (λ suffix. str (tp ++ (codes "A#" ++ suffix)))
                          else (if nat_eq tag 0x12
                              then read_str_binary utf8 bytes
                                >>= as_value (λ suffix. str (tp ++ (codes "V#" ++ suffix)))
                              else (if nat_eq tag 0x13
                                  then read_str_binary utf8 bytes
                                    >>= as_value (λ suffix. str (tp ++ (codes "R#" ++ suffix)))
                                  else err mbf_corrupt001)))))))

  unfoldable pub read_attribute_value_binary : List ℕ → Read AttributeValue
  read_attribute_value_binary bytes = read_attribute_value_compact bytes none

  -- what Rust's types and a length of four bytes allow
  abbrev pub IsWritable : AttributeValue → Type 0
  IsWritable (str s) = IsStr utf8 s
  IsWritable (num n) = IsStr utf8 n
  IsWritable (blob b) = IsShort b
  IsWritable (bool b) = Unit
  IsWritable (null n) = Unit

  pub read-write_attribute_value_binary :
      (value : AttributeValue) (tp : Option Text) (rest : List ℕ)
      → IsWritable value
      → read_attribute_value_compact (write_attribute_value_binary value ++ rest) tp
        ≡ ok (value, rest)
  unfolding read_attribute_value_compact write_attribute_value_binary read_flag
  read-write_attribute_value_binary (str s) tp rest h =
      rw (read_str_binary-append utf8 s rest h) refl
  read-write_attribute_value_binary (num n) tp rest h =
      rw (read_str_binary-append utf8 n rest h) refl
  read-write_attribute_value_binary (blob b) tp rest h =
      rw (read_bytes_slice-write_bytes_slice b rest h) refl
  read-write_attribute_value_binary (bool true) tp rest h = refl
  read-write_attribute_value_binary (bool false) tp rest h = refl
  read-write_attribute_value_binary (null true) tp rest h = refl
  read-write_attribute_value_binary (null false) tp rest h = refl

  suffix-IsStr :
      (s tp suffix : Text) (letter : ℕ)
      → s ≡ tp ++ (letter ∷ b'#' ∷ suffix)
      → IsStr utf8 s
      → IsStr utf8 suffix
  suffix-IsStr s tp suffix letter e (short, valid) = (
    ground (arith, ap length e, length-append tp (letter ∷ b'#' ∷ suffix)),
    utf8.after_ascii (tp ++ (letter ∷ [])) b'#' suffix (omega arith)
        (ap utf8.is_utf8 (append_assoc tp (letter ∷ []) (b'#' ∷ suffix) ∙ sym e) ∙ valid),
  )

  -- a string in its compact form is put together again
  read-compacted :
      (tp s : Text) (code : ℕ) (suffix rest : Text)
      → compacted tp s ≡ some (code, suffix)
      → IsStr utf8 s
      → read_attribute_value_compact ((code ∷ write_bytes_slice suffix) ++ rest) (some tp)
        ≡ ok (str s, rest)
  unfolding read_attribute_value_compact
  read-compacted tp s code suffix rest e h = elim (compacted-inv tp s code suffix e) [
    | inl (c, split) ↦
        rw (c, read_str_binary-append utf8 suffix rest (suffix-IsStr s tp suffix b'A' split h))
          (ap (λ t. ok (str t, rest)) (sym split))
    | inr (inl (c, split)) ↦
        rw (c, read_str_binary-append utf8 suffix rest (suffix-IsStr s tp suffix b'V' split h))
          (ap (λ t. ok (str t, rest)) (sym split))
    | inr (inr (c, split)) ↦
        rw (c, read_str_binary-append utf8 suffix rest (suffix-IsStr s tp suffix b'R' split h))
          (ap (λ t. ok (str t, rest)) (sym split))
  ]

  -- What a value is written as under a tenant's prefix is read back under that prefix, whatever
  -- follows it, if its strings are valid UTF-8 and shorter than 2^32 bytes.
  pub read-write_attribute_value_compact :
      (value : AttributeValue) (tp : Option Text) (rest : List ℕ)
      → IsWritable value
      → read_attribute_value_compact (write_attribute_value_compact value tp ++ rest) tp
        ≡ ok (value, rest)
  unfolding write_attribute_value_compact
  read-write_attribute_value_compact (str s) (some tp) rest h =
      elim (Option-cases (compacted tp s)) [
        | inl e ↦
            rw (e, write_attribute_value_compact)
              (read-write_attribute_value_binary (str s) (some tp) rest h)
        | inr ((code, suffix), e) ↦
            rw (e, write_attribute_value_compact) (read-compacted tp s code suffix rest e h)
      ]
  read-write_attribute_value_compact (str s) none rest h =
      read-write_attribute_value_binary (str s) none rest h
  read-write_attribute_value_compact (num n) tp rest h =
      read-write_attribute_value_binary (num n) tp rest h
  read-write_attribute_value_compact (blob b) tp rest h =
      read-write_attribute_value_binary (blob b) tp rest h
  read-write_attribute_value_compact (bool b) tp rest h =
      read-write_attribute_value_binary (bool b) tp rest h
  read-write_attribute_value_compact (null n) tp rest h =
      read-write_attribute_value_binary (null n) tp rest h
