-- ===== src/Mbf/Wire/ItemMap/RoundTrip.antt =====
-- What is written of an item is read back as the same map.
use metri_engine.Base.{
  ℕ, ◌≤◌, Bool, Option, none, some, List, [], ◌∷◌, ◌++◌, Text, ◌≡◌, refl, subst, ◌∙◌, ok,
  if◌then◌else◌, text_eq, text_Eq, text_eq_iff, get, insert, length, Option-cases, Bool-cases, inl,
  inr, arith,
}
use mathlib.Core.List.{append_assoc}
use metri_engine.Base.Sorting.{insert_all, All, IsMap}
use metri_engine.Mbf.Wire.Bytes.{Utf8, IsStr, read_str_binary-append, write_bytes_slice}
use metri_engine.Mbf.Wire.Attribute.{
  AttributeValue, write_attribute_value_compact, write_attribute_value_binary,
  read_attribute_value_binary, IsWritable, read-write_attribute_value_compact,
  read-write_attribute_value_binary,
}
use metri_engine.Mbf.Wire.ItemMap.{
  Item, key_codes, write_key, write_entries, filter_keys, write_plain_entries, read_plain_entries,
  read_key, read_entries,
}

-- two maps with the same entries
abbrev pub SameMap : Item → Item → Type 0
SameMap m n = (k : Text) → get m k ≡ get n k

pub get-All :
    {V : Type 0} (P : Text → V → Type 0) (m : List (Text × V))
    → All (λ entry. P (entry.0) (entry.1)) m
    → (k : Text) (c : V) → get m k ≡ some c
    → P k c
unfolding get
get-All P [] h k c e = absurd cc
get-All P ((j, d) ∷ m) (p, h) k c e = elim (Bool-cases (text_eq j k)) [
  | inl q ↦ subst (λ i. P i c) ((text_eq_iff j k).0 q) (subst (P j) (same (rw (q, get) at e)) p)
  | inr q ↦ get-All P m h k c (rw (q, get) at e)
]
  where
    same : some d ≡ some c → d ≡ c
    same f = cc

module _ (utf8 : Utf8) where
  abbrev pub IsEntry : Text × AttributeValue → Type 0
  IsEntry (k, v) = IsStr utf8 k × IsWritable utf8 v

  coded :
      (k : Text) (c : ℕ) (rest : List ℕ)
      → get key_codes k ≡ some c
      → read_key utf8 (c ∷ rest) ≡ ok (k, rest)
  unfolding read_key get text_eq
  coded k c rest e =
      get-All {V = ℕ} (λ k c. read_key utf8 (c ∷ rest) ≡ ok (k, rest)) key_codes
        (refl, (refl, (refl, (refl, (refl, (refl, (refl, (refl, (refl, tt))))))))) k c e

  read_key-write_key :
      (k : Text) (rest : List ℕ) → IsStr utf8 k → read_key utf8 (write_key k ++ rest) ≡ ok (k, rest)
  unfolding write_key read_key
  read_key-write_key k rest h = elim (Option-cases (get key_codes k)) [
    | inr (c, e) ↦ rw (e, write_key) (coded k c rest e)
    | inl e ↦ rw (e, write_key, read_key) (read_str_binary-append utf8 k rest h)
  ]

  pub read_entries-write_entries :
      (tp : Option Text) (es m : Item) (rest : List ℕ)
      → All IsEntry es
      → read_entries utf8 tp (length es) m (write_entries tp es ++ rest)
        ≡ ok (insert_all es m, rest)
  unfolding read_entries write_entries insert_all
  read_entries-write_entries tp [] m rest h = refl
  read_entries-write_entries tp ((k, v) ∷ es) m rest ((hk, hv), h) =
      rw
        (
          append_assoc (write_key k) (write_attribute_value_compact v tp ++ write_entries tp es)
              rest,
          append_assoc (write_attribute_value_compact v tp) (write_entries tp es) rest,
          read_key-write_key k (write_attribute_value_compact v tp ++ (write_entries tp es ++ rest))
              hk,
          read-write_attribute_value_compact utf8 v tp (write_entries tp es ++ rest) hv,
        )
        (read_entries-write_entries tp es (insert m k v) rest h)

  pub read_plain_entries-write_plain_entries :
      (es m : Item) (rest : List ℕ)
      → All IsEntry es
      → read_plain_entries utf8 (length es) m (write_plain_entries es ++ rest)
        ≡ ok (insert_all es m, rest)
  unfolding read_plain_entries write_plain_entries insert_all read_attribute_value_binary
  read_plain_entries-write_plain_entries [] m rest h = refl
  read_plain_entries-write_plain_entries ((k, v) ∷ es) m rest ((hk, hv), h) =
      rw
        (
          append_assoc (write_bytes_slice k)
              (write_attribute_value_binary v ++ write_plain_entries es) rest,
          append_assoc (write_attribute_value_binary v) (write_plain_entries es) rest,
          read_str_binary-append utf8 k
              (write_attribute_value_binary v ++ (write_plain_entries es ++ rest)) hk,
          read-write_attribute_value_binary utf8 v none (write_plain_entries es ++ rest) hv,
        )
        (read_plain_entries-write_plain_entries es (insert m k v) rest h)

  pub filter_keys-All :
      (keep : Text → Bool) (item : Item) → All IsEntry item → All IsEntry (filter_keys keep item)
  unfolding filter_keys
  filter_keys-All keep [] h = tt
  filter_keys-All keep ((k, v) ∷ es) (g, h) = elim (Bool-cases (keep k)) [
    | inl e ↦ rw e (g, filter_keys-All keep es h)
    | inr e ↦ rw e (filter_keys-All keep es h)
  ]

pub get-filter_keys :
    (keep : Text → Bool) (item : Item) (k : Text)
    → get (filter_keys keep item) k ≡ (if keep k then get item k else none)
unfolding filter_keys get
get-filter_keys keep [] k = ground arith
get-filter_keys keep ((j, v) ∷ es) k = elim (Bool-cases (text_eq j k)) [
  | inl e ↦
      rw ((text_eq_iff j k).0 e, (text_eq_iff k k).1 refl)
        (ground (arith, get-filter_keys keep es k, text_eq_iff k k))
  | inr e ↦ ground (arith, get-filter_keys keep es k, e)
]

pub filter_keys-IsMap :
    (keep : Text → Bool) (item : Item) → IsMap item → IsMap (filter_keys keep item)
unfolding filter_keys
filter_keys-IsMap keep [] h = tt
filter_keys-IsMap keep ((k, v) ∷ es) (new, h) = elim (Bool-cases (keep k)) [
  | inl e ↦ rw e (get-filter_keys keep es k ∙ rw e new, filter_keys-IsMap keep es h)
  | inr e ↦ rw e (filter_keys-IsMap keep es h)
]

pub length-filter_keys :
    (keep : Text → Bool) (item : Item) → length (filter_keys keep item) ≤ length item
unfolding filter_keys
length-filter_keys keep [] = omega arith
length-filter_keys keep ((k, v) ∷ es) = ground (arith, length-filter_keys keep es)
