-- ===== src/Mbf/Wire/ItemMap/Elision.antt =====
-- What the compact form leaves out of an item, its reader puts back.
use metri_engine.Base.{
  ℕ, ◌<◌, ◌^◌, Bool, true, false, not, ◌||◌, Option, none, some, List, ◌++◌, Text, ◌≡◌, ◌≢◌, refl,
  ap, subst, sym, ◌∙◌, ok, if◌then◌else◌, text_eq, text_Eq, text_eq_iff, get, insert, length,
  Bool-cases, inl, inr, arith,
}
use metri_engine.Base.LittleEndian.{to_le_bytes, from_le_bytes-to_le_bytes}
use metri_engine.Base.Sorting.{
  sort_by_key, insert_all, get-insert_all, or_get, All, IsMap, get-sort_by_key, length-sort_by_key,
  sort_by_key-All, sort_by_key-IsMap,
}
use metri_engine.Mbf.Wire.Bytes.{Utf8}
use metri_engine.Mbf.Wire.Attribute.{
  AttributeValue, str, blob, num, null, bool, extract_tenant_prefix,
}
use metri_engine.Mbf.Wire.ItemMap.{
  Item, pk_key, sk_key, is_str_of, is_blob_of, write_entries, filter_keys, keeps, flags_of,
  elides_pk, elides_sk_blob, elides_sk_str, write_item_map_compact, read_entries, restored,
  read_item_map_compact,
}
use metri_engine.Mbf.Wire.ItemMap.RoundTrip.{
  IsEntry, SameMap, get-All, read_entries-write_entries, filter_keys-All, filter_keys-IsMap,
  get-filter_keys, length-filter_keys,
}

is_str_of-inv : (o : Option AttributeValue) (s : Text) → is_str_of o s ≡ true → o ≡ some (str s)
is_str_of-inv (some (str t)) s h = ap (λ r. some (str r)) ((text_eq_iff t s).0 h)
is_str_of-inv (some (num t)) s h = absurd cc
is_str_of-inv (some (blob t)) s h = absurd cc
is_str_of-inv (some (bool t)) s h = absurd cc
is_str_of-inv (some (null t)) s h = absurd cc
is_str_of-inv none s h = absurd cc

is_blob_of-inv :
    (o : Option AttributeValue) (s : List ℕ) → is_blob_of o s ≡ true → o ≡ some (blob s)
is_blob_of-inv (some (blob t)) s h = ap (λ r. some (blob r)) ((text_eq_iff t s).0 h)
is_blob_of-inv (some (num t)) s h = absurd cc
is_blob_of-inv (some (str t)) s h = absurd cc
is_blob_of-inv (some (bool t)) s h = absurd cc
is_blob_of-inv (some (null t)) s h = absurd cc
is_blob_of-inv none s h = absurd cc

or_get-none : (o : Option AttributeValue) → or_get o none ≡ o
or_get-none none = refl
or_get-none (some v) = refl

or_back_pk :
    (p : Bool) (o : Option AttributeValue) (v : AttributeValue)
    → (p ≡ true → o ≡ some v)
    → or_get (if (if p then false else true) then o else none) (if p then some v else none) ≡ o
or_back_pk true o v h = sym (h refl)
or_back_pk false o v h = or_get-none o

or_back_sk :
    (b s : Bool) (o : Option AttributeValue) (v w : AttributeValue)
    → (b ≡ true → o ≡ some v)
    → (b ≡ false → s ≡ true → o ≡ some w)
    → or_get (if not (b || s) then o else none) (if b then some v else (if s then some w else none))
      ≡ o
or_back_sk true s o v w h g = sym (h refl)
or_back_sk false true o v w h g = sym (g refl refl)
or_back_sk false false o v w h g = or_get-none o

distinct : (j k : Text) → text_eq j k ≡ false → j ≢ k
distinct j k h e = ground (arith, text_eq_iff j k)

distinct_sym : (j k : Text) → text_eq j k ≡ false → text_eq k j ≡ false
distinct_sym j k h = ground (arith, text_eq_iff j k, text_eq_iff k j)

module _ (utf8 : Utf8) where
  -- the `PK` and the `SK` that are put back
  abbrev back_pk : Bool → Text → Option AttributeValue
  back_pk p pk = if p then some (str pk) else none

  abbrev back_sk : Bool → Bool → List ℕ → Option AttributeValue
  back_sk b s sk =
      if b then some (blob sk) else (if s then some (str (utf8.from_utf8_lossy sk)) else none)

  restored_pk :
      (p b s : Bool) (pk : Text) (sk : List ℕ)
      → get (restored utf8 (flags_of p b s) pk sk) pk_key ≡ back_pk p pk
  unfolding get insert text_eq
  restored_pk true true s pk sk = refl
  restored_pk true false true pk sk = refl
  restored_pk true false false pk sk = refl
  restored_pk false true s pk sk = refl
  restored_pk false false true pk sk = refl
  restored_pk false false false pk sk = refl

  restored_sk :
      (p b s : Bool) (pk : Text) (sk : List ℕ)
      → get (restored utf8 (flags_of p b s) pk sk) sk_key ≡ back_sk b s sk
  unfolding get insert text_eq
  restored_sk true true s pk sk = refl
  restored_sk true false true pk sk = refl
  restored_sk true false false pk sk = refl
  restored_sk false true s pk sk = refl
  restored_sk false false true pk sk = refl
  restored_sk false false false pk sk = refl

  restored_other :
      (p b s : Bool) (pk : Text) (sk : List ℕ) (k : Text)
      → pk_key ≢ k
      → sk_key ≢ k
      → get (restored utf8 (flags_of p b s) pk sk) k ≡ none
  unfolding get insert
  restored_other true true s pk sk k n m =
      ground (arith, text_eq_iff pk_key k, text_eq_iff sk_key k, text_eq_iff pk_key sk_key)
  restored_other true false true pk sk k n m =
      ground (arith, text_eq_iff pk_key k, text_eq_iff sk_key k, text_eq_iff pk_key sk_key)
  restored_other true false false pk sk k n m =
      ground (arith, text_eq_iff pk_key k, text_eq_iff sk_key k)
  restored_other false true s pk sk k n m =
      ground (arith, text_eq_iff pk_key k, text_eq_iff sk_key k)
  restored_other false false true pk sk k n m =
      ground (arith, text_eq_iff pk_key k, text_eq_iff sk_key k)
  restored_other false false false pk sk k n m = refl

  -- what is left out, given back
  module _ (pk : Text) (sk : List ℕ) (item : Item) (p b s : Bool)
      (has_pk : p ≡ true → get item pk_key ≡ some (str pk))
      (has_blob : b ≡ true → get item sk_key ≡ some (blob sk))
      (has_str : b ≡ false
        → s ≡ true
        → get item sk_key ≡ some (str (utf8.from_utf8_lossy sk))) where
    abbrev put_back : Text → Option AttributeValue
    put_back k =
        or_get (if keeps p b s k then get item k else none)
          (get (restored utf8 (flags_of p b s) pk sk) k)

    put_back_pk : put_back pk_key ≡ get item pk_key
    unfolding text_eq
    put_back_pk = rw (restored_pk p b s pk sk) (or_back_pk p (get item pk_key) (str pk) has_pk)

    put_back_sk : put_back sk_key ≡ get item sk_key
    unfolding text_eq
    put_back_sk = rw (restored_sk p b s pk sk) (
        or_back_sk b s (get item sk_key) (blob sk) (str (utf8.from_utf8_lossy sk)) has_blob has_str)

    put_back_same : (k : Text) → put_back k ≡ get item k
    put_back_same k = elim (Bool-cases (text_eq pk_key k)) [
      | inl e ↦ subst (λ j. put_back j ≡ get item j) ((text_eq_iff pk_key k).0 e) put_back_pk
      | inr e ↦ elim (Bool-cases (text_eq sk_key k)) [
        | inl f ↦ subst (λ j. put_back j ≡ get item j) ((text_eq_iff sk_key k).0 f) put_back_sk
        | inr f ↦
            rw
              (
                restored_other p b s pk sk k (distinct pk_key k e) (distinct sk_key k f),
                distinct_sym pk_key k e,
                distinct_sym sk_key k f,
              )
              (or_get-none (get item k))
      ]
    ]

  str_of_item :
      (item : Item) (sk : List ℕ)
      → All (IsEntry utf8) item
      → get item sk_key ≡ some (str sk)
      → get item sk_key ≡ some (str (utf8.from_utf8_lossy sk))
  str_of_item item sk fits e =
      e
      ∙ ap (λ t. some (str t))
          (sym (
            utf8.lossy_valid sk
              (get-All (λ k v. IsEntry utf8 (k, v)) item fits sk_key (str sk) e).1.1))

  -- What an item is written as is read back, under the same key, as the same map and no byte
  -- further: the item has no key twice, its strings are valid UTF-8, they and its blobs are shorter
  -- than 2^32 bytes, and it has fewer than 2^16 entries.
  pub read-write_item_map_compact :
      (pk : Text) (sk : List ℕ) (item : Item) (rest : List ℕ)
      → IsMap item
      → All (IsEntry utf8) item
      → length item < 2 ^ 16
      → (m : Item) × (read_item_map_compact utf8 (write_item_map_compact pk sk item ++ rest) pk sk
          ≡ ok (m, rest))
        × SameMap m item
  unfolding read_item_map_compact write_item_map_compact to_le_bytes
  read-write_item_map_compact pk sk item rest distinct_keys fits small =
      (insert_all entries start, read_back, same)
    where
      kept : Text → Bool
      kept = keeps (elides_pk pk item) (elides_sk_blob sk item) (elides_sk_str sk item)

      entries : Item
      entries = sort_by_key (filter_keys kept item)

      start : Item
      start =
          restored utf8
            (flags_of (elides_pk pk item) (elides_sk_blob sk item) (elides_sk_str sk item)) pk sk

      few : length entries < 256 ^ 2
      few = omega (arith, length-sort_by_key (filter_keys kept item), length-filter_keys kept item)

      read_back :
          read_item_map_compact utf8 (write_item_map_compact pk sk item ++ rest) pk sk
          ≡ ok (insert_all entries start, rest)
      read_back =
          ap
            (λ count.
              read_entries utf8 (extract_tenant_prefix pk) count start
                (write_entries (extract_tenant_prefix pk) entries ++ rest))
            (from_le_bytes-to_le_bytes 2 (length entries) few)
          ∙ read_entries-write_entries utf8 (extract_tenant_prefix pk) entries start rest (
              sort_by_key-All (IsEntry utf8) (filter_keys kept item)
                (filter_keys-All utf8 kept item fits))

      sk_is_str :
          elides_sk_blob sk item ≡ false
          → elides_sk_str sk item ≡ true
          → get item sk_key ≡ some (str (utf8.from_utf8_lossy sk))
      sk_is_str no_blob is_str =
          str_of_item item sk fits (is_str_of-inv (get item sk_key) sk (rw no_blob at is_str))

      same : SameMap (insert_all entries start) item
      same k =
          get-insert_all entries start k
            (sort_by_key-IsMap (filter_keys kept item) (filter_keys-IsMap kept item distinct_keys))
          ∙ ap (λ o. or_get o (get start k))
              (get-sort_by_key (filter_keys kept item) k (filter_keys-IsMap kept item distinct_keys)
                ∙ get-filter_keys kept item k)
          ∙ put_back_same pk sk item (elides_pk pk item) (elides_sk_blob sk item)
              (elides_sk_str sk item) (is_str_of-inv (get item pk_key) pk)
              (is_blob_of-inv (get item sk_key) sk) sk_is_str k
