-- ===== src/Mbf/Wire/ItemMap.antt =====
-- Item maps in binary: src/mbf/storage.rs. The compact form leaves out the `PK` and `SK` that repeat the
-- item's own key, and has one byte for the usual keys. An item is a `HashMap`, its entries in any order.
use Prim.Native.Nat.{bit_or, bit_and}
use metri_engine.Base.{
  ℕ, zero, suc, Bool, true, false, not, ◌&&◌, ◌||◌, Option, none, some, List, [], ◌∷◌, ◌++◌, Text,
  ok, err, ◌>>=◌, if◌then◌else◌, nat_eq, nat_Eq, text_eq, text_Eq, codes, get, insert, length,
}
use metri_engine.Base.LittleEndian.{to_le_bytes, from_le_bytes}
use metri_engine.Base.Sorting.{sort_by_key}
use metri_engine.Errors.{mbf_corrupt001}
use metri_engine.Mbf.Wire.Bytes.{Read, Utf8, read_word, write_bytes_slice, read_str_binary}
use metri_engine.Mbf.Wire.Attribute.{
  AttributeValue, str, blob, extract_tenant_prefix, write_attribute_value_binary,
  write_attribute_value_compact, read_attribute_value_binary, read_attribute_value_compact,
}
pub mod RoundTrip
pub mod Elision

abbrev pub Item : Type 0
Item = List (Text × AttributeValue)

abbrev pub pk_key : Text
pk_key = codes "PK"

abbrev pub sk_key : Text
sk_key = codes "SK"

-- matches!(value, Some(AttributeValue::S(s)) if s == expected)
abbrev pub is_str_of : Option AttributeValue → Text → Bool
is_str_of (some (str s)) expected = text_eq s expected
is_str_of other expected = false

-- matches!(value, Some(AttributeValue::B(b)) if b.as_ref() == expected)
abbrev pub is_blob_of : Option AttributeValue → List ℕ → Bool
is_blob_of (some (blob b)) expected = text_eq b expected
is_blob_of other expected = false

-- The keys of one byte.
abbrev pub key_codes : List (Text × ℕ)
key_codes =
    (codes "ap", 0x01)
    ∷ (codes "as", 0x02)
    ∷ (codes "v", 0x03)
    ∷ (codes "vp", 0x04)
    ∷ (codes "vs", 0x05)
    ∷ (codes "rp", 0x06)
    ∷ (codes "rs", 0x07)
    ∷ (codes "current_value", 0x08)
    ∷ (codes "updated_at", 0x09)
    ∷ []

abbrev pub coded_keys : List (ℕ × Text)
coded_keys =
    (0x01, codes "ap")
    ∷ (0x02, codes "as")
    ∷ (0x03, codes "v")
    ∷ (0x04, codes "vp")
    ∷ (0x05, codes "vs")
    ∷ (0x06, codes "rp")
    ∷ (0x07, codes "rs")
    ∷ (0x08, codes "current_value")
    ∷ (0x09, codes "updated_at")
    ∷ []

unfoldable pub write_key : Text → List ℕ
write_key k = elim (get key_codes k) [
  | some key_code ↦ key_code ∷ []
  | none ↦ 0xFF ∷ write_bytes_slice k
]

unfoldable pub write_entries : Option Text → Item → List ℕ
write_entries tp [] = []
write_entries tp ((k, v) ∷ es) =
    write_key k ++ (write_attribute_value_compact v tp ++ write_entries tp es)

-- item.iter().filter(…), by the keys
unfoldable pub filter_keys : (Text → Bool) → Item → Item
filter_keys keep [] = []
filter_keys keep ((k, v) ∷ es) =
    let rest : Item = filter_keys keep es in if keep k then (k, v) ∷ rest else rest

-- What is left out: the `PK`, the `SK` of bytes, the `SK` of text.
abbrev pub keeps : Bool → Bool → Bool → Text → Bool
keeps elide_pk elide_sk_blob elide_sk_str k =
    if text_eq k pk_key && elide_pk
    then false
    else not (text_eq k sk_key && (elide_sk_blob || elide_sk_str))

abbrev pub flags_of : Bool → Bool → Bool → ℕ
flags_of elide_pk elide_sk_blob elide_sk_str =
    bit_or (if elide_pk then 0x01 else 0)
      (if elide_sk_blob then 0x02 else (if elide_sk_str then 0x04 else 0))

abbrev pub write_elided : Text → Bool → Bool → Bool → Item → List ℕ
write_elided pk elide_pk elide_sk_blob elide_sk_str item =
    let entries : Item =
      sort_by_key (filter_keys (keeps elide_pk elide_sk_blob elide_sk_str) item) in
    flags_of elide_pk elide_sk_blob elide_sk_str ∷ to_le_bytes 2 (length entries)
    ++ write_entries (extract_tenant_prefix pk) entries

abbrev pub elides_pk : Text → Item → Bool
elides_pk pk item = is_str_of (get item pk_key) pk

abbrev pub elides_sk_blob : List ℕ → Item → Bool
elides_sk_blob sk item = is_blob_of (get item sk_key) sk

abbrev pub elides_sk_str : List ℕ → Item → Bool
elides_sk_str sk item = not (elides_sk_blob sk item) && is_str_of (get item sk_key) sk

unfoldable pub write_item_map_compact : Text → List ℕ → Item → List ℕ
write_item_map_compact pk sk item =
    write_elided pk (elides_pk pk item) (elides_sk_blob sk item) (elides_sk_str sk item) item

unfoldable pub write_plain_entries : Item → List ℕ
write_plain_entries [] = []
write_plain_entries ((k, v) ∷ es) =
    write_bytes_slice k ++ (write_attribute_value_binary v ++ write_plain_entries es)

unfoldable pub write_item_map_binary : Item → List ℕ
write_item_map_binary item =
    let entries : Item = sort_by_key item in
    to_le_bytes 4 (length entries) ++ write_plain_entries entries

module _ (utf8 : Utf8) where
  unfoldable pub read_plain_entries : ℕ → Item → List ℕ → Read Item
  read_plain_entries zero item bytes = ok (item, bytes)
  read_plain_entries (suc n) item bytes = read_str_binary utf8 bytes >>= λ (k, after_key).
      read_attribute_value_binary utf8 after_key >>= λ (v, after_value).
      read_plain_entries n (insert item k v) after_value

  unfoldable pub read_item_map_binary : List ℕ → Read Item
  read_item_map_binary bytes =
      read_word 4 bytes >>= λ (count, rest). read_plain_entries count [] rest

  abbrev known_key : Option Text → List ℕ → Read Text
  known_key (some k) rest = ok (k, rest)
  known_key none rest = err mbf_corrupt001

  unfoldable pub read_key : List ℕ → Read Text
  read_key [] = err mbf_corrupt001
  read_key (key_code ∷ rest) =
      if nat_eq key_code 0xFF
      then read_str_binary utf8 rest
      else known_key (get coded_keys key_code) rest

  unfoldable pub read_entries : Option Text → ℕ → Item → List ℕ → Read Item
  read_entries tp zero item bytes = ok (item, bytes)
  read_entries tp (suc n) item bytes = read_key bytes >>= λ (k, after_key).
      read_attribute_value_compact utf8 after_key tp >>= λ (v, after_value).
      read_entries tp n (insert item k v) after_value

  abbrev is_set : ℕ → ℕ → Bool
  is_set flags bit = not (nat_eq (bit_and flags bit) 0)

  abbrev with_pk : Bool → Text → Item
  with_pk set pk = if set then insert [] pk_key (str pk) else []

  -- the item before its entries: what was left out of them
  abbrev pub restored : ℕ → Text → List ℕ → Item
  restored flags pk sk =
      let item : Item = with_pk (is_set flags 0x01) pk in
      if is_set flags 0x02
      then insert item sk_key (blob sk)
      else (if is_set flags 0x04 then insert item sk_key (str (utf8.from_utf8_lossy sk)) else item)

  unfoldable pub read_item_map_compact : List ℕ → Text → List ℕ → Read Item
  read_item_map_compact (flags ∷ low ∷ high ∷ rest) pk sk =
      read_entries (extract_tenant_prefix pk) (from_le_bytes (low ∷ high ∷ []))
        (restored flags pk sk) rest
  read_item_map_compact truncated pk sk = err mbf_corrupt001
