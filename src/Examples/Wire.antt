-- ===== src/Examples/Wire.antt =====
-- Two items of one partition in binary. Every byte sequence counts as UTF-8, and the compression
-- changes nothing.
use metri_engine.Base.{
  ℕ, ◌+◌, ◌%◌, ◌<◌, ◌≤◌, ◌^◌, ◌≡◌, ◌⊎◌, ◌↔◌, refl, true, some, List, [], ◌∷◌, ◌++◌, Text, ok, codes,
  get, text_eq, text_Eq, length, take, arith,
}
use metri_engine.Base.Int.{negsuc, pos}
use metri_engine.Base.LittleEndian.{to_le_bytes}
use metri_engine.Base.Sorting.{All, IsMap, sort_by_key, place}
use metri_engine.Base.BigEndian.{memcmp_lt}
use metri_engine.Base.Strings.{strip_prefix, split_once}
use metri_engine.Mbf.Wire.Bytes.{Utf8, write_bytes_slice}
use metri_engine.Mbf.Wire.Attribute.{
  str, num, blob, bool, write_attribute_value_compact, extract_tenant_prefix, compacted,
  index_suffix, write_attribute_value_binary,
}
use metri_engine.Mbf.Wire.Block.{Lz4, panic, returned, declared}
use metri_engine.Mbf.Wire.ItemMap.{
  Item, write_item_map_compact, write_entries, filter_keys, write_key,
}
use metri_engine.Mbf.Wire.ItemMap.RoundTrip.{IsEntry}
use metri_engine.Mbf.Wire.Snapshot.{
  MbfPartitionWireSnapshot, MbfEntityWireSnapshot, encode_partition, decode_partition,
  partition_magic, partition_magic_v1, partition_bytes, write_items, write_counters, write_idem,
}
use metri_engine.Mbf.Wire.Snapshot.RoundTrip.{
  SamePartition, IsPartition, decode-encode_partition, decode_partition-panics,
}

abbrev bytes_utf8 : Utf8
bytes_utf8 = record {
  is_utf8 = λ s. true;
  from_utf8_lossy = λ s. s;
  after_ascii = λ s c rest small valid. refl;
  lossy_valid = λ s valid. refl;
}

abbrev stored : Lz4
stored = record {
  compress = λ raw. raw;
  decompress = λ packed. some packed;
  decompress-compress = λ raw. refl;
}

abbrev key : Text
key = codes "T#acme#E#1"

abbrev sort_key : List ℕ
sort_key = 7 ∷ 9 ∷ []

abbrev name_item : Item
name_item =
    (codes "v", num (codes "42"))
    ∷ (codes "PK", str key)
    ∷ (codes "SK", blob sort_key)
    ∷ (codes "ap", str (codes "T#acme#A#name"))
    ∷ (codes "live", bool true)
    ∷ []

name_item-IsMap : IsMap name_item
unfolding get text_eq
name_item-IsMap = (refl, (refl, (refl, (refl, (refl, tt)))))

name_item-All : All (IsEntry bytes_utf8) name_item
name_item-All = (
  ((omega arith, refl), (omega arith, refl)),
  (
    ((omega arith, refl), (omega arith, refl)),
    (
      ((omega arith, refl), omega arith),
      (((omega arith, refl), (omega arith, refl)), (((omega arith, refl), tt), tt)),
    ),
  ),
)

abbrev partition : MbfPartitionWireSnapshot
partition = record {
  epoch_id = 12;
  items = ((key, sort_key), name_item) ∷ ((key, []), []) ∷ [];
  quota_counters = ((codes "acme", codes "q1"), negsuc 4) ∷ [];
  quota_idem = ((codes "acme", codes "k"), (codes "q1", pos 3)) ∷ [];
}

partition-IsPartition : IsPartition bytes_utf8 partition
partition-IsPartition = record {
  epoch = omega arith;
  item_count = omega arith;
  counter_count = omega arith;
  idem_count = omega arith;
  rows = (
    ((omega arith, refl), omega arith, (name_item-IsMap, name_item-All, omega arith)),
    (((omega arith, refl), omega arith, (tt, tt, omega arith)), tt),
  );
  counters = (((omega arith, refl), (omega arith, refl), omega arith), tt);
  idem = (((omega arith, refl), (omega arith, refl), (omega arith, refl), omega arith), tt);
}

decode-encode_partition_example :
    (r : MbfPartitionWireSnapshot) × (decode_partition bytes_utf8 stored
        (encode_partition stored partition)
      ≡ returned (ok r))
    × SamePartition r partition
unfolding partition_bytes write_items write_counters write_idem write_item_map_compact
    write_bytes_slice to_le_bytes get text_eq write_entries sort_by_key filter_keys place memcmp_lt
    write_key write_attribute_value_compact extract_tenant_prefix strip_prefix split_once compacted
    index_suffix write_attribute_value_binary
decode-encode_partition_example =
    decode-encode_partition bytes_utf8 stored partition partition-IsPartition (omega arith)

abbrev entity : MbfEntityWireSnapshot
entity = record {
  tenant_id = codes "acme";
  entity_type = codes "asset";
  entity_id = codes "1";
  epoch_id = 3;
  datoms = (sort_key, name_item) ∷ [];
}

-- a header that declares 2^64 - 1 bytes
abbrev hostile : List ℕ
hostile = partition_magic ++ (255 ∷ 255 ∷ 255 ∷ 255 ∷ 255 ∷ 255 ∷ 255 ∷ 255 ∷ [])

decode_partition-panics_example : (decode_partition bytes_utf8 stored hostile ≡ panic) ↔ (
    (16 ≤ length hostile)
    × ((take 8 hostile ≡ partition_magic) ⊎ (take 8 hostile ≡ partition_magic_v1))
    × ((16 + declared hostile) % 2 ^ 64 < 16))
decode_partition-panics_example = decode_partition-panics bytes_utf8 stored hostile
