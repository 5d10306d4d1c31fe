-- ===== src/Mbf/Wire/Snapshot.antt =====
-- `MbfPartitionWireSnapshot` and `MbfEntityWireSnapshot`: src/mbf/storage.rs. The memory that the declared
-- counts reserve in advance is left out.
use metri_engine.Base.{
  ℕ, zero, suc, ◌^◌, Bool, true, false, not, ◌&&◌, List, [], ◌∷◌, ◌++◌, Text, Result, ok, err,
  ◌>>=◌, if◌then◌else◌, ltb, nat_eq, text_eq, codes, length,
}
use metri_engine.Base.Int.{ℤ, as_unsigned, as_i64}
use metri_engine.Base.Strings.{is_empty}
use metri_engine.Base.LittleEndian.{to_le_bytes}
use metri_engine.Errors.{ErrorCode, mbf_corrupt001}
use metri_engine.Mbf.Wire.Bytes.{
  Read, Utf8, read_word, read_bytes_slice, write_bytes_slice, read_str_binary,
}
use metri_engine.Mbf.Wire.ItemMap.{
  Item, write_item_map_compact, read_item_map_compact, read_item_map_binary,
}
use metri_engine.Mbf.Wire.Block.{Lz4, Outcome, and_then, write_block, read_block}
pub mod Items
pub mod RoundTrip

-- (PK, SK)
abbrev pub PrimaryKey : Type 0
PrimaryKey = Text × List ℕ

abbrev pub Counter : Type 0
Counter = (Text × Text) × ℤ

abbrev pub IdempotenceKey : Type 0
IdempotenceKey = (Text × Text) × (Text × ℤ)

pub record MbfPartitionWireSnapshot : Type 0 where
  pub epoch_id : ℕ
  pub items : List (PrimaryKey × Item)
  pub quota_counters : List Counter
  pub quota_idem : List IdempotenceKey

pub record MbfEntityWireSnapshot : Type 0 where
  pub tenant_id : Text
  pub entity_type : Text
  pub entity_id : Text
  pub epoch_id : ℕ
  pub datoms : List (List ℕ × Item)

abbrev pub partition_magic : Text
partition_magic = codes "MBFPART2"

abbrev pub partition_magic_v1 : Text
partition_magic_v1 = codes "MBFPART1"

abbrev pub entity_magic : Text
entity_magic = codes "MBFENTZ2"

abbrev pub entity_magic_v1 : Text
entity_magic_v1 = codes "MBFENTZ1"

-- The key of a partition is left out where it is that of the item before.
unfoldable pub write_items : Text → List (PrimaryKey × Item) → List ℕ
write_items prev_pk [] = []
write_items prev_pk (((pk, sk), item) ∷ items) =
    let same : Bool = not (is_empty prev_pk) && text_eq pk prev_pk in
    let rest : List ℕ = write_items (if same then prev_pk else pk) items in
    (if same then 0x01 ∷ [] else 0x00 ∷ write_bytes_slice pk)
    ++ (write_bytes_slice sk ++ (write_item_map_compact pk sk item ++ rest))

unfoldable pub write_counters : List Counter → List ℕ
write_counters [] = []
write_counters (((t, q), val) ∷ counters) =
    write_bytes_slice t
    ++ (write_bytes_slice q ++ (to_le_bytes 8 (as_unsigned 64 val) ++ write_counters counters))

unfoldable pub write_idem : List IdempotenceKey → List ℕ
write_idem [] = []
write_idem (((t, ik), (qid, delta)) ∷ idem) =
    write_bytes_slice t
    ++ (write_bytes_slice ik
        ++ (write_bytes_slice qid ++ (to_le_bytes 8 (as_unsigned 64 delta) ++ write_idem idem)))

unfoldable pub partition_bytes : MbfPartitionWireSnapshot → List ℕ
partition_bytes snapshot =
    to_le_bytes 8 snapshot.epoch_id
    ++ (to_le_bytes 4 (length snapshot.items)
        ++ (write_items [] snapshot.items
            ++ (to_le_bytes 4 (length snapshot.quota_counters)
                ++ (write_counters snapshot.quota_counters
                    ++ (to_le_bytes 4 (length snapshot.quota_idem)
                        ++ write_idem snapshot.quota_idem)))))

abbrev pub entity_pk : Text → Text → Text
entity_pk tenant_id entity_id = codes "T#" ++ (tenant_id ++ (codes "#E#" ++ entity_id))

unfoldable pub write_datoms : Text → List (List ℕ × Item) → List ℕ
write_datoms pk [] = []
write_datoms pk ((sk, item) ∷ datoms) =
    write_bytes_slice sk ++ (write_item_map_compact pk sk item ++ write_datoms pk datoms)

unfoldable pub entity_bytes : MbfEntityWireSnapshot → List ℕ
entity_bytes snapshot =
    write_bytes_slice snapshot.tenant_id
    ++ (write_bytes_slice snapshot.entity_type
        ++ (write_bytes_slice snapshot.entity_id
            ++ (to_le_bytes 8 snapshot.epoch_id
                ++ (to_le_bytes 4 (length snapshot.datoms)
                    ++ write_datoms (entity_pk snapshot.tenant_id snapshot.entity_id)
                        snapshot.datoms))))

module _ (utf8 : Utf8) where
  -- the key of the next item: that of the one before, if the byte in front is not 0
  unfoldable pub read_pk : Text → List ℕ → Read Text
  read_pk prev_pk [] = err mbf_corrupt001
  read_pk prev_pk (same_pk ∷ rest) =
      if nat_eq same_pk 0 then read_str_binary utf8 rest else ok (prev_pk, rest)

  abbrev read_map : Bool → List ℕ → Text → List ℕ → Read Item
  read_map is_v2 bytes pk sk =
      if is_v2 then read_item_map_compact utf8 bytes pk sk else read_item_map_binary utf8 bytes

  unfoldable pub read_items : Bool → ℕ → Text → List ℕ → Read (List (PrimaryKey × Item))
  read_items is_v2 zero prev_pk bytes = ok ([], bytes)
  read_items is_v2 (suc n) prev_pk bytes =
      (if is_v2 then read_pk prev_pk bytes else read_str_binary utf8 bytes) >>= λ (pk, after_pk).
      read_bytes_slice after_pk >>= λ (sk, after_sk).
      read_map is_v2 after_sk pk sk >>= λ (item, after_item).
      read_items is_v2 n pk after_item >>= λ (items, rest). ok (((pk, sk), item) ∷ items, rest)

  unfoldable pub read_counters : ℕ → List ℕ → Read (List Counter)
  read_counters zero bytes = ok ([], bytes)
  read_counters (suc n) bytes = read_str_binary utf8 bytes >>= λ (t, after_t).
      read_str_binary utf8 after_t >>= λ (q, after_q). read_word 8 after_q >>= λ (val, after_val).
      read_counters n after_val >>= λ (counters, rest). ok (((t, q), as_i64 val) ∷ counters, rest)

  unfoldable pub read_idem : ℕ → List ℕ → Read (List IdempotenceKey)
  read_idem zero bytes = ok ([], bytes)
  read_idem (suc n) bytes = read_str_binary utf8 bytes >>= λ (t, after_t).
      read_str_binary utf8 after_t >>= λ (ik, after_ik).
      read_str_binary utf8 after_ik >>= λ (qid, after_qid).
      read_word 8 after_qid >>= λ (delta, after_delta).
      read_idem n after_delta >>= λ (idem, rest). ok (((t, ik), (qid, as_i64 delta)) ∷ idem, rest)

  unfoldable pub read_partition : Bool × List ℕ → Result ErrorCode MbfPartitionWireSnapshot
  read_partition (is_v2, raw) = read_word 8 raw >>= λ (epoch_id, after_epoch).
      read_word 4 after_epoch >>= λ (item_count, after_count).
      read_items is_v2 item_count [] after_count >>= λ (items, after_items).
      read_word 4 after_items >>= λ (qc_count, after_qc).
      read_counters qc_count after_qc >>= λ (counters, after_counters).
      read_word 4 after_counters >>= λ (qi_count, after_qi).
      read_idem qi_count after_qi >>= λ (idem, rest).
      ok (record {
        epoch_id = epoch_id;
        items = items;
        quota_counters = counters;
        quota_idem = idem;
      })

  unfoldable pub read_datoms : Bool → Text → ℕ → List ℕ → Read (List (List ℕ × Item))
  read_datoms is_v2 pk zero bytes = ok ([], bytes)
  read_datoms is_v2 pk (suc n) bytes = read_bytes_slice bytes >>= λ (sk, after_sk).
      read_map is_v2 after_sk pk sk >>= λ (item, after_item).
      read_datoms is_v2 pk n after_item >>= λ (datoms, rest). ok ((sk, item) ∷ datoms, rest)

  unfoldable pub read_entity : Bool × List ℕ → Result ErrorCode MbfEntityWireSnapshot
  read_entity (is_v2, raw) = read_str_binary utf8 raw >>= λ (tenant_id, after_tenant).
      read_str_binary utf8 after_tenant >>= λ (entity_type, after_type).
      read_str_binary utf8 after_type >>= λ (entity_id, after_id).
      read_word 8 after_id >>= λ (epoch_id, after_epoch).
      read_word 4 after_epoch >>= λ (count, after_count).
      read_datoms is_v2 (entity_pk tenant_id entity_id) count after_count >>= λ (datoms, rest).
      ok (record {
        tenant_id = tenant_id;
        entity_type = entity_type;
        entity_id = entity_id;
        epoch_id = epoch_id;
        datoms = datoms;
      })

  unfoldable pub decode_partition : Lz4 → List ℕ → Outcome MbfPartitionWireSnapshot
  decode_partition lz4 bytes =
      and_then read_partition (read_block lz4 partition_magic partition_magic_v1 bytes)

  unfoldable pub decode_entity : Lz4 → List ℕ → Outcome MbfEntityWireSnapshot
  decode_entity lz4 bytes = and_then read_entity (read_block lz4 entity_magic entity_magic_v1 bytes)

unfoldable pub encode_partition : Lz4 → MbfPartitionWireSnapshot → List ℕ
encode_partition lz4 snapshot = write_block lz4 partition_magic (partition_bytes snapshot)

unfoldable pub encode_entity : Lz4 → MbfEntityWireSnapshot → List ℕ
encode_entity lz4 snapshot = write_block lz4 entity_magic (entity_bytes snapshot)
