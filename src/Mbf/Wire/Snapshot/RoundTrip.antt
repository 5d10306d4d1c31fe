-- ===== src/Mbf/Wire/Snapshot/RoundTrip.antt =====
-- A snapshot that was encoded is decoded to the same snapshot.
use metri_engine.Base.{
  ℕ, ◌+◌, ◌%◌, ◌<◌, ◌≤◌, ◌^◌, ◌≡◌, ◌⊎◌, ◌↔◌, take, refl, ap, ◌∙◌, true, List, [], ◌++◌, ok, length,
}
use metri_engine.Base.Sorting.{All}
use metri_engine.Base.LittleEndian.{to_le_bytes}
use metri_engine.Mbf.Wire.Bytes.{
  Utf8, IsStr, read_word-append, read_str_binary-append, write_bytes_slice,
}
use metri_engine.Mbf.Wire.Block.{
  Lz4, panic, returned, IsVec, and_then, and_then-panics, declared, read_block,
  read_block-write_block, read_block-panics,
}
use metri_engine.Mbf.Wire.Snapshot.{
  MbfPartitionWireSnapshot, MbfEntityWireSnapshot, write_items, write_counters, write_idem,
  write_datoms, partition_bytes, entity_bytes, entity_pk, read_partition, read_entity,
  encode_partition, decode_partition, encode_entity, decode_entity, partition_magic,
  partition_magic_v1, entity_magic, entity_magic_v1,
}
use metri_engine.Mbf.Wire.Snapshot.Items.{
  SameRows, IsRow, IsDatomRow, IsCounter, IsIdempotenceKey, read_items-write_items,
  read_counters-write_counters, read_idem_end, read_datoms_end,
}

-- the same snapshot, its items as maps
pub record SamePartition (r s : MbfPartitionWireSnapshot) : Type 0 where
  pub epoch_id : r.epoch_id ≡ s.epoch_id
  pub items : SameRows r.items s.items
  pub quota_counters : r.quota_counters ≡ s.quota_counters
  pub quota_idem : r.quota_idem ≡ s.quota_idem

pub record SameEntity (r s : MbfEntityWireSnapshot) : Type 0 where
  pub tenant_id : r.tenant_id ≡ s.tenant_id
  pub entity_type : r.entity_type ≡ s.entity_type
  pub entity_id : r.entity_id ≡ s.entity_id
  pub epoch_id : r.epoch_id ≡ s.epoch_id
  pub datoms : SameRows r.datoms s.datoms

module _ (utf8 : Utf8) where
  -- The bounds of a partition: an epoch of 64 bits, counts of 32 bits, and rows that fit.
  pub record IsPartition (s : MbfPartitionWireSnapshot) : Type 0 where
    pub epoch : s.epoch_id < 2 ^ 64
    pub item_count : length s.items < 2 ^ 32
    pub counter_count : length s.quota_counters < 2 ^ 32
    pub idem_count : length s.quota_idem < 2 ^ 32
    pub rows : All (IsRow utf8) s.items
    pub counters : All (IsCounter utf8) s.quota_counters
    pub idem : All (IsIdempotenceKey utf8) s.quota_idem

  pub record IsEntity (s : MbfEntityWireSnapshot) : Type 0 where
    pub epoch : s.epoch_id < 2 ^ 64
    pub datom_count : length s.datoms < 2 ^ 32
    pub tenant : IsStr utf8 s.tenant_id
    pub type_name : IsStr utf8 s.entity_type
    pub id : IsStr utf8 s.entity_id
    pub rows : All (IsDatomRow utf8) s.datoms

  read_partition-partition_bytes :
      (s : MbfPartitionWireSnapshot)
      → IsPartition s
      → (r : MbfPartitionWireSnapshot) × (read_partition utf8 (true, partition_bytes s) ≡ ok r)
        × SamePartition r s
  unfolding read_partition partition_bytes
  read_partition-partition_bytes s h =
      let idem_bytes : List ℕ = write_idem s.quota_idem in
      let idem_part : List ℕ = to_le_bytes 4 (length s.quota_idem) ++ idem_bytes in
      let counters_part : List ℕ =
        to_le_bytes 4 (length s.quota_counters) ++ (write_counters s.quota_counters ++ idem_part) in
      let items_part : List ℕ =
        to_le_bytes 4 (length s.items) ++ (write_items [] s.items ++ counters_part) in
      let (found, read_items_back, same) =
        read_items-write_items utf8 [] s.items counters_part h.rows in
      (
        record {
          epoch_id = s.epoch_id;
          items = found;
          quota_counters = s.quota_counters;
          quota_idem = s.quota_idem;
        },
        rw
            (
              read_word-append 8 s.epoch_id items_part h.epoch,
              read_word-append 4 (length s.items) (write_items [] s.items ++ counters_part)
                  h.item_count,
              read_items_back,
              read_word-append 4 (length s.quota_counters)
                  (write_counters s.quota_counters ++ idem_part) h.counter_count,
              read_counters-write_counters utf8 s.quota_counters idem_part h.counters,
              read_word-append 4 (length s.quota_idem) idem_bytes h.idem_count,
              read_idem_end utf8 s.quota_idem h.idem,
            )
            refl,
        record { epoch_id = refl; items = same; quota_counters = refl; quota_idem = refl },
      )

  read_entity-entity_bytes :
      (s : MbfEntityWireSnapshot)
      → IsEntity s
      → (r : MbfEntityWireSnapshot) × (read_entity utf8 (true, entity_bytes s) ≡ ok r)
        × SameEntity r s
  unfolding read_entity entity_bytes
  read_entity-entity_bytes s h =
      let (found, read_back, same) =
        read_datoms_end utf8 (entity_pk s.tenant_id s.entity_id) s.datoms h.rows in
      let datoms_part : List ℕ =
        to_le_bytes 4 (length s.datoms)
        ++ write_datoms (entity_pk s.tenant_id s.entity_id) s.datoms in
      let epoch_part : List ℕ = to_le_bytes 8 s.epoch_id ++ datoms_part in
      let id_part : List ℕ = write_bytes_slice s.entity_id ++ epoch_part in
      (
        record {
          tenant_id = s.tenant_id;
          entity_type = s.entity_type;
          entity_id = s.entity_id;
          epoch_id = s.epoch_id;
          datoms = found;
        },
        rw
            (
              read_str_binary-append utf8 s.tenant_id (write_bytes_slice s.entity_type ++ id_part)
                  h.tenant,
              read_str_binary-append utf8 s.entity_type id_part h.type_name,
              read_str_binary-append utf8 s.entity_id epoch_part h.id,
              read_word-append 8 s.epoch_id datoms_part h.epoch,
              read_word-append 4 (length s.datoms)
                  (write_datoms (entity_pk s.tenant_id s.entity_id) s.datoms) h.datom_count,
              read_back,
            )
            refl,
        record {
          tenant_id = refl;
          entity_type = refl;
          entity_id = refl;
          epoch_id = refl;
          datoms = same;
        },
      )

  module _ (lz4 : Lz4) where
    -- A partition's snapshot is decoded from its encoding: the same epoch, counters and idempotence
    -- keys, and the same items in the same order, each as the same map. The counts are below 2^32,
    -- the rows fit their lengths, and the compressed stream is shorter than 2^63 bytes.
    pub decode-encode_partition :
        (s : MbfPartitionWireSnapshot)
        → IsPartition s
        → IsVec (lz4.compress (partition_bytes s))
        → (r : MbfPartitionWireSnapshot) × (decode_partition utf8 lz4 (encode_partition lz4 s)
            ≡ returned (ok r))
          × SamePartition r s
    unfolding encode_partition decode_partition
    decode-encode_partition s h fits =
        let (r, back, same) = read_partition-partition_bytes s h in
        (
          r,
          ap (and_then (read_partition utf8)) (
                read_block-write_block lz4 partition_magic partition_magic_v1 (partition_bytes s)
                  refl fits)
              ∙ ap returned back,
          same,
        )

    -- The snapshot of one entity is decoded from its encoding, its datoms in the same order, each as
    -- the same map, within the same bounds.
    pub decode-encode_entity :
        (s : MbfEntityWireSnapshot)
        → IsEntity s
        → IsVec (lz4.compress (entity_bytes s))
        → (r : MbfEntityWireSnapshot) × (decode_entity utf8 lz4 (encode_entity lz4 s)
            ≡ returned (ok r))
          × SameEntity r s
    unfolding encode_entity decode_entity
    decode-encode_entity s h fits =
        let (r, back, same) = read_entity-entity_bytes s h in
        (
          r,
          ap (and_then (read_entity utf8))
                (read_block-write_block lz4 entity_magic entity_magic_v1 (entity_bytes s) refl fits)
              ∙ ap returned back,
          same,
        )

    -- Decoding a partition panics on just those bytes that are a header of one of the two versions and
    -- declare a length that comes to less than 16 on 64 bits when 16 is added.
    pub decode_partition-panics :
        (bytes : List ℕ)
        → (decode_partition utf8 lz4 bytes ≡ panic) ↔ (
            (16 ≤ length bytes)
            × ((take 8 bytes ≡ partition_magic) ⊎ (take 8 bytes ≡ partition_magic_v1))
            × ((16 + declared bytes) % 2 ^ 64 < 16))
    unfolding decode_partition
    decode_partition-panics bytes =
        let inner : (read_block lz4 partition_magic partition_magic_v1 bytes ≡ panic) ↔ _ =
          read_block-panics lz4 partition_magic partition_magic_v1 bytes in
        let outer : _ ↔ _ =
          and_then-panics (read_partition utf8)
            (read_block lz4 partition_magic partition_magic_v1 bytes) in
        (λ e. inner.0 (outer.0 e), λ e. outer.1 (inner.1 e))
