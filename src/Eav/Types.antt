-- ===== src/Eav/Types.antt =====
-- src/eav/types/value_type.rs and datom.rs: values, their types, datoms. An f64 is its 64 bits,
-- `to_bits`; an i64 or i128 is an integer.
use Prim.Native.Nat.{bit_xor}
use metri_engine.Base.{ℕ, ◌+◌, ◌*◌, ◌/◌, ◌%◌, ◌^◌, Bool, true, false, List, [], ◌∷◌, Text}
use metri_engine.Base.Int.{ℤ}

pub data ValueType : Type 0 where
  null boolean long double string uuid reference array bytes big_int instant geo : ValueType

unfoldable pub tag : ValueType → ℕ
tag null = 0x00
tag boolean = 0x01
tag long = 0x02
tag double = 0x03
tag string = 0x04
tag uuid = 0x05
tag reference = 0x06
tag array = 0x07
tag bytes = 0x08
tag big_int = 0x09
tag instant = 0x0A
tag geo = 0x0B

unfoldable pub is_avet_indexable : ValueType → Bool
is_avet_indexable bytes = false
is_avet_indexable array = false
is_avet_indexable null = false
is_avet_indexable other = true

pub data DatomValue : Type 0 where
  null : DatomValue
  bool : Bool → DatomValue
  long : ℤ → DatomValue
  double : ℕ → DatomValue
  str : Text → DatomValue
  uuid : Text → DatomValue
  ref : ℕ → DatomValue
  array : List Text → DatomValue
  bytes : List ℕ → DatomValue
  big_int : ℤ → DatomValue
  instant : ℤ → DatomValue
  geo : ℕ → ℕ → DatomValue

unfoldable pub value_type : DatomValue → ValueType
value_type null = ValueType.null
value_type (bool b) = boolean
value_type (long n) = ValueType.long
value_type (double d) = ValueType.double
value_type (str s) = string
value_type (uuid s) = ValueType.uuid
value_type (ref eid) = reference
value_type (array items) = ValueType.array
value_type (bytes b) = ValueType.bytes
value_type (big_int n) = ValueType.big_int
value_type (instant t) = ValueType.instant
value_type (geo lat lon) = ValueType.geo

pub record Datom : Type 0 where
  pub tenant_id : Text
  pub entity_id : Text
  pub attr_name : Text
  pub attr_id : ℕ
  pub value : DatomValue
  pub tx_id : ℕ
  pub op : Bool

-- the loop of the DJB2 hash, on a u32
unfoldable pub djb2 : ℕ → Text → ℕ
djb2 h [] = h
djb2 h (b ∷ bs) = djb2 ((h * 33 + b) % 2 ^ 32) bs

unfoldable pub hash_attr_name : Text → ℕ
unfolding djb2
hash_attr_name name = let h = djb2 5381 name in bit_xor h (h / 2 ^ 16) % 2 ^ 16
