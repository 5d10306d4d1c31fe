-- ===== src/Eav/Encoding.antt =====
-- src/eav/types/encoding.rs: the binary sort keys of the four indexes. The test `d < 0.0` of an f64
-- is a parameter.
use Prim.Native.Nat.{bit_xor}
use metri_engine.Base.{
  ℕ, zero, suc, ◌-◌, ◌%◌, ◌^◌, min, Bool, true, false, not, Option, none, some, List, [], ◌∷◌, ◌++◌,
  Text, if◌then◌else◌, nat_eq, length, take,
}
use metri_engine.Base.Int.{ℤ, pos, negsuc, as_unsigned}
use metri_engine.Base.BigEndian.{to_be_bytes, from_be_bytes}
use metri_engine.Eav.Types.{
  DatomValue, ValueType, tag, value_type, is_avet_indexable, null, bool, long, double, str, uuid,
  ref, array, bytes, big_int, instant, geo,
}
pub mod Eavt
pub mod Order

abbrev pub op_byte : Bool → ℕ
op_byte true = 0x01
op_byte false = 0x00

unfoldable pub build_eavt_sk : ℕ → ℕ → Bool → List ℕ
build_eavt_sk attr_id tx_id op = to_be_bytes 2 attr_id ++ (to_be_bytes 8 tx_id ++ (op_byte op ∷ []))

-- a slice of 11 bytes, else none
unfoldable pub decode_eavt_sk : List ℕ → Option (ℕ × ℕ × Bool)
decode_eavt_sk (a ∷ b ∷ c ∷ d ∷ e ∷ f ∷ g ∷ h ∷ i ∷ j ∷ k ∷ []) = some (
  from_be_bytes 0 (a ∷ b ∷ []),
  from_be_bytes 0 (c ∷ d ∷ e ∷ f ∷ g ∷ h ∷ i ∷ j ∷ []),
  not (nat_eq k 0),
)
decode_eavt_sk sk = none

unfoldable pub eavt_sk_attr_prefix : ℕ → List ℕ
eavt_sk_attr_prefix attr_id = to_be_bytes 2 attr_id

unfoldable pub eavt_sk_as_of : ℕ → ℕ → List ℕ
unfolding build_eavt_sk
eavt_sk_as_of attr_id as_of_tx = build_eavt_sk attr_id as_of_tx true

-- `eid_bytes.len() as u8` wraps
unfoldable pub build_aevt_sk : Text → ℕ → List ℕ
build_aevt_sk entity_id tx_id = (length entity_id % 2 ^ 8) ∷ entity_id ++ to_be_bytes 8 tx_id

module _ (lt_zero : ℕ → Bool) where
  abbrev pub normalized : ℕ → ℕ
  normalized bits =
      if lt_zero bits then bit_xor bits (2 ^ 64 - 1) else bit_xor bits 0x8000000000000000

  -- the bytes of the value, after its tag
  unfoldable pub value_bytes : DatomValue → List ℕ
  value_bytes null = []
  value_bytes (bool b) = op_byte b ∷ []
  value_bytes (long n) = to_be_bytes 8 (bit_xor (as_unsigned 64 n) 0x8000000000000000)
  value_bytes (instant n) = to_be_bytes 8 (bit_xor (as_unsigned 64 n) 0x8000000000000000)
  value_bytes (double d) = to_be_bytes 8 (normalized d)
  value_bytes (str s) = take 31 s
  value_bytes (uuid s) = take 31 s
  value_bytes (ref eid) = to_be_bytes 8 eid
  value_bytes (big_int n) =
      to_be_bytes 16 (bit_xor (as_unsigned 128 n) 0x80000000000000000000000000000000)
  value_bytes (geo lat lon) = to_be_bytes 8 (normalized lat) ++ to_be_bytes 8 (normalized lon)
  value_bytes (array items) = []
  value_bytes (bytes b) = []

  -- the tag that is written: 0xFF in place of those of an array and of bytes
  abbrev pub written_tag : DatomValue → ℕ
  written_tag (array items) = 0xFF
  written_tag (bytes b) = 0xFF
  written_tag value = tag (value_type value)

  unfoldable pub build_avet_sk : DatomValue → Text → List ℕ
  build_avet_sk value entity_id = written_tag value ∷ value_bytes value ++ take 26 entity_id

  unfoldable pub avet_sk_prefix : DatomValue → List ℕ
  avet_sk_prefix value = build_avet_sk value []

unfoldable pub build_vaet_sk : ℕ → Text → List ℕ
build_vaet_sk attr_id source_entity_id = to_be_bytes 2 attr_id ++ source_entity_id

pub data AvetBound : Type 0 where
  unbounded : AvetBound
  inclusive : DatomValue → AvetBound
  exclusive : DatomValue → AvetBound

abbrev pub bound_value : AvetBound → Option DatomValue
bound_value unbounded = none
bound_value (inclusive v) = some v
bound_value (exclusive v) = some v

unfoldable pub with_swapped_int_tag : AvetBound → Option AvetBound
with_swapped_int_tag unbounded = some unbounded
with_swapped_int_tag (inclusive (long n)) = some (inclusive (instant n))
with_swapped_int_tag (inclusive (instant n)) = some (inclusive (long n))
with_swapped_int_tag (exclusive (long n)) = some (exclusive (instant n))
with_swapped_int_tag (exclusive (instant n)) = some (exclusive (long n))
with_swapped_int_tag other = none

abbrev pub or_else : {A : Type 0} → Option A → Option A → Option A
or_else (some a) o = some a
or_else none o = o

-- vec![b; n]
unfoldable pub repeated : ℕ → ℕ → List ℕ
repeated zero b = []
repeated (suc n) b = b ∷ repeated n b

module _ (lt_zero : ℕ → Bool) where
  abbrev pub sk_min : ℕ → AvetBound → List ℕ
  sk_min t unbounded = t ∷ repeated 8 0x00
  sk_min t (inclusive v) = avet_sk_prefix lt_zero v
  sk_min t (exclusive v) = avet_sk_prefix lt_zero v ++ repeated 32 0xFF

  abbrev pub sk_max : ℕ → AvetBound → List ℕ
  sk_max t unbounded = t ∷ repeated 40 0xFF
  sk_max t (inclusive v) = avet_sk_prefix lt_zero v ++ repeated 32 0xFF
  sk_max t (exclusive v) = avet_sk_prefix lt_zero v

  abbrev between : ValueType → AvetBound → AvetBound → Option (List ℕ × List ℕ)
  between vt lower upper =
      if not (is_avet_indexable vt)
      then none
      else some (sk_min (tag vt) lower, sk_max (tag vt) upper)

  abbrev of_sample : Option DatomValue → AvetBound → AvetBound → Option (List ℕ × List ℕ)
  of_sample none lower upper = none
  of_sample (some sample_val) lower upper = between (value_type sample_val) lower upper

  unfoldable pub avet_sk_range_bounds : AvetBound → AvetBound → Option (List ℕ × List ℕ)
  avet_sk_range_bounds lower upper =
      of_sample (or_else (bound_value lower) (bound_value upper)) lower upper
