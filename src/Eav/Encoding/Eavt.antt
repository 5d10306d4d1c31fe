-- ===== src/Eav/Encoding/Eavt.antt =====
-- The sort key of the primary index.
use metri_engine.Base.{ℕ, ◌^◌, ◌<◌, ◌≡◌, refl, Bool, true, false, not, some, nat_eq}
use metri_engine.Base.BigEndian.{to_be_bytes, from_be_bytes-to_be_bytes}
use metri_engine.Eav.Encoding.{op_byte, build_eavt_sk, decode_eavt_sk}

op_byte-lem : (op : Bool) → not (nat_eq (op_byte op) 0) ≡ op
op_byte-lem true = refl
op_byte-lem false = refl

-- The key of a datom is decoded to its attribute, transaction and operation, for an attribute of 16
-- bits and a transaction of 64.
pub decode_eavt_sk-build_eavt_sk :
    (attr_id tx_id : ℕ) (op : Bool)
    → attr_id < 2 ^ 16
    → tx_id < 2 ^ 64
    → decode_eavt_sk (build_eavt_sk attr_id tx_id op) ≡ some (attr_id, tx_id, op)
unfolding decode_eavt_sk build_eavt_sk to_be_bytes
decode_eavt_sk-build_eavt_sk attr_id tx_id op h g =
    rw (from_be_bytes-to_be_bytes 2 attr_id h, from_be_bytes-to_be_bytes 8 tx_id g, op_byte-lem op)
      refl
