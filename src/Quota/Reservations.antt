-- ===== src/Quota/Reservations.antt =====
-- Reservations of AI quota, src/quota/reservations.rs: the ticket's wire form, the sweep shard, and
-- `MemoryReservationStore`. Each method holds the store's mutex from start to end, so a call is one
-- step of the state; the clock that `claim` reads is an argument. Times are seconds since the epoch.
pub mod Wire
pub mod Lease
use Prim.Native.Nat.{bit_xor}
use mathlib.Core.List.{filter_map}
use metri_engine.Base.{
  ℕ, ◌+◌, ◌*◌, ◌%◌, ◌^◌, Bool, true, false, ◌&&◌, Option, none, some, List, [], ◌∷◌, ◌++◌, map,
  Text, codes, ltb, nat_eq, if◌then◌else◌, get, insert, take, length, text_Eq, text_eq,
}
use metri_engine.Base.Int.{ℤ, pos, wrap, ltb_ℤ, ◌+ℤ◌}

pub data ReservationStatus : Type 0 where
  open_ closed_ : ReservationStatus

pub data CloseReason : Type 0 where
  settled expired abandoned rejected : CloseReason

unfoldable pub as_str : CloseReason → Text
as_str settled = codes "SETTLED"
as_str expired = codes "EXPIRED"
as_str abandoned = codes "ABANDONED"
as_str rejected = codes "REJECTED"

unfoldable pub parse : Text → CloseReason
unfolding text_eq
parse raw =
    if text_eq raw (codes "EXPIRED")
    then expired
    else if text_eq raw (codes "ABANDONED")
    then abandoned
    else if text_eq raw (codes "REJECTED")
    then rejected
    else settled

pub record Reservation : Type 0 where
  pub id : Text
  pub tenant_id : Text
  pub quota_id : Text
  pub estimated : ℤ
  pub debited : Bool
  pub expires_at : ℕ

pub data ClaimResult : Type 0 where
  claimed leased : Reservation → ClaimResult
  closed : Reservation → CloseReason → ClaimResult
  not_found : ClaimResult

-- format!("{id}#final"), format!("{id}#late")
unfoldable pub settlement_key : Text → Text
settlement_key id = id ++ codes "#final"

unfoldable pub late_charge_key : Text → Text
late_charge_key id = id ++ codes "#late"

-- SWEEP_SHARDS
abbrev pub sweep_shards : ℕ
sweep_shards = 16

-- FNV-1a of 64 bits over the bytes of the id
pub fnv1a : ℕ → Text → ℕ
fnv1a hash [] = hash
fnv1a hash (byte ∷ bytes) = fnv1a (bit_xor hash byte * 0x100_0000_01b3 % 2 ^ 64) bytes

unfoldable pub shard_of : Text → ℕ
unfolding fnv1a
shard_of id = fnv1a 0xcbf2_9ce4_8422_2325 id % sweep_shards

pub record Stored : Type 0 where
  pub reservation : Reservation
  pub status : ReservationStatus
  pub lease_until : ℤ
  pub close_reason : CloseReason

abbrev pub Items : Type 0
Items = List (Text × Stored)

-- format!("{tenant_id}#{id}")
unfoldable pub key : Text → Text → Text
key tenant_id id = tenant_id ++ (codes "#" ++ id)

-- `open`
unfoldable pub open_reservation : Reservation → Items → Items
open_reservation r items =
    insert items (key r.tenant_id r.id)
      (record { reservation = r; status = open_; lease_until = pos 0; close_reason = settled })

unfoldable pub mark_debited : Text → Text → Items → Items
mark_debited tenant_id id items = elim (get items (key tenant_id id)) [
  | none ↦ items
  | some stored ↦
      insert items (key tenant_id id)
        (record stored { reservation = record (stored.reservation) { debited = true } })
]

-- now + lease.as_secs() as i64
unfoldable pub lease_end : ℕ → ℕ → ℤ
lease_end now lease = wrap 64 (pos now +ℤ wrap 64 (pos lease))

-- what `claim` answers of an entry, and what it leaves there
abbrev claim_entry : ℕ → ℕ → Text → Items → Stored → ReservationStatus → ClaimResult × Items
claim_entry now lease k items stored closed_ =
    (closed stored.reservation stored.close_reason, items)
claim_entry now lease k items stored open_ =
    if ltb_ℤ (pos now) stored.lease_until then (leased stored.reservation, items) else (
      claimed stored.reservation,
      insert items k (record stored { lease_until = lease_end now lease }),
    )

unfoldable pub claim : ℕ → Text → Text → ℕ → Items → ClaimResult × Items
claim now tenant_id id lease items = elim (get items (key tenant_id id)) [
  | none ↦ (not_found, items)
  | some stored ↦ claim_entry now lease (key tenant_id id) items stored stored.status
]

unfoldable pub close : Text → Text → CloseReason → Items → Items
close tenant_id id reason items = elim (get items (key tenant_id id)) [
  | none ↦ items
  | some stored ↦
      insert items (key tenant_id id)
        (record stored { status = closed_; close_reason = reason; lease_until = pos 0 })
]

abbrev is_open : ReservationStatus → Bool
is_open open_ = true
is_open closed_ = false

-- the three filters of `sweep`
abbrev is_due : ℕ → ℕ → Stored → Bool
is_due shard now s =
    is_open s.status && ltb s.reservation.expires_at now && nat_eq (shard_of s.reservation.id) shard

unfoldable pub due : ℕ → ℕ → Items → List Reservation
due shard now [] = []
due shard now ((k, s) ∷ items) =
    let rest = due shard now items in if is_due shard now s then s.reservation ∷ rest else rest

unfoldable pub sweep : ℕ → ℕ → ℕ → Items → List Reservation
unfolding due
sweep shard now limit items = take limit (due shard now items)

unfoldable pub open_count : Items → ℕ
open_count [] = 0
open_count ((k, s) ∷ items) = (if is_open s.status then 1 else 0) + open_count items
