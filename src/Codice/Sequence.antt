-- ===== src/Codice/Sequence.antt =====
-- src/codice/sequence.rs, and `sequence_increment`, src/mbf/storage.rs: numbers of a business
-- sequence, counted by tenant, field and scope. A row of the registry is here its counter, present if
-- the row has one; the other attributes of a row are not read by these operations.
use metri_engine.Base.Strings.{strip_prefix}
use metri_engine.Base.{
  not, ℕ, zero, suc, ◌+◌, ◌-◌, ◌^◌, Bool, true, false, Option, none, some, List, [], ◌∷◌, ◌++◌,
  Text, codes, text_eq, nat_eq, Result, ok, err, get, insert, text_Eq, ◌==◌, if◌then◌else◌, ltb,
  length, take, drop, map,
}
use metri_engine.Base.Decimal.{decimal}
use metri_engine.Base.Int.{ℤ, pos, negsuc, ◌+ℤ◌, wrap}
use metri_engine.Errors.{ErrorCode}
pub mod Keys
pub mod Counting

pub data ScopeResolution : Type 0 where
  exact nearest_registered : ScopeResolution

unfoldable pub from_str : Text → ScopeResolution
from_str s = if text_eq s (codes "nearest_registered") then nearest_registered else exact

unfoldable pub as_str : ScopeResolution → Text
as_str exact = codes "exact"
as_str nearest_registered = codes "nearest_registered"

pub record SeqAttrConfig : Type 0 where
  pub name : Text
  pub prefix : Text
  pub padding : ℕ
  pub scope_resolution : ScopeResolution

pub record SequencePolicy : Type 0 where
  pub prefix : Option Text
  pub padding : Option ℕ
  pub scope_resolution : Option ScopeResolution

abbrev value_or : {A : Type 0} → A → Option A → A
value_or d none = d
value_or d (some a) = a

unfoldable pub apply_policy : SequencePolicy → SeqAttrConfig → SeqAttrConfig
apply_policy policy config = record {
  name = config.name;
  prefix = value_or config.prefix policy.prefix;
  padding = value_or config.padding policy.padding;
  scope_resolution = value_or config.scope_resolution policy.scope_resolution;
}

abbrev pub seq_suffix : Text
seq_suffix = codes "_seq"

abbrev pub colon : ℕ
colon = 58

-- the tag that counts: an empty one is none
unfoldable pub build_sequence_code : Text → Text → Option Text → Text
build_sequence_code tenant_id field_name (some (c ∷ tag)) =
    tenant_id ++ (colon ∷ field_name ++ (colon ∷ (c ∷ tag) ++ seq_suffix))
build_sequence_code tenant_id field_name other = tenant_id ++ (colon ∷ field_name ++ seq_suffix)

unfoldable pub strip_suffix : Text → Text → Option Text
strip_suffix s suffix =
    let kept = length s - length suffix in
    if text_eq s (take kept s ++ suffix) then some (take kept s) else none

abbrev non_empty : Option Text → Option Text
non_empty (some (c ∷ tag)) = some (c ∷ tag)
non_empty other = none

abbrev then_strip : Option Text → Option Text
then_strip none = none
then_strip (some rest) = non_empty (strip_suffix rest seq_suffix)

unfoldable pub scope_tag_from_pk : Text → Text → Text → Option Text
scope_tag_from_pk pk tenant_id field_name =
    then_strip (strip_prefix pk (tenant_id ++ (colon ∷ field_name ++ (colon ∷ []))))

-- `{:0>width$}`: zeros in front, up to the width
unfoldable pub zeros : ℕ → Text
zeros zero = []
zeros (suc n) = 48 ∷ zeros n

unfoldable pub padded : ℕ → ℕ → Text
padded width value = zeros (width - length (decimal value)) ++ decimal value

unfoldable pub format_code : Text → Option Text → ℕ → ℕ → Text
format_code prefix (some (c ∷ seg)) padding value =
    prefix ++ ((c ∷ seg) ++ (45 ∷ padded padding value))
format_code prefix other padding value = prefix ++ padded padding value

-- What a sync with S3 meets. The rows that S3 holds are merged into those in memory, or these are forgotten
-- if the object is gone: what counters that leaves is part of the answer.
pub data SyncAnswer : Type 0 where
  failed : ErrorCode → SyncAnswer
  unchanged : SyncAnswer
  brings : List (Text × ℤ) → SyncAnswer

-- What a call on the registry meets: the sync before it; for a write, the sync and the put of its flush.
pub record Io : Type 0 where
  pub sync : SyncAnswer
  pub flush_sync : SyncAnswer
  pub put : Option ErrorCode

-- The counters, with what the next calls meet (nothing new in S3 and no fault, once these are used up).
pub record Registry : Type 0 where
  pub counters : List (Text × ℤ)
  pub meets : List Io

abbrev pub sound : Io
sound = record { sync = unchanged; flush_sync = unchanged; put = none }

abbrev pub next_io : List Io → Io × List Io
next_io [] = (sound, [])
next_io (io ∷ ios) = (io, ios)

unfoldable pub synced : SyncAnswer → Registry → Result ErrorCode (Unit {0}) × Registry
synced (failed e) r = (err e, r)
synced unchanged r = (ok tt, r)
synced (brings counters) r = (ok tt, record r { counters = counters })

-- `n as u64`
abbrev pub as_u64 : ℤ → ℕ
as_u64 (pos n) = n
as_u64 (negsuc n) = 2 ^ 64 - suc n

-- `n.parse::<u64>().ok()`: a negative number does not parse
abbrev pub unsigned : Option ℤ → Option ℕ
unsigned (some (pos n)) = some n
unsigned other = none

abbrev pub read_after :
    Text → Result ErrorCode (Unit {0}) × Registry → Result ErrorCode (Option ℕ) × Registry
read_after seq_code (err e, r) = (err e, r)
read_after seq_code (ok u, r) = (ok (unsigned (get r.counters seq_code)), r)

unfoldable pub read_sequence : Text → Registry → Result ErrorCode (Option ℕ) × Registry
unfolding synced
read_sequence seq_code r =
    let (io, later) = next_io r.meets in
    read_after seq_code (synced io.sync (record r { meets = later }))

-- i64 addition
abbrev pub one_more : Option ℤ → ℤ
one_more none = wrap 64 (pos 0 +ℤ pos 1)
one_more (some n) = wrap 64 (n +ℤ pos 1)

-- flush_to_s3(...).await?; Ok(next_val)
abbrev pub put_after :
    Option ErrorCode → ℤ → Result ErrorCode (Unit {0}) × Registry → Result ErrorCode ℤ × Registry
put_after put next_val (err e, r) = (err e, r)
put_after none next_val (ok u, r) = (ok next_val, r)
put_after (some e) next_val (ok u, r) = (err e, r)

abbrev pub count_after :
    Io → Text → Result ErrorCode (Unit {0}) × Registry → Result ErrorCode ℤ × Registry
count_after io seq_code (err e, r) = (err e, r)
count_after io seq_code (ok u, r) =
    let next_val = one_more (get r.counters seq_code) in
    put_after io.put next_val
      (synced io.flush_sync (record r { counters = insert r.counters seq_code next_val }))

unfoldable pub sequence_increment : Text → Registry → Result ErrorCode ℤ × Registry
unfolding synced
sequence_increment seq_code r =
    let (io, later) = next_io r.meets in
    count_after io seq_code (synced io.sync (record r { meets = later }))

-- the loop over the candidates: the first one with a counter
abbrev pub go_on :
    Text
    → Result ErrorCode (Option ℕ) × Registry
    → (Registry → Result ErrorCode (Option Text) × Registry)
    → Result ErrorCode (Option Text) × Registry
go_on candidate (err e, r) rest = (err e, r)
go_on candidate (ok none, r) rest = rest r
go_on candidate (ok (some val), r) rest = (ok (some candidate), r)

unfoldable pub first_active : List Text → Registry → Result ErrorCode (Option Text) × Registry
first_active [] r = (ok none, r)
first_active (candidate ∷ candidates) r =
    go_on candidate (read_sequence candidate r) (first_active candidates)

abbrev pub with_own : Text → Option Text → List Text → List Text
with_own own_code none candidates = candidates
with_own own_code (some tag) candidates = own_code ∷ candidates

unfoldable pub ancestor_codes : Text → Text → List Text → List Text
ancestor_codes tenant_id field_name [] = []
ancestor_codes tenant_id field_name (a ∷ ancestors) =
    build_sequence_code tenant_id field_name (some a)
    ∷ ancestor_codes tenant_id field_name ancestors

abbrev pub formatted :
    SeqAttrConfig → Option Text → Result ErrorCode ℤ × Registry → Result ErrorCode Text × Registry
formatted config segment (err e, r) = (err e, r)
formatted config segment (ok new_val, r) =
    (ok (format_code config.prefix segment config.padding (as_u64 new_val)), r)

-- the global counter is read, and its value only logged
abbrev pub with_global :
    Text
    → SeqAttrConfig
    → Option Text
    → Result ErrorCode (Option ℕ) × Registry
    → Result ErrorCode Text × Registry
with_global global config segment (err e, r) = (err e, r)
with_global global config segment (ok val, r) =
    formatted config segment (sequence_increment global r)

abbrev pub with_base :
    Text
    → SeqAttrConfig
    → Option Text
    → Result ErrorCode (Option Text) × Registry
    → Result ErrorCode Text × Registry
with_base global config segment (err e, r) = (err e, r)
with_base global config segment (ok (some code), r) =
    formatted config segment (sequence_increment code r)
with_base global config segment (ok none, r) =
    with_global global config segment (read_sequence global r)

abbrev pub candidates : SeqAttrConfig → Option Text → Text → List Text → List Text
candidates config scope_tag tenant_id ancestor_scopes =
    with_own (build_sequence_code tenant_id config.name scope_tag) scope_tag
      (ancestor_codes tenant_id config.name ancestor_scopes)

unfoldable pub next :
    SeqAttrConfig
    → Option Text
    → Text
    → List Text
    → Option Text
    → Registry
    → Result ErrorCode Text × Registry
next config scope_tag tenant_id ancestor_scopes segment r =
    with_base (build_sequence_code tenant_id config.name none) config segment
      (first_active (candidates config scope_tag tenant_id ancestor_scopes) r)
