-- ===== src/Quota/Resolver.antt =====
-- src/quota/resolver.rs: the row that governs a domain today, the cycle that a plan renews into, and the
-- short memory of the answers. The calendar (chrono), the query of the rows and the clock are
-- parameters; a row is a JSON object, its columns by name.
use metri_engine.Base.{
  ℕ, ◌+◌, ◌-◌, ◌≤◌, ◌<◌, ◌≡◌, ◌⊎◌, Bool, true, false, not, ◌&&◌, Option, none, some, List, [], ◌∷◌,
  ◌++◌, Text, Result, ok, err, ◌>>=◌, if◌then◌else◌, ltb, leb, nat_eq, text_eq, text_Eq, pair_Eq,
  codes, get, insert,
}
use metri_engine.Base.Int.{ℤ, pos}
use metri_engine.Base.BigEndian.{memcmp_lt}
use metri_engine.Base.Strings.{split_once, is_empty, contains}
use metri_engine.Errors.{ErrorCode}
pub mod Periods
pub mod Choice
pub mod Latest
pub mod Cache

pub record QuotaSpec : Type 0 where
  pub id : Text
  pub counter_id : Text
  pub max_limit : ℤ
  pub seed_usage : ℤ
  pub period_key : Text

-- What the resolver asks of chrono: `NaiveDate`, for years from 0 on.
pub record Calendar : Type 1 where
  pub Date : Type 0
  pub year : Date → ℕ
  pub month : Date → ℕ
  -- num_days_from_ce, which orders the dates
  pub days : Date → ℕ
  pub from_ymd_opt : ℕ → ℕ → ℕ → Option Date
  pub succ_opt : Date → Option Date
  -- format("%Y-%m-%d") and parse_from_str
  pub format : Date → Text
  pub parse : Text → Option Date
  pub parse-format : (d : Date) → parse (format d) ≡ some d
  pub no_underscore : (d : Date) → contains b'_' (format d) ≡ false
  pub days-succ_opt : (d e : Date) → succ_opt d ≡ some e → days e ≡ days d + 1
  pub first_of_month_by :
      (y m : ℕ) (s d : Date)
      → from_ymd_opt y m 1 ≡ some s
      → (y < year d) ⊎ ((y ≡ year d) × (m ≤ month d))
      → days s ≤ days d
  pub first_of_month_after :
      (y m : ℕ) (s d : Date)
      → from_ymd_opt y m 1 ≡ some s
      → (year d < y) ⊎ ((year d ≡ y) × (month d < m))
      → days d < days s
  pub month_from_1 : (d : Date) → 1 ≤ month d

pub data Json : Type 0 where
  string : Text → Json
  integer : ℤ → Json
  other : Json

abbrev pub Row : Type 0
Row = List (Text × Json)

abbrev pub as_str : Option Json → Option Text
as_str (some (string s)) = some s
as_str value = none

-- .and_then(|v| v.as_i64()).unwrap_or(0)
abbrev pub as_i64_or_zero : Option Json → ℤ
as_i64_or_zero (some (integer n)) = n
as_i64_or_zero value = pos 0

-- .and_then(|v| v.as_str()).unwrap_or("")
abbrev pub as_str_or_empty : Option Json → Text
as_str_or_empty (some (string s)) = s
as_str_or_empty value = []

abbrev or_column : Option Json → Option Json → Option Json
or_column (some v) o = some v
or_column none o = o

-- the column by its qualified name, or by its bare one
unfoldable pub field : Row → Text → Option Json
field row name = or_column (get row (codes "domain_quota/" ++ name)) (get row name)

abbrev not_empty : Option Text → Option Text
not_empty (some (c ∷ s)) = some (c ∷ s)
not_empty value = none

unfoldable pub row_id : Row → Option Text
row_id row = not_empty (as_str (field row (codes "id")))

-- period_key.split('_').next()
unfoldable pub start_of : Text → Text
start_of period_key = elim (split_once b'_' period_key) [
  | some (start, end) ↦ start
  | none ↦ period_key
]

abbrev pub default_quota_domain : Text
default_quota_domain = codes "*"

unfoldable pub derive_for_domain : QuotaSpec → Text → QuotaSpec
derive_for_domain plantilla resource_domain = record plantilla {
  counter_id = plantilla.counter_id ++ (codes "#" ++ resource_domain);
  seed_usage = pos 0;
}

-- the name of the strategy, in upper case
abbrev pub strategy_of : (Text → Text) → Row → Text
strategy_of to_uppercase row = to_uppercase (as_str_or_empty (field row (codes "reset_strategy")))

-- mejor.as_ref().is_none_or(|(prev, _)| inicio > prev.as_str())
abbrev pub better :
    Option (Text × QuotaSpec) → Option (Text × QuotaSpec) → Option (Text × QuotaSpec)
better best none = best
better none (some found) = some found
better (some (prev, kept)) (some (start, spec)) =
    if memcmp_lt prev start then some (start, spec) else some (prev, kept)

module _ (calendar : Calendar) where
  abbrev within : Option calendar.Date → Option calendar.Date → calendar.Date → Bool
  within (some start) (some end) today =
      leb (calendar.days start) (calendar.days today)
      && ltb (calendar.days today) (calendar.days end)
  within start end today = false

  -- `LIFETIME`, or a start and an end with the day between, the end left out
  unfoldable pub covers : Text → calendar.Date → Bool
  covers period_key today =
      if text_eq period_key (codes "LIFETIME") then true else elim (split_once b'_' period_key) [
        | none ↦ false
        | some (start, end) ↦ within (calendar.parse start) (calendar.parse end) today
      ]

  abbrev period_text : Option calendar.Date → Option calendar.Date → Option Text
  period_text (some start) (some end) =
      some (calendar.format start ++ (codes "_" ++ calendar.format end))
  period_text start end = none

  -- the cycle that runs today, by the upper-case name of the strategy
  unfoldable pub renewed_period : Text → calendar.Date → Option Text
  renewed_period strategy today =
      if text_eq strategy (codes "DAILY")
      then period_text (some today) (calendar.succ_opt today)
      else (if text_eq strategy (codes "MONTHLY")
          then period_text (calendar.from_ymd_opt (calendar.year today) (calendar.month today) 1) (
              if nat_eq (calendar.month today) 12
              then calendar.from_ymd_opt (calendar.year today + 1) 1 1
              else calendar.from_ymd_opt (calendar.year today) (calendar.month today + 1) 1)
          else (if text_eq strategy (codes "YEARLY")
              then period_text (calendar.from_ymd_opt (calendar.year today) 1 1)
                  (calendar.from_ymd_opt (calendar.year today + 1) 1 1)
              else none))

  abbrev own_counter : Row → Text → Option Text → Option QuotaSpec
  own_counter row period_key none = none
  own_counter row period_key (some id) = some (record {
    id = id;
    counter_id = id;
    max_limit = as_i64_or_zero (field row (codes "max_limit"));
    seed_usage = as_i64_or_zero (field row (codes "current_usage"));
    period_key = period_key;
  })

  unfoldable pub exact_match : Row → calendar.Date → Option QuotaSpec
  exact_match row today = elim (as_str (field row (codes "period_key"))) [
    | none ↦ none
    | some period_key ↦
        if covers period_key today then own_counter row period_key (row_id row) else none
  ]

  -- rows.iter().find_map(|row| exact_match(row, today))
  unfoldable pub first_match : List Row → calendar.Date → Option QuotaSpec
  first_match [] today = none
  first_match (row ∷ rows) today = elim (exact_match row today) [
    | some spec ↦ some spec
    | none ↦ first_match rows today
  ]

  abbrev renewed_counter : Row → Text → Option Text → Option QuotaSpec
  renewed_counter row current none = none
  renewed_counter row current (some id) = some (record {
    id = id;
    counter_id = id ++ (codes "#" ++ current);
    max_limit = as_i64_or_zero (field row (codes "max_limit"));
    seed_usage = pos 0;
    period_key = current;
  })

  module _ (to_uppercase : Text → Text) where
    -- one row of the loop: the start of its period, and the plan renewed
    unfoldable pub renewal : Row → calendar.Date → Option (Text × QuotaSpec)
    renewal row today = elim (as_str (field row (codes "period_key"))) [
      | none ↦ none
      | some period_key ↦ elim (renewed_period (strategy_of to_uppercase row) today) [
        | none ↦ none
        | some current ↦
            if memcmp_lt (start_of period_key) current
            then elim (renewed_counter row current (row_id row)) [
              | none ↦ none
              | some spec ↦ some (start_of period_key, spec)
            ]
            else none
      ]
    ]

    unfoldable pub latest :
        List Row → calendar.Date → Option (Text × QuotaSpec) → Option (Text × QuotaSpec)
    latest [] today best = best
    latest (row ∷ rows) today best = latest rows today (better best (renewal row today))

    abbrev spec_of : Option (Text × QuotaSpec) → Option QuotaSpec
    spec_of none = none
    spec_of (some (start, spec)) = some spec

    unfoldable pub renew_latest : List Row → calendar.Date → Option QuotaSpec
    renew_latest rows today = spec_of (latest rows today none)

    unfoldable pub pick_active : List Row → calendar.Date → Option QuotaSpec
    pick_active rows today = elim (first_match rows today) [
      | some spec ↦ some spec
      | none ↦ renew_latest rows today
    ]
