-- ===== src/Examples/Resolver.antt =====
-- The resolver of quotas, in a calendar of twelve months of 31 days, a date being its number.
use metri_engine.Base.{
  ℕ, ◌+◌, ◌-◌, ◌*◌, ◌/◌, ◌%◌, ◌≡◌, refl, true, false, ◌&&◌, Option, none, some, [], ◌∷◌, Text, ok,
  codes, if◌then◌else◌, leb, get, text_eq, text_Eq, pair_Eq, arith,
}
use mathlib.Core.List.{Memᴰ}
use metri_engine.Base.Int.{pos}
use metri_engine.Base.BigEndian.{memcmp_lt}
use metri_engine.Base.Strings.{split_once, contains}
use metri_engine.Quota.Resolver.{
  Calendar, QuotaSpec, Row, string, integer, covers, first_match, exact_match, renewal, latest,
  renew_latest, pick_active, renewed_period, start_of, row_id, field,
}
use metri_engine.Quota.Resolver.Choice.{pick_active-covers}
use metri_engine.Quota.Resolver.Latest.{pick_active_latest}
use metri_engine.Quota.Resolver.Cache.{
  QuotaResolver, World, CacheKey, IsTrue, Recent, active_quota, active_quota-Recent,
}

abbrev from_parts : ℕ → ℕ → ℕ → Option ℕ
from_parts y m d =
    if leb 1 m && leb m 12 && leb 1 d && leb d 31
    then some (y * 372 + (m - 1) * 31 + (d - 1))
    else none

abbrev read_date : Text → Option ℕ
read_date [] = none
read_date (c ∷ []) = if leb 200 c then some (c - 200) else none
read_date (c ∷ d ∷ cs) = none

no_mark : (n : ℕ) → contains b'_' ((n + 200) ∷ []) ≡ false
unfolding contains
no_mark n = ground arith

abbrev calendar : Calendar
calendar = record {
  Date = ℕ;
  year = λ n. n / 372;
  month = λ n. n / 31 % 12 + 1;
  days = λ n. n;
  from_ymd_opt = from_parts;
  succ_opt = λ n. some (n + 1);
  format = λ n. (n + 200) ∷ [];
  parse = read_date;
  parse-format = λ n. ground arith;
  no_underscore = no_mark;
  days-succ_opt = λ d e h. ground arith;
  first_of_month_by = λ y m s d h k. ground arith;
  first_of_month_after = λ y m s d h k. ground arith;
  month_from_1 = λ d. omega arith;
}

abbrev same : Text → Text
same t = t

-- a monthly plan whose row is of an earlier month
abbrev last_month : Row
last_month =
    (codes "id", string (codes "q1"))
    ∷ (codes "domain_quota/period_key", string (1100 ∷ 95 ∷ 1131 ∷ []))
    ∷ (codes "reset_strategy", string (codes "MONTHLY"))
    ∷ (codes "max_limit", integer (pos 50))
    ∷ (codes "current_usage", integer (pos 49))
    ∷ []

abbrev renewed : QuotaSpec
renewed = record {
  id = codes "q1";
  counter_id = 113 ∷ 49 ∷ 35 ∷ 1192 ∷ 95 ∷ 1223 ∷ [];
  max_limit = pos 50;
  seed_usage = pos 0;
  period_key = 1192 ∷ 95 ∷ 1223 ∷ [];
}

pick_active-covers_example : covers calendar (1192 ∷ 95 ∷ 1223 ∷ []) 1000 ≡ true
unfolding pick_active first_match exact_match renew_latest latest renewal renewed_period covers
    start_of row_id field get text_eq split_once memcmp_lt
pick_active-covers_example = pick_active-covers calendar same (last_month ∷ []) 1000 renewed refl

pick_active_latest_example :
    (chosen : Row) × (start : Text) × (q : QuotaSpec) × Memᴰ chosen (last_month ∷ [])
    × (renewal calendar same chosen 1000 ≡ some (start, q))
    × (pick_active calendar same (last_month ∷ []) 1000 ≡ some q)
    × (memcmp_lt start (1100 ∷ []) ≡ false)
unfolding first_match exact_match renewal renewed_period covers start_of row_id field get text_eq
    split_once memcmp_lt
pick_active_latest_example =
    pick_active_latest calendar same (last_month ∷ []) 1000 last_month (1100 ∷ []) renewed refl
      (Memᴰ.head refl) refl

abbrev world : World calendar same
world = record {
  run_oltp_query = λ now tenant domain limit. ok (some (last_month ∷ []));
  today = λ now. 1000;
}

abbrev fresh : QuotaResolver
fresh = record { cache = []; ttl = 30 }

abbrev assets : CacheKey
assets = (codes "acme", (codes "asset", codes "RECORDS"))

fresh-IsTrue : IsTrue calendar same world fresh
unfolding get
fresh-IsTrue key answer h = absurd cc

active_quota-Recent_example :
    Recent calendar same world assets 5 fresh
      ((active_quota calendar same world assets 5 6 fresh).0)
    × IsTrue calendar same world ((active_quota calendar same world assets 5 6 fresh).1)
active_quota-Recent_example =
    active_quota-Recent calendar same world assets 5 6 fresh (omega arith) fresh-IsTrue
