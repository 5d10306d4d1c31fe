-- ===== src/Quota/Resolver/Cache.antt =====
-- `QuotaResolver`, src/quota/resolver.rs: the quota of a domain, remembered for a while. The rows of a
-- domain come from `OltpQueryRunner`, a parameter, as do the readings of the clock.
use metri_engine.Base.{
  ℕ, ◌-◌, ◌≤◌, ◌<◌, ◌≡◌, ◌⊎◌, inl, inr, refl, Option, none, some, List, Text, Result, ok, err,
  ◌>>=◌, if◌then◌else◌, ltb, nat_eq, text_eq, text_Eq, pair_Eq, get, insert, remove, Holds,
  insert-Holds, remove-Holds, ltb→lt, ok_or, Option-cases, Bool-cases,
}
use metri_engine.Errors.{ErrorCode, infra001}
use metri_engine.Quota.Resolver.{
  Calendar, QuotaSpec, Row, pick_active, default_quota_domain, derive_for_domain,
}

-- tenant, domain and limit type
abbrev pub CacheKey : Type 0
CacheKey = Text × (Text × Text)

pub record QuotaResolver : Type 0 where
  pub cache : List (CacheKey × (ℕ × QuotaSpec))
  pub ttl : ℕ

-- The stored answer, if it is younger than the time to live; an older one is taken out.
unfoldable pub cached : CacheKey → ℕ → QuotaResolver → Option QuotaSpec × QuotaResolver
cached key now r = if nat_eq r.ttl 0 then (none, r) else elim (get r.cache key) [
  | none ↦ (none, r)
  | some (resolved, spec) ↦
      if ltb (now - resolved) r.ttl
      then (some spec, r)
      else (none, record r { cache = remove r.cache key })
]

unfoldable pub remember : CacheKey → ℕ → QuotaSpec → QuotaResolver → QuotaResolver
remember key now spec r =
    if nat_eq r.ttl 0 then r else record r { cache = insert r.cache key (now, spec) }

module _ (calendar : Calendar) (to_uppercase : Text → Text) where
  -- The rows of a domain at a time, none where the answer is no list; and the day.
  pub record World : Type 0 where
    pub run_oltp_query : ℕ → Text → Text → Text → Result ErrorCode (Option (List Row))
    pub today : ℕ → calendar.Date

  unfoldable pub query_domain : World → ℕ → Text → Text → Text → Result ErrorCode (Option QuotaSpec)
  query_domain w now tenant_id resource_domain limit_type =
      w.run_oltp_query now tenant_id resource_domain limit_type >>= λ answer.
      ok_or answer infra001 >>= λ rows. ok (pick_active calendar to_uppercase rows (w.today now))

  abbrev derived : Text → Option QuotaSpec → Option QuotaSpec
  derived resource_domain none = none
  derived resource_domain (some plantilla) = some (derive_for_domain plantilla resource_domain)

  abbrev or_default :
      World → ℕ → Text → Text → Text → Option QuotaSpec → Result ErrorCode (Option QuotaSpec)
  or_default w now tenant_id resource_domain limit_type (some spec) = ok (some spec)
  or_default w now tenant_id resource_domain limit_type none =
      if text_eq resource_domain default_quota_domain
      then ok none
      else (query_domain w now tenant_id default_quota_domain limit_type >>= λ plan.
          ok (derived resource_domain plan))

  -- the answer without a cache: the domain's own plan, or the tenant's default one
  unfoldable pub resolve : World → ℕ → CacheKey → Result ErrorCode (Option QuotaSpec)
  resolve w now (tenant_id, (resource_domain, limit_type)) =
      query_domain w now tenant_id resource_domain limit_type
      >>= or_default w now tenant_id resource_domain limit_type

  abbrev resolved :
      CacheKey
      → ℕ
      → Result ErrorCode (Option QuotaSpec)
      → QuotaResolver
      → Result ErrorCode (Option QuotaSpec) × QuotaResolver
  resolved key later (ok (some spec)) r = (ok (some spec), remember key later spec r)
  resolved key later (ok none) r = (ok none, r)
  resolved key later (err e) r = (err e, r)

  abbrev or_resolve :
      World
      → CacheKey
      → ℕ
      → ℕ
      → Option QuotaSpec × QuotaResolver
      → Result ErrorCode (Option QuotaSpec) × QuotaResolver
  or_resolve w key now later (some spec, r) = (ok (some spec), r)
  or_resolve w key now later (none, r) = resolved key later (resolve w now key) r

  -- The clock reads `now` at the call and `later` when the answer is stored.
  unfoldable pub active_quota :
      World → CacheKey → ℕ → ℕ → QuotaResolver → Result ErrorCode (Option QuotaSpec) × QuotaResolver
  active_quota w key now later r = or_resolve w key now later (cached key now r)

  -- the answer at a time no later than the one an entry carries
  abbrev pub Answered : World → CacheKey → ℕ × QuotaSpec → Type 0
  Answered w key (t, spec) = (asked : ℕ) × (asked ≤ t) × (resolve w asked key ≡ ok (some spec))

  abbrev pub IsTrue : World → QuotaResolver → Type 0
  IsTrue w r = Holds (Answered w) r.cache

  remember-IsTrue :
      (w : World) (key : CacheKey) (now later : ℕ) (spec : QuotaSpec) (r : QuotaResolver)
      → now ≤ later
      → resolve w now key ≡ ok (some spec)
      → IsTrue w r
      → IsTrue w (remember key later spec r)
  unfolding remember get resolve
  remember-IsTrue w key now later spec r before answer h = elim (Bool-cases (nat_eq r.ttl 0)) [
    | inl e ↦ rw (e, remember) h
    | inr e ↦
        rw (e, remember)
          (insert-Holds (Answered w) r.cache key (later, spec) (now, before, answer) h)
  ]

  resolved-IsTrue :
      (w : World) (key : CacheKey) (now later : ℕ) (answer : Result ErrorCode (Option QuotaSpec))
      (r : QuotaResolver)
      → now ≤ later
      → resolve w now key ≡ answer
      → IsTrue w r
      → IsTrue w ((resolved key later answer r).1)
  resolved-IsTrue w key now later (ok (some spec)) r before e h =
      remember-IsTrue w key now later spec r before e h
  resolved-IsTrue w key now later (ok none) r before e h = h
  resolved-IsTrue w key now later (err c) r before e h = h

  -- what a look into the cache can come to
  data Looked (w : World) (key : CacheKey) (now : ℕ) (r : QuotaResolver)
      : Option QuotaSpec × QuotaResolver → Type 0 where
    missed : (r' : QuotaResolver) → IsTrue w r' → Looked w key now r (none, r')
    hit :
        (t : ℕ) (spec : QuotaSpec)
        → get r.cache key ≡ some (t, spec)
        → now - t < r.ttl
        → IsTrue w r
        → Looked w key now r (some spec, r)

  cached-Looked :
      (w : World) (key : CacheKey) (now : ℕ) (r : QuotaResolver)
      → IsTrue w r
      → Looked w key now r (cached key now r)
  unfolding cached
  cached-Looked w key now r h = elim (Bool-cases (nat_eq r.ttl 0)) [
    | inl e ↦ rw (e, cached) (missed r h)
    | inr e ↦ elim (Option-cases (get r.cache key)) [
      | inl f ↦ rw (e, f, cached) (missed r h)
      | inr ((t, spec), f) ↦ elim (Bool-cases (ltb (now - t) r.ttl)) [
        | inl g ↦ rw (e, f, g, cached) (hit t spec f (ltb→lt (now - t) r.ttl g) h)
        | inr g ↦
            rw (e, f, g, cached)
              (missed (record r { cache = remove r.cache key })
                (remove-Holds (Answered w) r.cache key h))
      ]
    ]
  ]

  -- The world's answer at this time, or the plan of the key's own entry, which is younger than the time
  -- to live and was the world's answer when it was asked for.
  abbrev pub Recent :
      World → CacheKey → ℕ → QuotaResolver → Result ErrorCode (Option QuotaSpec) → Type 0
  Recent w key now r (ok (some spec)) =
      (resolve w now key ≡ ok (some spec))
      ⊎ ((t : ℕ) × (get r.cache key ≡ some (t, spec))
          × (now - t < r.ttl)
          × Answered w key (t, spec))
  Recent w key now r answer = resolve w now key ≡ answer

  resolved-Recent :
      (w : World) (key : CacheKey) (now later : ℕ) (r : QuotaResolver)
      (answer : Result ErrorCode (Option QuotaSpec)) (r' : QuotaResolver)
      → resolve w now key ≡ answer
      → Recent w key now r ((resolved key later answer r').0)
  resolved-Recent w key now later r (ok (some spec)) r' e = inl e
  resolved-Recent w key now later r (ok none) r' e = e
  resolved-Recent w key now later r (err c) r' e = e

  -- With a true cache, whose every entry was the world's answer no later than the time that it carries,
  -- a call answers what the world answers now, or the plan of the cache's own entry of that key, stored
  -- less than the time to live ago, which the world answered then; and the cache stays true. With a
  -- time to live of 0 it always answers what the world answers now.
  pub active_quota-Recent :
      (w : World) (key : CacheKey) (now later : ℕ) (r : QuotaResolver)
      → now ≤ later
      → IsTrue w r
      → Recent w key now r ((active_quota w key now later r).0)
        × IsTrue w ((active_quota w key now later r).1)
  unfolding active_quota
  active_quota-Recent w key now later r before h = after (cached-Looked w key now r h)
    where
      after :
          {looked : Option QuotaSpec × QuotaResolver}
          → Looked w key now r looked
          → Recent w key now r ((or_resolve w key now later looked).0)
            × IsTrue w ((or_resolve w key now later looked).1)
      after (missed r' true') = (
        resolved-Recent w key now later r (resolve w now key) r' refl,
        resolved-IsTrue w key now later (resolve w now key) r' before refl true',
      )
      after (hit t spec found young true') =
          (inr (t, found, young, true' key (t, spec) found), true')
