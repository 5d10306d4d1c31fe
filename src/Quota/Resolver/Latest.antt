-- ===== src/Quota/Resolver/Latest.antt =====
-- Of the plans that renew, `pick_active` chooses the one whose period started last.
use metri_engine.Base.{
  ◌≡◌, ◌⊎◌, inl, inr, refl, sym, subst, ◌∙◌, Bool, true, false, Option, none, some, List, [], ◌∷◌,
  Text, Bool-cases, Option-cases, arith,
}
use mathlib.Core.List.{Memᴰ}
use metri_engine.Base.BigEndian.{memcmp_lt, memcmp_lt_trans, memcmp_lt_cotrans, memcmp_lt_irrefl}
use metri_engine.Quota.Resolver.{
  Calendar, QuotaSpec, Row, first_match, renewal, latest, better, renew_latest, pick_active,
}

below_both : {a b c : Bool} → a ≡ false → (c ≡ true → b ≡ true → a ≡ true) → b ≡ true → c ≡ false
below_both {a} {b} {c} h t e = ground arith

not_below :
    {a b c : Bool} → a ≡ false → (c ≡ true → (a ≡ true) ⊎ (b ≡ true)) → b ≡ false → c ≡ false
not_below {a} {b} {c} h t e = ground arith

module _ (calendar : Calendar) (to_uppercase : Text → Text) where
  -- no earlier than the start that is kept
  abbrev NotAfter : Text → Option (Text × QuotaSpec) → Type 0
  NotAfter start none = Unit
  NotAfter start (some (other, q)) = memcmp_lt start other ≡ false

  NotAfter-best :
      (start : Text) (best found : Option (Text × QuotaSpec))
      → NotAfter start (better best found)
      → NotAfter start best
  NotAfter-best start best none h = h
  NotAfter-best start none (some (s, q)) h = tt
  NotAfter-best start (some (prev, kept)) (some (s, q)) h = elim (Bool-cases (memcmp_lt prev s)) [
    | inl e ↦ below_both (rw e at h) (memcmp_lt_trans start prev s) e
    | inr e ↦ rw e at h
  ]

  NotAfter-found :
      (start : Text) (best found : Option (Text × QuotaSpec))
      → NotAfter start (better best found)
      → NotAfter start found
  NotAfter-found start best none h = tt
  NotAfter-found start none (some (s, q)) h = h
  NotAfter-found start (some (prev, kept)) (some (s, q)) h = elim (Bool-cases (memcmp_lt prev s)) [
    | inl e ↦ rw e at h
    | inr e ↦ not_below (rw e at h) (memcmp_lt_cotrans start s prev) e
  ]

  latest-NotAfter :
      (rows : List Row) (today : calendar.Date) (best : Option (Text × QuotaSpec)) (start : Text)
      (q : QuotaSpec)
      → latest calendar to_uppercase rows today best ≡ some (start, q)
      → NotAfter start best
        × ((row : Row) → Memᴰ row rows → NotAfter start (renewal calendar to_uppercase row today))
  unfolding latest
  latest-NotAfter [] today best start q h = (rw h (memcmp_lt_irrefl start), λ row m. elim m [ ])
  latest-NotAfter (first ∷ rows) today best start q h =
      let found : Option (Text × QuotaSpec) = renewal calendar to_uppercase first today in
      let (kept, later) = latest-NotAfter rows today (better best found) start q h in
      (
        NotAfter-best start best found kept,
        λ row m. elim m [
          | Memᴰ.head e ↦
              subst (λ r. NotAfter start (renewal calendar to_uppercase r today)) (sym e)
                (NotAfter-found start best found kept)
          | Memᴰ.tail n ↦ later row n
        ],
      )

  -- where the answer comes from
  better-origin :
      (best found : Option (Text × QuotaSpec)) (x : Text × QuotaSpec)
      → better best found ≡ some x
      → (best ≡ some x) ⊎ (found ≡ some x)
  better-origin best none x h = inl h
  better-origin none (some f) x h = inr h
  better-origin (some (prev, kept)) (some (s, q)) x h = elim (Bool-cases (memcmp_lt prev s)) [
    | inl e ↦ inr (rw e at h)
    | inr e ↦ inl (rw e at h)
  ]

  latest-origin :
      (rows : List Row) (today : calendar.Date) (best : Option (Text × QuotaSpec))
      (x : Text × QuotaSpec)
      → latest calendar to_uppercase rows today best ≡ some x
      → (best ≡ some x)
        ⊎ ((row : Row) × Memᴰ row rows × (renewal calendar to_uppercase row today ≡ some x))
  unfolding latest
  latest-origin [] today best x h = inl h
  latest-origin (first ∷ rows) today best x h =
      elim (latest-origin rows today (better best (renewal calendar to_uppercase first today)) x
        h) [
          | inr (row, m, e) ↦ inr (row, Memᴰ.tail m, e)
          | inl b ↦ elim (better-origin best (renewal calendar to_uppercase first today) x b) [
            | inl e ↦ inl e
            | inr e ↦ inr (first, Memᴰ.head refl, e)
          ]
        ]

  better-none :
      (best found : Option (Text × QuotaSpec))
      → better best found ≡ none
      → (best ≡ none) × (found ≡ none)
  better-none best none h = (h, refl)
  better-none none (some f) h = absurd cc
  better-none (some (prev, kept)) (some (s, q)) h = elim (Bool-cases (memcmp_lt prev s)) [
    | inl e ↦ absurd (full (rw e at h))
    | inr e ↦ absurd (full (rw e at h))
  ]
    where
      full : {x : Text × QuotaSpec} → some x ≡ none → ⊥
      full e = cc

  latest-none-best :
      (rows : List Row) (today : calendar.Date) (best : Option (Text × QuotaSpec))
      → latest calendar to_uppercase rows today best ≡ none
      → best ≡ none
  unfolding latest
  latest-none-best [] today best h = h
  latest-none-best (first ∷ rows) today best h =
      (better-none best (renewal calendar to_uppercase first today)
        (latest-none-best rows today (better best (renewal calendar to_uppercase first today)) h)).0

  latest-none :
      (rows : List Row) (today : calendar.Date) (best : Option (Text × QuotaSpec)) (row : Row)
      → latest calendar to_uppercase rows today best ≡ none
      → Memᴰ row rows
      → renewal calendar to_uppercase row today ≡ none
  unfolding latest
  latest-none [] today best row h m = elim m [ ]
  latest-none (first ∷ rows) today best row h m =
      let found : Option (Text × QuotaSpec) = renewal calendar to_uppercase first today in
      elim m [
        | Memᴰ.head e ↦
            rw e ((better-none best found (latest-none-best rows today (better best found) h)).1)
        | Memᴰ.tail n ↦
            latest-none rows today (better best (renewal calendar to_uppercase first today)) row h n
      ]

  -- Where no row's period covers the day and some row renews, the plan chosen is the renewal of one of
  -- the rows, and no row that renews has a period that starts later.
  pub pick_active_latest :
      (rows : List Row) (today : calendar.Date) (row : Row) (s : Text) (renewed : QuotaSpec)
      → first_match calendar rows today ≡ none
      → Memᴰ row rows
      → renewal calendar to_uppercase row today ≡ some (s, renewed)
      → (chosen : Row) × (start : Text) × (q : QuotaSpec) × Memᴰ chosen rows
        × (renewal calendar to_uppercase chosen today ≡ some (start, q))
        × (pick_active calendar to_uppercase rows today ≡ some q)
        × (memcmp_lt start s ≡ false)
  unfolding pick_active renew_latest
  pick_active_latest rows today row s renewed none_now m e =
      elim (Option-cases (latest calendar to_uppercase rows today none)) [
        | inl l ↦ absurd (contradiction (sym (latest-none rows today none row l m) ∙ e))
        | inr ((start, q), l) ↦ elim (latest-origin rows today none (start, q) l) [
          | inl b ↦ absurd (contradiction b)
          | inr (chosen, among, from) ↦ (
            chosen,
            start,
            q,
            among,
            from,
            rw (none_now, l, pick_active, renew_latest) refl,
            subst (NotAfter start) e ((latest-NotAfter rows today none start q l).1 row m),
          )
        ]
      ]
    where
      contradiction : {x : Text × QuotaSpec} → none ≡ some x → ⊥
      contradiction b = cc
