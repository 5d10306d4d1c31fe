-- ===== src/Quota/Resolver/Periods.antt =====
-- The cycle that a plan renews into covers the day it is asked for.
use metri_engine.Base.{
  ◌+◌, ◌≤◌, ◌<◌, ◌≡◌, inl, inr, refl, subst, true, Option, none, some, Text, text_eq, nat_eq, codes,
  if◌then◌else◌, Bool-cases, arith,
}
use metri_engine.Base.Strings.{split_once-append}
use metri_engine.Quota.Resolver.{Calendar, covers, renewed_period, period_text}

module _ (calendar : Calendar) where
  abbrev Covered : calendar.Date → Option Text → Type 0
  Covered today none = Unit
  Covered today (some period_key) = covers calendar period_key today ≡ true

  period_text-Covered :
      (today : calendar.Date) (start end : Option calendar.Date)
      → ((s : calendar.Date) → start ≡ some s → calendar.days s ≤ calendar.days today)
      → ((e : calendar.Date) → end ≡ some e → calendar.days today < calendar.days e)
      → Covered today (period_text calendar start end)
  unfolding covers
  period_text-Covered today none end by after = tt
  period_text-Covered today (some s) none by after = tt
  period_text-Covered today (some s) (some e) by after = ground (
    arith,
    split_once-append b'_' (calendar.format s) (calendar.format e) (calendar.no_underscore s),
    calendar.parse-format s,
    calendar.parse-format e,
    by s refl,
    after e refl,
  )

  today_by : (today s : calendar.Date) → some today ≡ some s → calendar.days s ≤ calendar.days today
  today_by today s h =
      subst (λ d. calendar.days d ≤ calendar.days today) (same today s h) (omega arith)
    where
      same : (d e : calendar.Date) → some d ≡ some e → d ≡ e
      same d e k = cc

  monthly_end :
      (today e : calendar.Date)
      → (if nat_eq (calendar.month today) 12
          then calendar.from_ymd_opt (calendar.year today + 1) 1 1
          else calendar.from_ymd_opt (calendar.year today) (calendar.month today + 1) 1)
        ≡ some e
      → calendar.days today < calendar.days e
  monthly_end today e h = elim (Bool-cases (nat_eq (calendar.month today) 12)) [
    | inl k ↦
        calendar.first_of_month_after (calendar.year today + 1) 1 e today (rw k at h)
          (inl (omega arith))
    | inr k ↦
        calendar.first_of_month_after (calendar.year today) (calendar.month today + 1) e today
          (rw k at h) (inr (refl, omega arith))
  ]

  pub renewed_period-Covered :
      (strategy : Text) (today : calendar.Date)
      → Covered today (renewed_period calendar strategy today)
  unfolding renewed_period
  renewed_period-Covered strategy today = elim (Bool-cases (text_eq strategy (codes "DAILY"))) [
    | inl d ↦ rw d (
        period_text-Covered today (some today) (calendar.succ_opt today) (today_by today)
          (λ e h. omega (arith, calendar.days-succ_opt today e h)))
    | inr d ↦ elim (Bool-cases (text_eq strategy (codes "MONTHLY"))) [
      | inl m ↦
          rw (d, m)
            (period_text-Covered today
              (calendar.from_ymd_opt (calendar.year today) (calendar.month today) 1)
              (if nat_eq (calendar.month today) 12
                then calendar.from_ymd_opt (calendar.year today + 1) 1 1
                else calendar.from_ymd_opt (calendar.year today) (calendar.month today + 1) 1)
              (λ s h.
                calendar.first_of_month_by (calendar.year today) (calendar.month today) s today h
                  (inr (refl, omega arith)))
              (monthly_end today))
      | inr m ↦ elim (Bool-cases (text_eq strategy (codes "YEARLY"))) [
        | inl y ↦
            rw (d, m, y)
              (period_text-Covered today (calendar.from_ymd_opt (calendar.year today) 1 1)
                (calendar.from_ymd_opt (calendar.year today + 1) 1 1)
                (λ s h.
                  calendar.first_of_month_by (calendar.year today) 1 s today h
                    (inr (refl, calendar.month_from_1 today)))
                (λ e h.
                  calendar.first_of_month_after (calendar.year today + 1) 1 e today h
                    (inl (omega arith))))
        | inr y ↦ rw (d, m, y) tt
      ]
    ]
  ]

  -- Where a strategy renews on a day, the period that it names covers that day.
  pub renewed_period-covers :
      (strategy : Text) (today : calendar.Date) (period_key : Text)
      → renewed_period calendar strategy today ≡ some period_key
      → covers calendar period_key today ≡ true
  renewed_period-covers strategy today period_key h =
      subst (Covered today) h (renewed_period-Covered strategy today)
