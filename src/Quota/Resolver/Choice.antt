-- ===== src/Quota/Resolver/Choice.antt =====
-- Which row `pick_active` chooses.
use metri_engine.Base.{
  ◌≡◌, ◌⊎◌, inl, inr, subst, true, Option, none, some, List, [], ◌∷◌, Text, codes, Bool-cases,
  Option-cases,
}
use metri_engine.Base.BigEndian.{memcmp_lt}
use metri_engine.Quota.Resolver.{
  Calendar, QuotaSpec, Row, covers, exact_match, row_id, first_match, renewal, renewed_period,
  latest, better, renew_latest, pick_active, start_of, field, as_str, strategy_of,
}
use metri_engine.Quota.Resolver.Periods.{renewed_period-covers}

module _ (calendar : Calendar) (to_uppercase : Text → Text) where
  -- what every answer satisfies
  abbrev Governs : calendar.Date → Option QuotaSpec → Type 0
  Governs today none = Unit
  Governs today (some q) = covers calendar q.period_key today ≡ true

  exact_match-Governs :
      (row : Row) (today : calendar.Date) → Governs today (exact_match calendar row today)
  unfolding exact_match
  exact_match-Governs row today = elim (Option-cases (as_str (field row (codes "period_key")))) [
    | inl e ↦ rw (e, exact_match, Governs) tt
    | inr (p, e) ↦ elim (Bool-cases (covers calendar p today)) [
      | inr f ↦ rw (e, f, exact_match, Governs) tt
      | inl f ↦ elim (Option-cases (row_id row)) [
        | inl g ↦ rw (e, f, g, exact_match, Governs) tt
        | inr (id, g) ↦ rw (e, f, g, exact_match, Governs) f
      ]
    ]
  ]

  first_match-Governs :
      (rows : List Row) (today : calendar.Date) → Governs today (first_match calendar rows today)
  unfolding first_match
  first_match-Governs [] today = tt
  first_match-Governs (row ∷ rows) today = elim (Option-cases (exact_match calendar row today)) [
    | inl e ↦ rw (e, first_match, Governs) (first_match-Governs rows today)
    | inr (q, e) ↦
        rw (e, first_match, Governs) (subst (Governs today) e (exact_match-Governs row today))
  ]

  -- of a renewal, with the start of the row's period
  abbrev RenewalGoverns : calendar.Date → Option (Text × QuotaSpec) → Type 0
  RenewalGoverns today none = Unit
  RenewalGoverns today (some (start, q)) = covers calendar q.period_key today ≡ true

  renewal-Governs :
      (row : Row) (today : calendar.Date)
      → RenewalGoverns today (renewal calendar to_uppercase row today)
  unfolding renewal
  renewal-Governs row today = elim (Option-cases (as_str (field row (codes "period_key")))) [
    | inl e ↦ rw (e, renewal, RenewalGoverns) tt
    | inr (p, e) ↦
        elim (Option-cases (renewed_period calendar (strategy_of to_uppercase row) today)) [
          | inl f ↦ rw (e, f, renewal, RenewalGoverns) tt
          | inr (current, f) ↦ elim (Bool-cases (memcmp_lt (start_of p) current)) [
            | inr g ↦ rw (e, f, g, renewal, RenewalGoverns) tt
            | inl g ↦ elim (Option-cases (row_id row)) [
              | inl h ↦ rw (e, f, g, h, renewal, RenewalGoverns) tt
              | inr (id, h) ↦
                  rw (e, f, g, h, renewal, RenewalGoverns)
                    (renewed_period-covers calendar (strategy_of to_uppercase row) today current f)
            ]
          ]
        ]
  ]

  better-Governs :
      (today : calendar.Date) (best found : Option (Text × QuotaSpec))
      → RenewalGoverns today best
      → RenewalGoverns today found
      → RenewalGoverns today (better best found)
  better-Governs today best none h g = h
  better-Governs today none (some found) h g = g
  better-Governs today (some (prev, kept)) (some (start, spec)) h g =
      elim (Bool-cases (memcmp_lt prev start)) [ inl e ↦ rw e g | inr e ↦ rw e h ]

  latest-Governs :
      (rows : List Row) (today : calendar.Date) (best : Option (Text × QuotaSpec))
      → RenewalGoverns today best
      → RenewalGoverns today (latest calendar to_uppercase rows today best)
  unfolding latest
  latest-Governs [] today best h = h
  latest-Governs (row ∷ rows) today best h =
      latest-Governs rows today (better best (renewal calendar to_uppercase row today)) (
        better-Governs today best (renewal calendar to_uppercase row today) h
          (renewal-Governs row today))

  -- the answer of the renewal
  renew_latest-Governs :
      (rows : List Row) (today : calendar.Date)
      → Governs today (renew_latest calendar to_uppercase rows today)
  unfolding renew_latest
  renew_latest-Governs rows today =
      elim (Option-cases (latest calendar to_uppercase rows today none)) [
        | inl e ↦ rw (e, renew_latest, Governs) tt
        | inr ((start, q), e) ↦
            rw (e, renew_latest, Governs)
              (subst (RenewalGoverns today) e (latest-Governs rows today none tt))
      ]

  -- Whatever plan is chosen for a day, from any rows, its period covers that day.
  pub pick_active-covers :
      (rows : List Row) (today : calendar.Date) (q : QuotaSpec)
      → pick_active calendar to_uppercase rows today ≡ some q
      → covers calendar q.period_key today ≡ true
  unfolding pick_active
  pick_active-covers rows today q h =
      subst (Governs today) h (chosen (Option-cases (first_match calendar rows today)))
    where
      chosen :
          (first_match calendar rows today ≡ none)
            ⊎ ((a : QuotaSpec) × (first_match calendar rows today ≡ some a))
          → Governs today (pick_active calendar to_uppercase rows today)
      chosen (inl e) = rw (e, pick_active, Governs) (renew_latest-Governs rows today)
      chosen (inr (a, e)) =
          rw (e, pick_active, Governs) (subst (Governs today) e (first_match-Governs rows today))
