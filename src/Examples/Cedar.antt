-- ===== src/Examples/Cedar.antt =====
-- The rules at concrete inputs.
use metri_engine.Base.{◌≡◌, ◌↔◌, ◌⊎◌, List, [], ◌∷◌, ok}
use metri_engine.Cedar.Rules.{TimeRestriction, Instant, validate_time_window}
use metri_engine.Cedar.Rules.Isolation.{SomePermits, validate_time_window_iff}

-- Mondays, 9:00 to 17:00, and a Monday, 10:30
abbrev office : List TimeRestriction
office = record { days_of_week = 1 ∷ []; start_minute = 540; end_minute = 1020 } ∷ []

abbrev monday : Instant
monday = record { weekday = 1; hour = 10; minute = 30 }

validate_time_window_iff_example :
    (validate_time_window office monday ≡ ok tt) ↔ ((office ≡ []) ⊎ SomePermits monday office)
validate_time_window_iff_example = validate_time_window_iff office monday
