-- ===== src/Scheduler/Tests.antt =====
-- A schedule of working days, a broken one and one that is switched off.
use hours_x.Prelude.{
  ℕ, ◌+◌, ◌%◌, List, [], ◌∷◌, Bool, true, false, String, str_eq, none, some, ◌≡◌, refl,
}
use hours_x.Prelude.Text.{strip, split_at, all_chars, is_space, contains_text}
use hours_x.Scheduler.{
  DateTime, Schedule, cron_matches, fields_match, field_matches, any_part, words, cut_at_spaces,
  digits, int, after_sign, step_text, low_text, high_text,
}

-- In November of 2026, whose 23rd is a Monday.
abbrev weekday_of : ℕ → ℕ → ℕ → ℕ
weekday_of year month day = (day + 5) % 7 + 1

abbrev tuesday : DateTime
tuesday = record { year = 2026; month = 11; day = 24; hour = 9; minute = 30; second = 2 }

abbrev later : DateTime
later = record tuesday { second = 58 }

abbrev schedules : List Schedule
schedules =
    record { id = "s1"; cron = "*/15 9-17 * * 1-5"; enabled = true; last_fired_at = none }
    ∷ record { id = "s2"; cron = "*/x * * * *"; enabled = true; last_fired_at = none }
    ∷ record { id = "s3"; cron = "* * * * *"; enabled = false; last_fired_at = none }
    ∷ []

-- The submission of the first one meets its quota.
abbrev over_quota : String → Bool
over_quota id = str_eq id "s1"

abbrev calm : String → Bool
calm id = false

matches : cron_matches weekday_of "*/15 9-17 * * 1-5" tuesday ≡ some true
unfolding cron_matches fields_match field_matches any_part words cut_at_spaces digits int after_sign
    step_text low_text high_text strip split_at all_chars is_space contains_text
matches = refl

raises : cron_matches weekday_of "*/x * * * *" tuesday ≡ none
unfolding cron_matches fields_match field_matches any_part words cut_at_spaces digits int after_sign
    step_text low_text high_text strip split_at all_chars is_space contains_text
raises = refl
