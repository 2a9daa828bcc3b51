-- ===== src/Scheduler.antt =====
-- Schedules that fire runs: src/hoursx/scheduler.py. Digits are the ASCII ones. The day of the week is
-- the date library's; what a fired schedule is handed to (a session, an event, a
-- run) is left out, but for the submissions that raise.

pub mod Once
mod Tests
use Prim.Native.Char.{Char, code}
use hours_x.Prelude.{
  ℕ, suc, ◌+◌, ◌-◌, ◌*◌, ◌%◌, List, [], ◌∷◌, Bool, true, false, ◌&&◌, ◌||◌, not, Option, none, some,
  String, if◌then◌else◌, ltb, leb, ◌==◌, str_eq, keep_if, map,
}
use hours_x.Prelude.Text.{between, strip, split_at, contains_text, is_space, all_chars}

-- `int(text)`; `none` is the `ValueError`. An underscore may stand between two digits.
unfoldable pub digits : ℕ → Bool → String → Option ℕ
digits acc after_digit String.[] = if after_digit then some acc else none
digits acc after_digit (String.◌∷◌ c s) =
    let taken = digits (acc * 10 + (code c - 48)) true s in
    let skipped = digits acc false s in
    if between 48 57 (code c) then taken else if after_digit && code c == 95 then skipped else none

-- A number with the sign taken off, and whether the sign was a minus.
unfoldable pub after_sign : String → Bool × String
after_sign String.[] = (false, "")
after_sign (String.◌∷◌ c s) =
    if code c == 45 then (true, s) else if code c == 43 then (false, s) else (false, String.◌∷◌ c s)

-- A negative number is below every value, so its size is not kept.
pub data Number : Type 0 where
  below : Number
  number : ℕ → Number

abbrev pub signed : Bool → Option ℕ → Option Number
signed negative none = none
signed negative (some n) = some (if negative && ltb 0 n then below else number n)

unfoldable pub int : String → Option Number
int text = let (negative, rest) = after_sign (strip text) in signed negative (digits 0 false rest)

-- `part.startswith("*/")`, with what follows.
unfoldable pub step_text : String → Option String
step_text String.[] = none
step_text (String.◌∷◌ c String.[]) = none
step_text (String.◌∷◌ c (String.◌∷◌ d s)) = if code c == 42 && code d == 47 then some s else none

-- The text before the first "-", and after it.
unfoldable pub low_text : String → String
low_text String.[] = ""
low_text (String.◌∷◌ c s) = let rest = low_text s in if code c == 45 then "" else String.◌∷◌ c rest

unfoldable pub high_text : String → String
high_text String.[] = ""
high_text (String.◌∷◌ c s) = let rest = high_text s in if code c == 45 then s else rest

abbrev pub divides : ℕ → Option Number → Option Bool
divides value none = none
divides value (some below) = some false
divides value (some (number step)) = some (ltb 0 step && value % step == 0)

abbrev pub at_most : ℕ → Option Number → Option Bool
at_most value none = none
at_most value (some below) = some false
at_most value (some (number high)) = some (leb value high)

-- The second bound is read only when the first one holds.
abbrev pub in_range : ℕ → Option Number → Option Number → Option Bool
in_range value none high = none
in_range value (some below) high = at_most value high
in_range value (some (number low)) high = if leb low value then at_most value high else some false

abbrev pub is_number : ℕ → Option ℕ → Option Bool
is_number value none = some false
is_number value (some n) = some (n == value)

-- One part of a field, none of which is "*".
abbrev pub part_matches : String → ℕ → Option String → Option Bool
part_matches part value (some step) = divides value (int step)
part_matches part value none =
    if contains_text "-" part
    then in_range value (int (low_text part)) (int (high_text part))
    else if all_chars (between 48 57) part && not (str_eq part "")
    then is_number value (digits 0 false part)
    else some false

-- After a part that matches, no further part is read.
abbrev pub or_rest : Option Bool → Option Bool → Option Bool
or_rest none rest = none
or_rest (some true) rest = some true
or_rest (some false) rest = rest

unfoldable pub any_part : List String → ℕ → Option Bool
any_part [] value = some false
any_part (part ∷ parts) value =
    let rest = any_part parts value in
    if str_eq part "*" then some true else or_rest (part_matches part value (step_text part)) rest

unfoldable pub field_matches : String → ℕ → Option Bool
field_matches field value = any_part (split_at 44 field) value

abbrev pub add_first : Char → List String → List String
add_first c [] = String.◌∷◌ c "" ∷ []
add_first c (w ∷ ws) = String.◌∷◌ c w ∷ ws

unfoldable pub cut_at_spaces : String → List String
cut_at_spaces String.[] = "" ∷ []
cut_at_spaces (String.◌∷◌ c s) =
    let rest = cut_at_spaces s in if is_space (code c) then "" ∷ rest else add_first c rest

-- `expression.split()`.
unfoldable pub words : String → List String
words s = keep_if (λ w. not (str_eq w "")) (cut_at_spaces s)

pub record DateTime : Type 0 where
  pub year : ℕ
  pub month : ℕ
  pub day : ℕ
  pub hour : ℕ
  pub minute : ℕ
  pub second : ℕ

-- Equality once the seconds are replaced by zero.
unfoldable pub same_minute : DateTime → DateTime → Bool
same_minute a b =
    a.year == b.year
    && (a.month == b.month && (a.day == b.day && (a.hour == b.hour && a.minute == b.minute)))

-- `and` on tests that may raise.
abbrev pub and_then : Option Bool → Option Bool → Option Bool
and_then none rest = none
and_then (some false) rest = some false
and_then (some true) rest = rest

pub record Schedule : Type 0 where
  pub id : String
  pub cron : String
  pub enabled : Bool
  pub last_fired_at : Option DateTime

abbrev pub fired_in : Option DateTime → DateTime → Bool
fired_in none now = false
fired_in (some last) now = same_minute last now

-- The marked schedules are submitted in order, until the submission of one raises: those that were
-- submitted, and whether one raised.
unfoldable pub submit_marked : (String → Bool) → List String → List String × Bool
submit_marked raises [] = ([], false)
submit_marked raises (id ∷ ids) =
    let (fired, raised) = submit_marked raises ids in
    if raises id then ([], true) else (id ∷ fired, raised)

-- `isoweekday` of a year, a month and a day, from 1 for Monday to 7 for Sunday.
module _ (isoweekday : ℕ → ℕ → ℕ → ℕ) where
  unfoldable pub fields_match : List String → DateTime → Option Bool
  fields_match (minute ∷ hour ∷ day ∷ month ∷ weekday ∷ []) at_time =
      and_then (field_matches minute at_time.minute) (
        and_then (field_matches hour at_time.hour) (
          and_then (field_matches day at_time.day) (
            and_then (field_matches month at_time.month)
              (field_matches weekday (isoweekday at_time.year at_time.month at_time.day % 7)))))
  fields_match _ at_time = none

  unfoldable pub cron_matches : String → DateTime → Option Bool
  cron_matches expression at_time = fields_match (words expression) at_time

  fire_matched : DateTime → Schedule → Option Bool → Bool × Schedule
  fire_matched now s (some true) =
      if fired_in s.last_fired_at now
      then (false, s)
      else (true, record s { last_fired_at = some now })
  fire_matched now s _ = (false, s)

  -- Whether the schedule fires, and its row after the tick.
  unfoldable pub fire : DateTime → Schedule → Bool × Schedule
  unfolding fire_matched
  fire now s = if s.enabled then fire_matched now s (cron_matches s.cron now) else (false, s)

  -- The first session of a tick: the ids of the schedules that it marks, and the rows it commits.
  unfoldable pub mark_due : DateTime → List Schedule → List String × List Schedule
  mark_due now [] = ([], [])
  mark_due now (s ∷ ss) =
      let (fires, row) = fire now s in
      let (ids, rows) = mark_due now ss in (if fires then s.id ∷ ids else ids, row ∷ rows)

  -- A tick: how far it came with the schedules that it marked, and the rows.
  unfoldable pub fire_due_schedules :
      (String → Bool) → DateTime → List Schedule → (List String × Bool) × List Schedule
  fire_due_schedules raises now ss =
      let (ids, rows) = mark_due now ss in (submit_marked raises ids, rows)
