-- ===== src/Server/History.antt =====
-- reconstruct_occurred_at of app/sync/dedup.py: the time of a record that names no year. The two texts
-- are taken as the numbers that they hold, and now_local to the second.
pub mod Calendar
pub mod Recent
pub mod Bounded
mod Examples
use ikuzo_neko_pay.Prelude.{
  ℕ, zero, suc, ◌+◌, ◌-◌, ◌*◌, ◌/◌, ◌%◌, Bool, true, false, not, ◌||◌, ◌&&◌, Option, none, some,
  ltb, leb, ◌==◌, if◌then◌else◌,
}

-- Python's datetime.
pub record Moment : Type 0 where
  pub year : ℕ
  pub month : ℕ
  pub day : ℕ
  pub hour : ℕ
  pub minute : ℕ
  pub second : ℕ

abbrev pub is_leap : ℕ → Bool
is_leap y = y % 4 == 0 && (not (y % 100 == 0) || y % 400 == 0)

unfoldable pub month_days : Bool → ℕ → ℕ
month_days leap m =
    if m == 2
    then (if leap then 29 else 28)
    else if m == 4 || m == 6 || m == 9 || m == 11
    then 30
    else 31

-- The days of a year before a month, and before the year.
unfoldable pub days_before_month : Bool → ℕ → ℕ
unfolding month_days
days_before_month leap zero = 0
days_before_month leap (suc zero) = 0
days_before_month leap (suc (suc m)) = days_before_month leap (suc m) + month_days leap (suc m)

unfoldable pub days_before_year : ℕ → ℕ
days_before_year zero = 0
days_before_year (suc y) = days_before_year y + 365 + (if is_leap y then 1 else 0)

-- The seconds up to a moment.
unfoldable pub seconds_of : Moment → ℕ
unfolding days_before_month days_before_year
seconds_of t =
    (days_before_year t.year + days_before_month (is_leap t.year) t.month + t.day) * 86400
    + t.hour * 3600
    + t.minute * 60
    + t.second

-- The checks of the constructor, where the year is not above 9999.
unfoldable pub is_valid : Moment → Bool
unfolding month_days
is_valid t =
    leb 1 t.year
    && (leb 1 t.month && leb t.month 12)
    && (leb 1 t.day && leb t.day (month_days (is_leap t.year) t.month))
    && ltb t.hour 24
    && ltb t.minute 60
    && ltb t.second 60

-- FUTURE_SLACK_DAYS
abbrev pub slack_days : ℕ
slack_days = 2

-- `(candidate - now_local).days > FUTURE_SLACK_DAYS`: a negative difference is below.
abbrev pub too_late : Moment → Moment → Bool
too_late candidate now = ltb slack_days ((seconds_of candidate - seconds_of now) / 86400)

abbrev checked : Moment → Option Moment
checked t = if is_valid t then some t else none

-- The year before; the ValueError of that falls back to day 28.
unfoldable pub rolled_back : Moment → Option Moment
unfolding is_valid
rolled_back t =
    if is_valid (record t { year = t.year - 1 })
    then some (record t { year = t.year - 1 })
    else checked (record t { year = t.year - 1; day = 28 })

abbrev pub mapped : (Moment → Moment) → Option Moment → Option Moment
mapped f none = none
mapped f (some t) = some (f t)

-- The constructor takes C ints: a number from 2 ^ 31 on is an OverflowError, which is no ValueError.
abbrev pub fits_int : ℕ → Bool
fits_int n = ltb n 2147483648

-- `local_to_utc` is the parameter utc; none is an exception that leaves the function.
unfoldable pub reconstruct_occurred_at : (Moment → Moment) → ℕ → ℕ → ℕ → ℕ → Moment → Option Moment
unfolding is_valid seconds_of rolled_back
reconstruct_occurred_at utc mm dd hh minute now =
    let candidate : Moment = record {
      year = now.year;
      month = mm;
      day = dd;
      hour = hh;
      minute = minute;
      second = 0;
    } in
    if not (fits_int mm && fits_int dd && fits_int hh && fits_int minute)
    then none
    else if not (is_valid candidate)
    then some (utc now)
    else mapped utc (if too_late candidate now then rolled_back candidate else some candidate)
