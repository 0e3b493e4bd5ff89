-- ===== src/Server/History/Recent.antt =====
-- Recent records get their time back, and no record comes from the far future.
use ikuzo_neko_pay.Prelude.{
  ℕ, suc, ◌+◌, ◌-◌, ◌*◌, ◌≤◌, ◌≡◌, ◌≢◌, sym, subst, ap, ◌∙◌, ◌⊎◌, inl, inr, Bool, true, false, ◌&&◌,
  some, arith,
}
use ikuzo_neko_pay.Server.History.{
  fits_int, Moment, is_leap, month_days, days_before_year, seconds_of, is_valid, too_late,
  rolled_back, reconstruct_occurred_at,
}
use ikuzo_neko_pay.Server.History.Calendar.{
  IsMoment, IsMoment-is_valid, days_before_month-leap, start_of-seconds_of, seconds_of-start_of,
  start_of-le, start_of-lt,
}

-- The date and the minute of a moment, in another year.
abbrev in_year : Moment → ℕ → Moment
in_year t y = record {
  year = y;
  month = t.month;
  day = t.day;
  hour = t.hour;
  minute = t.minute;
  second = 0;
}

-- A record of the last 362 days, at the time now.
pub record IsRecent (e now : Moment) : Type 0 where
  pub real : IsMoment e
  pub present : IsMoment now
  pub whole : e.second ≡ 0
  pub past : seconds_of e ≤ seconds_of now
  pub young : seconds_of now ≤ seconds_of e + 362 * 86400

year-cases : (e now : Moment) → IsRecent e now → (now.year ≡ e.year) ⊎ (now.year ≡ suc e.year)
year-cases e now r = grind (
  arith,
  start_of-le (suc now.year) e.year,
  start_of-lt (suc e.year) now.year,
  start_of-seconds_of e r.real,
  start_of-seconds_of now r.present,
  seconds_of-start_of e r.real,
  seconds_of-start_of now r.present,
)

same_year : (e now : Moment) → e.second ≡ 0 → now.year ≡ e.year → in_year e now.year ≡ e
same_year e now s y = rw (y, s)

month_days-leap :
    (b c : Bool) (m d : ℕ) → d ≤ month_days b m → (m ≡ 2 → d ≢ 29) → d ≤ month_days c m
unfolding month_days
month_days-leap b c m d h other = ground arith

-- The same date of another year.
IsMoment-in_year :
    (e : Moment) (y : ℕ) → 1 ≤ y → IsMoment e → (e.month ≡ 2 → e.day ≢ 29) → IsMoment (in_year e y)
IsMoment-in_year e y h v other = record {
  some_year = h;
  some_month = v.some_month;
  months = v.months;
  some_day = v.some_day;
  days = month_days-leap (is_leap e.year) (is_leap y) e.month e.day v.days other;
  hours = v.hours;
  minutes = v.minutes;
  seconds = omega arith;
}

-- A year later is at least 365 days later.
year_later :
    (e : Moment) → e.second ≡ 0 → seconds_of e + 31536000 ≤ seconds_of (in_year e (suc e.year))
unfolding seconds_of days_before_year
year_later e s =
    omega (arith, s, days_before_month-leap (is_leap e.year) (is_leap (suc e.year)) e.month)

not_late : (c now : Moment) → seconds_of c ≤ seconds_of now → too_late c now ≡ false
not_late c now h = ground (arith, h)

late : (c now : Moment) → seconds_of now + 259200 ≤ seconds_of c → too_late c now ≡ true
late c now h = ground (arith, h)

month_days-most : (b : Bool) (m : ℕ) → month_days b m ≤ 31
unfolding month_days
month_days-most b m = ground arith

-- The numbers of a moment fit a C int.
small :
    (e : Moment)
    → IsMoment e
    → fits_int e.month && fits_int e.day && fits_int e.hour && fits_int e.minute ≡ true
small e v =
    ground (arith, v.months, v.days, v.hours, v.minutes, month_days-most (is_leap e.year) e.month)

module _ (utc : Moment → Moment) where
  on_time :
      (e now : Moment)
      → IsMoment e
      → is_valid (in_year e now.year) ≡ true
      → too_late (in_year e now.year) now ≡ false
      → reconstruct_occurred_at utc e.month e.day e.hour e.minute now
        ≡ some (utc (in_year e now.year))
  unfolding reconstruct_occurred_at
  on_time e now real v t = rw (small e real, v, t)

  rolled :
      (e now : Moment)
      → IsMoment e
      → is_valid (in_year e now.year) ≡ true
      → too_late (in_year e now.year) now ≡ true
      → is_valid (in_year e (now.year - 1)) ≡ true
      → reconstruct_occurred_at utc e.month e.day e.hour e.minute now
        ≡ some (utc (in_year e (now.year - 1)))
  unfolding reconstruct_occurred_at rolled_back
  rolled e now real v t v' = rw (small e real, v, t, v')

  -- The date and the time of day of a record of the last 362 days give the minute of the record back,
  -- unless it is a 29 February of the year before.
  pub reconstruct_occurred_at-recent :
      (e now : Moment)
      → IsRecent e now
      → (now.year ≢ e.year → e.month ≡ 2 → e.day ≢ 29)
      → reconstruct_occurred_at utc e.month e.day e.hour e.minute now ≡ some (utc e)
  reconstruct_occurred_at-recent e now r other = elim (year-cases e now r) [
    | inl same ↦
        let itself : in_year e now.year ≡ e = same_year e now r.whole same in
        on_time e now r.real (rw itself (IsMoment-is_valid e r.real))
          (rw itself (not_late e now r.past))
        ∙ ap (λ t. some (utc t)) itself
    | inr next ↦
        let before : now.year - 1 ≡ e.year = omega (arith, next) in
        let itself : in_year e (now.year - 1) ≡ e = rw (before, r.whole) in
        let later = year_later e r.whole in
        let late_by =
          subst (λ y. seconds_of e + 31536000 ≤ seconds_of (in_year e y)) (sym next) later in
        rolled e now r.real
          (IsMoment-is_valid (in_year e now.year)
            (IsMoment-in_year e now.year r.present.some_year r.real (other (omega (arith, next)))))
          (late (in_year e now.year) now (omega (arith, r.young, late_by)))
          (rw itself (IsMoment-is_valid e r.real))
        ∙ ap (λ t. some (utc t)) itself
  ]
