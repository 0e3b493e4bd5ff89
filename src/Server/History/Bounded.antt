-- ===== src/Server/History/Bounded.antt =====
-- No record gets a time that lies more than two days ahead.
use ikuzo_neko_pay.Prelude.{
  ℕ, suc, ◌+◌, ◌-◌, ◌≤◌, ◌<◌, ◌≡◌, refl, inl, inr, Bool, true, false, Bool-cases, ◌&&◌, none, some,
  if◌then◌else◌, arith,
}
use ikuzo_neko_pay.Server.History.{
  fits_int, Moment, is_leap, month_days, seconds_of, is_valid, too_late, rolled_back,
  reconstruct_occurred_at,
}
use ikuzo_neko_pay.Server.History.Calendar.{
  IsMoment, is_valid-IsMoment, IsMoment-is_valid, start_of-le, start_of-seconds_of,
  seconds_of-start_of,
}

not_late-close : (c now : Moment) → too_late c now ≡ false → seconds_of c < seconds_of now + 259200
not_late-close c now h = ground (arith, h)

-- A valid moment of a year before is before.
earlier :
    (t now : Moment) → IsMoment t → IsMoment now → t.year < now.year → seconds_of t < seconds_of now
earlier t now v n h = omega (
  arith,
  seconds_of-start_of t v,
  start_of-seconds_of now n,
  start_of-le (suc t.year) now.year (omega (arith, h)),
)

month_days-least : (b : Bool) (m : ℕ) → 28 ≤ month_days b m
unfolding month_days
month_days-least b m = ground arith

shortened :
    (c : Moment) → IsMoment c → 2 ≤ c.year → IsMoment (record c { year = c.year - 1; day = 28 })
shortened c v h = record {
  some_year = omega (arith, h);
  some_month = v.some_month;
  months = v.months;
  some_day = omega arith;
  days = month_days-least (is_leap (c.year - 1)) c.month;
  hours = v.hours;
  minutes = v.minutes;
  seconds = v.seconds;
}

rolled_back-earlier :
    (c now : Moment)
    → IsMoment c
    → IsMoment now
    → now.year ≡ c.year
    → 2 ≤ c.year
    → (t : Moment) × (rolled_back c ≡ some t) × (seconds_of t < seconds_of now)
unfolding rolled_back
rolled_back-earlier c now v n same two =
    elim (Bool-cases (is_valid (record c { year = c.year - 1 }))) [
      | inl a ↦ (
        record c { year = c.year - 1 },
        rw a,
        earlier (record c { year = c.year - 1 }) now (is_valid-IsMoment _ a) n
            (omega (arith, same, two)),
      )
      | inr a ↦
          let s = shortened c v two in
          (
            record c { year = c.year - 1; day = 28 },
            rw (a, IsMoment-is_valid _ s),
            earlier (record c { year = c.year - 1; day = 28 }) now s n (omega (arith, same, two)),
          )
    ]

-- The moment that is made of a date and a time of day in the year of now.
abbrev this_year : ℕ → ℕ → ℕ → ℕ → Moment → Moment
this_year mm dd hh minute now = record {
  year = now.year;
  month = mm;
  day = dd;
  hour = hh;
  minute = minute;
  second = 0;
}

-- Each number of a record fits a C int.
abbrev pub all_fit : ℕ → ℕ → ℕ → ℕ → Bool
all_fit mm dd hh minute = fits_int mm && fits_int dd && fits_int hh && fits_int minute

module _ (utc : Moment → Moment) (mm dd hh minute : ℕ) (now : Moment) where
  if_invalid :
      all_fit mm dd hh minute ≡ true
      → is_valid (this_year mm dd hh minute now) ≡ false
      → reconstruct_occurred_at utc mm dd hh minute now ≡ some (utc now)
  unfolding reconstruct_occurred_at
  if_invalid f v = rw (f, v)

  if_valid :
      (b : Bool) (t : Moment)
      → all_fit mm dd hh minute ≡ true
      → is_valid (this_year mm dd hh minute now) ≡ true
      → too_late (this_year mm dd hh minute now) now ≡ b
      → (if b
          then rolled_back (this_year mm dd hh minute now)
          else some (this_year mm dd hh minute now))
        ≡ some t
      → reconstruct_occurred_at utc mm dd hh minute now ≡ some (utc t)
  unfolding reconstruct_occurred_at
  if_valid b t f v late h = rw (f, v, late, h)

  if_over : all_fit mm dd hh minute ≡ false → reconstruct_occurred_at utc mm dd hh minute now ≡ none
  unfolding reconstruct_occurred_at
  if_over f = rw f

  if_fits :
      IsMoment now
      → 2 ≤ now.year
      → all_fit mm dd hh minute ≡ true
      → (t : Moment) × (reconstruct_occurred_at utc mm dd hh minute now ≡ some (utc t))
        × (seconds_of t < seconds_of now + 259200)
  if_fits n two f =
      let c = this_year mm dd hh minute now in
      elim (Bool-cases (is_valid c)) [
        | inr invalid ↦ (now, if_invalid f invalid, omega arith)
        | inl valid ↦ elim (Bool-cases (too_late c now)) [
          | inr near ↦ (c, if_valid false c f valid near refl, not_late-close c now near)
          | inl late ↦
              let (t, back, before) =
                rolled_back-earlier c now (is_valid-IsMoment c valid) n refl two in
              (t, if_valid true t f valid late back, omega (arith, before))
        ]
      ]

  -- From the year 2 on a record gets a time exactly where its four numbers are below 2 ^ 31, also where
  -- they are no date; that time, before its conversion to UTC, is less than three days ahead. With a
  -- number from 2 ^ 31 on an exception leaves the function.
  pub reconstruct_occurred_at-bounded :
      IsMoment now
      → 2 ≤ now.year
      → (all_fit mm dd hh minute ≡ true
          → (t : Moment) × (reconstruct_occurred_at utc mm dd hh minute now ≡ some (utc t))
            × (seconds_of t < seconds_of now + 259200))
        × (all_fit mm dd hh minute ≡ false → reconstruct_occurred_at utc mm dd hh minute now ≡ none)
  reconstruct_occurred_at-bounded n two = (if_fits n two, if_over)
