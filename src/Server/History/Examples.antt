-- ===== src/Server/History/Examples.antt =====
-- Records around the turn of a year.
use ikuzo_neko_pay.Prelude.{◌≡◌, refl, true, false, none, some, arith, ◌<◌, ◌+◌}
use ikuzo_neko_pay.Server.History.{Moment, seconds_of, reconstruct_occurred_at, month_days}
use ikuzo_neko_pay.Server.History.Calendar.{IsMoment}
use ikuzo_neko_pay.Server.History.Recent.{IsRecent, reconstruct_occurred_at-recent}
use ikuzo_neko_pay.Server.History.Bounded.{all_fit, reconstruct_occurred_at-bounded}

-- Five minutes to midnight on 31 December of 2024, and half a day later.
abbrev eve : Moment
eve = record { year = 2024; month = 12; day = 31; hour = 23; minute = 55; second = 0 }

abbrev noon : Moment
noon = record { year = 2025; month = 1; day = 1; hour = 12; minute = 0; second = 30 }

eve-IsMoment : IsMoment eve
unfolding month_days
eve-IsMoment = record {
  some_year = omega arith;
  some_month = omega arith;
  months = omega arith;
  some_day = omega arith;
  days = omega arith;
  hours = omega arith;
  minutes = omega arith;
  seconds = omega arith;
}

noon-IsMoment : IsMoment noon
unfolding month_days
noon-IsMoment = record {
  some_year = omega arith;
  some_month = omega arith;
  months = omega arith;
  some_day = omega arith;
  days = omega arith;
  hours = omega arith;
  minutes = omega arith;
  seconds = omega arith;
}

eve-IsRecent : IsRecent eve noon
unfolding seconds_of
eve-IsRecent = record {
  real = eve-IsMoment;
  present = noon-IsMoment;
  whole = refl;
  past = omega arith;
  young = omega arith;
}

reconstruct_occurred_at-recent_example :
    reconstruct_occurred_at (λ t. t) 12 31 23 55 noon ≡ some eve
reconstruct_occurred_at-recent_example =
    reconstruct_occurred_at-recent (λ t. t) eve noon eve-IsRecent (λ d. cc)

reconstruct_occurred_at-bounded_example :
    (all_fit 2 29 12 0 ≡ true
      → (t : Moment) × (reconstruct_occurred_at (λ t. t) 2 29 12 0 noon ≡ some t)
        × (seconds_of t < seconds_of noon + 259200))
    × (all_fit 2 29 12 0 ≡ false → reconstruct_occurred_at (λ t. t) 2 29 12 0 noon ≡ none)
reconstruct_occurred_at-bounded_example =
    reconstruct_occurred_at-bounded (λ t. t) 2 29 12 0 noon noon-IsMoment (omega arith)

-- On that day a record of 29 February 2024 gets the time of the sync.
reconstruct_occurred_at-leap_day : reconstruct_occurred_at (λ t. t) 2 29 12 0 noon ≡ some noon
unfolding reconstruct_occurred_at
reconstruct_occurred_at-leap_day = refl
