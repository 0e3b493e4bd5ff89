-- ===== src/Server/History/Calendar.antt =====
-- Years and months on the line of seconds.
use ikuzo_neko_pay.Prelude.{
  ℕ, zero, suc, ◌+◌, ◌-◌, ◌*◌, ◌≤◌, ◌<◌, ◌≡◌, refl, subst, Bool, true, false, if◌then◌else◌, arith,
}
use ikuzo_neko_pay.Server.History.{
  Moment, is_leap, month_days, days_before_month, days_before_year, seconds_of, is_valid,
}

pub record IsMoment (t : Moment) : Type 0 where
  pub some_year : 1 ≤ t.year
  pub some_month : 1 ≤ t.month
  pub months : t.month ≤ 12
  pub some_day : 1 ≤ t.day
  pub days : t.day ≤ month_days (is_leap t.year) t.month
  pub hours : t.hour < 24
  pub minutes : t.minute < 60
  pub seconds : t.second < 60

pub IsMoment-is_valid : (t : Moment) → IsMoment t → is_valid t ≡ true
unfolding is_valid
IsMoment-is_valid t v =
    ground (
      arith, v.some_year, v.some_month, v.months, v.some_day, v.days, v.hours, v.minutes, v.seconds,
    )

pub is_valid-IsMoment : (t : Moment) → is_valid t ≡ true → IsMoment t
unfolding is_valid
is_valid-IsMoment t h = record {
  some_year = ground (arith, h);
  some_month = ground (arith, h);
  months = ground (arith, h);
  some_day = ground (arith, h);
  days = ground (arith, h);
  hours = ground (arith, h);
  minutes = ground (arith, h);
  seconds = ground (arith, h);
}

days_before_month-suc : (b : Bool) (m : ℕ) → days_before_month b m ≤ days_before_month b (suc m)
unfolding days_before_month
days_before_month-suc b zero = omega arith
days_before_month-suc b (suc m) = omega arith

days_before_month_mono :
    (b : Bool) (k m n : ℕ) → k + m ≡ n → days_before_month b m ≤ days_before_month b n
days_before_month_mono b zero m n h =
    let same : m ≡ n = omega (arith, h) in
    subst (λ x. days_before_month b m ≤ days_before_month b x) same (omega arith)
days_before_month_mono b (suc k) m zero h = absurd (omega (arith, h))
days_before_month_mono b (suc k) m (suc n) h =
    omega (arith, days_before_month_mono b k m n (omega (arith, h)), days_before_month-suc b n)

days_before_month-end : (b : Bool) → days_before_month b 13 ≡ 365 + (if b then 1 else 0)
unfolding days_before_month month_days
days_before_month-end true = refl
days_before_month-end false = refl

month_days-rest :
    (b c : Bool) (m : ℕ) → month_days b (suc (suc (suc m))) ≡ month_days c (suc (suc (suc m)))
unfolding month_days
month_days-rest b c m = ground arith

days_before_month-rest :
    (b : Bool) (m : ℕ)
    → days_before_month b (suc (suc (suc m)))
      ≡ days_before_month false (suc (suc (suc m))) + (if b then 1 else 0)
unfolding days_before_month month_days
days_before_month-rest true zero = refl
days_before_month-rest false zero = refl
days_before_month-rest b (suc m) =
    omega (arith, days_before_month-rest b m, month_days-rest b false m)

-- The days before a month differ by a leap day at most.
pub days_before_month-leap :
    (b c : Bool) (m : ℕ) → days_before_month b m ≤ days_before_month c m + (if b then 1 else 0)
unfolding days_before_month month_days
days_before_month-leap b c zero = omega arith
days_before_month-leap b c (suc zero) = omega arith
days_before_month-leap b c (suc (suc zero)) = ground arith
days_before_month-leap b c (suc (suc (suc m))) =
    omega (arith, days_before_month-rest b m, days_before_month-rest c m)

day_of_year :
    (b : Bool) (m d : ℕ)
    → 1 ≤ m
    → m ≤ 12
    → d ≤ month_days b m
    → days_before_month b m + d ≤ 365 + (if b then 1 else 0)
unfolding days_before_month
day_of_year b zero d h h' g = absurd (omega (arith, h))
day_of_year b (suc m) d h h' g = omega (
  arith,
  g,
  days_before_month_mono b (11 - m) (suc (suc m)) 13 (omega (arith, h')),
  days_before_month-end b,
)

-- Where a year begins.
abbrev pub start_of : ℕ → ℕ
start_of y = (days_before_year y + 1) * 86400

pub start_of-seconds_of : (t : Moment) → IsMoment t → start_of t.year ≤ seconds_of t
unfolding seconds_of
start_of-seconds_of t v = omega (arith, v.some_day)

pub seconds_of-start_of : (t : Moment) → IsMoment t → seconds_of t < start_of (suc t.year)
unfolding seconds_of days_before_year
seconds_of-start_of t v = omega (
  arith,
  day_of_year (is_leap t.year) t.month t.day v.some_month v.months v.days,
  v.hours,
  v.minutes,
  v.seconds,
)

start_of_mono : (k y z : ℕ) → k + y ≡ z → start_of y + 31536000 * k ≤ start_of z
unfolding days_before_year
start_of_mono zero y z h =
    let same : y ≡ z = omega (arith, h) in
    subst (λ x. start_of y + 31536000 * 0 ≤ start_of x) same (omega arith)
start_of_mono (suc k) y zero h = absurd (omega (arith, h))
start_of_mono (suc k) y (suc z) h = omega (arith, start_of_mono k y z (omega (arith, h)))

pub start_of-le : (y z : ℕ) → y ≤ z → start_of y ≤ start_of z
start_of-le y z h = omega (arith, start_of_mono (z - y) y z (omega (arith, h)))

-- A year has at least 365 days.
pub start_of-lt : (y z : ℕ) → y < z → start_of y + 31536000 ≤ start_of z
start_of-lt y z h = omega (arith, start_of_mono (z - y) y z (omega (arith, h)))
