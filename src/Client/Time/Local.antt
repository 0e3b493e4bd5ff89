-- ===== src/Client/Time/Local.antt =====
-- nowLocalValue writes a text of the layout YYYY-MM-DDTHH:MM that a form field of type datetime-local
-- takes, and that says the time it was given.
use Prim.Native.Char.{Char, code}
use Prim.Native.String.{◌++◌}
use Prim.Native.String.append
use ikuzo_neko_pay.Prelude.{
  ℕ, zero, suc, ◌/◌, ◌%◌, ◌+◌, ◌*◌, ◌-◌, ◌≤◌, ◌<◌, ◌≡◌, refl, ap, ◌∙◌, String, Bool, true, ◌&&◌,
  Option, none, some, leb, ◌==◌, if◌then◌else◌, arith,
}
use ikuzo_neko_pay.Client.Time.{digit, to_text, pad, LocalDate, now_local_value}
use ikuzo_neko_pay.Client.Time.Digits.{digits_onto-year, pad-two}

abbrev is_digit : Char → Bool
is_digit c = leb b'0' (code c) && leb (code c) b'9'

abbrev digit_value : Char → ℕ
digit_value c = code c - b'0'

infixl 5 ◌>>=◌
abbrev ◌>>=◌ : {A B : Type 0} → Option A → (A → Option B) → Option B
none >>= f = none
some a >>= f = f a

-- Two digits, and what follows them.
unfoldable pub read_two : String → Option (ℕ × String)
read_two (String.◌∷◌ c (String.◌∷◌ d s)) =
    if is_digit c && is_digit d then some (10 * digit_value c + digit_value d, s) else none
read_two s = none

unfoldable pub skip : Char → String → Option String
skip c String.[] = none
skip c (String.◌∷◌ d s) = if code c == code d then some s else none

-- A reader of the layout.
unfoldable pub read_local : String → Option LocalDate
unfolding read_two skip
read_local s = do
  (century, s) ← read_two s
  (year, s) ← read_two s
  s ← skip "-" s
  (month, s) ← read_two s
  s ← skip "-" s
  (day, s) ← read_two s
  s ← skip "T" s
  (hours, s) ← read_two s
  s ← skip ":" s
  (minutes, s) ← read_two s
  some (record {
    full_year = 100 * century + year;
    month = month - 1;
    date = day;
    hours = hours;
    minutes = minutes;
  })

digit-value : (n : ℕ) → n < 10 → (is_digit (digit n) ≡ true) × (digit_value (digit n) ≡ n)
unfolding digit
digit-value zero h = (refl, refl)
digit-value (suc zero) h = (refl, refl)
digit-value (suc (suc zero)) h = (refl, refl)
digit-value (suc (suc (suc zero))) h = (refl, refl)
digit-value (suc (suc (suc (suc zero)))) h = (refl, refl)
digit-value (suc (suc (suc (suc (suc zero))))) h = (refl, refl)
digit-value (suc (suc (suc (suc (suc (suc zero)))))) h = (refl, refl)
digit-value (suc (suc (suc (suc (suc (suc (suc zero))))))) h = (refl, refl)
digit-value (suc (suc (suc (suc (suc (suc (suc (suc zero)))))))) h = (refl, refl)
digit-value (suc (suc (suc (suc (suc (suc (suc (suc (suc zero))))))))) h = (refl, refl)
digit-value (suc (suc (suc (suc (suc (suc (suc (suc (suc (suc n)))))))))) h = absurd (omega arith)

two : ℕ → String → String
two n s = String.◌∷◌ (digit (n / 10)) (String.◌∷◌ (digit (n % 10)) s)

read_two-two : (n : ℕ) (s : String) → n < 100 → read_two (two n s) ≡ some (n, s)
unfolding read_two two
read_two-two n s h =
    let high = digit-value (n / 10) (omega arith) in
    let low = digit-value (n % 10) (omega arith) in
    let whole : 10 * (n / 10) + n % 10 ≡ n = omega arith in rw (high.0, low.0, high.1, low.1, whole)

pad-append : (n : ℕ) (s : String) → n < 100 → pad n ++ s ≡ two n s
unfolding two
pad-append n s h = rw (pad-two n h) (simp (append.cons, append.nil))

year-append :
    (n : ℕ) (s : String) → 1000 ≤ n → n < 10000 → to_text n ++ s ≡ two (n / 100) (two (n % 100) s)
unfolding two to_text
year-append n s lo hi =
    let e0 : n / 100 / 10 ≡ n / 1000 = omega arith in
    let e1 : n % 100 / 10 ≡ n / 10 % 10 = omega arith in
    let e2 : n % 100 % 10 ≡ n % 10 = omega arith in
    rw (digits_onto-year (suc n) n (omega arith) lo hi, e0, e1, e2) (simp (append.cons, append.nil))

single-append : (c : Char) (s : String) → String.◌∷◌ c "" ++ s ≡ String.◌∷◌ c s
single-append c s = append.cons c "" s ∙ ap (String.◌∷◌ c) (append.nil s)

dash-append : (s : String) → "-" ++ s ≡ String.◌∷◌ "-" s
dash-append = single-append "-"

separator-append : (s : String) → "T" ++ s ≡ String.◌∷◌ "T" s
separator-append = single-append "T"

colon-append : (s : String) → ":" ++ s ≡ String.◌∷◌ ":" s
colon-append = single-append ":"

-- A time of the years 1000 to 9999, as the getters of a Date give it.
pub record IsLocal (d : LocalDate) : Type 0 where
  pub from : 1000 ≤ d.full_year
  pub until : d.full_year < 10000
  pub month : d.month < 12
  pub date : d.date ≤ 31
  pub hours : d.hours < 24
  pub minutes : d.minutes < 60

now_local_value-two :
    (d : LocalDate)
    → IsLocal d
    → now_local_value d
      ≡ two (d.full_year / 100) (
          two (d.full_year % 100) (
            String.◌∷◌ "-" (
              two (d.month + 1) (
                String.◌∷◌ "-" (
                  two d.date (String.◌∷◌ "T" (two d.hours (String.◌∷◌ ":" (two d.minutes "")))))))))
unfolding now_local_value two
now_local_value-two d v = simp (
  year-append d.full_year _ v.from v.until,
  pad-append (d.month + 1) _ (omega (arith, v.month)),
  pad-append d.date _ (omega (arith, v.date)),
  pad-append d.hours _ (omega (arith, v.hours)),
  pad-two d.minutes (omega (arith, v.minutes)),
  dash-append,
  separator-append,
  colon-append,
)

-- nowLocalValue of a time of the years 1000 to 9999 reads back as that time.
pub read_local-now_local_value :
    (d : LocalDate) → IsLocal d → read_local (now_local_value d) ≡ some d
unfolding read_local skip
read_local-now_local_value d v =
    let year : 100 * (d.full_year / 100) + d.full_year % 100 ≡ d.full_year = omega arith in
    let month : d.month + 1 - 1 ≡ d.month = omega arith in
    rw (now_local_value-two d v) (
      simp (
        read_two-two (d.full_year / 100) _ (omega (arith, v.until)),
        read_two-two (d.full_year % 100) _ (omega arith),
        read_two-two (d.month + 1) _ (omega (arith, v.month)),
        read_two-two d.date _ (omega (arith, v.date)),
        read_two-two d.hours _ (omega (arith, v.hours)),
        read_two-two d.minutes _ (omega (arith, v.minutes)),
        year,
        month,
      ))
