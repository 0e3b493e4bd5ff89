-- ===== src/Client/Time.antt =====
-- The time helpers of app/static/app.js: nowLocalValue and fmtTxnTime. A text is the native String;
-- `String(n)` of a whole number is its decimal digits.
pub mod Digits
pub mod Local
use Prim.Native.Char.{Char, code}
use Prim.Native.String.{◌++◌, count}
use ikuzo_neko_pay.Prelude.{
  ℕ, zero, suc, ◌/◌, ◌%◌, ◌+◌, String, Option, none, some, ltb, ◌==◌, if◌then◌else◌, is_empty, List,
  [], ◌∷◌,
}

unfoldable pub digit : ℕ → Char
digit zero = "0"
digit (suc zero) = "1"
digit (suc (suc zero)) = "2"
digit (suc (suc (suc zero))) = "3"
digit (suc (suc (suc (suc zero)))) = "4"
digit (suc (suc (suc (suc (suc zero))))) = "5"
digit (suc (suc (suc (suc (suc (suc zero)))))) = "6"
digit (suc (suc (suc (suc (suc (suc (suc zero))))))) = "7"
digit (suc (suc (suc (suc (suc (suc (suc (suc zero)))))))) = "8"
digit (suc (suc (suc (suc (suc (suc (suc (suc (suc n))))))))) = "9"

-- The digits of n in front of a text, the last one first; one round for each digit.
unfoldable pub digits_onto : ℕ → ℕ → String → String
digits_onto zero n s = s
digits_onto (suc fuel) n s =
    let more = digits_onto fuel (n / 10) (String.◌∷◌ (digit (n % 10)) s) in
    if ltb n 10 then String.◌∷◌ (digit n) s else more

-- `String(n)`: a number has at most as many digits as it counts, and 0 has one.
unfoldable pub to_text : ℕ → String
unfolding digits_onto digit
to_text n = digits_onto (suc n) n ""

-- `s.padStart(2, "0")`
unfoldable pub pad_start : String → String
pad_start String.[] = "00"
pad_start (String.◌∷◌ c String.[]) = String.◌∷◌ "0" (String.◌∷◌ c String.[])
pad_start (String.◌∷◌ c (String.◌∷◌ d s)) = String.◌∷◌ c (String.◌∷◌ d s)

-- What the getters of a Date answer in the browser's time zone; months count from 0.
pub record LocalDate : Type 0 where
  pub full_year : ℕ
  pub month : ℕ
  pub date : ℕ
  pub hours : ℕ
  pub minutes : ℕ

unfoldable pub pad : ℕ → String
unfolding to_text pad_start
pad n = pad_start (to_text n)

-- `nowLocalValue()` at the time d.
unfoldable pub now_local_value : LocalDate → String
unfolding to_text pad
now_local_value d =
    to_text d.full_year
    ++ ("-"
        ++ (pad (d.month + 1)
            ++ ("-" ++ (pad d.date ++ ("T" ++ (pad d.hours ++ (":" ++ pad d.minutes)))))))

-- `s.replace(" ", "T")`: the first space.
unfoldable pub replace_space : String → String
replace_space String.[] = ""
replace_space (String.◌∷◌ c s) =
    if code c == b' ' then String.◌∷◌ "T" s else String.◌∷◌ c (replace_space s)

-- `s.replace("T", " ")`
unfoldable pub replace_separator : String → String
replace_separator String.[] = ""
replace_separator (String.◌∷◌ c s) =
    if code c == b'T' then String.◌∷◌ " " s else String.◌∷◌ c (replace_separator s)

unfoldable pub skip_units : ℕ → String → String
skip_units zero s = s
skip_units (suc n) String.[] = ""
skip_units (suc n) (String.◌∷◌ c s) = skip_units n s

unfoldable pub take_units : ℕ → String → String
take_units zero s = ""
take_units (suc n) String.[] = ""
take_units (suc n) (String.◌∷◌ c s) = String.◌∷◌ c (take_units n s)

-- `s.slice(5, 16)`, where each character is one unit of UTF-16.
unfoldable pub slice_5_16 : String → String
unfolding skip_units take_units
slice_5_16 s = take_units 11 (skip_units 5 s)

abbrev shown_or : (ℕ → String) → String → Option ℕ → String
shown_or taipei s none = slice_5_16 (replace_separator s)
shown_or taipei s (some t) = taipei t

-- `fmtTxnTime(s)`: `parse` is the constructor of Date, none for an invalid date, and `taipei` is the
-- text of an instant in the zone Asia/Taipei.
unfoldable pub fmt_txn_time : (String → Option ℕ) → (ℕ → String) → String → String
unfolding replace_space replace_separator slice_5_16
fmt_txn_time parse taipei s =
    if is_empty s then "" else shown_or taipei s (parse (replace_space s ++ "Z"))
