-- ===== src/Server/Parse.antt =====
-- The parsing of app/sync/dedup.py: parse_name, compute_base_hash and parse_history. A text that int()
-- refuses is an exception, which is none here; numbers below 0 in a date are not modelled.
pub mod Hashes
use Prim.Native.String.{◌++◌, find, slice, len}
use ikuzo_neko_pay.Prelude.{
  ℕ, ◌+◌, String, Bool, true, false, Option, none, some, List, [], ◌∷◌, leb, if◌then◌else◌,
}
use ikuzo_neko_pay.Prelude.{◌++◌ as ◌+++◌}
use ikuzo_neko_pay.Prelude.Int.{ℤ, pos}
use ikuzo_neko_pay.Server.Text.{decimal}
use ikuzo_neko_pay.Server.Dedup.{RealKind, topup, pay, ParsedRecord, signed_value}
use ikuzo_neko_pay.Server.History.{Moment, seconds_of, reconstruct_occurred_at}

infixl 5 ◌>>=◌
abbrev pub ◌>>=◌ : {A B : Type 0} → Option A → (A → Option B) → Option B
none >>= f = none
some a >>= f = f a

-- Python's strip and int on texts, sha256 as a number, and local_to_utc.
pub record Reader : Type 0 where
  pub strip : String → String
  pub int_of : String → Option ℕ
  pub sha : String → ℕ
  pub utc : Moment → Moment

-- A value of the JSON: no such key, nothing that int() takes, or a number.
pub data JsonValue : Type 0 where
  missing unreadable : JsonValue
  number : ℤ → JsonValue

pub record HistoryRow : Type 0 where
  pub name : Option String
  pub value : JsonValue
  pub pay_type : Option String
  pub date : Option String
  pub time : Option String

-- The data of getPayHistory; a key that is missing or null is none.
pub record PayHistory : Type 0 where
  pub topup_rows : Option (List HistoryRow)
  pub pay_rows : Option (List HistoryRow)

abbrev pub or_empty : Option String → String
or_empty none = ""
or_empty (some s) = s

abbrev pub or_nothing : Option (List HistoryRow) → List HistoryRow
or_nothing none = []
or_nothing (some rs) = rs

-- `s.split(sep, 1)`, where it finds the separator.
unfoldable pub split_once : String → String → Option (String × String)
split_once sep s =
    let at = find s sep in
    if leb at (len s) then some (slice s 0 at, slice s (at + len sep) (len s)) else none

abbrev named : Reader → String → Option (String × String) → String × Option String
named l name none = (name, none)
named l name (some (shop, machine)) = (l.strip shop, some (l.strip machine))

unfoldable pub parse_name : Reader → RealKind → String → String × Option String
unfolding split_once
parse_name l topup raw = (l.strip raw, none)
parse_name l pay raw = named l (l.strip raw) (split_once " - " (l.strip raw))

-- The unpacking of two numbers from a text.
unfoldable pub two_ints : Reader → String → String → Option (ℕ × ℕ)
unfolding split_once
two_ints l sep s = do
  (first, second) ← split_once sep s
  a ← l.int_of first
  b ← l.int_of second
  some (a, b)

abbrev kind_text : RealKind → String
kind_text topup = "topup"
kind_text pay = "pay"

abbrev joined : String → List String → String
joined part [] = part
joined part (more ∷ parts) = part ++ ("|" ++ joined more parts)

unfoldable pub compute_base_hash :
    Reader → RealKind → String → ℤ → Option String → String → String → ℕ
compute_base_hash l kind raw_name value pay_type date_raw time_raw = l.sha (
    joined (kind_text kind)
      (raw_name ∷ decimal value ∷ or_empty pay_type ∷ date_raw ∷ time_raw ∷ []))

abbrev pub int_value : JsonValue → Option ℤ
int_value missing = some (pos 0)
int_value unreadable = none
int_value (number z) = some z

abbrev paid_with : RealKind → HistoryRow → Option String
paid_with topup row = none
paid_with pay row = row.pay_type

unfoldable pub parse_row : Reader → Moment → RealKind → HistoryRow → Option ParsedRecord
unfolding parse_name two_ints compute_base_hash reconstruct_occurred_at
parse_row l now kind row = do
  z ← int_value row.value
  let value = signed_value kind z
  let raw_name = or_empty row.name
  let (shop, machine) = parse_name l kind raw_name
  (mm, dd) ← two_ints l "/" (or_empty row.date)
  (hh, minute) ← two_ints l ":" (or_empty row.time)
  at ← reconstruct_occurred_at l.utc mm dd hh minute now
  some (record {
    kind = kind;
    shop = shop;
    machine = machine;
    raw_name = raw_name;
    value = value;
    pay_type = paid_with kind row;
    occurred_date_raw = or_empty row.date;
    occurred_time_raw = or_empty row.time;
    occurred_at = seconds_of at;
    base_hash =
        compute_base_hash l kind raw_name value (paid_with kind row) (or_empty row.date)
          (or_empty row.time);
    occurrence_index = 0;
    dedup_key = 0;
  })

unfoldable pub parse_rows :
    Reader → Moment → RealKind → List HistoryRow → Option (List ParsedRecord)
unfolding parse_row
parse_rows l now kind [] = some []
parse_rows l now kind (row ∷ rows) = do
  r ← parse_row l now kind row
  rs ← parse_rows l now kind rows
  some (r ∷ rs)

unfoldable pub parse_history : Reader → Moment → PayHistory → Option (List ParsedRecord)
unfolding parse_rows
parse_history l now data_ = do
  topups ← parse_rows l now topup (or_nothing data_.topup_rows)
  pays ← parse_rows l now pay (or_nothing data_.pay_rows)
  some (topups +++ pays)
