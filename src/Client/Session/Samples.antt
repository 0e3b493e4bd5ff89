-- ===== src/Client/Session/Samples.antt =====
-- A page, a user and a server to run handlers on.
use ikuzo_neko_pay.Prelude.{
  ◌/◌, String, Bool, true, false, Option, none, some, List, [], ◌∷◌, str_eq, if◌then◌else◌,
}
use ikuzo_neko_pay.Client.Number.{Number, nan, num, of_ℕ}
use ikuzo_neko_pay.Prelude.Int.{pos}
use ikuzo_neko_pay.Client.Page.{
  Page, Env, Field, pl_member, pl_points, pl_note, tu_member, tu_money, anti_limit, rate_input,
  Request, match, member_delete, Answer, reply, failed, object, Payload, Candidate, Dialog, pick,
  Gesture, press_candidate, press_manual, press_ok, inside, Question, over_limit,
}

abbrev pub no_payload : Payload
no_payload = record {
  detail = none;
  candidates = none;
  rate = none;
  status = none;
  rows_inserted = none;
  since = none;
  anti_addiction = none;
  daily_spend_limit = none;
}

abbrev pub txn_7 : Candidate
txn_7 = record { id = 7; raw_name = "shop"; value = of_ℕ 3; occurred_at = "2026-06-15T02:30:00" }

abbrev success : Payload → Answer
success d = reply (record { status = 200; content = object d })

-- One candidate for any play; the deletion of a member is refused first.
abbrev serve : Request → Answer
serve req = elim req.url [
  | match ↦ success (record no_payload { candidates = some (txn_7 ∷ []) })
  | member_delete id ↦ reply (record { status = 409; content = object no_payload })
  | _ ↦ success no_payload
]

abbrev pub read_digits : String → Number
read_digits s =
    if str_eq s "1"
    then of_ℕ 1
    else if str_eq s "2"
    then of_ℕ 2
    else if str_eq s "3"
    then of_ℕ 3
    else if str_eq s "300"
    then of_ℕ 300
    else nan

abbrev gestures_at : Dialog → List Gesture
gestures_at (pick cs) = inside ∷ press_candidate 0 ∷ []
gestures_at d = press_manual ∷ press_ok ∷ []

-- The user agrees to everything but to going over the daily limit.
abbrev agree : Question → Bool
agree (over_limit a b c d) = false
agree q = true

-- The floor of the quotient of two whole numbers; nothing else is divided here.
abbrev whole_quotient : Number → Number → Number
whole_quotient (num (pos a)) (num (pos b)) = of_ℕ (a / 100 / (b / 100))
whole_quotient _ _ = nan

abbrev pub world : Env
world = record {
  to_number = read_digits;
  to_text = λ n. "30";
  floor_quotient = whole_quotient;
  answer = λ p req. serve req;
  choose = λ p q. agree q;
  gestures = λ p d. gestures_at d;
}

abbrev pub offline : Env
offline = record world { answer = λ p req. failed }

abbrev fields : Field → Option String
fields pl_member = some "1"
fields pl_points = some "3"
fields pl_note = some ""
fields tu_member = some "1"
fields tu_money = some "300"
fields anti_limit = some "3"
fields rate_input = some "1"
fields _ = none

-- Member 1 has played 20 of 30 points today.
abbrev pub page : Page
page = record {
  field = fields;
  checked = λ t. true;
  rate = of_ℕ 10;
  vip_bonus_pct = of_ℕ 10;
  bonus_min_topup = of_ℕ 300;
  auto_attribute = true;
  anti_addiction = true;
  today_spent = of_ℕ 20;
  daily_limit = of_ℕ 30;
  member_id = of_ℕ 1;
  preview = none;
  overlays = 0;
  trace = [];
}
