-- ===== src/Server/Actions.antt =====
-- app/api/actions.py: the routes by which members top up, play and transfer. A request body is one that
-- its schema accepts; an exception rolls the tables back.
pub mod Effects
pub mod Requests
mod Examples
use Prim.Native.String.{◌++◌}
use ikuzo_neko_pay.Prelude.{
  ℕ, String, Bool, true, false, not, ◌&&◌, Option, none, some, ◌==◌, if◌then◌else◌, is_empty,
}
use ikuzo_neko_pay.Prelude.Int.{ℤ, pos, leb_ℤ, eqb_ℤ}
use ikuzo_neko_pay.Server.Store.{
  Db, Member, LedgerEntry, validation, forbidden, Result, ok, err, ◌>>=◌, ◌>>◌, raise_if,
}
use ikuzo_neko_pay.Server.Text.{decimal}
use ikuzo_neko_pay.Server.Vip.{bonus_pct_for, bonus_min_topup, topup_breakdown, Breakdown}
use ikuzo_neko_pay.Server.Ledger.{TopupIn, PlayIn, record_topup, record_play}
use ikuzo_neko_pay.Server.Transfer.{TransferIn, Transferred, transfer}
use ikuzo_neko_pay.Server.Auth.{Access, granted, denied, get_current_member, verify_csrf}
use ikuzo_neko_pay.Server.Routes.{Http, Answer, behind}

-- What a request finds besides the tables: the rate for a point, in the unit of
-- money, of which NT$ 1 has `unit`; the tier of the
-- latest snapshot if there is one, Python's strip, and the conversion of local times.
pub record Context : Type 0 where
  pub unit : ℕ
  pub rate : ℤ
  pub snapshot : Option (Option String)
  pub strip : String → String
  pub local_to_utc : ℕ → ℕ

abbrev pub shared_card_bonus_pct : Option (Option String) → ℕ
shared_card_bonus_pct none = 0
shared_card_bonus_pct (some vip_name) = bonus_pct_for vip_name

pub record TopUpBody : Type 0 where
  pub member_id : ℕ
  pub money_nt : ℤ
  pub note : Option String
  pub idempotency_key : Option String
  pub occurred_at : Option ℕ

pub record PlayBody : Type 0 where
  pub member_id : ℕ
  pub points : ℤ
  pub note : Option String
  pub idempotency_key : Option String
  pub allow_negative : Bool
  pub occurred_at : Option ℕ

pub record TransferBody : Type 0 where
  pub from_member_id : ℕ
  pub to_member_id : ℕ
  pub points : ℤ
  pub note : Option String
  pub idempotency_key : Option String

abbrev pub created_at : Context → Option ℕ → Option ℕ
created_at c none = none
created_at c (some t) = some (c.local_to_utc t)

-- `payload.note or ""`, and `note or None`
abbrev or_empty : Option String → String
or_empty none = ""
or_empty (some s) = s

abbrev or_none : String → Option String
or_none s = if is_empty s then none else some s

abbrev pub topup_note : Context → Option String → ℤ → Option String
topup_note c note bonus = or_none (
    if eqb_ℤ bonus (pos 0)
    then or_empty note
    else c.strip (or_empty note ++ ("（含 VIP 加贈 " ++ (decimal bonus ++ " 點）"))))

abbrev pub for_other : Member → ℕ → Bool
for_other viewer k = not (k == viewer.id) && not viewer.is_admin

abbrev pub db_of_entry : Result (LedgerEntry × Db) → Result Db
db_of_entry (ok r) = ok r.1
db_of_entry (err e) = err e

abbrev pub db_of_pair : Result Transferred → Result Db
db_of_pair (ok r) = ok r.2
db_of_pair (err e) = err e

abbrev pub breakdown_of : Context → TopUpBody → Breakdown
breakdown_of c a =
    topup_breakdown c.unit a.money_nt c.rate (shared_card_bonus_pct c.snapshot) bonus_min_topup

abbrev pub topup_in : Context → TopUpBody → Member → TopupIn
topup_in c a viewer = record {
  member_id = a.member_id;
  points = (breakdown_of c a).total;
  money = some a.money_nt;
  created_by = viewer.id;
  note = topup_note c a.note (breakdown_of c a).bonus;
  idempotency_key = a.idempotency_key;
  source_real_txn_id = none;
  created_at = created_at c a.occurred_at;
}

unfoldable pub create_topup : ℕ → Context → TopUpBody → Member → Db → Result Db
create_topup now c a viewer db = do
  raise_if (for_other viewer a.member_id) forbidden
  raise_if (leb_ℤ (breakdown_of c a).total (pos 0)) validation
  db_of_entry (record_topup now (topup_in c a viewer) db)

abbrev pub play_in : Context → PlayBody → Member → PlayIn
play_in c a viewer = record {
  member_id = a.member_id;
  points = a.points;
  created_by = viewer.id;
  note = a.note;
  idempotency_key = a.idempotency_key;
  allow_negative = a.allow_negative && viewer.is_admin;
  source_real_txn_id = none;
  created_at = created_at c a.occurred_at;
}

unfoldable pub create_play : ℕ → Context → PlayBody → Member → Db → Result Db
create_play now c a viewer db = do
  raise_if (for_other viewer a.member_id) forbidden
  db_of_entry (record_play now (play_in c a viewer) db)

abbrev pub moved_by : TransferBody → Member → TransferIn
moved_by a viewer = record {
  from_member_id = a.from_member_id;
  to_member_id = a.to_member_id;
  points = a.points;
  created_by = viewer.id;
  note = a.note;
  idempotency_key = a.idempotency_key;
  allow_negative = false;
}

-- `fuel` is the recursion limit, `group` the uuid that the call draws.
unfoldable pub create_transfer : ℕ → ℕ → ℕ → TransferBody → Member → Db → Result Db
create_transfer fuel now group a viewer db = do
  raise_if (for_other viewer a.from_member_id) forbidden
  db_of_pair (transfer fuel now group (moved_by a viewer) db)

pub data Action : Type 0 where
  topup_action : TopUpBody → Action
  play_action : PlayBody → Action
  transfer_action : (fuel group : ℕ) → TransferBody → Action

unfoldable pub act : ℕ → Context → Action → Member → Db → Result Db
unfolding create_topup create_play create_transfer
act now c (topup_action a) viewer db = create_topup now c a viewer db
act now c (play_action a) viewer db = create_play now c a viewer db
act now c (transfer_action fuel group a) viewer db = create_transfer fuel now group a viewer db

-- The router's dependency comes before that of the parameters.
abbrev pub then_member : Http → Access (Unit {0}) × Db → Access Member × Db
then_member http (granted x, db) = get_current_member http.now http.cookie db
then_member http (denied d, db) = (denied d, db)

unfoldable pub post_action : Context → Action → Http → Db → Answer × Db
unfolding act
post_action c a http db =
    behind (act http.now c a)
      (then_member http (verify_csrf http.now http.cookie http.header http.form db))
