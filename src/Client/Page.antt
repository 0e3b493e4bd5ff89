-- ===== src/Client/Page.antt =====
-- What app/static/app.js reads and writes: the form fields, the globals that a template sets, the
-- overlays of the body, and the events that the user and the server see, latest first. The answers
-- of the user, of the server and of the conversions between numbers and texts are an environment: any functions of the page so far.
use ikuzo_neko_pay.Prelude.{ℕ, String, Bool, Option, none, some, List, ◌&&◌, leb}
use ikuzo_neko_pay.Client.Number.{Number}

-- The elements that the handlers look up by id; `role_` and `attr_` take a row's id.
pub data Field : Type 0 where
  pl_member pl_points pl_note pl_time tu_member tu_money tu_time tr_from tr_to tr_points : Field
  rate_input sync_since anti_limit nm_username nm_name nm_pwd nm_role : Field
  role_of attr_of : ℕ → Field

pub data Toggle : Type 0 where
  aa_toggle anti_toggle : Toggle

pub data Method : Type 0 where
  post delete : Method

-- The routes that the page calls, without the leading /api.
pub data Url : Type 0 where
  match topups plays transfers rate anti_addiction_setting auto_attribute_setting : Url
  sync_run sync_since_setting reset members : Url
  self_attribute real_attribute real_ignore : ℕ → Url
  member_update member_status member_password member_delete member_force_delete : ℕ → Url
  ledger_attribute ledger_delete ledger_edit : ℕ → Url

pub data Json : Type 0 where
  null : Json
  bool : Bool → Json
  number : Number → Json
  text : String → Json

pub record Request : Type 0 where
  pub method : Method
  pub url : Url
  pub body : List (String × Json)

-- One of the real transactions that `/attribution/match` lists.
pub record Candidate : Type 0 where
  pub id : ℕ
  pub raw_name : String
  pub value : Number
  pub occurred_at : String

-- A JSON object of a response: the properties that the page reads, each perhaps absent.
pub record Payload : Type 0 where
  pub detail : Option String
  pub candidates : Option (List Candidate)
  pub rate : Option String
  pub status : Option String
  pub rows_inserted : Option ℕ
  pub since : Option String
  pub anti_addiction : Option Bool
  pub daily_spend_limit : Option Number

-- What `r.json()` finds: it throws on a body that is not JSON.
pub data Content : Type 0 where
  not_json json_null : Content
  object : Payload → Content

pub record Reply : Type 0 where
  pub status : ℕ
  pub content : Content

-- `let data = old; try { data = await r.json(); } catch (e) {}`
abbrev pub read_json : Option Payload → Content → Option Payload
read_json old not_json = old
read_json old json_null = none
read_json old (object d) = some d

-- `r.ok`
abbrev pub is_ok : Reply → Bool
is_ok r = leb 200 r.status && leb r.status 299

-- A fetch that is rejected, and one that never settles.
pub data Answer : Type 0 where
  reply : Reply → Answer
  failed : Answer
  pending : Answer

-- The texts of the alerts, by name.
pub data Notice : Type 0 where
  detail : String → Notice
  error_status : ℕ → Notice
  enter_money amount_too_small enter_rate enter_points to_self no_candidates : Notice
  rate_updated sync_since_set : Option String → Notice
  sync_result : Option String → Option ℕ → Notice
  sync_since_cleared database_reset fill_member short_password password_reset : Notice
  linked_records deleted force_deleted : Notice

pub data Question : Type 0 where
  over_limit : Number → Number → Number → Number → Question
  reset_everything deactivate delete_account delete_record : Question
  overwrite_note : String → Question
  force_delete : Notice → Question

pub data Dialog : Type 0 where
  on_behalf auto_off no_match : Dialog
  pick : List Candidate → Dialog
  ignore_reason admin_password new_name new_password : Dialog
  edit_record : Dialog

-- What the user does while a dialog is open.
pub data Gesture : Type 0 where
  write : String → Gesture
  press_ok press_cancel press_manual press_enter backdrop inside : Gesture
  press_candidate : ℕ → Gesture
  write_points write_money : String → Gesture

pub data Event : Type 0 where
  alerted : Notice → Event
  called : Request → Answer → Event
  confirmed : Question → Bool → Event
  opened : Dialog → Event
  reloaded : Event
  went_home : Event

-- What the preview of a top-up shows.
pub record Breakdown : Type 0 where
  pub base : Number
  pub bonus : Number
  pub total : Number

pub record Page : Type 0 where
  pub field : Field → Option String
  pub checked : Toggle → Bool
  pub rate : Number
  pub vip_bonus_pct : Number
  pub bonus_min_topup : Number
  pub auto_attribute : Bool
  pub anti_addiction : Bool
  pub today_spent : Number
  pub daily_limit : Number
  pub member_id : Number
  pub preview : Option Breakdown
  pub overlays : ℕ
  pub trace : List Event

pub record Env : Type 0 where
  pub to_number : String → Number
  pub to_text : Number → String
  pub floor_quotient : Number → Number → Number
  pub answer : Page → Request → Answer
  pub choose : Page → Question → Bool
  pub gestures : Page → Dialog → List Gesture
