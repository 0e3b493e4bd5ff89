-- ===== src/Server/Actions/Examples.antt =====
-- Member 1 has 10 points and plays for 4; she cannot play for member 2.
use ikuzo_neko_pay.Prelude.{ℕ, ◌≡◌, refl, true, false, none, some, [], ◌∷◌}
use ikuzo_neko_pay.Prelude.Int.{pos, negsuc, neg, ◌+ℤ◌}
use ikuzo_neko_pay.Server.Store.{
  Db, Member, LedgerEntry, UserSession, topup, play, forbidden, find_member, find_key, insert_entry,
  admissible, max_id, balance,
}
use ikuzo_neko_pay.Server.Ledger.{blank, record_play, commit_entry, existing_by_key}
use ikuzo_neko_pay.Server.Auth.{verify_csrf, get_current_member}
use ikuzo_neko_pay.Server.Routes.{Http, served, failed}
use ikuzo_neko_pay.Server.Actions.{Context, PlayBody, play_action, post_action}
use ikuzo_neko_pay.Server.Actions.Requests.{Fair, post_action-Fair}

abbrev member : ℕ → Member
member k = record {
  id = k;
  username = "";
  display_name = "";
  password_hash = "";
  is_admin = false;
  is_active = true;
}

abbrev bought : LedgerEntry
bought = record blank {
  id = 1;
  member_id = 1;
  entry_type = topup;
  points_delta = pos 10;
  money_nt = some (pos 10000);
  created_by = 1;
}

abbrev login : UserSession
login = record { token = "t"; member_id = 1; csrf_token = "c"; expires_at = 100 }

abbrev arcade : Db
arcade = record {
  members = member 1 ∷ member 2 ∷ [];
  entries = bought ∷ [];
  reals = [];
  claims = [];
  sessions = login ∷ [];
}

abbrev context : Context
context = record {
  unit = 100;
  rate = pos 1000;
  snapshot = none;
  strip = λ s. s;
  local_to_utc = λ t. t;
}

abbrev from_member : Http
from_member = record { now = 20; cookie = "t"; header = some "c"; form = none }

abbrev four_for : ℕ → PlayBody
four_for k = record {
  member_id = k;
  points = pos 4;
  note = none;
  idempotency_key = none;
  allow_negative = true;
  occurred_at = none;
}

abbrev played : LedgerEntry
played = record blank {
  id = 2;
  member_id = 1;
  entry_type = play;
  points_delta = negsuc 3;
  created_by = 1;
  created_at = 20;
}

post_action-four :
    (post_action context (play_action (four_for 1)) from_member arcade
      ≡ (served, record arcade { entries = played ∷ bought ∷ [] }))
    × (post_action context (play_action (four_for 2)) from_member arcade
        ≡ (failed forbidden, arcade))
unfolding post_action verify_csrf get_current_member find_member record_play commit_entry
    insert_entry existing_by_key admissible find_key max_id balance ◌+ℤ◌ neg
post_action-four = (refl, refl)

post_action-Fair_example :
    Fair from_member arcade (post_action context (play_action (four_for 1)) from_member arcade).1
post_action-Fair_example = post_action-Fair context (play_action (four_for 1)) from_member arcade
