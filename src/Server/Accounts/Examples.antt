-- ===== src/Server/Accounts/Examples.antt =====
-- An administrator, a member and their sessions.
use ikuzo_neko_pay.Prelude.{
  ℕ, ◌≡◌, ◌≢◌, refl, ap, str_eq_refl, String, true, false, none, some, [], ◌∷◌, ltb, str_eq,
  if◌then◌else◌, arith,
}
use ikuzo_neko_pay.Prelude.Int.{negsuc}
use ikuzo_neko_pay.Server.Store.{Db, Member, UserSession, LedgerEntry, ok, play, find_member}
use ikuzo_neko_pay.Server.Ledger.{blank}
use ikuzo_neko_pay.Server.Auth.{Library, authenticate, create_session, get_session, current}
use ikuzo_neko_pay.Server.Auth.Sessions.{get_session-create_session}
use ikuzo_neko_pay.Server.Auth.Login.{current-set_active, authenticate-create_member}
use ikuzo_neko_pay.Server.Accounts.{create_member, set_active, reset_password}
use ikuzo_neko_pay.Server.Purge.{delete_member}
use ikuzo_neko_pay.Server.Purge.Gone.{Deletes, delete_member-Deletes}
use ikuzo_neko_pay.Server.Purge.Unnamed.{no_reversals}

-- Lower-case texts without blanks, and a hash that shows the password.
abbrev pub plain : Library
plain = record {
  strip = λ s. s;
  lower = λ s. s;
  sql_lower = λ s. s;
  hash = λ salt p. p;
  verify = λ p h. some (str_eq p h);
}

abbrev pub ann : Member
ann = record {
  id = 1;
  username = "ann";
  display_name = "Ann";
  password_hash = "secret";
  is_admin = true;
  is_active = true;
}

abbrev pub bob : Member
bob = record {
  id = 2;
  username = "bob";
  display_name = "Bob";
  password_hash = "hidden";
  is_admin = true;
  is_active = true;
}

-- Bob has played 3 points, and is logged in.
abbrev played : LedgerEntry
played = record blank {
  id = 1;
  member_id = 2;
  entry_type = play;
  points_delta = negsuc 2;
  created_by = 2;
}

abbrev login : UserSession
login = record { token = "t"; member_id = 2; csrf_token = "c"; expires_at = 100 }

abbrev pub both : Db
both = record {
  members = ann ∷ bob ∷ [];
  entries = played ∷ [];
  reals = [];
  claims = [];
  sessions = login ∷ [];
}

delete_member-Deletes_example : Deletes 2 true both (delete_member 1 2 true both)
unfolding find_member no_reversals
delete_member-Deletes_example = delete_member-Deletes 1 2 true both bob (omega arith) refl refl

get_session-create_session_example :
    (get_session 3600 "u" (create_session 0 "u" "c" 1 1 both).1).0
    ≡ (if ltb 3600 3600 then none else some (create_session 0 "u" "c" 1 1 both).0)
get_session-create_session_example = get_session-create_session 0 3600 1 1 "u" "c" both refl

abbrev renewed : Db
renewed = record both {
  members = ann ∷ record bob { password_hash = "better" } ∷ [];
  sessions = [];
}

reset_password-bob :
    reset_password plain 0 2 "better" both ≡ ok (record bob { password_hash = "better" }, renewed)
unfolding reset_password find_member
reset_password-bob = refl

-- Bob logs in again, and Ann has a session: hers does not make her Bob.
abbrev pub ann_session : UserSession
ann_session = record { token = "a"; member_id = 1; csrf_token = "d"; expires_at = 100 }

abbrev cleo : Member
cleo = record {
  id = 3;
  username = "cleo";
  display_name = "Cleo";
  password_hash = "longer";
  is_admin = false;
  is_active = true;
}

create_member-cleo :
    create_member plain 0 "cleo" "Cleo" "longer" "member" both
    ≡ ok (cleo, record both { members = cleo ∷ ann ∷ bob ∷ [] })
unfolding create_member
create_member-cleo = refl

str_eq-verifies : (s : ℕ) (p : String) → plain.verify p (plain.hash s p) ≡ some true
str_eq-verifies s p = ap some (str_eq_refl p)

authenticate-create_member_example :
    authenticate plain "cleo" "longer" (record both { members = cleo ∷ ann ∷ bob ∷ [] })
    ≡ (if str_eq "cleo" "cleo" then ok (some cleo) else ok none)
authenticate-create_member_example =
    authenticate-create_member plain 0 "cleo" "Cleo" "longer" "member" both
      (record both { members = cleo ∷ ann ∷ bob ∷ [] }) cleo str_eq-verifies (λ s. refl)
      create_member-cleo

-- Ann disables Bob and enables him again, and goes on with her session.
abbrev pub met : Db
met = record both { sessions = login ∷ ann_session ∷ [] }

abbrev pub without_bob : Db
without_bob = record met {
  members = ann ∷ record bob { is_active = false } ∷ [];
  sessions = ann_session ∷ [];
}

abbrev with_bob : Db
with_bob = record met { sessions = ann_session ∷ [] }

set_active-bob :
    (set_active 1 2 false met ≡ ok (record bob { is_active = false }, without_bob))
    × (set_active 1 2 true without_bob ≡ ok (bob, with_bob))
unfolding set_active find_member
set_active-bob = (refl, refl)

current-ann : (current 50 "a" with_bob).0 ≡ some (ann, "d")
unfolding current find_member
current-ann = refl

current-set_active_example : ann.id ≢ 2
current-set_active_example =
    current-set_active 1 1 2 50 "a" "d" met without_bob with_bob (record bob { is_active = false })
      bob ann set_active-bob.0 set_active-bob.1 current-ann
