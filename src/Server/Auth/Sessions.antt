-- ===== src/Server/Auth/Sessions.antt =====
-- How long a session lasts, and what ends it.
use ikuzo_neko_pay.Prelude.{
  ℕ, ◌+◌, ◌*◌, ◌≡◌, ◌≢◌, refl, String, true, false, Option, none, some, List, [], ◌∷◌, ltb,
  str_eq_refl, if◌then◌else◌, is_empty, arith,
}
use ikuzo_neko_pay.Server.Store.{Db, Member, UserSession, find_member}
use ikuzo_neko_pay.Server.Sql.{delete_where, any_where}
use ikuzo_neko_pay.Server.Auth.{
  create_session, find_session, has_token, delete_session, get_session, current,
}
use ikuzo_neko_pay.Server.Accounts.{session_of}

-- A session is found from its creation until its time is over, and never after that.
pub get_session-create_session :
    (now later ttl_hours member : ℕ) (token csrf : String) (db : Db)
    → is_empty token ≡ false
    → (get_session later token (create_session now token csrf member ttl_hours db).1).0 ≡ (
        if ltb (now + 3600 * ttl_hours) later
        then none
        else some (create_session now token csrf member ttl_hours db).0)
unfolding get_session create_session find_session
get_session-create_session now later ttl_hours member token csrf db full =
    ground (arith, str_eq_refl token)

find_session-delete_where :
    (t : String) (uss : List UserSession) → find_session t (delete_where (has_token t) uss) ≡ none
unfolding find_session delete_where
find_session-delete_where t [] = refl
find_session-delete_where t (us ∷ uss) = ground (arith, find_session-delete_where t uss)

-- A session that was found to be over stays over, whatever the clock says later.
pub get_session-expired :
    (now later : ℕ) (token : String) (us : UserSession) (db : Db)
    → find_session token db.sessions ≡ some us
    → ltb us.expires_at now ≡ true
    → (get_session later token (get_session now token db).1).0 ≡ none
unfolding get_session delete_session
get_session-expired now later token us db found over =
    ground (arith, find_session-delete_where token db.sessions)

find_session-other :
    (k : ℕ) (t : String) (uss : List UserSession) (us : UserSession)
    → any_where (session_of k) uss ≡ false
    → find_session t uss ≡ some us
    → us.member_id ≢ k
unfolding find_session any_where
find_session-other k t [] us h f e = cc
find_session-other k t (x ∷ xs) us h f e = ground (arith, find_session-other k t xs us)

find_member-id : (k : ℕ) (ms : List Member) (m : Member) → find_member k ms ≡ some m → m.id ≡ k
unfolding find_member
find_member-id k [] m h = cc
find_member-id k (x ∷ xs) m h = ground (arith, find_member-id k xs m)

pub current-other :
    (now k : ℕ) (t csrf : String) (m : Member) (db : Db)
    → any_where (session_of k) db.sessions ≡ false
    → (current now t db).0 ≡ some (m, csrf)
    → m.id ≢ k
unfolding current get_session
current-other now k t csrf m db h f e = by_session (find_session t db.sessions) refl
  where
    by_session : (o : Option UserSession) → find_session t db.sessions ≡ o → ⊥
    by_session none g = ground arith
    by_session (some us) g =
        ground (
          arith,
          find_session-other k t db.sessions us h g,
          find_member-id us.member_id db.members m,
        )
