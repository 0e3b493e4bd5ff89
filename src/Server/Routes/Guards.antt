-- ===== src/Server/Routes/Guards.antt =====
-- Who gets through to the services of the accounts.
use mathlib.Core.Option.{some-injective}
use ikuzo_neko_pay.Prelude.{
  ◌≡◌, refl, sym, ap, ◌∙◌, ◌⊎◌, inl, inr, true, false, some, ltb, str_eq, str_eq_iff, is_empty,
  arith,
}
use ikuzo_neko_pay.Server.Store.{Db, Member, UserSession, find_member}
use ikuzo_neko_pay.Server.Auth.{
  Library, find_session, delete_session, get_session, current, Denied, Access, granted, denied,
  require_admin, verify_csrf, submitted,
}
use ikuzo_neko_pay.Server.Routes.{
  Http, AdminCall, reset, on_accounts, dependencies, service, behind, serve, finish, then_csrf,
  then_admin, csrf_granted,
}

-- The request carries the token of a session of m that is not over, and its CSRF token; and m is an
-- active administrator.
pub record Authorised (http : Http) (db : Db) (m : Member) (us : UserSession) : Type 0 where
  pub session : find_session http.cookie db.sessions ≡ some us
  pub in_time : ltb us.expires_at http.now ≡ false
  pub csrf : submitted http.header http.form ≡ us.csrf_token
  pub present : is_empty (submitted http.header http.form) ≡ false
  pub member : find_member us.member_id db.members ≡ some m
  pub admin : m.is_admin ≡ true
  pub active : m.is_active ≡ true

require_admin-granted :
    (http : Http) (db db' : Db) (m : Member)
    → require_admin http.now http.cookie db ≡ (granted m, db')
    → (us : UserSession) × (find_session http.cookie db.sessions ≡ some us)
      × (ltb us.expires_at http.now ≡ false)
      × (find_member us.member_id db.members ≡ some m)
      × (m.is_admin ≡ true)
      × (m.is_active ≡ true)
      × (db' ≡ db)
unfolding require_admin current get_session
require_admin-granted http db db' m h = ground arith

pub verify_csrf-granted :
    (http : Http) (db db' : Db) (x : Unit {0})
    → verify_csrf http.now http.cookie http.header http.form db ≡ (granted x, db')
    → (us : UserSession) × (find_session http.cookie db.sessions ≡ some us)
      × (ltb us.expires_at http.now ≡ false)
      × (str_eq (submitted http.header http.form) us.csrf_token ≡ true)
      × (is_empty (submitted http.header http.form) ≡ false)
      × (db' ≡ db)
unfolding verify_csrf get_session
verify_csrf-granted http db db' x h = ground arith

-- What the checks leave: the tables as they were, or without a session of the cookie that is over.
abbrev pub Untouched : Http → Db → Db → Type 0
Untouched http db db' =
    (db' ≡ db)
    ⊎ ((us : UserSession) × (find_session http.cookie db.sessions ≡ some us)
        × (ltb us.expires_at http.now ≡ true)
        × (db' ≡ delete_session http.cookie db))

require_admin-denied :
    (http : Http) (db db' : Db) (d : Denied)
    → require_admin http.now http.cookie db ≡ (denied d, db')
    → Untouched http db db'
unfolding require_admin current get_session
require_admin-denied http db db' d h = ground arith

pub verify_csrf-denied :
    (http : Http) (db db' : Db) (d : Denied)
    → verify_csrf http.now http.cookie http.header http.form db ≡ (denied d, db')
    → Untouched http db db'
unfolding verify_csrf get_session
verify_csrf-denied http db db' d h = ground arith

abbrev Checked : Http → Db → Access Member × Db → Type 0
Checked http db (granted m, db') = (us : UserSession) × Authorised http db m us × (db' ≡ db)
Checked http db (denied d, db') = Untouched http db db'

both-Authorised :
    (http : Http) (db db' db'' : Db) (m : Member) (x : Unit {0})
    → require_admin http.now http.cookie db ≡ (granted m, db')
    → verify_csrf http.now http.cookie http.header http.form db ≡ (granted x, db'')
    → (us : UserSession) × Authorised http db m us
both-Authorised http db db' db'' m x h g =
    let (us, found, in_time, member, admin, active, _) = require_admin-granted http db db' m h in
    let (vs, found', in_time', csrf, present, _) = verify_csrf-granted http db db'' x g in
    (
      us,
      record {
        session = found;
        in_time = in_time;
        csrf =
            (str_eq_iff _ _).0 csrf
            ∙ ap (λ s. s.csrf_token) (some-injective _ _ (sym found' ∙ found));
        present = present;
        member = member;
        admin = admin;
        active = active;
      },
    )

csrf_granted-Checked :
    (http : Http) (db : Db) (m : Member) (db' : Db) (r : Access (Unit {0}) × Db)
    → require_admin http.now http.cookie db ≡ (granted m, db')
    → verify_csrf http.now http.cookie http.header http.form db ≡ r
    → Checked http db (csrf_granted http m r)
csrf_granted-Checked http db m db' (granted x, db'') h g =
    let (us, a) = both-Authorised http db db' db'' m x h g in
    (us, a, (verify_csrf-granted http db db'' x g).5)
csrf_granted-Checked http db m db' (denied d, db'') h g = verify_csrf-denied http db db'' d g

then_csrf-Checked :
    (http : Http) (db : Db) (r : Access Member × Db)
    → require_admin http.now http.cookie db ≡ r
    → Checked http db (then_csrf http r)
then_csrf-Checked http db (granted m, db') h =
    let same : db' ≡ db = (require_admin-granted http db db' m h).6 in
    csrf_granted-Checked http db m db' (verify_csrf http.now http.cookie http.header http.form db')
      h (ap (verify_csrf http.now http.cookie http.header http.form) (sym same))
then_csrf-Checked http db (denied d, db') h = require_admin-denied http db db' d h

admin-Checked :
    (http : Http) (db db' : Db) (x : Unit {0}) (r : Access Member × Db)
    → verify_csrf http.now http.cookie http.header http.form db ≡ (granted x, db')
    → require_admin http.now http.cookie db ≡ r
    → Checked http db r
admin-Checked http db db' x (granted m, db'') g h =
    let (us, a) = both-Authorised http db db'' db' m x h g in
    (us, a, (require_admin-granted http db db'' m h).6)
admin-Checked http db db' x (denied d, db'') g h = require_admin-denied http db db'' d h

then_admin-Checked :
    (http : Http) (db : Db) (r : Access (Unit {0}) × Db)
    → verify_csrf http.now http.cookie http.header http.form db ≡ r
    → Checked http db (then_admin http r)
then_admin-Checked http db (granted x, db') h =
    let same : db' ≡ db = (verify_csrf-granted http db db' x h).5 in
    admin-Checked http db db' x (require_admin http.now http.cookie db') h
      (ap (require_admin http.now http.cookie) (sym same))
then_admin-Checked http db (denied d, db') h = verify_csrf-denied http db db' d h

dependencies-Checked :
    (c : AdminCall) (http : Http) (db : Db) → Checked http db (dependencies c http db)
unfolding dependencies
dependencies-Checked (reset password) http db =
    then_csrf-Checked http db (require_admin http.now http.cookie db) refl
dependencies-Checked other http db =
    then_admin-Checked http db (verify_csrf http.now http.cookie http.header http.form db) refl

behind-Guarded :
    (l : Library) (c : AdminCall) (http : Http) (db : Db) (r : Access Member × Db)
    → Checked http db r
    → Untouched http db (behind (service l c) r).1
      ⊎ ((m : Member) × (us : UserSession) × Authorised http db m us
          × (behind (service l c) r ≡ finish db (service l c m db)))
behind-Guarded l c http db (granted m, db') (us, a, same) =
    inr (m, us, a, ap (λ d. finish d (service l c m d)) same)
behind-Guarded l c http db (denied d, db') kept = inl kept

-- A request to change the accounts or to reset the tables changes nothing, but that a session
-- of its cookie goes if its time is over; or it carries the token of a session that is not over and that session's CSRF
-- token, the member of the session is an active administrator, and the answer and the tables are what
-- the service gives for that administrator.
pub serve-Guarded :
    (l : Library) (c : AdminCall) (http : Http) (db : Db)
    → Untouched http db (serve l (on_accounts c) http db).1
      ⊎ ((m : Member) × (us : UserSession) × Authorised http db m us
          × (serve l (on_accounts c) http db ≡ finish db (service l c m db)))
unfolding serve
serve-Guarded l c http db =
    behind-Guarded l c http db (dependencies c http db) (dependencies-Checked c http db)
