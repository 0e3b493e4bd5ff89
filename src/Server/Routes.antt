-- ===== src/Server/Routes.antt =====
-- The routes of app/api/members.py that change accounts, the reset of app/api/admin.py, and the login
-- and logout of app/api/auth.py: the checks in front of a service, and the service. A request body is
-- one that its schema accepts; an exception rolls the tables back.
pub mod Guards
pub mod Admins
mod Examples
use ikuzo_neko_pay.Prelude.{
  ℕ, String, Bool, true, false, not, Option, none, some, List, [], ◌∷◌, ◌==◌, if◌then◌else◌,
  is_empty,
}
use ikuzo_neko_pay.Server.Store.{
  Db, Member, Error, forbidden, Result, ok, err, ◌>>=◌, ◌>>◌, raise_if,
}
use ikuzo_neko_pay.Server.Auth.{
  Library, authenticate, create_session, delete_session, Denied, unauthenticated, Access, granted,
  denied, require_admin, verify_csrf,
}
use ikuzo_neko_pay.Server.Accounts.{create_member, update_member, set_active, reset_password}
use ikuzo_neko_pay.Server.Purge.{delete_member, reset_database}

-- The time, the session cookie ("" without one), and the two places of a CSRF token.
pub record Http : Type 0 where
  pub now : ℕ
  pub cookie : String
  pub header : Option String
  pub form : Option String

pub data AdminCall : Type 0 where
  create : (salt : ℕ) (username display_name password role : String) → AdminCall
  update : (k : ℕ) (display_name role : Option String) → AdminCall
  set_status : (k : ℕ) (is_active : Bool) → AdminCall
  renew : (salt k : ℕ) (new_password : String) → AdminCall
  delete : (k : ℕ) (force : Bool) → AdminCall
  reset : (password : String) → AdminCall

-- A login draws the two tokens of its session.
pub data Call : Type 0 where
  on_accounts : AdminCall → Call
  log_in : (token csrf : String) (ttl_hours : ℕ) (username password : String) → Call
  log_out : Call

pub data Answer : Type 0 where
  served : Answer
  refused : Denied → Answer
  failed : Error → Answer

abbrev pub csrf_granted : Http → Member → Access (Unit {0}) × Db → Access Member × Db
csrf_granted http m (granted x, db) = (granted m, db)
csrf_granted http m (denied d, db) = (denied d, db)

abbrev pub then_csrf : Http → Access Member × Db → Access Member × Db
then_csrf http (granted m, db) =
    csrf_granted http m (verify_csrf http.now http.cookie http.header http.form db)
then_csrf http (denied d, db) = (denied d, db)

abbrev pub then_admin : Http → Access (Unit {0}) × Db → Access Member × Db
then_admin http (granted x, db) = require_admin http.now http.cookie db
then_admin http (denied d, db) = (denied d, db)

-- The dependencies of a route in their order: those of the router, those of the decorator, those of
-- the parameters; one that was asked before is not asked again.
unfoldable pub dependencies : AdminCall → Http → Db → Access Member × Db
dependencies (reset password) http db = then_csrf http (require_admin http.now http.cookie db)
dependencies other http db =
    then_admin http (verify_csrf http.now http.cookie http.header http.form db)

abbrev pub db_of : Result (Member × Db) → Result Db
db_of (ok r) = ok r.1
db_of (err e) = err e

-- `confirmed is None or confirmed.id != admin.id`
abbrev pub other_member : Member → Option Member → Bool
other_member m none = true
other_member m (some c) = not (c.id == m.id)

abbrev pub confirmed_reset : Library → String → Member → Db → Result Db
confirmed_reset l password admin db = do
  confirmed ← authenticate l admin.username password db
  raise_if (other_member admin confirmed) forbidden
  ok (reset_database admin.id db)

unfoldable pub service : Library → AdminCall → Member → Db → Result Db
service l (create salt u n p r) admin db = db_of (create_member l salt u n p r db)
service l (update k n r) admin db = db_of (update_member l admin.id k n r db)
service l (set_status k active) admin db = db_of (set_active admin.id k active db)
service l (renew salt k p) admin db = db_of (reset_password l salt k p db)
service l (delete k force) admin db = delete_member admin.id k force db
service l (reset password) admin db = confirmed_reset l password admin db

abbrev pub finish : Db → Result Db → Answer × Db
finish db (ok db') = (served, db')
finish db (err e) = (failed e, db)

abbrev pub behind : (Member → Db → Result Db) → Access Member × Db → Answer × Db
behind f (granted m, db) = finish db (f m db)
behind f (denied d, db) = (refused d, db)

abbrev pub logged_in : ℕ → String → String → ℕ → Db → Result (Option Member) → Answer × Db
logged_in now token csrf ttl db (ok none) = (refused unauthenticated, db)
logged_in now token csrf ttl db (ok (some m)) =
    (served, (create_session now token csrf m.id ttl db).1)
logged_in now token csrf ttl db (err e) = (failed e, db)

unfoldable pub serve : Library → Call → Http → Db → Answer × Db
unfolding dependencies service
serve l (on_accounts c) http db = behind (service l c) (dependencies c http db)
serve l (log_in token csrf ttl u p) http db =
    logged_in http.now token csrf ttl db (authenticate l u p db)
serve l log_out http db =
    (served, if is_empty http.cookie then db else delete_session http.cookie db)

unfoldable pub serve_all : Library → List (Call × Http) → Db → Db
unfolding serve
serve_all l [] db = db
serve_all l ((c, http) ∷ cs) db = serve_all l cs (serve l c http db).1
