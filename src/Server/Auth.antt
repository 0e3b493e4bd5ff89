-- ===== src/Server/Auth.antt =====
-- app/services/auth_service.py and app/security.py: passwords, sessions and the checks in front of a
-- request. An instant is a number of seconds.
pub mod Sessions
pub mod Login
use Prim.Native.String.{count}
use ikuzo_neko_pay.Prelude.{
  ℕ, ◌+◌, ◌*◌, String, Bool, true, false, not, ◌||◌, ◌&&◌, Option, none, some, List, [], ◌∷◌, ltb,
  str_eq, if◌then◌else◌, is_empty,
}
use ikuzo_neko_pay.Server.Store.{
  Db, Member, UserSession, Error, validation, multiple, Result, ok, err, ◌>>=◌, ◌>>◌, raise_if,
  find_member,
}
use ikuzo_neko_pay.Server.Sql.{delete_where}

-- What the program takes from outside: Python's strip and lower, SQL's lower, and argon2, which hashes
-- under a salt and refuses a malformed hash with a ValueError (none).
pub record Library : Type 0 where
  pub strip : String → String
  pub lower : String → String
  pub sql_lower : String → String
  pub hash : ℕ → String → String
  pub verify : String → String → Option Bool

-- `hash_password`
unfoldable pub hash_password : Library → ℕ → String → Result String
hash_password l salt password = do
  raise_if (is_empty password || ltb (count password) 6) validation
  ok (l.hash salt password)

abbrev or_false : Option Bool → Bool
or_false none = false
or_false (some b) = b

-- `verify_password`
abbrev pub verify_password : Library → String → String → Bool
verify_password l password hash = or_false (l.verify password hash)

-- SELECT ... WHERE lower(username) = u
unfoldable pub named : Library → String → List Member → List Member
named l u [] = []
named l u (m ∷ ms) = if str_eq (l.sql_lower m.username) u then m ∷ named l u ms else named l u ms

-- `scalar_one_or_none()`
abbrev pub scalar_one_or_none : List Member → Result (Option Member)
scalar_one_or_none [] = ok none
scalar_one_or_none (m ∷ []) = ok (some m)
scalar_one_or_none (m ∷ n ∷ ms) = err multiple

abbrev pub checked : Library → String → Option Member → Option Member
checked l password none = none
checked l password (some m) =
    if not m.is_active
    then none
    else if not (verify_password l password m.password_hash)
    then none
    else some m

unfoldable pub authenticate : Library → String → String → Db → Result (Option Member)
unfolding named
authenticate l username password db = do
  found ← scalar_one_or_none (named l (l.lower (l.strip username)) db.members)
  ok (checked l password found)

-- The tokens are those that the call draws.
unfoldable pub create_session : ℕ → String → String → ℕ → ℕ → Db → UserSession × Db
create_session now token csrf member ttl_hours db =
    let us : UserSession = record {
      token = token;
      member_id = member;
      csrf_token = csrf;
      expires_at = now + 3600 * ttl_hours;
    } in
    (us, record db { sessions = us ∷ db.sessions })

abbrev pub has_token : String → UserSession → Bool
has_token t us = str_eq us.token t

unfoldable pub find_session : String → List UserSession → Option UserSession
find_session t [] = none
find_session t (us ∷ uss) = if has_token t us then some us else find_session t uss

-- `delete_session`, and the removal of an expired row.
unfoldable pub delete_session : String → Db → Db
unfolding delete_where
delete_session t db = record db { sessions = delete_where (has_token t) db.sessions }

abbrev pub unexpired : ℕ → String → Db → Option UserSession → Option UserSession × Db
unexpired now t db none = (none, db)
unexpired now t db (some us) =
    if ltb us.expires_at now then (none, delete_session t db) else (some us, db)

unfoldable pub get_session : ℕ → String → Db → Option UserSession × Db
unfolding find_session delete_session
get_session now t db =
    if is_empty t then (none, db) else unexpired now t db (find_session t db.sessions)

abbrev active_with : UserSession → Option Member → Option (Member × String)
active_with us none = none
active_with us (some m) = if not m.is_active then none else some (m, us.csrf_token)

abbrev pub member_of : Option UserSession × Db → Option (Member × String) × Db
member_of (none, db) = (none, db)
member_of (some us, db) = (active_with us (find_member us.member_id db.members), db)

-- `_current`, with the token of the cookie.
unfoldable pub current : ℕ → String → Db → Option (Member × String) × Db
unfolding get_session
current now t db = member_of (get_session now t db)

-- The HTTP errors 401, 403 "admin only" and 403 "CSRF token invalid".
pub data Denied : Type 0 where
  unauthenticated admin_only csrf_invalid : Denied

pub data Access (A : Type 0) : Type 0 where
  granted : A → Access A
  denied : Denied → Access A

abbrev pub viewer_of : Option (Member × String) → Access Member
viewer_of none = denied unauthenticated
viewer_of (some (m, csrf)) = granted m

unfoldable pub get_current_member : ℕ → String → Db → Access Member × Db
unfolding current
get_current_member now t db = let (found, db') = current now t db in (viewer_of found, db')

abbrev pub admin_of : Option (Member × String) → Access Member
admin_of none = denied unauthenticated
admin_of (some (m, csrf)) = if not m.is_admin then denied admin_only else granted m

-- `require_admin`, behind `get_current_member`.
unfoldable pub require_admin : ℕ → String → Db → Access Member × Db
unfolding current
require_admin now t db = let (found, db') = current now t db in (admin_of found, db')

abbrev pub submitted : Option String → Option String → String
submitted none none = ""
submitted none (some form) = form
submitted (some header) form = header

abbrev pub csrf_of : String → Option UserSession → Access (Unit {0})
csrf_of s none = denied unauthenticated
csrf_of s (some us) =
    if is_empty s || not (str_eq s us.csrf_token) then denied csrf_invalid else granted tt

-- `verify_csrf`, with the header and the form field of the request.
unfoldable pub verify_csrf :
    ℕ → String → Option String → Option String → Db → Access (Unit {0}) × Db
unfolding get_session
verify_csrf now t header form db =
    let (found, db') = get_session now t db in (csrf_of (submitted header form) found, db')
