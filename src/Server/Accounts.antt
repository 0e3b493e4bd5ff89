-- ===== src/Server/Accounts.antt =====
-- app/services/member_admin.py: the accounts of the members. The audit rows are not modelled, nor are
-- the tables of snapshots, sync runs and settings that a reset empties too.
pub mod Operations
pub mod Rows
pub mod Admins
pub mod Examples
use ikuzo_neko_pay.Prelude.{
  ℕ, zero, suc, ◌+◌, String, Bool, true, false, not, ◌||◌, ◌&&◌, Option, none, some, List, [], ◌∷◌,
  ◌==◌, str_eq, max, if◌then◌else◌, is_empty,
}
use ikuzo_neko_pay.Server.Store.{
  Db, Member, LedgerEntry, RealTransaction, AttributionClaim, UserSession, Error, validation,
  not_found, conflict, integrity, Result, ok, err, ◌>>=◌, ◌>>◌, raise_if, find_member, is_found,
}
use ikuzo_neko_pay.Server.Sql.{delete_where, update_where, count_where, any_where}
use ikuzo_neko_pay.Server.Edit.{freed, reversals_known}
use ikuzo_neko_pay.Server.Auth.{Library, hash_password}

-- `_norm_role(role) == "admin"`
abbrev pub norm_role : String → Bool
norm_role role = str_eq role "admin"

-- `_require`
abbrev pub require : ℕ → Db → Result Member
require k db = elim (find_member k db.members) [ none ↦ err not_found | some m ↦ ok m ]

-- `exclude_id`
abbrev pub excluded : Option ℕ → ℕ → Bool
excluded none k = false
excluded (some j) k = k == j

abbrev pub has_username : Library → String → Option ℕ → Member → Bool
has_username l name excl m =
    str_eq (l.sql_lower m.username) (l.lower (l.strip name)) && not (excluded excl m.id)

abbrev pub has_name : Library → String → Option ℕ → Member → Bool
has_name l name excl m =
    str_eq (l.sql_lower m.display_name) (l.lower (l.strip name)) && not (excluded excl m.id)

-- `_username_taken` and `_name_taken`
unfoldable pub username_taken : Library → String → Option ℕ → Db → Bool
unfolding any_where
username_taken l name excl db = any_where (has_username l name excl) db.members

unfoldable pub name_taken : Library → String → Option ℕ → Db → Bool
unfolding any_where
name_taken l name excl db = any_where (has_name l name excl) db.members

unfoldable pub max_member : List Member → ℕ
max_member [] = 0
max_member (m ∷ ms) = max m.id (max_member ms)

abbrev pub same_username : String → Member → Bool
same_username u m = str_eq m.username u

abbrev pub new_member : Db → String → String → String → Bool → Member
new_member db uname name hash admin = record {
  id = suc (max_member db.members);
  username = uname;
  display_name = name;
  password_hash = hash;
  is_admin = admin;
  is_active = true;
}

-- The unique index on usernames raises the ConflictError of the flush.
unfoldable pub create_member :
    Library → ℕ → String → String → String → String → Db → Result (Member × Db)
unfolding username_taken name_taken max_member any_where hash_password
create_member l salt username display_name password role db = do
  let name = l.strip display_name
  let uname = l.strip username
  raise_if (is_empty name) validation
  raise_if (is_empty uname) validation
  raise_if (username_taken l uname none db) conflict
  raise_if (name_taken l name none db) conflict
  hash ← hash_password l salt password
  let m = new_member db uname name hash (norm_role role)
  raise_if (any_where (same_username uname) db.members) conflict
  ok (m, record db { members = m ∷ db.members })

abbrev pub is_member : ℕ → Member → Bool
is_member k m = m.id == k

-- A change of the row of member k.
abbrev pub update_member_row : ℕ → (Member → Member) → Db → Db
update_member_row k f db = record db { members = update_where (is_member k) f db.members }

abbrev pub changes_role : Option String → Member → Bool
changes_role none m = false
changes_role (some role) m = not (if norm_role role then m.is_admin else not m.is_admin)

abbrev pub renamed : Library → ℕ → Option String → Member → Db → Result Member
renamed l k none m db = ok m
renamed l k (some s) m db = if is_empty s then ok m else do
  let name = l.strip s
  raise_if (is_empty name) validation
  raise_if (name_taken l name (some k) db) conflict
  ok (record m { display_name = name })

abbrev pub with_role : Option String → Member → Member
with_role none m = m
with_role (some role) m = record m { is_admin = norm_role role }

unfoldable pub update_member :
    Library → ℕ → ℕ → Option String → Option String → Db → Result (Member × Db)
unfolding name_taken update_where
update_member l actor k display_name role db = do
  m ← require k db
  raise_if (k == actor && changes_role role m) validation
  m' ← renamed l k display_name m db
  let m'' = with_role role m'
  ok (m'', update_member_row k (λ x. m'') db)

abbrev pub session_of : ℕ → UserSession → Bool
session_of k us = us.member_id == k

-- DELETE FROM user_sessions WHERE member_id = k
abbrev pub revoke : ℕ → Db → Db
revoke k db = record db { sessions = delete_where (session_of k) db.sessions }

unfoldable pub set_active : ℕ → ℕ → Bool → Db → Result (Member × Db)
unfolding update_where delete_where
set_active actor k active db = do
  raise_if (k == actor && not active) validation
  m ← require k db
  let m' = record m { is_active = active }
  let db' = update_member_row k (λ x. m') db
  ok (m', if active then db' else revoke k db')

unfoldable pub reset_password : Library → ℕ → ℕ → String → Db → Result (Member × Db)
unfolding hash_password update_where delete_where
reset_password l salt k password db = do
  m ← require k db
  hash ← hash_password l salt password
  let m' = record m { password_hash = hash }
  ok (m', revoke k (update_member_row k (λ x. m') db))
