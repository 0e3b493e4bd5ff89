-- ===== src/Server/Auth/Login.antt =====
-- Who gets in: after a new password or a deactivation nobody by an old session, and a new member by
-- the name and the password that it was given.
use ikuzo_neko_pay.Prelude.{
  ℕ, ◌≡◌, ◌≢◌, refl, String, true, false, none, some, List, [], ◌∷◌, str_eq, if◌then◌else◌, arith,
}
use ikuzo_neko_pay.Server.Store.{Db, Member, ok}
use ikuzo_neko_pay.Server.Sql.{any_where, any_where-delete_where}
use ikuzo_neko_pay.Server.Auth.{Library, authenticate, named, current}
use ikuzo_neko_pay.Server.Auth.Sessions.{current-other}
use ikuzo_neko_pay.Server.Accounts.{
  session_of, set_active, reset_password, create_member, has_username,
}

-- After a password was reset no token of before lets anybody act as that member.
pub current-reset_password :
    (l : Library) (salt k now : ℕ) (password t csrf : String) (db db' : Db) (m x : Member)
    → reset_password l salt k password db ≡ ok (m, db')
    → (current now t db').0 ≡ some (x, csrf)
    → x.id ≢ k
unfolding reset_password
current-reset_password l salt k now password t csrf db db' m x h f =
    current-other now k t csrf x db'
      (ground (arith, any_where-delete_where (session_of k) db.sessions)) f

-- After a member was disabled no token of before lets anybody act as that member, also once the member
-- is enabled again.
pub current-set_active :
    (actor actor' k now : ℕ) (t csrf : String) (db db' db'' : Db) (m m' x : Member)
    → set_active actor k false db ≡ ok (m, db')
    → set_active actor' k true db' ≡ ok (m', db'')
    → (current now t db'').0 ≡ some (x, csrf)
    → x.id ≢ k
unfolding set_active
current-set_active actor actor' k now t csrf db db' db'' m m' x h h' f =
    current-other now k t csrf x db''
      (ground (arith, any_where-delete_where (session_of k) db.sessions)) f

named-taken :
    (l : Library) (u : String) (ms : List Member)
    → any_where (has_username l u none) ms ≡ false
    → named l (l.lower (l.strip u)) ms ≡ []
unfolding named any_where
named-taken l u [] h = refl
named-taken l u (m ∷ ms) h = ground (arith, named-taken l u ms)

-- What a creation leaves.
record Created (l : Library) (salt : ℕ) (username password : String) (db db' : Db) (m : Member)
    : Type 0 where
  free : any_where (has_username l (l.strip username) none) db.members ≡ false
  members : db'.members ≡ m ∷ db.members
  name : m.username ≡ l.strip username
  hash : m.password_hash ≡ l.hash salt password
  active : m.is_active ≡ true

create_member-Created :
    (l : Library) (salt : ℕ) (username name password role : String) (db db' : Db) (m : Member)
    → create_member l salt username name password role db ≡ ok (m, db')
    → Created l salt username password db db' m
unfolding create_member
create_member-Created l salt username name password role db db' m h = ground arith

authenticate-head :
    (l : Library) (u password : String) (m : Member) (db : Db) (ms : List Member)
    → db.members ≡ m ∷ ms
    → named l (l.lower (l.strip u)) ms ≡ []
    → m.is_active ≡ true
    → l.verify password m.password_hash ≡ some true
    → authenticate l u password db
      ≡ (if str_eq (l.sql_lower m.username) (l.lower (l.strip u)) then ok (some m) else ok none)
unfolding authenticate named
authenticate-head l u password m db ms h others active right = ground arith

-- A new member gets in by the username that is stored and the password of its creation exactly where
-- SQL's lower and Python's lower agree on that name; where they differ, the right password does not
-- help.
pub authenticate-create_member :
    (l : Library) (salt : ℕ) (username name password role : String) (db db' : Db) (m : Member)
    → ((s : ℕ) (p : String) → l.verify p (l.hash s p) ≡ some true)
    → ((s : String) → l.strip (l.strip s) ≡ l.strip s)
    → create_member l salt username name password role db ≡ ok (m, db')
    → authenticate l m.username password db'
      ≡ (if str_eq (l.sql_lower m.username) (l.lower m.username) then ok (some m) else ok none)
authenticate-create_member l salt username name password role db db' m verifies strips h =
    let c = create_member-Created l salt username name password role db db' m h in
    let fixed : l.strip m.username ≡ m.username = rw (c.name, strips username) in
    let result =
      authenticate-head l m.username password m db' db.members c.members
        (rw c.name (named-taken l (l.strip username) db.members c.free)) c.active
        (rw c.hash (verifies salt password)) in
    rw fixed at result
