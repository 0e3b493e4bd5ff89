-- ===== src/Server/Accounts/Admins.antt =====
-- An administrator who acts stays one.
use ikuzo_neko_pay.Prelude.{ℕ, ◌≡◌, refl, String, Bool, true, false, Option, none, some, arith}
use ikuzo_neko_pay.Server.Store.{Db, Member, Result, ok, err, find_member}
use ikuzo_neko_pay.Server.Auth.{Library}
use ikuzo_neko_pay.Server.Accounts.{
  create_member, update_member, set_active, reset_password, renamed, with_role, changes_role,
}
use ikuzo_neko_pay.Server.Accounts.Rows.{
  find_member-max_member, find_member-head, update-may_act, renamed-flags, find_member-delete_other,
  find_member-delete_rest,
}
use ikuzo_neko_pay.Server.Purge.{delete_member, reset_database, force_purge}
use ikuzo_neko_pay.Server.Accounts.Operations.{
  AccountOp, creating, updating, activating, renewing, deleting, wiping, kept_db, kept_row,
  is_active_admin, may_act, apply_op,
}

set_active-may_act :
    (actor k : ℕ) (active : Bool) (db db' : Db) (m' : Member)
    → set_active actor k active db ≡ ok (m', db')
    → may_act (find_member actor db.members) ≡ true
    → may_act (find_member actor db'.members) ≡ true
unfolding set_active
set_active-may_act actor k active db db' m' h a = by_found (find_member k db.members) refl
  where
    by_found :
        (o : Option Member)
        → find_member k db.members ≡ o
        → may_act (find_member actor db'.members) ≡ true
    by_found none e = ground arith
    by_found (some m) e = ground (
      arith,
      find_member-max_member k db.members m e,
      update-may_act actor k m (record m { is_active = active }) db.members,
    )

reset_password-may_act :
    (l : Library) (salt actor k : ℕ) (password : String) (db db' : Db) (m' : Member)
    → reset_password l salt k password db ≡ ok (m', db')
    → may_act (find_member actor db.members) ≡ true
    → may_act (find_member actor db'.members) ≡ true
unfolding reset_password
reset_password-may_act l salt actor k password db db' m' h a =
    by_found (find_member k db.members) refl
  where
    by_found :
        (o : Option Member)
        → find_member k db.members ≡ o
        → may_act (find_member actor db'.members) ≡ true
    by_found none e = ground arith
    by_found (some m) e =
        ground
          (arith, find_member-max_member k db.members m e, update-may_act actor k m m' db.members)

create_member-may_act :
    (l : Library) (salt actor : ℕ) (username name password role : String) (db db' : Db) (m : Member)
    → create_member l salt username name password role db ≡ ok (m, db')
    → may_act (find_member actor db.members) ≡ true
    → may_act (find_member actor db'.members) ≡ true
unfolding create_member
create_member-may_act l salt actor username name password role db db' m h a =
    by_found (find_member actor db.members) refl
  where
    by_found :
        (o : Option Member)
        → find_member actor db.members ≡ o
        → may_act (find_member actor db'.members) ≡ true
    by_found none e = ground arith
    by_found (some x) e =
        ground
          (arith, find_member-max_member actor db.members x e, find_member-head actor m db.members)

-- A role that is not another one leaves the row's flags.
with_role-flags :
    (role : Option String) (m m' : Member)
    → (m'.id ≡ m.id) × (m'.is_admin ≡ m.is_admin) × (m'.is_active ≡ m.is_active)
    → ((with_role role m').id ≡ m.id)
      × (changes_role role m ≡ false
          → is_active_admin m ≡ true
          → is_active_admin (with_role role m') ≡ true)
with_role-flags none m m' h = ground arith
with_role-flags (some r) m m' h = ground arith

update_member-may_act :
    (l : Library) (actor k : ℕ) (name role : Option String) (db db' : Db) (m' : Member)
    → update_member l actor k name role db ≡ ok (m', db')
    → may_act (find_member actor db.members) ≡ true
    → may_act (find_member actor db'.members) ≡ true
unfolding update_member
update_member-may_act l actor k name role db db' m' h a = by_found (find_member k db.members) refl
  where
    by_renamed :
        (m : Member) (r : Result Member)
        → find_member k db.members ≡ some m
        → renamed l k name m db ≡ r
        → may_act (find_member actor db'.members) ≡ true
    by_renamed m (err x) e f = ground arith
    by_renamed m (ok m1) e f =
        let flags = with_role-flags role m m1 (renamed-flags l k name m m1 db f) in
        ground (
          arith,
          find_member-max_member k db.members m e,
          update-may_act actor k m (with_role role m1) db.members,
        )

    by_found :
        (o : Option Member)
        → find_member k db.members ≡ o
        → may_act (find_member actor db'.members) ≡ true
    by_found none e = ground arith
    by_found (some m) e = by_renamed m (renamed l k name m db) e refl

force_purge-members :
    (k actor : ℕ) (db db' : Db) → force_purge k actor db ≡ ok db' → db'.members ≡ db.members
unfolding force_purge
force_purge-members k actor db db' h = ground arith

delete_member-may_act :
    (actor k : ℕ) (force : Bool) (db db' : Db)
    → delete_member actor k force db ≡ ok db'
    → may_act (find_member actor db.members) ≡ true
    → may_act (find_member actor db'.members) ≡ true
unfolding delete_member
delete_member-may_act actor k force db db' h a = by_purge (force_purge k actor db) refl
  where
    by_purge :
        (r : Result Db)
        → force_purge k actor db ≡ r
        → may_act (find_member actor db'.members) ≡ true
    by_purge (err x) e = ground (arith, find_member-delete_other actor k db.members)
    by_purge (ok p) e = ground (
      arith,
      force_purge-members k actor db p e,
      find_member-delete_other actor k db.members,
      find_member-delete_other actor k p.members,
    )

kept_row-may_act :
    (actor : ℕ) (db : Db) (r : Result (Member × Db))
    → ((m : Member) (db' : Db) → r ≡ ok (m, db') → may_act (find_member actor db'.members) ≡ true)
    → may_act (find_member actor db.members) ≡ true
    → may_act (find_member actor (kept_row db r).members) ≡ true
kept_row-may_act actor db (ok (m, db')) keeps a = keeps m db' refl
kept_row-may_act actor db (err x) keeps a = a

kept_db-may_act :
    (actor : ℕ) (db : Db) (r : Result Db)
    → ((db' : Db) → r ≡ ok db' → may_act (find_member actor db'.members) ≡ true)
    → may_act (find_member actor db.members) ≡ true
    → may_act (find_member actor (kept_db db r).members) ≡ true
kept_db-may_act actor db (ok db') keeps a = keeps db' refl
kept_db-may_act actor db (err x) keeps a = a

-- Whoever acts stays an active administrator, whatever is asked and whether it succeeds.
pub apply_op-may_act :
    (l : Library) (actor : ℕ) (op : AccountOp) (db : Db)
    → may_act (find_member actor db.members) ≡ true
    → may_act (find_member actor (apply_op l actor op db).members) ≡ true
unfolding apply_op reset_database
apply_op-may_act l actor (creating salt u n p r) db a =
    kept_row-may_act actor db (create_member l salt u n p r db)
      (λ m db' h. create_member-may_act l salt actor u n p r db db' m h a) a
apply_op-may_act l actor (updating k n r) db a =
    kept_row-may_act actor db (update_member l actor k n r db)
      (λ m db' h. update_member-may_act l actor k n r db db' m h a) a
apply_op-may_act l actor (activating k active) db a =
    kept_row-may_act actor db (set_active actor k active db)
      (λ m db' h. set_active-may_act actor k active db db' m h a) a
apply_op-may_act l actor (renewing salt k p) db a =
    kept_row-may_act actor db (reset_password l salt k p db)
      (λ m db' h. reset_password-may_act l salt actor k p db db' m h a) a
apply_op-may_act l actor (deleting k force) db a =
    kept_db-may_act actor db (delete_member actor k force db)
      (λ db' h. delete_member-may_act actor k force db db' h a) a
apply_op-may_act l actor wiping db a = rw (find_member-delete_rest actor db.members) a
