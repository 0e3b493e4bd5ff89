-- ===== src/Server/Routes/Admins.antt =====
-- The program keeps an active administrator, whatever requests come.
use ikuzo_neko_pay.Prelude.{
  ℕ, ◌≡◌, refl, ap, ◌⊎◌, inl, inr, String, true, Option, none, some, List, [], ◌∷◌, arith,
}
use ikuzo_neko_pay.Server.Store.{Db, Member, UserSession, Result, ok, err, find_member}
use ikuzo_neko_pay.Server.Sql.{any_where}
use ikuzo_neko_pay.Server.Auth.{Library, authenticate, delete_session, create_session}
use ikuzo_neko_pay.Server.Accounts.{create_member, update_member, set_active, reset_password}
use ikuzo_neko_pay.Server.Purge.{delete_member, reset_database}
use ikuzo_neko_pay.Server.Accounts.Rows.{may_act-any_where}
use ikuzo_neko_pay.Server.Accounts.Operations.{
  AccountOp, creating, updating, activating, renewing, deleting, wiping, kept_db, kept_row,
  is_active_admin, may_act, apply_op,
}
use ikuzo_neko_pay.Server.Accounts.Admins.{apply_op-may_act}
use ikuzo_neko_pay.Server.Routes.{
  Http, AdminCall, create, update, set_status, renew, delete, reset, Call, on_accounts, log_in,
  log_out, service, serve, serve_all, finish, db_of, confirmed_reset, logged_in,
}
use ikuzo_neko_pay.Server.Routes.Guards.{Authorised, Untouched, serve-Guarded}

find_member-id : (k : ℕ) (ms : List Member) (m : Member) → find_member k ms ≡ some m → m.id ≡ k
unfolding find_member
find_member-id k [] m h = cc
find_member-id k (x ∷ ms) m h = ground (arith, find_member-id k ms m)

finish-db_of : (db : Db) (r : Result (Member × Db)) → (finish db (db_of r)).1 ≡ kept_row db r
finish-db_of db (ok r) = refl
finish-db_of db (err e) = refl

finish-kept_db : (db : Db) (r : Result Db) → (finish db r).1 ≡ kept_db db r
finish-kept_db db (ok r) = refl
finish-kept_db db (err e) = refl

confirmed_reset-cases :
    (l : Library) (password : String) (m : Member) (db : Db)
    → ((finish db (confirmed_reset l password m db)).1 ≡ db)
      ⊎ ((finish db (confirmed_reset l password m db)).1 ≡ reset_database m.id db)
confirmed_reset-cases l password m db = ground arith

-- A call either fails, or is the operation on the accounts.
service-apply_op :
    (l : Library) (c : AdminCall) (m : Member) (db : Db)
    → ((finish db (service l c m db)).1 ≡ db)
      ⊎ ((op : AccountOp) × ((finish db (service l c m db)).1 ≡ apply_op l m.id op db))
unfolding service apply_op
service-apply_op l (create salt u n p r) m db =
    inr (creating salt u n p r, finish-db_of db (create_member l salt u n p r db))
service-apply_op l (update k n r) m db =
    inr (updating k n r, finish-db_of db (update_member l m.id k n r db))
service-apply_op l (set_status k active) m db =
    inr (activating k active, finish-db_of db (set_active m.id k active db))
service-apply_op l (renew salt k p) m db =
    inr (renewing salt k p, finish-db_of db (reset_password l salt k p db))
service-apply_op l (delete k force) m db =
    inr (deleting k force, finish-kept_db db (delete_member m.id k force db))
service-apply_op l (reset password) m db = elim (confirmed_reset-cases l password m db) [
  | inl same ↦ inl same
  | inr wiped ↦ inr (wiping, wiped)
]

finish-HasAdmin :
    (l : Library) (c : AdminCall) (http : Http) (db : Db) (m : Member) (us : UserSession)
    → Authorised http db m us
    → any_where is_active_admin db.members ≡ true
    → any_where is_active_admin (finish db (service l c m db)).1.members ≡ true
finish-HasAdmin l c http db m us a h =
    let itself : m.id ≡ us.member_id = find_member-id us.member_id db.members m a.member in
    let acts : may_act (find_member m.id db.members) ≡ true =
      rw (itself, a.member, a.admin, a.active) in
    elim (service-apply_op l c m db) [
      | inl same ↦ rw same h
      | inr (op, applied) ↦ rw applied (
          may_act-any_where m.id (apply_op l m.id op db).members
            (apply_op-may_act l m.id op db acts))
    ]

Untouched-members : (http : Http) (db db' : Db) → Untouched http db db' → db'.members ≡ db.members
unfolding delete_session
Untouched-members http db db' (inl same) = ap (λ d. d.members) same
Untouched-members http db db' (inr gone) = ap (λ d. d.members) gone.3

logged_in-members :
    (now : ℕ) (token csrf : String) (ttl : ℕ) (db : Db) (r : Result (Option Member))
    → (logged_in now token csrf ttl db r).1.members ≡ db.members
unfolding create_session
logged_in-members now token csrf ttl db (ok none) = refl
logged_in-members now token csrf ttl db (ok (some m)) = refl
logged_in-members now token csrf ttl db (err e) = refl

serve-log_in-members :
    (l : Library) (token csrf : String) (ttl : ℕ) (u p : String) (http : Http) (db : Db)
    → (serve l (log_in token csrf ttl u p) http db).1.members ≡ db.members
unfolding serve
serve-log_in-members l token csrf ttl u p http db =
    logged_in-members http.now token csrf ttl db (authenticate l u p db)

serve-log_out-members :
    (l : Library) (http : Http) (db : Db) → (serve l log_out http db).1.members ≡ db.members
unfolding serve delete_session
serve-log_out-members l http db = ground arith

serve-HasAdmin :
    (l : Library) (c : Call) (http : Http) (db : Db)
    → any_where is_active_admin db.members ≡ true
    → any_where is_active_admin (serve l c http db).1.members ≡ true
serve-HasAdmin l (on_accounts c) http db h = elim (serve-Guarded l c http db) [
  | inl kept ↦ rw (Untouched-members http db (serve l (on_accounts c) http db).1 kept) h
  | inr (m, us, a, same) ↦ rw (ap (λ r. r.1) same) (finish-HasAdmin l c http db m us a h)
]
serve-HasAdmin l (log_in token csrf ttl u p) http db h =
    rw (serve-log_in-members l token csrf ttl u p http db) h
serve-HasAdmin l log_out http db h = rw (serve-log_out-members l http db) h

-- Whatever requests to log in, to log out and to change the accounts come, at any times, with any
-- cookies and tokens: the program keeps an active administrator if it had one.
pub serve_all-HasAdmin :
    (l : Library) (cs : List (Call × Http)) (db : Db)
    → any_where is_active_admin db.members ≡ true
    → any_where is_active_admin (serve_all l cs db).members ≡ true
unfolding serve_all
serve_all-HasAdmin l [] db h = h
serve_all-HasAdmin l ((c, http) ∷ cs) db h =
    serve_all-HasAdmin l cs (serve l c http db).1 (serve-HasAdmin l c http db h)
