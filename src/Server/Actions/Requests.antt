-- ===== src/Server/Actions/Requests.antt =====
-- Whose points a request can take.
use mathlib.Core.Option.{some-injective}
use ikuzo_neko_pay.Prelude.{
  ◌≡◌, refl, sym, ap, subst, ◌∙◌, inl, inr, true, false, Bool-cases, some, ltb, str_eq_iff,
  is_empty, arith,
}
use ikuzo_neko_pay.Server.Store.{Db, Member, UserSession, Result, ok, err, find_member}
use ikuzo_neko_pay.Server.Auth.{
  find_session, delete_session, get_session, current, Denied, Access, granted, denied,
  get_current_member, verify_csrf, submitted,
}
use ikuzo_neko_pay.Server.Routes.{Http, behind, finish}
use ikuzo_neko_pay.Server.Routes.Guards.{Untouched, verify_csrf-granted, verify_csrf-denied}
use ikuzo_neko_pay.Server.Actions.{Context, Action, act, then_member, post_action}
use ikuzo_neko_pay.Server.Actions.Effects.{Harmless, act-Harmless}

-- The request carries the token of a session of m that is not over, and its CSRF token; m is active.
pub record Identified (http : Http) (db : Db) (m : Member) (us : UserSession) : Type 0 where
  pub session : find_session http.cookie db.sessions ≡ some us
  pub in_time : ltb us.expires_at http.now ≡ false
  pub csrf : submitted http.header http.form ≡ us.csrf_token
  pub present : is_empty us.csrf_token ≡ false
  pub member : find_member us.member_id db.members ≡ some m
  pub active : m.is_active ≡ true

get_current_member-granted :
    (http : Http) (db db' : Db) (m : Member)
    → get_current_member http.now http.cookie db ≡ (granted m, db')
    → (us : UserSession) × (find_session http.cookie db.sessions ≡ some us)
      × (find_member us.member_id db.members ≡ some m)
      × (m.is_active ≡ true)
      × (db' ≡ db)
unfolding get_current_member current get_session
get_current_member-granted http db db' m h = ground arith

get_current_member-denied :
    (http : Http) (db db' : Db) (d : Denied)
    → get_current_member http.now http.cookie db ≡ (denied d, db')
    → Untouched http db db'
unfolding get_current_member current get_session
get_current_member-denied http db db' d h = ground arith

abbrev Checked : Http → Db → Access Member × Db → Type 0
Checked http db (granted m, db') = (us : UserSession) × Identified http db m us × (db' ≡ db)
Checked http db (denied d, db') = Untouched http db db'

member-Checked :
    (http : Http) (db db' : Db) (x : Unit {0}) (r : Access Member × Db)
    → verify_csrf http.now http.cookie http.header http.form db ≡ (granted x, db')
    → get_current_member http.now http.cookie db ≡ r
    → Checked http db r
member-Checked http db db' x (granted m, db'') g h =
    let (us, found, member, active, same) = get_current_member-granted http db db'' m h in
    let (vs, found', in_time, csrf, present, _) = verify_csrf-granted http db db' x g in
    let one : vs ≡ us = some-injective _ _ (sym found' ∙ found) in
    let token = (str_eq_iff _ _).0 csrf in
    (
      us,
      record {
        session = found;
        in_time = subst (λ s. ltb s.expires_at http.now ≡ false) one in_time;
        csrf = token ∙ ap (λ s. s.csrf_token) one;
        present = subst (λ t. is_empty t ≡ false) (token ∙ ap (λ s. s.csrf_token) one) present;
        member = member;
        active = active;
      },
      same,
    )
member-Checked http db db' x (denied d, db'') g h = get_current_member-denied http db db'' d h

then_member-Checked :
    (http : Http) (db : Db) (r : Access (Unit {0}) × Db)
    → verify_csrf http.now http.cookie http.header http.form db ≡ r
    → Checked http db (then_member http r)
then_member-Checked http db (granted x, db') h =
    let same : db' ≡ db = (verify_csrf-granted http db db' x h).5 in
    member-Checked http db db' x (get_current_member http.now http.cookie db') h
      (ap (get_current_member http.now http.cookie) (sym same))
then_member-Checked http db (denied d, db') h = verify_csrf-denied http db db' d h

-- How a request may change the balances: not at all; or it is of an administrator; or it is of a
-- member, spares all others and makes no debt.
pub data Fair (http : Http) (db db' : Db) : Type 0 where
  unchanged : db'.entries ≡ db.entries → Fair http db db'
  by_admin :
      (m : Member) (us : UserSession)
      → Identified http db m us
      → m.is_admin ≡ true
      → Fair http db db'
  by_member :
      (m : Member) (us : UserSession)
      → Identified http db m us
      → Harmless m db db'
      → Fair http db db'

finish-Fair :
    (http : Http) (db : Db) (m : Member) (us : UserSession) (r : Result Db)
    → Identified http db m us
    → ((db' : Db) → m.is_admin ≡ false → r ≡ ok db' → Harmless m db db')
    → Fair http db (finish db r).1
finish-Fair http db m us (ok db') v h = elim (Bool-cases m.is_admin) [
  | inl admin ↦ by_admin m us v admin
  | inr plain ↦ by_member m us v (h db' plain refl)
]
finish-Fair http db m us (err x) v h = unchanged refl

behind-Fair :
    (c : Context) (o : Action) (http : Http) (db : Db) (r : Access Member × Db)
    → Checked http db r
    → Fair http db (behind (act http.now c o) r).1
unfolding delete_session
behind-Fair c o http db (granted m, db') (us, v, same) =
    subst (λ d. Fair http db (finish d (act http.now c o m d)).1) (sym same)
      (finish-Fair http db m us (act http.now c o m db) v
        (λ db'' plain h. act-Harmless http.now c o m db db'' plain h))
behind-Fair c o http db (denied d, db') (inl same) = unchanged (ap (λ t. t.entries) same)
behind-Fair c o http db (denied d, db') (inr gone) = unchanged (ap (λ t. t.entries) gone.3)

-- A request to top up, to play or to transfer leaves the ledger as it was; or it carries the session
-- and the CSRF token of an active administrator; or it carries those of an active member, no balance
-- but that member's falls, and nobody owes points to the pool afterwards if nobody did before.
pub post_action-Fair :
    (c : Context) (o : Action) (http : Http) (db : Db) → Fair http db (post_action c o http db).1
unfolding post_action
post_action-Fair c o http db =
    behind-Fair c o http db
      (then_member http (verify_csrf http.now http.cookie http.header http.form db))
      (then_member-Checked http db (verify_csrf http.now http.cookie http.header http.form db) refl)
