-- ===== src/Server/Accounts/Operations.antt =====
-- What an administrator may ask of the accounts. An operation that fails changes nothing.
use ikuzo_neko_pay.Prelude.{ℕ, ◌≡◌, refl, String, Bool, false, ◌&&◌, Option, none, some}
use ikuzo_neko_pay.Server.Store.{Db, Member, Result, ok, err}
use ikuzo_neko_pay.Server.Auth.{Library}
use ikuzo_neko_pay.Server.Accounts.{create_member, update_member, set_active, reset_password}
use ikuzo_neko_pay.Server.Purge.{delete_member, reset_database}

-- The salt of a new hash stands with the operations that draw one.
pub data AccountOp : Type 0 where
  creating : (salt : ℕ) (username display_name password role : String) → AccountOp
  updating : (k : ℕ) (display_name role : Option String) → AccountOp
  activating : (k : ℕ) (active : Bool) → AccountOp
  renewing : (salt k : ℕ) (password : String) → AccountOp
  deleting : (k : ℕ) (force : Bool) → AccountOp
  wiping : AccountOp

abbrev pub kept_db : Db → Result Db → Db
kept_db db (ok db') = db'
kept_db db (err e) = db

pub kept_db-keeps :
    (P : Db → Type 0) (db : Db) (r : Result Db)
    → ((db' : Db) → r ≡ ok db' → P db')
    → P db
    → P (kept_db db r)
kept_db-keeps P db (ok db') keeps p = keeps db' refl
kept_db-keeps P db (err x) keeps p = p

abbrev pub kept_row : Db → Result (Member × Db) → Db
kept_row db (ok r) = r.1
kept_row db (err e) = db

abbrev pub is_active_admin : Member → Bool
is_active_admin m = m.is_admin && m.is_active

abbrev pub may_act : Option Member → Bool
may_act none = false
may_act (some m) = is_active_admin m

unfoldable pub apply_op : Library → ℕ → AccountOp → Db → Db
apply_op l actor (creating salt u n p r) db = kept_row db (create_member l salt u n p r db)
apply_op l actor (updating k n r) db = kept_row db (update_member l actor k n r db)
apply_op l actor (activating k active) db = kept_row db (set_active actor k active db)
apply_op l actor (renewing salt k p) db = kept_row db (reset_password l salt k p db)
apply_op l actor (deleting k force) db = kept_db db (delete_member actor k force db)
apply_op l actor wiping db = reset_database actor db
