-- ===== src/Client/Handlers.antt =====
-- Every handler that a page of the program binds to a control, and a session as a sequence of them.
use ikuzo_neko_pay.Prelude.{ℕ, Bool, List, [], ◌∷◌}
use ikuzo_neko_pay.Client.Number.{Number}
use ikuzo_neko_pay.Client.Page.{Env, Page}
use ikuzo_neko_pay.Client.Js.{Js, Done}
use ikuzo_neko_pay.Client.Attribution
use ikuzo_neko_pay.Client.Topup
use ikuzo_neko_pay.Client.Play
use ikuzo_neko_pay.Client.Settings
use ikuzo_neko_pay.Client.Admin
use ikuzo_neko_pay.Client.Records
use ikuzo_neko_pay.Client.Records.{EditForm}

pub data Handler : Type 0 where
  topup_preview topup play transfer : Handler
  set_rate anti_addiction auto_attribute sync_now set_sync_since clear_sync_since : Handler
  reset_database add_member : Handler
  attribute ignore_txn change_role rename_member reset_pwd delete_member delete_entry : ℕ → Handler
  set_active : ℕ → Bool → Handler
  supplement : ℕ → Bool → Number → Handler
  edit : EditForm → Handler

unfoldable pub dispatch : Env → Handler → Js Done
dispatch e topup_preview = Topup.update_topup_preview e
dispatch e topup = Topup.do_topup e
dispatch e play = Play.do_play e
dispatch e transfer = Play.do_transfer e
dispatch e set_rate = Settings.set_rate e
dispatch e anti_addiction = Settings.save_anti_addiction e
dispatch e auto_attribute = Settings.toggle_auto_attribute e
dispatch e sync_now = Settings.sync_now e
dispatch e set_sync_since = Settings.set_sync_since e
dispatch e clear_sync_since = Settings.clear_sync_since e
dispatch e reset_database = Admin.reset_database e
dispatch e add_member = Admin.add_member e
dispatch e (attribute id) = Admin.attribute e id
dispatch e (ignore_txn id) = Admin.ignore_txn e id
dispatch e (change_role id) = Admin.change_role e id
dispatch e (rename_member id) = Admin.rename_member e id
dispatch e (reset_pwd id) = Admin.reset_pwd e id
dispatch e (delete_member id) = Admin.delete_member e id
dispatch e (delete_entry id) = Records.del_entry e id
dispatch e (set_active id active) = Admin.set_active e id active
dispatch e (supplement id is_topup points) = Attribution.supplement_attribute e id is_topup points
dispatch e (edit f) = Records.start_edit e f

-- The handlers one after the other, each from the page that the one before left.
unfoldable pub session : Env → List Handler → Page → Page
session e [] p = p
session e (h ∷ hs) p = session e hs (dispatch e h p).1
