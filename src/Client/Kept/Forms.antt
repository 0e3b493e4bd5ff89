-- ===== src/Client/Kept/Forms.antt =====
-- The plain forms keep the page: one request, and a reload if it succeeds.
use ikuzo_neko_pay.Prelude.{ℕ, Bool, true, false, arith}
use ikuzo_neko_pay.Client.Page.{Page, Env}
use ikuzo_neko_pay.Client.Js.{◌>>=◌, alert, val, fetch, open_dialog, confirm, reload, go_home}
use ikuzo_neko_pay.Client.Dialogs.{input_modal}
use ikuzo_neko_pay.Client.Api.{nk_post, nk_del, reload_on_success}
use ikuzo_neko_pay.Client.Topup.{update_topup_preview}
use ikuzo_neko_pay.Client.Play.{do_transfer}
use ikuzo_neko_pay.Client.Settings.{
  set_rate, save_anti_addiction, toggle_auto_attribute, sync_now, set_sync_since, clear_sync_since,
}
use ikuzo_neko_pay.Client.Admin.{
  attribute, ignore_txn, reset_database, add_member, change_role, rename_member, set_active,
  reset_pwd, delete_member,
}
use ikuzo_neko_pay.Client.Records.{del_entry}
use ikuzo_neko_pay.Client.Trace.{sound, writes}
use ikuzo_neko_pay.Client.Kept.{Kept}

module _ (e : Env) (p : Page) where
  pub update_topup_preview-Kept : Kept 0 p (update_topup_preview e p)
  unfolding update_topup_preview val ◌>>=◌ sound writes
  update_topup_preview-Kept = ground arith

  pub do_transfer-Kept : Kept 1 p (do_transfer e p)
  unfolding do_transfer nk_post fetch val alert reload_on_success ◌>>=◌ sound writes
  do_transfer-Kept = ground arith

  pub set_rate-Kept : Kept 1 p (set_rate e p)
  unfolding set_rate nk_post fetch val alert reload ◌>>=◌ sound writes
  set_rate-Kept = ground arith

  pub save_anti_addiction-Kept : Kept 1 p (save_anti_addiction e p)
  unfolding save_anti_addiction nk_post fetch val alert reload ◌>>=◌ sound writes
  save_anti_addiction-Kept = ground arith

  pub toggle_auto_attribute-Kept : Kept 1 p (toggle_auto_attribute e p)
  unfolding toggle_auto_attribute nk_post fetch val alert reload ◌>>=◌ sound writes
  toggle_auto_attribute-Kept = ground arith

  pub sync_now-Kept : Kept 1 p (sync_now e p)
  unfolding sync_now nk_post fetch alert reload ◌>>=◌ sound writes
  sync_now-Kept = ground arith

  pub set_sync_since-Kept : Kept 1 p (set_sync_since e p)
  unfolding set_sync_since nk_post fetch val alert reload ◌>>=◌ sound writes
  set_sync_since-Kept = ground arith

  pub clear_sync_since-Kept : Kept 1 p (clear_sync_since e p)
  unfolding clear_sync_since nk_post fetch alert reload ◌>>=◌ sound writes
  clear_sync_since-Kept = ground arith

  pub reset_database-Kept : Kept 1 p (reset_database e p)
  unfolding reset_database nk_post fetch alert confirm go_home input_modal open_dialog ◌>>=◌ sound
      writes
  reset_database-Kept = ground arith

  pub add_member-Kept : Kept 1 p (add_member e p)
  unfolding add_member nk_post fetch val alert reload_on_success ◌>>=◌ sound writes
  add_member-Kept = ground arith

module _ (e : Env) (id : ℕ) (p : Page) where
  pub attribute-Kept : Kept 1 p (attribute e id p)
  unfolding attribute nk_post fetch val alert reload_on_success ◌>>=◌ sound writes
  attribute-Kept = ground arith

  pub ignore_txn-Kept : Kept 1 p (ignore_txn e id p)
  unfolding ignore_txn nk_post fetch alert reload_on_success input_modal open_dialog ◌>>=◌ sound
      writes
  ignore_txn-Kept = ground arith

  pub change_role-Kept : Kept 1 p (change_role e id p)
  unfolding change_role nk_post fetch val alert reload_on_success ◌>>=◌ sound writes
  change_role-Kept = ground arith

  pub rename_member-Kept : Kept 1 p (rename_member e id p)
  unfolding rename_member nk_post fetch alert reload_on_success input_modal open_dialog ◌>>=◌ sound
      writes
  rename_member-Kept = ground arith

  pub reset_pwd-Kept : Kept 1 p (reset_pwd e id p)
  unfolding reset_pwd nk_post fetch alert reload input_modal open_dialog ◌>>=◌ sound writes
  reset_pwd-Kept = ground arith

  pub delete_member-Kept : Kept 2 p (delete_member e id p)
  unfolding delete_member fetch alert confirm reload ◌>>=◌ sound writes
  delete_member-Kept = ground arith

  pub del_entry-Kept : Kept 1 p (del_entry e id p)
  unfolding del_entry nk_del fetch alert confirm reload_on_success ◌>>=◌ sound writes
  del_entry-Kept = ground arith

  pub set_active-Kept : (active : Bool) → Kept 1 p (set_active e id active p)
  unfolding set_active nk_post fetch alert confirm reload_on_success ◌>>=◌ sound writes
  set_active-Kept true = ground arith
  set_active-Kept false = ground arith
