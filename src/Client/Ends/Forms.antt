-- ===== src/Client/Ends/Forms.antt =====
-- The handlers of the settings, of the members and of the records end too.
use ikuzo_neko_pay.Prelude.{
  ℕ, ◌≡◌, ◌≢◌, String, Bool, true, false, Option, none, some, List, [], ◌∷◌,
}
use ikuzo_neko_pay.Client.Page.{
  Env, Page, Payload, Reply, Gesture, press_ok, press_cancel, backdrop, edit_record, opened,
  ledger_edit,
}
use ikuzo_neko_pay.Client.Js.{
  Outcome, done, thrown, waiting, Js, Done, log, push_overlay, ◌>>=◌, reload,
}
use ikuzo_neko_pay.Client.Api.{nk_post}
use ikuzo_neko_pay.Client.Settings.{
  announce, set_rate, settle_anti, save_anti_addiction, settle_auto, toggle_auto_attribute,
  sync_now, set_sync_since, clear_sync_since,
}
use ikuzo_neko_pay.Client.Admin.{
  given, attribute, ignore_txn, after_reset, reset_database, add_member, change_role, rename_member,
  send_status, set_active, reset_pwd, force_member, after_delete, delete_member,
}
use ikuzo_neko_pay.Client.Records.{
  EditForm, del_entry, after_save, edit_loop, start_edit, write_form, close_and_reload, edit_body,
}
use ikuzo_neko_pay.Client.Ends.{Ends, Settles, leaves, ends_rules, Ends-pure, Ends-modify}

module _ {e : Env} (s : Settles e) where
  Ends-announce :
      (tell : Payload → Js Done) (o : Option Payload)
      → ((d : Payload) → Ends (tell d))
      → Ends (announce tell o)
  unfolding announce
  Ends-announce tell none h = Ends-pure tt
  Ends-announce tell (some d) h = search (ends_rules, h) depth 14

  pub Ends-set_rate : Ends (set_rate e)
  unfolding set_rate
  Ends-set_rate = search (ends_rules, Ends-announce) depth 20

  Ends-settle_anti : (b : Bool) (o : Option Payload) → Ends (settle_anti e b o)
  unfolding settle_anti
  Ends-settle_anti b none = Ends-modify _
  Ends-settle_anti b (some d) = Ends-modify _

  pub Ends-save_anti_addiction : Ends (save_anti_addiction e)
  unfolding save_anti_addiction
  Ends-save_anti_addiction = search (ends_rules, Ends-settle_anti) depth 20

  Ends-settle_auto : (b : Bool) (o : Option Payload) → Ends (settle_auto b o)
  unfolding settle_auto
  Ends-settle_auto b none = Ends-modify _
  Ends-settle_auto b (some d) = Ends-modify _

  pub Ends-toggle_auto_attribute : Ends (toggle_auto_attribute e)
  unfolding toggle_auto_attribute
  Ends-toggle_auto_attribute = search (ends_rules, Ends-settle_auto) depth 20

  pub Ends-sync_now : Ends (sync_now e)
  unfolding sync_now
  Ends-sync_now = search (ends_rules, Ends-announce) depth 20

  pub Ends-set_sync_since : Ends (set_sync_since e)
  unfolding set_sync_since
  Ends-set_sync_since = search (ends_rules, Ends-announce) depth 20

  pub Ends-clear_sync_since : Ends (clear_sync_since e)
  unfolding clear_sync_since
  Ends-clear_sync_since = search (ends_rules, Ends-announce) depth 20

  pub Ends-attribute : (id : ℕ) → Ends (attribute e id)
  unfolding attribute
  Ends-attribute id = search (ends_rules) depth 20

  Ends-given :
      (o : Option String) (f : String → Js Done) → ((t : String) → Ends (f t)) → Ends (given o f)
  Ends-given none f h = Ends-pure tt
  Ends-given (some t) f h = search (ends_rules, h) depth 14

  pub Ends-ignore_txn : (id : ℕ) → Ends (ignore_txn e id)
  unfolding ignore_txn
  Ends-ignore_txn id = search (ends_rules, Ends-given) depth 20

  Ends-after_reset : (o : Option Payload) → Ends (after_reset o)
  unfolding after_reset
  Ends-after_reset none = Ends-pure tt
  Ends-after_reset (some d) = search (ends_rules) depth 14

  pub Ends-reset_database : Ends (reset_database e)
  unfolding reset_database
  Ends-reset_database = search (ends_rules, Ends-given, Ends-after_reset) depth 20

  pub Ends-add_member : Ends (add_member e)
  unfolding add_member
  Ends-add_member = search (ends_rules) depth 24

  pub Ends-change_role : (id : ℕ) → Ends (change_role e id)
  unfolding change_role
  Ends-change_role id = search (ends_rules) depth 20

  pub Ends-rename_member : (id : ℕ) → Ends (rename_member e id)
  unfolding rename_member
  Ends-rename_member id = search (ends_rules, Ends-given) depth 20

  Ends-send_status : (id : ℕ) (b : Bool) → Ends (send_status e id b)
  unfolding send_status
  Ends-send_status id b = search (ends_rules) depth 14

  pub Ends-set_active : (id : ℕ) (b : Bool) → Ends (set_active e id b)
  unfolding set_active
  Ends-set_active id true = Ends-send_status id true
  Ends-set_active id false = search (ends_rules, Ends-send_status) depth 14

  pub Ends-reset_pwd : (id : ℕ) → Ends (reset_pwd e id)
  unfolding reset_pwd
  Ends-reset_pwd id = search (ends_rules, Ends-given, Ends-announce) depth 24

  Ends-force_member : (id : ℕ) (o : Option Payload) → Ends (force_member e id o)
  unfolding force_member
  Ends-force_member id o = search (ends_rules) depth 20

  Ends-after_delete : (id : ℕ) (r : Reply) → Ends (after_delete e id r)
  unfolding after_delete
  Ends-after_delete id r = search (ends_rules, Ends-force_member) depth 20

  pub Ends-delete_member : (id : ℕ) → Ends (delete_member e id)
  unfolding delete_member
  Ends-delete_member id = search (ends_rules, Ends-after_delete) depth 20

  pub Ends-del_entry : (id : ℕ) → Ends (del_entry e id)
  unfolding del_entry
  Ends-del_entry id = search (ends_rules) depth 20

-- The edit dialog ends once the user leaves it, whatever the server answers to the save button.
after_save-ends :
    (r : Outcome (Option Payload)) (rest : Js Done) (p : Page)
    → ((q : Page) → (rest q).0 ≢ waiting)
    → (after_save r rest p).0 ≢ waiting
unfolding close_and_reload ◌>>=◌ reload
after_save-ends (done (some d)) rest p h = λ k. cc
after_save-ends (done none) rest p h = h p
after_save-ends thrown rest p h = h p
after_save-ends waiting rest p h = h p

edit_loop-ends :
    (e : Env) (f : EditForm) (gs : List Gesture) (p : Page)
    → leaves gs ≡ true
    → (edit_loop e f gs p).0 ≢ waiting
unfolding edit_loop leaves
edit_loop-ends e f [] p h = cc
edit_loop-ends e f (press_cancel ∷ gs) p h = λ k. cc
edit_loop-ends e f (backdrop ∷ gs) p h = λ k. cc
edit_loop-ends e f (press_ok ∷ gs) p h =
    after_save-ends (nk_post e (ledger_edit f.id) (edit_body e f) p).0 (edit_loop e f gs)
      (nk_post e (ledger_edit f.id) (edit_body e f) p).1 (λ q. edit_loop-ends e f gs q h)
edit_loop-ends e f (g ∷ gs) p h = edit_loop-ends e (write_form g f) gs p h

pub Ends-start_edit : {e : Env} → Settles e → (f : EditForm) → Ends (start_edit e f)
unfolding start_edit
Ends-start_edit {e} s f = record {
  ends = λ p.
      let shown = log (opened edit_record) (push_overlay p) in
      edit_loop-ends e f (e.gestures shown edit_record) shown (s.leaving shown edit_record);
}
