-- ===== src/Client/Records.antt =====
-- Editing and deleting a record in app/static/app.js: delEntry, and startEdit with the dialog that
-- it leaves open. The user's presses are taken one at a time: a second press of the save button
-- while a first one is on its way is not modelled.
use ikuzo_neko_pay.Prelude.{ℕ, String, Bool, not, Option, some, List, [], ◌∷◌, if◌then◌else◌}
use ikuzo_neko_pay.Client.Page.{
  Env, Json, number, text, Payload, ledger_delete, ledger_edit, delete_record, edit_record, Gesture,
  write, write_points, write_money, press_ok, press_cancel, backdrop, opened,
}
use ikuzo_neko_pay.Client.Js.{
  Outcome, done, waiting, Js, Done, pure, log, push_overlay, pop_overlay, modify, reload, confirm,
  ◌>>=◌, ◌>>◌,
}
use ikuzo_neko_pay.Client.Api.{nk_post, nk_del, reload_on_success}

unfoldable pub del_entry : Env → ℕ → Js Done
unfolding ◌>>=◌
del_entry e id = do
  sure ← confirm e delete_record
  if not sure then pure tt else do r ← nk_del e (ledger_delete id); reload_on_success r

-- The data attributes of the button, then what the inputs hold.
pub record EditForm : Type 0 where
  pub id : ℕ
  pub is_topup : Bool
  pub locked : Bool
  pub points : String
  pub money : String
  pub note : String

unfoldable pub edit_body : Env → EditForm → List (String × Json)
edit_body e f =
    ("note", text f.note)
    ∷ (if f.locked
        then []
        else ("points", number (e.to_number f.points))
          ∷ (if f.is_topup then ("money_nt", text f.money) ∷ [] else []))

-- A disabled or missing input takes no text.
unfoldable pub write_form : Gesture → EditForm → EditForm
write_form (write s) f = record f { note = s }
write_form (write_points s) f = if f.locked then f else record f { points = s }
write_form (write_money s) f =
    if f.locked then f else if f.is_topup then record f { money = s } else f
write_form _ f = f

-- `close(); NK.reload();`
unfoldable pub close_and_reload : Js Done
unfolding ◌>>=◌
close_and_reload = do modify pop_overlay; reload

abbrev pub after_save : Outcome (Option Payload) → Js Done → Js Done
after_save (done (some d)) rest = close_and_reload
after_save _ rest = rest

unfoldable pub edit_loop : Env → EditForm → List Gesture → Js Done
unfolding edit_body write_form close_and_reload
edit_loop e f [] p = (waiting, p)
edit_loop e f (press_cancel ∷ gs) p = (done tt, pop_overlay p)
edit_loop e f (backdrop ∷ gs) p = (done tt, pop_overlay p)
edit_loop e f (press_ok ∷ gs) p =
    let (r, p') = nk_post e (ledger_edit f.id) (edit_body e f) p in
    after_save r (edit_loop e f gs) p'
edit_loop e f (g ∷ gs) p = edit_loop e (write_form g f) gs p

unfoldable pub start_edit : Env → EditForm → Js Done
unfolding edit_loop
start_edit e f p =
    let shown = log (opened edit_record) (push_overlay p) in
    edit_loop e f (e.gestures shown edit_record) shown
