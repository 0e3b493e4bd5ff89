-- ===== src/Client/Ends/Dispatch.antt =====
-- No handler and no session of handlers leaves the page blocked by a dialog.
use ikuzo_neko_pay.Prelude.{◌≡◌, ◌≢◌, refl, ◌∙◌, List, [], ◌∷◌}
use ikuzo_neko_pay.Client.Page.{Env, Page}
use ikuzo_neko_pay.Client.Js.{Outcome, done, thrown, waiting, Done}
use ikuzo_neko_pay.Client.Handlers.{
  Handler, topup_preview, topup, play, transfer, set_rate, anti_addiction, auto_attribute, sync_now,
  set_sync_since, clear_sync_since, reset_database, add_member, attribute, ignore_txn, change_role,
  rename_member, reset_pwd, delete_member, delete_entry, set_active, supplement, edit, dispatch,
  session,
}
use ikuzo_neko_pay.Client.Kept.{Restored}
use ikuzo_neko_pay.Client.Session.{dispatch-Restored}
use ikuzo_neko_pay.Client.Ends.{Ends, Settles}
use ikuzo_neko_pay.Client.Ends.Handlers
use ikuzo_neko_pay.Client.Ends.Forms

Ends-dispatch : {e : Env} → Settles e → (h : Handler) → Ends (dispatch e h)
unfolding dispatch
Ends-dispatch s topup_preview = Handlers.Ends-update_topup_preview s
Ends-dispatch s topup = Handlers.Ends-do_topup s
Ends-dispatch s play = Handlers.Ends-do_play s
Ends-dispatch s transfer = Handlers.Ends-do_transfer s
Ends-dispatch s set_rate = Forms.Ends-set_rate s
Ends-dispatch s anti_addiction = Forms.Ends-save_anti_addiction s
Ends-dispatch s auto_attribute = Forms.Ends-toggle_auto_attribute s
Ends-dispatch s sync_now = Forms.Ends-sync_now s
Ends-dispatch s set_sync_since = Forms.Ends-set_sync_since s
Ends-dispatch s clear_sync_since = Forms.Ends-clear_sync_since s
Ends-dispatch s reset_database = Forms.Ends-reset_database s
Ends-dispatch s add_member = Forms.Ends-add_member s
Ends-dispatch s (attribute id) = Forms.Ends-attribute s id
Ends-dispatch s (ignore_txn id) = Forms.Ends-ignore_txn s id
Ends-dispatch s (change_role id) = Forms.Ends-change_role s id
Ends-dispatch s (rename_member id) = Forms.Ends-rename_member s id
Ends-dispatch s (reset_pwd id) = Forms.Ends-reset_pwd s id
Ends-dispatch s (delete_member id) = Forms.Ends-delete_member s id
Ends-dispatch s (delete_entry id) = Forms.Ends-del_entry s id
Ends-dispatch s (set_active id active) = Forms.Ends-set_active s id active
Ends-dispatch s (supplement id is_topup points) =
    Handlers.Ends-supplement_attribute s id is_topup points
Ends-dispatch s (edit f) = Forms.Ends-start_edit s f

closed : (o : Outcome Done) (p q : Page) → o ≢ waiting → Restored o p q → q.overlays ≡ p.overlays
closed (done a) p q h k = k
closed thrown p q h k = k
closed waiting p q h k = absurd (h refl)

dispatch-overlays :
    {e : Env} → Settles e → (h : Handler) (p : Page) → (dispatch e h p).1.overlays ≡ p.overlays
dispatch-overlays {e} s h p =
    closed (dispatch e h p).0 p (dispatch e h p).1 ((Ends-dispatch s h).ends p)
      (dispatch-Restored e h p)

session-overlays :
    {e : Env} → Settles e → (hs : List Handler) (p : Page) → (session e hs p).overlays ≡ p.overlays
unfolding session
session-overlays s [] p = refl
session-overlays {e} s (h ∷ hs) p =
    session-overlays s hs (dispatch e h p).1 ∙ dispatch-overlays s h p

-- Where every request settles, by a response or a rejection, and the user leaves every dialog at some
-- point by its cancel button or its backdrop, every handler returns or throws after any session, and
-- no overlay is left over.
pub session-dispatch_ends :
    (e : Env)
    → Settles e
    → (hs : List Handler) (h : Handler) (p : Page)
    → ((dispatch e h (session e hs p)).0 ≢ waiting)
      × ((dispatch e h (session e hs p)).1.overlays ≡ p.overlays)
session-dispatch_ends e s hs h p = (
  (Ends-dispatch s h).ends (session e hs p),
  dispatch-overlays s h (session e hs p) ∙ session-overlays s hs p,
)
