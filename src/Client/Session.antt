-- ===== src/Client/Session.antt =====
-- Whole sessions of a page: any handlers of app/static/app.js, one after the other, under any
-- answers of the user and of the server.
pub mod Samples
mod Examples
use ikuzo_neko_pay.Prelude.{ℕ, ◌+◌, ◌≤◌, ◌≡◌, true, List, [], ◌∷◌, arith}
use ikuzo_neko_pay.Client.Page.{Page, Env, edit_record, opened}
use ikuzo_neko_pay.Client.Js.{log, push_overlay}
use ikuzo_neko_pay.Client.Handlers.{
  Handler, topup_preview, topup, play, transfer, set_rate, anti_addiction, auto_attribute, sync_now,
  set_sync_since, clear_sync_since, reset_database, add_member, attribute, ignore_txn, change_role,
  rename_member, reset_pwd, delete_member, delete_entry, set_active, supplement, edit, dispatch,
  session,
}
use ikuzo_neko_pay.Client.Trace.{sound, writes}
use ikuzo_neko_pay.Client.Kept.{Kept, Restored}
use ikuzo_neko_pay.Client.Kept.Handlers.{do_play-Kept, do_topup-Kept}
use ikuzo_neko_pay.Client.Kept.Forms
use ikuzo_neko_pay.Client.Kept.Records.{saves, supplement_attribute-Kept, start_edit-Kept}

-- The number of requests that a handler may send, each of which may change data: two where candidates
-- are asked for first and for a deletion that is forced, one for each press of the save button, none for
-- a preview, and else one.
abbrev pub budget : Env → Page → Handler → ℕ
budget e p topup_preview = 0
budget e p topup = 2
budget e p play = 2
budget e p (supplement id is_topup points) = 2
budget e p (delete_member id) = 2
budget e p (edit f) = saves (e.gestures (log (opened edit_record) (push_overlay p)) edit_record)
budget e p _ = 1

dispatch-Kept : (e : Env) (h : Handler) (p : Page) → Kept (budget e p h) p (dispatch e h p)
unfolding dispatch
dispatch-Kept e topup_preview p = Forms.update_topup_preview-Kept e p
dispatch-Kept e topup p = do_topup-Kept e p
dispatch-Kept e play p = do_play-Kept e p
dispatch-Kept e transfer p = Forms.do_transfer-Kept e p
dispatch-Kept e set_rate p = Forms.set_rate-Kept e p
dispatch-Kept e anti_addiction p = Forms.save_anti_addiction-Kept e p
dispatch-Kept e auto_attribute p = Forms.toggle_auto_attribute-Kept e p
dispatch-Kept e sync_now p = Forms.sync_now-Kept e p
dispatch-Kept e set_sync_since p = Forms.set_sync_since-Kept e p
dispatch-Kept e clear_sync_since p = Forms.clear_sync_since-Kept e p
dispatch-Kept e reset_database p = Forms.reset_database-Kept e p
dispatch-Kept e add_member p = Forms.add_member-Kept e p
dispatch-Kept e (attribute id) p = Forms.attribute-Kept e id p
dispatch-Kept e (ignore_txn id) p = Forms.ignore_txn-Kept e id p
dispatch-Kept e (change_role id) p = Forms.change_role-Kept e id p
dispatch-Kept e (rename_member id) p = Forms.rename_member-Kept e id p
dispatch-Kept e (reset_pwd id) p = Forms.reset_pwd-Kept e id p
dispatch-Kept e (delete_member id) p = Forms.delete_member-Kept e id p
dispatch-Kept e (delete_entry id) p = Forms.del_entry-Kept e id p
dispatch-Kept e (set_active id active) p = Forms.set_active-Kept e id p active
dispatch-Kept e (supplement id is_topup points) p = supplement_attribute-Kept e id is_topup points p
dispatch-Kept e (edit f) p = start_edit-Kept e f p

-- After any session, under any answers of the user and of the server, the events of the page are
-- sound if they were before: a play or a top-up follows a dialog of the attribution flow; a request
-- that attributes a transaction to the member follows the choice among candidates that include it; one
-- that links a record follows such a choice and the question about the note of the candidate that its
-- body names, with the user's answer; a deletion, a reset and a forced deletion follow the user's consent (the forced one also a 409 for the same member),
-- and the page is left or reloaded only where the last request came back with a 2xx status.
pub session-sound :
    (e : Env) (hs : List Handler) (p : Page)
    → sound p.trace ≡ true
    → sound (session e hs p).trace ≡ true
unfolding session
session-sound e [] p h = h
session-sound e (x ∷ hs) p h =
    session-sound e hs (dispatch e x p).1 ((dispatch-Kept e x p).sounds h)

-- Every handler that returns or throws leaves as many overlays as it found; one that waits for ever
-- leaves at most one more.
pub dispatch-Restored :
    (e : Env) (h : Handler) (p : Page) → Restored (dispatch e h p).0 p (dispatch e h p).1
dispatch-Restored e h p = (dispatch-Kept e h p).overlays

-- Every handler sends at most its budget of requests, under any answers: one, but none for a preview;
-- two for a top-up, a play and the link of a record, where the first asks for candidates, and for the
-- deletion of a member; and one for each press of the save button of the edit dialog.
pub writes-dispatch :
    (e : Env) (h : Handler) (p : Page)
    → writes (dispatch e h p).1.trace ≤ writes p.trace + budget e p h
writes-dispatch e h p = (dispatch-Kept e h p).few_writes
