-- ===== src/Client/Dialogs.antt =====
-- The dialogs of app/static/app.js as state machines over what the user does while one is open:
-- inputModal, infoDialog, pickCandidate and showLoading. A gesture at an element that the dialog
-- does not have changes nothing.
use ikuzo_neko_pay.Prelude.{ℕ, String, Option, none, some, List, [], ◌∷◌, get_elem?}
use ikuzo_neko_pay.Client.Page.{
  Env, Dialog, pick, Gesture, write, press_ok, press_cancel, press_manual, press_enter, backdrop,
  press_candidate, Candidate,
}
use ikuzo_neko_pay.Client.Js.{Js, Done, modify, push_overlay, pop_overlay, open_dialog}

-- What `autoAttributeFlow` resolves to: a transaction's id, "manual" or "cancel".
pub data Choice : Type 0 where
  chosen : ℕ → Choice
  manual cancel : Choice

-- `inputModal`, with the text that the input holds; `some none` is its null.
unfoldable pub resolve_input : String → List Gesture → Option (Option String)
resolve_input typed [] = none
resolve_input typed (write s ∷ gs) = resolve_input s gs
resolve_input typed (press_ok ∷ gs) = some (some typed)
resolve_input typed (press_enter ∷ gs) = some (some typed)
resolve_input typed (press_cancel ∷ gs) = some none
resolve_input typed (backdrop ∷ gs) = some none
resolve_input typed (_ ∷ gs) = resolve_input typed gs

-- `infoDialog`
unfoldable pub resolve_info : List Gesture → Option Choice
resolve_info [] = none
resolve_info (press_manual ∷ gs) = some manual
resolve_info (press_cancel ∷ gs) = some cancel
resolve_info (backdrop ∷ gs) = some cancel
resolve_info (_ ∷ gs) = resolve_info gs

-- `pickCandidate`: the button at position i carries the id of candidate i.
unfoldable pub resolve_pick : List Candidate → List Gesture → Option Choice
resolve_pick cs [] = none
resolve_pick cs (press_candidate i ∷ gs) =
    let rest = resolve_pick cs gs in
    elim (get_elem? cs i) [ none ↦ rest | some c ↦ some (chosen c.id) ]
resolve_pick cs (press_manual ∷ gs) = some manual
resolve_pick cs (press_cancel ∷ gs) = some cancel
resolve_pick cs (backdrop ∷ gs) = some cancel
resolve_pick cs (_ ∷ gs) = resolve_pick cs gs

unfoldable pub input_modal : Env → Dialog → Js (Option String)
unfolding resolve_input
input_modal e d = open_dialog e d (resolve_input "")

unfoldable pub info_dialog : Env → Dialog → Js Choice
unfolding resolve_info
info_dialog e d = open_dialog e d resolve_info

unfoldable pub pick_candidate : Env → List Candidate → Js Choice
unfolding resolve_pick
pick_candidate e cs = open_dialog e (pick cs) (resolve_pick cs)

-- `showLoading`, and the function that it returns.
unfoldable pub show_loading : Js Done
show_loading = modify push_overlay

unfoldable pub stop_loading : Js Done
stop_loading = modify pop_overlay
