-- ===== src/Client/Ends.antt =====
-- Actions of the page that do not wait for ever, where every request settles and the user does not
-- leave a dialog open.
pub mod Handlers
pub mod Forms
pub mod Dispatch
mod Examples
use ikuzo_neko_pay.Prelude.{
  ℕ, ◌≡◌, ◌≢◌, refl, String, Bool, true, false, Option, none, some, List, [], ◌∷◌, get_elem?,
  if◌then◌else◌, is_empty, arith, Option-cases, inl, inr,
}
use ikuzo_neko_pay.Client.Page.{
  Env, Page, Url, Json, Request, Answer, reply, failed, pending, Notice, Question, Dialog, Field,
  Gesture, write, press_ok, press_cancel, press_manual, press_enter, backdrop, press_candidate,
  opened, pick, post, delete, Candidate, Payload, Reply,
}
use ikuzo_neko_pay.Client.Js.{
  Outcome, done, thrown, waiting, continue, ended, Js, Done, pure, throw, gets, modify, alert,
  reload, go_home, val, fetch, confirm, open_dialog, close_dialog, log, push_overlay, try_finally,
  ◌>>=◌,
}
use ikuzo_neko_pay.Client.Dialogs.{
  Choice, resolve_input, resolve_info, resolve_pick, input_modal, info_dialog, pick_candidate,
  show_loading, stop_loading,
}
use ikuzo_neko_pay.Client.Api.{nk_post, nk_del, reload_on_success}

-- The user cancels at some point, or clicks beside the dialog.
unfoldable pub leaves : List Gesture → Bool
leaves [] = false
leaves (press_cancel ∷ gs) = true
leaves (backdrop ∷ gs) = true
leaves (_ ∷ gs) = leaves gs

pub record Settles (e : Env) : Type 0 where
  pub answers : (p : Page) (req : Request) → e.answer p req ≢ pending
  pub leaving : (p : Page) (d : Dialog) → leaves (e.gestures p d) ≡ true

pub record Ends {A : Type 0} (m : Js A) : Type 0 where
  pub ends : (p : Page) → (m p).0 ≢ waiting

continue-Ends :
    {A B : Type 0} (r : Outcome A) (f : A → Js B) (p : Page)
    → r ≢ waiting
    → ((a : A) → Ends (f a))
    → (continue r f p).0 ≢ waiting
continue-Ends (done a) f p h k = (k a).ends p
continue-Ends thrown f p h k = λ e. cc
continue-Ends waiting f p h k = absurd (h refl)

pub Ends-bind :
    {A B : Type 0} (m : Js A) (f : A → Js B) → Ends m → ((a : A) → Ends (f a)) → Ends (m >>= f)
unfolding ◌>>=◌
Ends-bind m f em ef = record { ends = λ p. continue-Ends (m p).0 f (m p).1 (em.ends p) ef }

pub Ends-pure : {A : Type 0} (a : A) → Ends (pure a)
Ends-pure a = record { ends = λ p h. cc }

pub Ends-throw : {A : Type 0} → Ends (throw {A = A})
Ends-throw = record { ends = λ p h. cc }

pub Ends-gets : {A : Type 0} (f : Page → A) → Ends (gets f)
Ends-gets f = record { ends = λ p h. cc }

pub Ends-modify : (f : Page → Page) → Ends (modify f)
Ends-modify f = record { ends = λ p h. cc }

pub Ends-alert : (n : Notice) → Ends (alert n)
unfolding alert
Ends-alert n = record { ends = λ p h. cc }

pub Ends-reload : Ends reload
unfolding reload
Ends-reload = record { ends = λ p h. cc }

pub Ends-go_home : Ends go_home
unfolding go_home
Ends-go_home = record { ends = λ p h. cc }

pub Ends-confirm : (e : Env) (q : Question) → Ends (confirm e q)
unfolding confirm
Ends-confirm e q = record { ends = λ p h. cc }

pub Ends-val : (f : Field) → Ends (val f)
unfolding val
Ends-val f = record { ends = λ p h. ground arith }

pub Ends-if : {A : Type 0} (b : Bool) (m n : Js A) → Ends m → Ends n → Ends (if b then m else n)
Ends-if true m n h k = h
Ends-if false m n h k = k

ended-Ends :
    {A : Type 0} (r : Outcome A) (f : Js Done) (p : Page)
    → r ≢ waiting
    → Ends f
    → (ended r f p).0 ≢ waiting
ended-Ends (done a) f p h k =
    continue-Ends (f p).0 (λ _. pure a) (f p).1 (k.ends p) (λ _. Ends-pure a)
ended-Ends {A} thrown f p h k =
    continue-Ends (f p).0 (λ _. throw {A = A}) (f p).1 (k.ends p) (λ _. Ends-throw)
ended-Ends waiting f p h k = absurd (h refl)

pub Ends-try_finally :
    {A : Type 0} (m : Js A) (f : Js Done) → Ends m → Ends f → Ends (try_finally m f)
unfolding try_finally
Ends-try_finally m f em ef = record { ends = λ p. ended-Ends (m p).0 f (m p).1 (em.ends p) ef }

pub Ends-show_loading : Ends show_loading
unfolding show_loading
Ends-show_loading = Ends-modify _

pub Ends-stop_loading : Ends stop_loading
unfolding stop_loading
Ends-stop_loading = Ends-modify _

pub Ends-reload_on_success : (r : Option Payload) → Ends (reload_on_success r)
unfolding reload_on_success
Ends-reload_on_success none = Ends-pure tt
Ends-reload_on_success (some d) = Ends-reload

resolve_input-leaves :
    (t : String) (gs : List Gesture) → leaves gs ≡ true → resolve_input t gs ≢ none
unfolding resolve_input leaves
resolve_input-leaves t [] h k = cc
resolve_input-leaves t (write s ∷ gs) h k = resolve_input-leaves s gs h k
resolve_input-leaves t (press_ok ∷ gs) h k = cc
resolve_input-leaves t (press_enter ∷ gs) h k = cc
resolve_input-leaves t (press_cancel ∷ gs) h k = cc
resolve_input-leaves t (backdrop ∷ gs) h k = cc
resolve_input-leaves t (_ ∷ gs) h k = resolve_input-leaves t gs h k

resolve_info-leaves : (gs : List Gesture) → leaves gs ≡ true → resolve_info gs ≢ none
unfolding resolve_info leaves
resolve_info-leaves [] h k = cc
resolve_info-leaves (press_manual ∷ gs) h k = cc
resolve_info-leaves (press_cancel ∷ gs) h k = cc
resolve_info-leaves (backdrop ∷ gs) h k = cc
resolve_info-leaves (_ ∷ gs) h k = resolve_info-leaves gs h k

resolve_pick-leaves :
    (cs : List Candidate) (gs : List Gesture) → leaves gs ≡ true → resolve_pick cs gs ≢ none
unfolding resolve_pick leaves
resolve_pick-leaves cs [] h k = cc
resolve_pick-leaves cs (press_candidate i ∷ gs) h k = elim (Option-cases (get_elem? cs i)) [
  | inl missing ↦ resolve_pick-leaves cs gs h (ground arith)
  | inr (c, found) ↦ ground arith
]
resolve_pick-leaves cs (press_manual ∷ gs) h k = cc
resolve_pick-leaves cs (press_cancel ∷ gs) h k = cc
resolve_pick-leaves cs (backdrop ∷ gs) h k = cc
resolve_pick-leaves cs (_ ∷ gs) h k = resolve_pick-leaves cs gs h k

close-ends : {A : Type 0} (o : Option A) (p : Page) → o ≢ none → (close_dialog o p).0 ≢ waiting
close-ends none p h = absurd (h refl)
close-ends (some a) p h = λ k. cc

module _ {e : Env} (s : Settles e) where
  pub Ends-fetch : (req : Request) → Ends (fetch e req)
  unfolding fetch
  Ends-fetch req = record { ends = λ p h. ground (arith, s.answers p req) }

  pub Ends-nk_post : (url : Url) (body : List (String × Json)) → Ends (nk_post e url body)
  unfolding nk_post fetch alert ◌>>=◌
  Ends-nk_post url body = record {
    ends = λ p h. ground (arith, s.answers p (record { method = post; url = url; body = body }));
  }

  pub Ends-nk_del : (url : Url) → Ends (nk_del e url)
  unfolding nk_del fetch alert ◌>>=◌
  Ends-nk_del url = record {
    ends = λ p h. ground (arith, s.answers p (record { method = delete; url = url; body = [] }));
  }

  Ends-open_dialog :
      {A : Type 0} (d : Dialog) (resolve : List Gesture → Option A)
      → ((gs : List Gesture) → leaves gs ≡ true → resolve gs ≢ none)
      → Ends (open_dialog e d resolve)
  unfolding open_dialog
  Ends-open_dialog d resolve h = record {
    ends = λ p.
        let shown = log (opened d) (push_overlay p) in
        close-ends (resolve (e.gestures shown d)) shown
          (h (e.gestures shown d) (s.leaving shown d));
  }

  pub Ends-input_modal : (d : Dialog) → Ends (input_modal e d)
  unfolding input_modal
  Ends-input_modal d = Ends-open_dialog d (resolve_input "") (resolve_input-leaves "")

  pub Ends-info_dialog : (d : Dialog) → Ends (info_dialog e d)
  unfolding info_dialog
  Ends-info_dialog d = Ends-open_dialog d resolve_info resolve_info-leaves

  pub Ends-pick_candidate : (cs : List Candidate) → Ends (pick_candidate e cs)
  unfolding pick_candidate
  Ends-pick_candidate cs = Ends-open_dialog (pick cs) (resolve_pick cs) (resolve_pick-leaves cs)

pub ruleset ends_rules = (
  Ends-bind, Ends-if, Ends-pure, Ends-throw, Ends-gets, Ends-modify, Ends-alert, Ends-reload,
  Ends-go_home, Ends-confirm, Ends-val, Ends-try_finally, Ends-show_loading, Ends-stop_loading,
  Ends-reload_on_success, Ends-nk_post, Ends-nk_del, Ends-fetch, Ends-input_modal, Ends-info_dialog,
  Ends-pick_candidate,
)
