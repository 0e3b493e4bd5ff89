-- ===== src/Client/Kept/Flow.antt =====
-- The attribution flow keeps the page, sends at most one request, and ends in what the user chose in its dialog.
use ikuzo_neko_pay.Prelude.{
  ℕ, zero, suc, ◌≡◌, refl, String, Bool, true, false, Option, none, some, List, [], ◌∷◌, get_elem?,
  arith, Option-cases, not, inl, inr,
}
use ikuzo_neko_pay.Client.Number.{Number}
use ikuzo_neko_pay.Client.Page.{
  Page, Env, Candidate, Dialog, pick, opened, no_match, on_behalf, auto_off, Payload, Gesture,
  press_candidate, press_manual, press_cancel, backdrop,
}
use ikuzo_neko_pay.Client.Js.{
  Outcome, done, thrown, waiting, continue, log, push_overlay, close_dialog, if_both, ◌>>=◌, alert,
  fetch, open_dialog, try_finally,
}
use ikuzo_neko_pay.Client.Dialogs.{
  Choice, chosen, manual, cancel, resolve_info, resolve_pick, info_dialog, pick_candidate,
  show_loading, stop_loading,
}
use ikuzo_neko_pay.Client.Api.{nk_post}
use ikuzo_neko_pay.Client.Attribution.{
  auto_attribute_flow, after_match, query_match, offer, candidates_of,
}
use ikuzo_neko_pay.Client.Trace.{sound, writes, has_id, asked, offered}
use ikuzo_neko_pay.Client.Kept.{Kept, Consent, Restored-trans}

get_elem?-has_id :
    (cs : List Candidate) (i : ℕ) {c : Candidate} → get_elem? cs i ≡ some c → has_id c.id cs ≡ true
get_elem?-has_id [] i h = cc
get_elem?-has_id (x ∷ cs) zero h = ground arith
get_elem?-has_id (x ∷ cs) (suc i) h = ground (arith, get_elem?-has_id cs i h)

-- The dialog resolves to an id only if it shows a candidate with that id.
pub resolve_pick-has_id :
    (cs : List Candidate) (gs : List Gesture) (n : ℕ)
    → resolve_pick cs gs ≡ some (chosen n)
    → has_id n cs ≡ true
unfolding resolve_pick
resolve_pick-has_id cs [] n h = cc
resolve_pick-has_id cs (press_candidate i ∷ gs) n h = elim (Option-cases (get_elem? cs i)) [
  | inl missing ↦ ground (arith, resolve_pick-has_id cs gs n)
  | inr (c, found) ↦ ground (arith, get_elem?-has_id cs i found)
]
resolve_pick-has_id cs (press_manual ∷ gs) n h = cc
resolve_pick-has_id cs (press_cancel ∷ gs) n h = cc
resolve_pick-has_id cs (backdrop ∷ gs) n h = cc
resolve_pick-has_id cs (_ ∷ gs) n h = resolve_pick-has_id cs gs n h

-- `infoDialog` never yields an id.
pub resolve_info-ne-chosen : (gs : List Gesture) {n : ℕ} → ¬ (resolve_info gs ≡ some (chosen n))
unfolding resolve_info
resolve_info-ne-chosen [] h = cc
resolve_info-ne-chosen (press_manual ∷ gs) h = cc
resolve_info-ne-chosen (press_cancel ∷ gs) h = cc
resolve_info-ne-chosen (backdrop ∷ gs) h = cc
resolve_info-ne-chosen (_ ∷ gs) h = resolve_info-ne-chosen gs h

pub record Decides (k : ℕ) (p : Page) (r : Outcome Choice × Page) : Type 0 where
  pub kept : Kept k p r
  pub consent : Consent r.0 r.1.trace

-- A dialog of the flow, on top of page p, by what it resolves to.
close-Decides :
    (k : ℕ) (d : Dialog) (o : Option Choice) (p : Page)
    → asked (opened d ∷ p.trace) ≡ true
    → ((n : ℕ) → o ≡ some (chosen n) → offered n (opened d ∷ p.trace) ≡ true)
    → Decides k p (close_dialog o (log (opened d) (push_overlay p)))
unfolding sound writes
close-Decides k d none p a h = ground arith
close-Decides k d (some manual) p a h = ground arith
close-Decides k d (some cancel) p a h = ground arith
close-Decides k d (some (chosen n)) p a h = ground (arith, h n refl)

pick_candidate-Decides :
    (k : ℕ) (e : Env) (cs : List Candidate) (p : Page) → Decides k p (pick_candidate e cs p)
unfolding pick_candidate open_dialog
pick_candidate-Decides k e cs p =
    let shown = log (opened (pick cs)) (push_overlay p) in
    close-Decides k (pick cs) (resolve_pick cs (e.gestures shown (pick cs))) p refl
      (resolve_pick-has_id cs (e.gestures shown (pick cs)))

info_dialog-Decides :
    (k : ℕ) (e : Env) (d : Dialog) (p : Page)
    → asked (opened d ∷ p.trace) ≡ true
    → Decides k p (info_dialog e d p)
unfolding info_dialog open_dialog
info_dialog-Decides k e d p a =
    let shown = log (opened d) (push_overlay p) in
    close-Decides k d (resolve_info (e.gestures shown d)) p a
      (λ n h. absurd (resolve_info-ne-chosen (e.gestures shown d) h))

offer-Decides : (e : Env) (cs : List Candidate) (p : Page) → Decides 0 p (offer e cs p)
unfolding offer
offer-Decides e [] p = info_dialog-Decides 0 e no_match p refl
offer-Decides e (c ∷ cs) p = pick_candidate-Decides 0 e (c ∷ cs) p

-- The request for candidates takes its loading sign away, also when the request is rejected.
query_match-Kept :
    (e : Env) (kind : String) (points : Number) (p : Page) → Kept 1 p (query_match e kind points p)
unfolding query_match nk_post fetch try_finally show_loading stop_loading alert ◌>>=◌ sound writes
query_match-Kept e kind points p = ground arith

after_match-Decides : (e : Env) (o : Option Payload) (p : Page) → Decides 0 p (after_match e o p)
unfolding after_match candidates_of ◌>>=◌ sound writes
after_match-Decides e none p = ground arith
after_match-Decides e (some d) p = elim (Option-cases d.candidates) [
  | inl missing ↦ rw missing (ground arith)
  | inr (cs, found) ↦ rw found (offer-Decides e cs p)
]

-- A step that keeps the page, and then a decision.
then-Decides :
    (e : Env) (r : Outcome (Option Payload) × Page) (p : Page)
    → Kept 1 p r
    → Decides 1 p (continue r.0 (after_match e) r.1)
then-Decides e (done o, q) p k =
    let d = after_match-Decides e o q in
    record {
      kept = record {
        sounds = λ h. d.kept.sounds (k.sounds h);
        overlays =
            Restored-trans (after_match e o q).0 p q (after_match e o q).1 k.overlays
              d.kept.overlays;
        few_writes = omega (arith, k.few_writes, d.kept.few_writes);
      };
      consent = d.consent;
    }
then-Decides e (thrown, q) p k = record { kept = ground arith; consent = tt }
then-Decides e (waiting, q) p k = record { kept = ground arith; consent = tt }

pub auto_attribute_flow-Decides :
    (e : Env) (kind : String) (points : Number) (is_self : Bool) (p : Page)
    → Decides 1 p (auto_attribute_flow e kind points is_self p)
unfolding auto_attribute_flow ◌>>=◌
auto_attribute_flow-Decides e kind points false p = info_dialog-Decides 1 e on_behalf p refl
auto_attribute_flow-Decides e kind points true p =
    if_both (Decides 1 p) (not p.auto_attribute) (info_dialog e auto_off)
      (query_match e kind points >>= after_match e) p (λ _. info_dialog-Decides 1 e auto_off p refl)
      (λ _. then-Decides e (query_match e kind points p) p (query_match-Kept e kind points p))
