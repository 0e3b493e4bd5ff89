-- ===== src/Client/Kept/Records.antt =====
-- The dialogs that work on a ledger record keep the page: supplementAttribute and startEdit.
use ikuzo_neko_pay.Prelude.{
  ℕ, suc, ◌+◌, String, ◌≤◌, ◌≡◌, refl, ◌∙◌, Bool, true, false, Option, none, some, List, [], ◌∷◌,
  arith, Option-cases, str_eq_refl, inl, inr, if◌then◌else◌,
}
use ikuzo_neko_pay.Client.Number.{Number, of_ℕ}
use ikuzo_neko_pay.Client.Page.{
  Page, Env, Candidate, Payload, Gesture, number, bool, match, pick, opened, edit_record, press_ok,
  press_cancel, backdrop, ledger_edit,
}
use ikuzo_neko_pay.Client.Js.{
  Outcome, Js, Done, done, thrown, waiting, continue, close_dialog, log, push_overlay, ◌>>=◌, alert,
  fetch, open_dialog, confirm, reload,
}
use ikuzo_neko_pay.Client.Dialogs.{Choice, chosen, manual, cancel, resolve_pick, pick_candidate}
use ikuzo_neko_pay.Client.Api.{nk_post, reload_on_success}
use ikuzo_neko_pay.Client.Attribution.{
  supplement_attribute, after_query, offer_links, link_record, candidates_of, match_body, name_of,
}
use ikuzo_neko_pay.Client.Records.{
  EditForm, start_edit, edit_loop, edit_body, write_form, close_and_reload, after_save,
}
use ikuzo_neko_pay.Client.Trace.{sound, writes, last_call_ok, has_id, names, name_at, links}
use ikuzo_neko_pay.Client.Kept.Flow.{resolve_pick-has_id}
use ikuzo_neko_pay.Client.Kept.{Kept, Restored, Restored-trans}

-- The number that stands for a candidate's id names the candidate.
names-of_ℕ : (n : ℕ) (cs : List Candidate) → has_id n cs ≡ true → names (of_ℕ n) cs ≡ true
names-of_ℕ n [] h = h
names-of_ℕ n (c ∷ cs) h = ground (arith, names-of_ℕ n cs)

name_at-of_ℕ : (n : ℕ) (cs : List Candidate) → name_at (of_ℕ n) cs ≡ name_of n cs
unfolding name_of
name_at-of_ℕ n [] = refl
name_at-of_ℕ n (c ∷ cs) = ground (arith, name_at-of_ℕ n cs)

-- The body that link_record sends for a candidate that was shown.
links-chosen :
    (n : ℕ) (cs : List Candidate) (b : Bool)
    → has_id n cs ≡ true
    → links cs (name_of n cs) b (("real_txn_id", number (of_ℕ n)) ∷ ("overwrite_note", bool b) ∷ [])
      ≡ true
links-chosen n cs true h =
    rw (names-of_ℕ n cs h, name_at-of_ℕ n cs, str_eq_refl (name_of n cs)) refl
links-chosen n cs false h =
    rw (names-of_ℕ n cs h, name_at-of_ℕ n cs, str_eq_refl (name_of n cs)) refl

-- Linking right after the candidates `cs` were shown on top of page p.
close-link-Kept :
    (e : Env) (id : ℕ) (cs : List Candidate) (o : Option Choice) (p : Page)
    → ((n : ℕ) → o ≡ some (chosen n) → has_id n cs ≡ true)
    → let (r, q) = close_dialog o (log (opened (pick cs)) (push_overlay p)) in
      Kept 1 p (continue r (link_record e id cs) q)
unfolding link_record nk_post fetch alert confirm reload_on_success ◌>>=◌ sound writes
close-link-Kept e id cs none p h = ground arith
close-link-Kept e id cs (some manual) p h = ground arith
close-link-Kept e id cs (some cancel) p h = ground arith
close-link-Kept e id cs (some (chosen n)) p h =
    ground (arith, links-chosen n cs true (h n refl), links-chosen n cs false (h n refl))

offer_links-Kept :
    (e : Env) (id : ℕ) (cs : List Candidate) (p : Page) → Kept 1 p (offer_links e id cs p)
unfolding offer_links pick_candidate open_dialog alert ◌>>=◌ sound writes
offer_links-Kept e id [] p = ground arith
offer_links-Kept e id (c ∷ cs) p =
    let shown = log (opened (pick (c ∷ cs))) (push_overlay p) in
    close-link-Kept e id (c ∷ cs) (resolve_pick (c ∷ cs) (e.gestures shown (pick (c ∷ cs)))) p
      (resolve_pick-has_id (c ∷ cs) (e.gestures shown (pick (c ∷ cs))))

after_query-Kept :
    (e : Env) (id : ℕ) (o : Option Payload) (p : Page) → Kept 1 p (after_query e id o p)
unfolding after_query candidates_of ◌>>=◌ sound writes
after_query-Kept e id none p = ground arith
after_query-Kept e id (some d) p = elim (Option-cases d.candidates) [
  | inl missing ↦ rw missing (ground arith)
  | inr (cs, found) ↦ rw found (offer_links-Kept e id cs p)
]

match-Kept :
    (e : Env) (kind : String) (points : Number) (p : Page)
    → Kept 1 p (nk_post e match (match_body kind points) p)
unfolding nk_post fetch alert ◌>>=◌ sound writes
match-Kept e kind points p = ground arith

-- One action after another, with their writes added up.
pub then-Kept :
    {A B : Type 0} {j k : ℕ} (f : A → Js B) (r : Outcome A × Page) (p : Page)
    → Kept j p r
    → ((a : A) (q : Page) → Kept k q (f a q))
    → Kept (j + k) p (continue r.0 f r.1)
then-Kept f (done a, q) p h step = record {
  sounds = λ s. (step a q).sounds (h.sounds s);
  overlays = Restored-trans (f a q).0 p q (f a q).1 h.overlays (step a q).overlays;
  few_writes = omega (arith, h.few_writes, (step a q).few_writes);
}
then-Kept f (thrown, q) p h step = record {
  sounds = h.sounds;
  overlays = h.overlays;
  few_writes = omega (arith, h.few_writes);
}
then-Kept f (waiting, q) p h step = record {
  sounds = h.sounds;
  overlays = h.overlays;
  few_writes = omega (arith, h.few_writes);
}

pub supplement_attribute-Kept :
    (e : Env) (id : ℕ) (is_topup : Bool) (points : Number) (p : Page)
    → Kept 2 p (supplement_attribute e id is_topup points p)
unfolding supplement_attribute ◌>>=◌
supplement_attribute-Kept e id is_topup points p =
    then-Kept (after_query e id) _ p (match-Kept e (if is_topup then "topup" else "pay") points p)
      (after_query-Kept e id)

-- How often the user presses the save button.
abbrev pub saves : List Gesture → ℕ
saves [] = 0
saves (press_ok ∷ gs) = suc (saves gs)
saves (_ ∷ gs) = saves gs

-- With the edit dialog open on top of `below` other overlays.
abbrev ClosedOver : ℕ → Outcome Done → Page → Type 0
ClosedOver n (done a) q = q.overlays ≡ n
ClosedOver n thrown q = q.overlays ≡ n
ClosedOver n waiting q = q.overlays ≡ n + 1

record Edits (below k : ℕ) (p : Page) (r : Outcome Done × Page) : Type 0 where
  sounds : sound p.trace ≡ true → sound r.1.trace ≡ true
  overlays : ClosedOver below r.0 r.1
  few_writes : writes r.1.trace ≤ writes p.trace + k

abbrev Succeeds : Outcome (Option Payload) → Page → Type 0
Succeeds (done (some d)) q = last_call_ok q.trace ≡ true
Succeeds _ q = Unit

record Posts (p : Page) (r : Outcome (Option Payload) × Page) : Type 0 where
  sounds : sound p.trace ≡ true → sound r.1.trace ≡ true
  overlays : r.1.overlays ≡ p.overlays
  one_write : writes r.1.trace ≡ writes p.trace + 1
  succeeds : Succeeds r.0 r.1

edit-Posts :
    (e : Env) (f : EditForm) (p : Page) → Posts p (nk_post e (ledger_edit f.id) (edit_body e f) p)
unfolding nk_post fetch alert ◌>>=◌ sound writes
edit-Posts e f p = ground arith

save-Edits :
    (n k : ℕ) (rest : Js Done) (r : Outcome (Option Payload)) (p q : Page)
    → p.overlays ≡ n + 1
    → Posts p (r, q)
    → Edits n k q (rest q)
    → Edits n (suc k) p (after_save r rest q)
unfolding close_and_reload reload ◌>>=◌ sound writes
save-Edits n k rest (done (some d)) p q o h step = ground arith
save-Edits n k rest (done none) p q o h step = record {
  sounds = λ s. step.sounds (h.sounds s);
  overlays = step.overlays;
  few_writes = omega (arith, step.few_writes, h.one_write);
}
save-Edits n k rest thrown p q o h step = record {
  sounds = λ s. step.sounds (h.sounds s);
  overlays = step.overlays;
  few_writes = omega (arith, step.few_writes, h.one_write);
}
save-Edits n k rest waiting p q o h step = record {
  sounds = λ s. step.sounds (h.sounds s);
  overlays = step.overlays;
  few_writes = omega (arith, step.few_writes, h.one_write);
}

edit_loop-Edits :
    (e : Env) (n : ℕ) (f : EditForm) (gs : List Gesture) (p : Page)
    → p.overlays ≡ n + 1
    → Edits n (saves gs) p (edit_loop e f gs p)
unfolding edit_loop
edit_loop-Edits e n f [] p o = record { sounds = λ h. h; overlays = o; few_writes = omega arith }
edit_loop-Edits e n f (press_cancel ∷ gs) p o = record {
  sounds = λ h. h;
  overlays = omega arith;
  few_writes = omega arith;
}
edit_loop-Edits e n f (backdrop ∷ gs) p o = record {
  sounds = λ h. h;
  overlays = omega arith;
  few_writes = omega arith;
}
edit_loop-Edits e n f (press_ok ∷ gs) p o =
    let (r, q) = nk_post e (ledger_edit f.id) (edit_body e f) p in
    let h = edit-Posts e f p in
    save-Edits n (saves gs) (edit_loop e f gs) r p q o h
      (edit_loop-Edits e n f gs q (h.overlays ∙ o))
edit_loop-Edits e n f (g ∷ gs) p o = edit_loop-Edits e n (write_form g f) gs p o

ClosedOver-Restored : (r : Outcome Done) (p q : Page) → ClosedOver p.overlays r q → Restored r p q
ClosedOver-Restored (done a) p q h = h
ClosedOver-Restored thrown p q h = h
ClosedOver-Restored waiting p q h = (omega arith, omega arith)

pub start_edit-Kept :
    (e : Env) (f : EditForm) (p : Page)
    → let shown = log (opened edit_record) (push_overlay p) in
      Kept (saves (e.gestures shown edit_record)) p (start_edit e f p)
unfolding start_edit sound writes
start_edit-Kept e f p =
    let shown = log (opened edit_record) (push_overlay p) in
    let gs = e.gestures shown edit_record in
    let h = edit_loop-Edits e p.overlays f gs shown refl in
    record {
      sounds = h.sounds;
      overlays = ClosedOver-Restored (start_edit e f p).0 p (start_edit e f p).1 h.overlays;
      few_writes = omega (arith, h.few_writes);
    }
