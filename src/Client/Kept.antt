-- ===== src/Client/Kept.antt =====
-- What an action of the page leaves: sound events, the overlays that it found, few writes.
pub mod Flow
pub mod Handlers
pub mod Forms
pub mod Records
use ikuzo_neko_pay.Prelude.{ℕ, ◌+◌, ◌≤◌, ◌≡◌, true, List, arith}
use ikuzo_neko_pay.Client.Page.{Page, Event}
use ikuzo_neko_pay.Client.Js.{Outcome, done, thrown, waiting}
use ikuzo_neko_pay.Client.Dialogs.{Choice, chosen, manual, cancel}
use ikuzo_neko_pay.Client.Trace.{sound, writes, asked, offered}

-- An action that ends, by a throw too, has closed what it opened; one that waits may show one
-- dialog or the loading sign.
abbrev pub Restored : {A : Type 0} → Outcome A → Page → Page → Type 0
Restored (done a) p p' = p'.overlays ≡ p.overlays
Restored thrown p p' = p'.overlays ≡ p.overlays
Restored waiting p p' = (p.overlays ≤ p'.overlays) × (p'.overlays ≤ p.overlays + 1)

pub Restored-trans :
    {A : Type 0} (o : Outcome A) (p q r : Page)
    → q.overlays ≡ p.overlays
    → Restored o q r
    → Restored o p r
Restored-trans (done a) p q r h k = omega arith
Restored-trans thrown p q r h k = omega arith
Restored-trans waiting p q r h k = omega (arith, k.0, k.1)

-- From page p, with at most k requests.
pub record Kept {A : Type 0} (k : ℕ) (p : Page) (r : Outcome A × Page) : Type 0 where
  pub sounds : sound p.trace ≡ true → sound r.1.trace ≡ true
  pub overlays : Restored r.0 p r.1
  pub few_writes : writes r.1.trace ≤ writes p.trace + k

-- The events just before a decision of the attribution flow.
abbrev pub Consent : Outcome Choice → List Event → Type 0
Consent (done manual) t = asked t ≡ true
Consent (done (chosen n)) t = offered n t ≡ true
Consent _ t = Unit

-- What is kept from a page q is kept from any page p that q keeps.
pub Kept-trans :
    {A : Type 0} {k : ℕ} {p q : Page} {r : Outcome A × Page}
    → Kept k q r
    → (sound p.trace ≡ true → sound q.trace ≡ true)
    → q.overlays ≡ p.overlays
    → writes q.trace ≤ writes p.trace
    → Kept k p r
Kept-trans {p = p} {q = q} {r = r} kept s o w = record {
  sounds = λ h. kept.sounds (s h);
  overlays = Restored-trans r.0 p q r.1 o kept.overlays;
  few_writes = omega (arith, kept.few_writes);
}
