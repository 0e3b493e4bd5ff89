-- ===== src/Client/Js.antt =====
-- An async function of app/static/app.js: it returns, throws, or waits for ever, and acts on the page.
use ikuzo_neko_pay.Prelude.{
  ◌+◌, ◌-◌, String, Bool, true, false, ◌≡◌, refl, Option, none, some, List, ◌∷◌, if◌then◌else◌,
}
use ikuzo_neko_pay.Client.Page.{
  Page, Env, Event, alerted, called, confirmed, opened, reloaded, went_home, Notice, Question,
  Dialog, Gesture, Request, Answer, Reply, reply, failed, pending, Field,
}

pub data Outcome (A : Type 0) : Type 0 where
  done : A → Outcome A
  thrown : Outcome A
  waiting : Outcome A

abbrev pub Js : Type 0 → Type 0
Js A = Page → Outcome A × Page

abbrev pub Done : Type 0
Done = Unit {0}

abbrev pub pure : {A : Type 0} → A → Js A
pure a p = (done a, p)

abbrev pub throw : {A : Type 0} → Js A
throw p = (thrown, p)

abbrev pub continue : {A B : Type 0} → Outcome A → (A → Js B) → Js B
continue (done a) f p = f a p
continue thrown f p = (thrown, p)
continue waiting f p = (waiting, p)

infixl 5 ◌>>=◌ ◌>>◌
unfoldable pub ◌>>=◌ : {A B : Type 0} → Js A → (A → Js B) → Js B
◌>>=◌ m f p = let (r, p') = m p in continue r f p'

abbrev pub ◌>>◌ : {A B : Type 0} → Js A → Js B → Js B
m >> n = m >>= λ _. n

abbrev pub gets : {A : Type 0} → (Page → A) → Js A
gets f p = (done (f p), p)

abbrev pub modify : (Page → Page) → Js Done
modify f p = (done tt, f p)

abbrev pub log : Event → Page → Page
log ev p = record p { trace = ev ∷ p.trace }

unfoldable pub alert : Notice → Js Done
alert n p = (done tt, log (alerted n) p)

-- `location.reload()`, and `location.href = "/dashboard"`
unfoldable pub reload : Js Done
reload p = (done tt, log reloaded p)

unfoldable pub go_home : Js Done
go_home p = (done tt, log went_home p)

abbrev value_of : Option String → Js String
value_of none = throw
value_of (some s) = pure s

-- `document.getElementById(id).value`: a missing element throws.
unfoldable pub val : Field → Js String
val f p = value_of (p.field f) p

abbrev of_answer : Answer → Outcome Reply
of_answer (reply r) = done r
of_answer failed = thrown
of_answer pending = waiting

-- `await fetch(...)`
unfoldable pub fetch : Env → Request → Js Reply
fetch e req p = let a = e.answer p req in (of_answer a, log (called req a) p)

unfoldable pub confirm : Env → Question → Js Bool
confirm e q p = let b = e.choose p q in (done b, log (confirmed q b) p)

abbrev pub push_overlay : Page → Page
push_overlay p = record p { overlays = p.overlays + 1 }

abbrev pub pop_overlay : Page → Page
pop_overlay p = record p { overlays = p.overlays - 1 }

abbrev pub close_dialog : {A : Type 0} → Option A → Js A
close_dialog none p = (waiting, p)
close_dialog (some a) p = (done a, pop_overlay p)

-- The promise of a dialog: the overlay stays until a gesture resolves it.
unfoldable pub open_dialog : {A : Type 0} → Env → Dialog → (List Gesture → Option A) → Js A
open_dialog e d resolve p =
    let shown = log (opened d) (push_overlay p) in close_dialog (resolve (e.gestures shown d)) shown

abbrev pub ended : {A : Type 0} → Outcome A → Js Done → Js A
ended (done a) f p = let (r, p') = f p in continue r (λ _. pure a) p'
ended thrown f p = let (r, p') = f p in continue r (λ _. throw) p'
ended waiting f p = (waiting, p)

-- `try { m } finally { f }`
unfoldable pub try_finally : {A : Type 0} → Js A → Js Done → Js A
try_finally m f p = let (r, p') = m p in ended r f p'

-- A property of both branches of a test.
pub if_both :
    {A : Type 0} (P : Outcome A × Page → Type 0) (b : Bool) (m n : Js A) (p : Page)
    → (b ≡ true → P (m p))
    → (b ≡ false → P (n p))
    → P ((if b then m else n) p)
if_both P true m n p h k = h refl
if_both P false m n p h k = k refl

-- A property of what follows the reading of a field.
pub val_cases :
    {A : Type 0} (P : Outcome A × Page → Type 0) (f : Field) (k : String → Js A) (p : Page)
    → P (thrown, p)
    → ((s : String) → P (k s p))
    → P ((val f >>= k) p)
unfolding val ◌>>=◌
val_cases {A} P f k p h ks = by_value (p.field f)
  where
    by_value : (o : Option String) → P ((value_of o >>= k) p)
    by_value none = h
    by_value (some s) = ks s
