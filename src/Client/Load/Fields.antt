-- ===== src/Client/Load/Fields.antt =====
-- What the loading of the script leaves in the fields of the page.
use ikuzo_neko_pay.Prelude.{◌≡◌, ◌≢◌, ap, sym, ◌∙◌, refl, String, Option, none, some, arith}
use ikuzo_neko_pay.Client.Page.{Env, Page, Field, tu_time, pl_time}
use ikuzo_neko_pay.Client.Js.{Outcome, done, thrown, waiting, continue, modify, val, ◌>>=◌}
use ikuzo_neko_pay.Client.Time.{LocalDate, now_local_value}
use ikuzo_neko_pay.Client.Time.Local.{IsLocal, read_local, read_local-now_local_value}
use ikuzo_neko_pay.Client.Topup.{update_topup_preview}
use ikuzo_neko_pay.Client.Load.{page_load, preview_on_load, default_value, default_times}

default_value-kept : (now : String) (o : Option String) → o ≢ some "" → default_value now o ≡ o
default_value-kept now none h = refl
default_value-kept now (some String.[]) h = absurd (h refl)
default_value-kept now (some (String.◌∷◌ c s)) h = refl

default_times-kept :
    (now : String) (p : Page) (f : Field)
    → p.field f ≢ some ""
    → (default_times now p).field f ≡ p.field f
default_times-kept now p pl_time h = default_value-kept now (p.field pl_time) h
default_times-kept now p tu_time h = default_value-kept now (p.field tu_time) h
default_times-kept now p f h = refl

preview_on_load-quiet :
    (e : Env) (p : Page)
    → ((preview_on_load e p).0 ≡ done tt)
      × ((preview_on_load e p).1.field ≡ p.field)
      × ((preview_on_load e p).1.trace ≡ p.trace)
      × ((preview_on_load e p).1.overlays ≡ p.overlays)
unfolding preview_on_load update_topup_preview val ◌>>=◌
preview_on_load-quiet e p = ground arith

-- What a page is after the script was loaded at the time d.
pub record Loads (d : LocalDate) (p : Page) (r : Outcome (Unit {0}) × Page) : Type 0 where
  pub returns : r.0 ≡ done tt
  pub quiet : (r.1.trace ≡ p.trace) × (r.1.overlays ≡ p.overlays)
  pub kept : (f : Field) → p.field f ≢ some "" → r.1.field f ≡ p.field f
  pub play_time :
      p.field pl_time ≡ some ""
      → (s : String) × (r.1.field pl_time ≡ some s) × (read_local s ≡ some d)
  pub topup_time :
      p.field tu_time ≡ some ""
      → (s : String) × (r.1.field tu_time ≡ some s) × (read_local s ≡ some d)

-- The script loads without a fault on every page and at every time; what the user had typed stays; an
-- empty time field then reads as the time of the loading; nothing is sent or shown.
pub page_load-Loads : (e : Env) (d : LocalDate) (p : Page) → IsLocal d → Loads d p (page_load e d p)
unfolding page_load ◌>>=◌
page_load-Loads e d p v = by_preview (preview_on_load e p) (preview_on_load-quiet e p)
  where
    by_preview :
        (m : Outcome (Unit {0}) × Page)
        → (m.0 ≡ done tt)
          × (m.1.field ≡ p.field)
          × (m.1.trace ≡ p.trace)
          × (m.1.overlays ≡ p.overlays)
        → Loads d p (continue m.0 (λ _. modify (default_times (now_local_value d))) m.1)
    by_preview (done a, q) h = record {
      returns = refl;
      quiet = (h.2, h.3);
      kept = λ f typed.
          default_times-kept (now_local_value d) q f (λ z. typed (sym (ap (λ g. g f) h.1) ∙ z))
          ∙ ap (λ g. g f) h.1;
      play_time = λ z. (
        now_local_value d,
        ap (default_value (now_local_value d)) (ap (λ g. g pl_time) h.1 ∙ z),
        read_local-now_local_value d v,
      );
      topup_time = λ z. (
        now_local_value d,
        ap (default_value (now_local_value d)) (ap (λ g. g tu_time) h.1 ∙ z),
        read_local-now_local_value d v,
      );
    }
    by_preview (thrown, q) h = absurd (cc (h.0))
    by_preview (waiting, q) h = absurd (cc (h.0))
