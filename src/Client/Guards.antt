-- ===== src/Client/Guards.antt =====
-- When a play of app/static/app.js stays off the network, and what the attribution flow may ask.
use ikuzo_neko_pay.Prelude.{
  ℕ, ◌+◌, ◌≡◌, refl, String, true, false, Option, none, some, List, [], ◌∷◌, arith,
}
use ikuzo_neko_pay.Prelude.Int.{ℤ, ◌+ℤ◌, ◌≤ℤ◌}
use ikuzo_neko_pay.Client.Number.{Number, num, num_add, strict_eq}
use ikuzo_neko_pay.Client.Page.{
  Page, Env, Event, called, Url, match, self_attribute, on_behalf, opened,
}
use ikuzo_neko_pay.Client.Js.{
  done, continue, log, push_overlay, ◌>>=◌, alert, confirm, fetch, open_dialog, close_dialog,
}
use ikuzo_neko_pay.Client.Dialogs.{Choice, chosen, manual, cancel, info_dialog, resolve_info}
use ikuzo_neko_pay.Client.Api.{nk_post, reload_on_success}
use ikuzo_neko_pay.Client.Attribution.{auto_attribute_flow}
use ikuzo_neko_pay.Client.Play.{
  play, anti_addiction_ok, within_limit, spent_after, limit_question, attributed_play, send_play,
}
use ikuzo_neko_pay.Client.Kept.Flow.{resolve_info-ne-chosen}

abbrev is_call : Event → ℕ
is_call (called req a) = 1
is_call _ = 0

-- The number of requests.
unfoldable pub calls : List Event → ℕ
calls [] = 0
calls (ev ∷ t) = is_call ev + calls t

abbrev of_flow : Url → ℕ
of_flow match = 1
of_flow (self_attribute n) = 1
of_flow _ = 0

abbrev is_attribution : Event → ℕ
is_attribution (called req a) = of_flow req.url
is_attribution _ = 0

-- The number of requests that look for, or take, a real transaction.
unfoldable pub attributions : List Event → ℕ
attributions [] = 0
attributions (ev ∷ t) = is_attribution ev + attributions t

-- Over the limit, in whole hundredths of a point.
over-within_limit :
    (p : Page) (m t l x : ℤ)
    → p.anti_addiction ≡ true
    → p.member_id ≡ num m
    → p.today_spent ≡ num t
    → p.daily_limit ≡ num l
    → ¬ (t +ℤ x ≤ℤ l)
    → within_limit p (num m) (num x) ≡ false
unfolding within_limit spent_after num_add ◌+ℤ◌
over-within_limit p m t l x on me spent limit over = ground arith

-- A member whose anti-addiction setting is on, whose own play of x would bring the day's points t
-- above the limit l, and who answers no to the question, sends no request at all.
pub calls-play_declined :
    (e : Env) (p : Page) (m t l x : ℤ) (note : String)
    → p.anti_addiction ≡ true
    → p.member_id ≡ num m
    → p.today_spent ≡ num t
    → p.daily_limit ≡ num l
    → ¬ (t +ℤ x ≤ℤ l)
    → e.choose p (limit_question p (num x)) ≡ false
    → calls (play e (num m) (num x) note p).1.trace ≡ calls p.trace
unfolding play anti_addiction_ok confirm alert ◌>>=◌ calls
calls-play_declined e p m t l x note on me spent limit over declined =
    ground (arith, over-within_limit p m t l x on me spent limit over)

-- Sending a play after the dialog `on_behalf`, by what that dialog resolves to.
attributions-send :
    (e : Env) (member points : Number) (note : String) (o : Option Choice) (p : Page)
    → ((n : ℕ) → ¬ (o ≡ some (chosen n)))
    → let (r, q) = close_dialog o (log (opened on_behalf) (push_overlay p)) in
      attributions (continue r (send_play e member points note) q).1.trace ≡ attributions p.trace
unfolding send_play nk_post fetch alert reload_on_success ◌>>=◌ attributions
attributions-send e member points note none p h = ground arith
attributions-send e member points note (some manual) p h = ground arith
attributions-send e member points note (some cancel) p h = ground arith
attributions-send e member points note (some (chosen n)) p h = absurd (h n refl)

attributions-attributed_play :
    (e : Env) (member points : Number) (note : String) (p : Page)
    → strict_eq member p.member_id ≡ false
    → attributions (attributed_play e member points note p).1.trace ≡ attributions p.trace
unfolding attributed_play auto_attribute_flow info_dialog open_dialog ◌>>=◌
attributions-attributed_play e member points note p other = simp other (
    let shown = log (opened on_behalf) (push_overlay p) in
    attributions-send e member points note (resolve_info (e.gestures shown on_behalf)) p
      (λ n h. resolve_info-ne-chosen (e.gestures shown on_behalf) h))

other-within_limit :
    (p : Page) (member points : Number)
    → strict_eq member p.member_id ≡ false
    → within_limit p member points ≡ true
unfolding within_limit
other-within_limit p member points other = ground arith

-- A play recorded for another member neither looks for a real transaction nor takes one, and asks
-- nothing about the daily limit of the member who records it.
pub attributions-play_on_behalf :
    (e : Env) (member points : Number) (note : String) (p : Page)
    → strict_eq member p.member_id ≡ false
    → (attributions (play e member points note p).1.trace ≡ attributions p.trace)
      × ((anti_addiction_ok e member points p) ≡ (done true, p))
unfolding play anti_addiction_ok alert ◌>>=◌ attributions
attributions-play_on_behalf e member points note p other = (
  ground (
    arith,
    other-within_limit p member points other,
    attributions-attributed_play e member points note p other,
  ),
  ground (arith, other-within_limit p member points other),
)
