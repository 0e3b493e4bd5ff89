-- ===== src/Client/Play.antt =====
-- The play and transfer forms of app/static/app.js: antiAddictionOk, doPlay and doTransfer.
use ikuzo_neko_pay.Prelude.{String, Bool, true, not, [], ◌∷◌, if◌then◌else◌, is_empty}
use ikuzo_neko_pay.Client.Number.{Number, of_ℕ, or_else, num_le, strict_eq, num_add}
use ikuzo_neko_pay.Client.Page.{
  Env, Page, pl_member, pl_points, pl_note, pl_time, tr_from, tr_to, tr_points, Json, null, number,
  text, enter_points, to_self, plays, transfers, self_attribute, over_limit, Question,
}
use ikuzo_neko_pay.Client.Js.{Js, Done, pure, gets, alert, confirm, val, ◌>>=◌}
use ikuzo_neko_pay.Client.Dialogs.{Choice, chosen, manual, cancel}
use ikuzo_neko_pay.Client.Api.{nk_post, reload_on_success}
use ikuzo_neko_pay.Client.Attribution.{auto_attribute_flow}
use ikuzo_neko_pay.Client.Topup.{not_positive, time_of}

-- `(window.TODAY_SPENT || 0) + points`
unfoldable pub spent_after : Page → Number → Number
unfolding num_add
spent_after p points = num_add (or_else p.today_spent (of_ℕ 0)) points

-- Whether `antiAddictionOk` returns true with no question.
unfoldable pub within_limit : Page → Number → Number → Bool
unfolding spent_after
within_limit p member points =
    if not p.anti_addiction
    then true
    else if not (strict_eq member p.member_id)
    then true
    else num_le (spent_after p points) p.daily_limit

abbrev pub limit_question : Page → Number → Question
limit_question p points =
    over_limit (or_else p.today_spent (of_ℕ 0)) points (spent_after p points) p.daily_limit

unfoldable pub anti_addiction_ok : Env → Number → Number → Js Bool
unfolding within_limit ◌>>=◌
anti_addiction_ok e member points = do
  p ← gets (λ p. p)
  if within_limit p member points then pure true else confirm e (limit_question p points)

-- `val("pl_note") || null`
abbrev note_of : String → Json
note_of s = if is_empty s then null else text s

unfoldable pub send_play : Env → Number → Number → String → Choice → Js Done
unfolding ◌>>=◌
send_play e member points note cancel = pure tt
send_play e member points note (chosen txn) = do
  r ← nk_post e (self_attribute txn) []
  reload_on_success r
send_play e member points note manual = do
  time ← gets (λ p. time_of (p.field pl_time))
  r ←
      nk_post e plays
        (("member_id", number member) ∷ ("points", number points) ∷ ("note", note_of note) ∷ time)
  reload_on_success r

-- `doPlay` from its call of `autoAttributeFlow` on.
unfoldable pub attributed_play : Env → Number → Number → String → Js Done
unfolding send_play ◌>>=◌
attributed_play e member points note = do
  is_self ← gets (λ p. strict_eq member p.member_id)
  choice ← auto_attribute_flow e "pay" points is_self
  send_play e member points note choice

-- `doPlay` from its first `if` on.
unfoldable pub play : Env → Number → Number → String → Js Done
unfolding anti_addiction_ok ◌>>=◌
play e member points note = if not_positive points then alert enter_points else do
  allowed ← anti_addiction_ok e member points
  if not allowed then pure tt else attributed_play e member points note

unfoldable pub do_play : Env → Js Done
unfolding play ◌>>=◌
do_play e = do
  member ← val pl_member
  points ← val pl_points
  note ← val pl_note
  play e (e.to_number member) (e.to_number points) note

unfoldable pub do_transfer : Env → Js Done
unfolding ◌>>=◌
do_transfer e = do
  from_text ← val tr_from
  to_text ← val tr_to
  let from = e.to_number from_text
  let to = e.to_number to_text
  if strict_eq from to then alert to_self else do
    points ← val tr_points
    r ← nk_post e transfers (
        ("from_member_id", number from)
        ∷ ("to_member_id", number to)
        ∷ ("points", number (e.to_number points))
        ∷ [])
    reload_on_success r
