-- ===== src/Client/Topup.antt =====
-- The top-up form of app/static/app.js: topupPoints, updateTopupPreview, timeVal and doTopup.
use ikuzo_neko_pay.Prelude.{
  String, Bool, not, ◌||◌, Option, none, some, List, [], ◌∷◌, if◌then◌else◌, is_empty,
}
use ikuzo_neko_pay.Client.Number.{
  Number, of_ℕ, truthy, or_else, num_le, strict_eq, num_add, num_mul,
}
use ikuzo_neko_pay.Client.Page.{
  Env, Page, tu_member, tu_money, tu_time, Json, number, text, Breakdown, enter_money,
  amount_too_small, topups, self_attribute,
}
use ikuzo_neko_pay.Client.Js.{Js, Done, pure, gets, modify, alert, val, ◌>>=◌}
use ikuzo_neko_pay.Client.Dialogs.{Choice, chosen, manual, cancel}
use ikuzo_neko_pay.Client.Api.{nk_post, reload_on_success}
use ikuzo_neko_pay.Client.Attribution.{auto_attribute_flow}

-- The points of `money` at a rate, a bonus percentage and a minimum for the bonus. `Math.floor(a / b)`,
-- which rounds the quotient to a binary fraction first, is the environment's floor_quotient.
unfoldable pub rated_points : Env → Number → Number → Number → Number → Breakdown
rated_points e rate pct minimum money =
    let base = e.floor_quotient money rate in
    let bonus =
      if num_le minimum money then e.floor_quotient (num_mul base pct) (of_ℕ 100) else of_ℕ 0 in
    record { base = base; bonus = bonus; total = num_add base bonus }

-- `topupPoints(money)`, with the defaults of the globals that are missing or 0.
unfoldable pub topup_points : Env → Page → Number → Breakdown
unfolding rated_points
topup_points e p =
    rated_points e (or_else p.rate (of_ℕ 10)) (or_else p.vip_bonus_pct (of_ℕ 0))
      (or_else p.bonus_min_topup (of_ℕ 300))

-- `updateTopupPreview()`; `preview` is `none` if the page has no such element.
unfoldable pub update_topup_preview : Env → Js Done
unfolding topup_points ◌>>=◌
update_topup_preview e = do
  shown ← gets (λ p. p.preview)
  elim shown [
    | none ↦ pure tt
    | some _ ↦ do
      typed ← val tu_money
      modify (λ p. record p {
        preview = some (topup_points e p (or_else (e.to_number typed) (of_ℕ 0)));
      })
  ]

-- `!x || x <= 0`
abbrev pub not_positive : Number → Bool
not_positive x = not (truthy x) || num_le x (of_ℕ 0)

-- `timeVal(id)`
abbrev pub time_of : Option String → List (String × Json)
time_of none = []
time_of (some s) = if is_empty s then [] else ("occurred_at", text s) ∷ []

unfoldable pub send_topup : Env → Number → Number → Choice → Js Done
unfolding ◌>>=◌
send_topup e member money cancel = pure tt
send_topup e member money (chosen txn) = do
  r ← nk_post e (self_attribute txn) (("money_nt", number money) ∷ [])
  reload_on_success r
send_topup e member money manual = do
  time ← gets (λ p. time_of (p.field tu_time))
  r ← nk_post e topups (("member_id", number member) ∷ ("money_nt", number money) ∷ time)
  reload_on_success r

-- `doTopup` from its call of `autoAttributeFlow` on.
unfoldable pub attributed_topup : Env → Number → Number → Number → Js Done
unfolding send_topup ◌>>=◌
attributed_topup e member money total = do
  is_self ← gets (λ p. strict_eq member p.member_id)
  choice ← auto_attribute_flow e "topup" total is_self
  send_topup e member money choice

unfoldable pub do_topup : Env → Js Done
unfolding topup_points ◌>>=◌
do_topup e = do
  member_text ← val tu_member
  money_text ← val tu_money
  let member = e.to_number member_text
  let money = e.to_number money_text
  if not_positive money then alert enter_money else do
    total ← gets (λ p. (topup_points e p money).total)
    if num_le total (of_ℕ 0) then alert amount_too_small else attributed_topup e member money total
