-- ===== src/Client/Settings.antt =====
-- The settings handlers of app/static/app.js: setRate, saveAntiAddiction, toggleAutoAttribute,
-- syncNow, setSyncSince and clearSyncSince.
use ikuzo_neko_pay.Prelude.{
  String, Bool, false, not, ◌||◌, Option, none, some, [], ◌∷◌, if◌then◌else◌, is_empty,
}
use ikuzo_neko_pay.Client.Number.{Number, nan, of_ℕ, or_else, num_le}
use ikuzo_neko_pay.Client.Page.{
  Env, Page, anti_limit, rate_input, sync_since, Toggle, aa_toggle, anti_toggle, null, bool, number,
  text, Payload, rate, anti_addiction_setting, auto_attribute_setting, sync_run, sync_since_setting,
  enter_rate, rate_updated, sync_result, sync_since_set, sync_since_cleared,
}
use ikuzo_neko_pay.Client.Js.{Js, Done, pure, gets, modify, alert, reload, val, ◌>>=◌, ◌>>◌}
use ikuzo_neko_pay.Client.Api.{nk_post}

-- `alert(...); NK.reload();` behind `if (r)`.
unfoldable pub announce : (Payload → Js Done) → Option Payload → Js Done
unfolding ◌>>=◌
announce tell none = pure tt
announce tell (some d) = do tell d; reload

unfoldable pub set_rate : Env → Js Done
unfolding announce ◌>>=◌
set_rate e = do
  typed ← val rate_input
  if is_empty typed || num_le (e.to_number typed) (of_ℕ 0) then alert enter_rate else do
    r ← nk_post e rate (("rate", text typed) ∷ [])
    announce (λ d. alert (rate_updated d.rate)) r

abbrev pub set_checked : Toggle → Bool → Page → Page
set_checked aa_toggle b p = record p {
  checked = λ t. elim t [ aa_toggle ↦ b | anti_toggle ↦ p.checked anti_toggle ];
}
set_checked anti_toggle b p = record p {
  checked = λ t. elim t [ aa_toggle ↦ p.checked aa_toggle | anti_toggle ↦ b ];
}

-- `document.getElementById("anti_limit").value = s`
abbrev pub set_limit_field : String → Page → Page
set_limit_field s p = record p {
  field = λ f. elim f [ anti_limit ↦ some s | other ↦ p.field other ];
}

abbrev pub flag_of : Option Bool → Bool
flag_of none = false
flag_of (some b) = b

abbrev pub limit_of : Option Number → Number
limit_of none = nan
limit_of (some n) = n

abbrev pub store_anti : Env → Payload → Page → Page
store_anti e d p = set_limit_field (e.to_text (limit_of d.daily_spend_limit)) (record p {
  anti_addiction = flag_of d.anti_addiction;
  daily_limit = limit_of d.daily_spend_limit;
})

unfoldable pub settle_anti : Env → Bool → Option Payload → Js Done
settle_anti e enabled none = modify (set_checked anti_toggle (not enabled))
settle_anti e enabled (some d) = modify (store_anti e d)

unfoldable pub save_anti_addiction : Env → Js Done
unfolding settle_anti ◌>>=◌
save_anti_addiction e = do
  enabled ← gets (λ p. p.checked anti_toggle)
  typed ← val anti_limit
  r ← nk_post e anti_addiction_setting (
      ("enabled", bool enabled)
      ∷ ("daily_limit", number (or_else (e.to_number typed) (of_ℕ 30)))
      ∷ [])
  settle_anti e enabled r

unfoldable pub settle_auto : Bool → Option Payload → Js Done
settle_auto enabled none = modify (set_checked aa_toggle (not enabled))
settle_auto enabled (some d) = modify (λ p. record p { auto_attribute = enabled })

unfoldable pub toggle_auto_attribute : Env → Js Done
unfolding settle_auto ◌>>=◌
toggle_auto_attribute e = do
  enabled ← gets (λ p. p.checked aa_toggle)
  r ← nk_post e auto_attribute_setting (("enabled", bool enabled) ∷ [])
  settle_auto enabled r

unfoldable pub sync_now : Env → Js Done
unfolding announce ◌>>=◌
sync_now e = do
  r ← nk_post e sync_run []
  announce (λ d. alert (sync_result d.status d.rows_inserted)) r

unfoldable pub set_sync_since : Env → Js Done
unfolding announce ◌>>=◌
set_sync_since e = do
  since ← val sync_since
  r ← nk_post e sync_since_setting (("since", text since) ∷ [])
  announce (λ d. alert (if is_empty since then sync_since_cleared else sync_since_set d.since)) r

unfoldable pub clear_sync_since : Env → Js Done
unfolding announce ◌>>=◌
clear_sync_since e = do
  r ← nk_post e sync_since_setting (("since", null) ∷ [])
  announce (λ _. alert sync_since_cleared) r
