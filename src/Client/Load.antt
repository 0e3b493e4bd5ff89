-- ===== src/Client/Load.antt =====
-- What app/static/app.js does when the script is loaded, at its end: the preview of the top-up form,
-- and the current time in the optional time fields.
pub mod Fields
mod Examples
use ikuzo_neko_pay.Prelude.{
  String, Option, none, some, List, [], ◌∷◌, is_empty, if◌then◌else◌, is_some, Bool,
}
use ikuzo_neko_pay.Client.Page.{Env, Page, Field, tu_money, pl_time, tu_time}
use ikuzo_neko_pay.Client.Js.{Js, Done, pure, gets, modify, ◌>>=◌, ◌>>◌}
use ikuzo_neko_pay.Client.Time.{LocalDate, now_local_value}
use ikuzo_neko_pay.Client.Topup.{update_topup_preview}

-- `if (document.getElementById("tu_money")) updateTopupPreview();`
unfoldable pub preview_on_load : Env → Js Done
unfolding ◌>>=◌
preview_on_load e = do
  present ← gets (λ p. is_some (p.field tu_money))
  if present then update_topup_preview e else pure tt

-- `if (el && !el.value) el.value = now`
abbrev pub default_value : String → Option String → Option String
default_value now none = none
default_value now (some s) = if is_empty s then some now else some s

-- The loop over the two time fields.
abbrev pub default_times : String → Page → Page
default_times now p = record p {
  field = λ f. elim f [
    | pl_time ↦ default_value now (p.field pl_time)
    | tu_time ↦ default_value now (p.field tu_time)
    | other ↦ p.field other
  ];
}

unfoldable pub page_load : Env → LocalDate → Js Done
unfolding preview_on_load ◌>>=◌
page_load e d = preview_on_load e >> modify (default_times (now_local_value d))
