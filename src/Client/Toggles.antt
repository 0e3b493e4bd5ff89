-- ===== src/Client/Toggles.antt =====
-- Whether a checkbox of app/static/app.js shows the setting that it stands for.
use ikuzo_neko_pay.Prelude.{◌≡◌, not, arith}
use ikuzo_neko_pay.Client.Page.{Page, Env, aa_toggle}
use ikuzo_neko_pay.Client.Js.{Outcome, Done, done, thrown, waiting, ◌>>=◌, alert, fetch}
use ikuzo_neko_pay.Client.Api.{nk_post}
use ikuzo_neko_pay.Client.Settings.{toggle_auto_attribute}

-- The box and the setting agree if the handler returned, and differ otherwise.
abbrev pub BoxAgrees : Outcome Done × Page → Type 0
BoxAgrees (done a, q) = q.checked aa_toggle ≡ q.auto_attribute
BoxAgrees (thrown, q) = q.checked aa_toggle ≡ not q.auto_attribute
BoxAgrees (waiting, q) = q.checked aa_toggle ≡ not q.auto_attribute

-- The user has just flipped the box, so that it differs from the setting. Where the handler returns,
-- with a success or with a refusal, the box shows the setting again; where the request is rejected or
-- never settles, the box keeps showing the other value.
pub toggle_auto_attribute-BoxAgrees :
    (e : Env) (p : Page)
    → p.checked aa_toggle ≡ not p.auto_attribute
    → BoxAgrees (toggle_auto_attribute e p)
unfolding toggle_auto_attribute nk_post fetch alert ◌>>=◌
toggle_auto_attribute-BoxAgrees e p flipped = ground arith
