-- ===== src/Client/Api.antt =====
-- The helper object NK of app/static/app.js: POST and DELETE with an alert on any refusal.
use ikuzo_neko_pay.Prelude.{ℕ, String, Option, none, some, List, [], if◌then◌else◌, is_empty}
use ikuzo_neko_pay.Client.Page.{
  Env, Url, Json, Payload, Reply, is_ok, read_json, Notice, detail, error_status, post, delete,
}
use ikuzo_neko_pay.Client.Js.{Js, Done, pure, alert, fetch, reload, ◌>>=◌, ◌>>◌}

abbrev detail_or : ℕ → Option String → Notice
detail_or code none = error_status code
detail_or code (some s) = if is_empty s then error_status code else detail s

-- `(data && data.detail) || ("錯誤 " + r.status)`
abbrev pub error_notice : Option Payload → ℕ → Notice
error_notice none code = error_status code
error_notice (some d) code = detail_or code d.detail

unfoldable pub settle_reply : Reply → Js (Option Payload)
unfolding ◌>>=◌ alert
settle_reply r =
    let found = read_json none r.content in
    if is_ok r then pure found else (alert (error_notice found r.status) >> pure none)

unfoldable pub nk_post : Env → Url → List (String × Json) → Js (Option Payload)
unfolding settle_reply fetch
nk_post e url body = do
  r ← fetch e (record { method = post; url = url; body = body })
  settle_reply r

unfoldable pub nk_del : Env → Url → Js (Option Payload)
unfolding settle_reply fetch
nk_del e url = do r ← fetch e (record { method = delete; url = url; body = [] }); settle_reply r

-- `if (r) NK.reload();`
unfoldable pub reload_on_success : Option Payload → Js Done
unfolding reload
reload_on_success none = pure tt
reload_on_success (some d) = reload
