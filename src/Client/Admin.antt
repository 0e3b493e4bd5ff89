-- ===== src/Client/Admin.antt =====
-- The administration handlers of app/static/app.js: attribute, ignoreTxn, resetDatabase and the
-- management of members, deleteMember with its forced second try included.
use Prim.Native.Char.{code}
use ikuzo_neko_pay.Prelude.{
  ℕ, ◌+◌, String, Bool, true, false, not, ◌||◌, Option, none, some, [], ◌∷◌, ltb, ◌==◌,
  if◌then◌else◌, is_empty,
}
use ikuzo_neko_pay.Client.Page.{
  Env, role_of, attr_of, nm_username, nm_name, nm_pwd, nm_role, bool, number, text, delete, Request,
  Reply, is_ok, read_json, Payload, real_attribute, real_ignore, reset, members, member_update,
  member_status, member_password, member_delete, member_force_delete, ignore_reason, admin_password,
  new_name, new_password, Notice, detail, database_reset, fill_member, short_password,
  password_reset, linked_records, deleted, force_deleted, reset_everything, deactivate,
  delete_account, force_delete,
}
use ikuzo_neko_pay.Client.Js.{
  Js, Done, pure, alert, fetch, confirm, reload, go_home, val, ◌>>=◌, ◌>>◌,
}
use ikuzo_neko_pay.Client.Dialogs.{input_modal}
use ikuzo_neko_pay.Client.Api.{nk_post, error_notice, reload_on_success}
use ikuzo_neko_pay.Client.Settings.{announce}

-- `if (!text) return;` on what a dialog returns.
abbrev pub given : Option String → (String → Js Done) → Js Done
given none f = pure tt
given (some s) f = if is_empty s then pure tt else f s

unfoldable pub attribute : Env → ℕ → Js Done
unfolding ◌>>=◌
attribute e id = do
  member ← val (attr_of id)
  r ← nk_post e (real_attribute id) (("member_id", number (e.to_number member)) ∷ [])
  reload_on_success r

unfoldable pub ignore_txn : Env → ℕ → Js Done
unfolding ◌>>=◌
ignore_txn e id = do
  reason ← input_modal e ignore_reason
  given reason
      (λ s. do r ← nk_post e (real_ignore id) (("reason", text s) ∷ []); reload_on_success r)

unfoldable pub after_reset : Option Payload → Js Done
unfolding ◌>>=◌
after_reset none = pure tt
after_reset (some d) = do alert database_reset; go_home

unfoldable pub reset_database : Env → Js Done
unfolding after_reset ◌>>=◌
reset_database e = do
  sure ← confirm e reset_everything
  if not sure then pure tt else do
    pwd ← input_modal e admin_password
    given pwd (λ s. do r ← nk_post e reset (("password", text s) ∷ []); after_reset r)

unfoldable pub add_member : Env → Js Done
unfolding ◌>>=◌
add_member e = do
  username ← val nm_username
  name ← val nm_name
  pwd ← val nm_pwd
  role ← val nm_role
  if is_empty username || is_empty name || is_empty pwd then alert fill_member else do
    r ← nk_post e members (
        ("username", text username)
        ∷ ("display_name", text name)
        ∷ ("password", text pwd)
        ∷ ("role", text role)
        ∷ [])
    reload_on_success r

unfoldable pub change_role : Env → ℕ → Js Done
unfolding ◌>>=◌
change_role e id = do
  role ← val (role_of id)
  r ← nk_post e (member_update id) (("role", text role) ∷ [])
  reload_on_success r

unfoldable pub rename_member : Env → ℕ → Js Done
unfolding ◌>>=◌
rename_member e id = do
  name ← input_modal e new_name
  given name (λ s. do
    r ← nk_post e (member_update id) (("display_name", text s) ∷ [])
    reload_on_success r)

unfoldable pub send_status : Env → ℕ → Bool → Js Done
unfolding ◌>>=◌
send_status e id active = do
  r ← nk_post e (member_status id) (("is_active", bool active) ∷ [])
  reload_on_success r

unfoldable pub set_active : Env → ℕ → Bool → Js Done
unfolding send_status ◌>>=◌
set_active e id true = send_status e id true
set_active e id false = do
  sure ← confirm e deactivate
  if not sure then pure tt else send_status e id false

-- `s.length`, in UTF-16 units.
abbrev pub utf16_length : String → ℕ
utf16_length String.[] = 0
utf16_length (String.◌∷◌ c s) = (if ltb (code c) 65536 then 1 else 2) + utf16_length s

unfoldable pub reset_pwd : Env → ℕ → Js Done
unfolding announce ◌>>=◌
reset_pwd e id = do
  pwd ← input_modal e new_password
  given pwd (λ s. if ltb (utf16_length s) 6 then alert short_password else do
    r ← nk_post e (member_password id) (("new_password", text s) ∷ [])
    announce (λ _. alert password_reset) r)

abbrev delete_request : ℕ → Request
delete_request id = record { method = delete; url = member_delete id; body = [] }

abbrev force_request : ℕ → Request
force_request id = record { method = delete; url = member_force_delete id; body = [] }

abbrev linked_detail : Option String → Notice
linked_detail none = linked_records
linked_detail (some s) = if is_empty s then linked_records else detail s

-- `(data && data.detail) || "此帳號有關聯紀錄"`
abbrev linked_notice : Option Payload → Notice
linked_notice none = linked_records
linked_notice (some d) = linked_detail d.detail

-- The second DELETE, whose body falls back on that of the first.
unfoldable pub force_member : Env → ℕ → Option Payload → Js Done
unfolding ◌>>=◌
force_member e id old = do
  r ← fetch e (force_request id)
  if is_ok r
      then (alert force_deleted >> reload)
      else alert (error_notice (read_json old r.content) r.status)

unfoldable pub after_delete : Env → ℕ → Reply → Js Done
unfolding force_member ◌>>=◌
after_delete e id r =
    if is_ok r
    then (alert deleted >> reload)
    else let found = read_json none r.content in
      if r.status == 409
      then (do
        sure ← confirm e (force_delete (linked_notice found))
        if not sure then pure tt else force_member e id found)
      else alert (error_notice found r.status)

unfoldable pub delete_member : Env → ℕ → Js Done
unfolding after_delete ◌>>=◌
delete_member e id = do
  sure ← confirm e delete_account
  if not sure then pure tt else do r ← fetch e (delete_request id); after_delete e id r
