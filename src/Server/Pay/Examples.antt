-- ===== src/Server/Pay/Examples.antt =====
-- A cycle whose first token is refused, and one that meets a page in place of an answer.
use ikuzo_neko_pay.Prelude.{ℕ, ◌≡◌, refl, false, none, some, [], ◌∷◌, str_eq, if◌then◌else◌, arith}
use ikuzo_neko_pay.Server.Pay.{
  Pay, do_login, user_info, pay_history, body, object, Net, proceeds, start_cycle,
}
use ikuzo_neko_pay.Server.Pay.Cycle.{Ends, start_cycle-Ends}

-- The service gives the token "new" to a login, and knows no other.
abbrev service : Net ℕ
service before do_login = body (record { code = "1"; token = object (some "new"); content = 0 })
service before (user_info t) = body (record { code = "0"; token = object none; content = 1 })
service before (pay_history t) =
    body (record { code = if str_eq t "new" then "0" else "9"; token = object none; content = 7 })

abbrev stale : Pay
stale = record { held = some "old"; sent = [] }

start_cycle-stale : start_cycle service 3 false stale ≡ (
  proceeds none 7,
  record { held = some "new"; sent = pay_history "new" ∷ do_login ∷ pay_history "old" ∷ [] },
)
unfolding start_cycle
start_cycle-stale = refl

start_cycle-Ends_example : Ends service 3 stale (start_cycle service 3 false stale)
start_cycle-Ends_example = start_cycle-Ends service 3 false stale (omega arith)
