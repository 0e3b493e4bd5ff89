-- ===== src/Server/Routes/Examples.antt =====
-- Requests to the accounts of Server.Accounts.Examples: Ann and Bob are administrators, both logged in.
use ikuzo_neko_pay.Prelude.{◌≡◌, refl, ◌⊎◌, true, false, none, some, List, [], ◌∷◌}
use ikuzo_neko_pay.Server.Store.{Member, UserSession, find_member}
use ikuzo_neko_pay.Server.Sql.{any_where}
use ikuzo_neko_pay.Server.Auth.{unauthenticated, verify_csrf, require_admin}
use ikuzo_neko_pay.Server.Accounts.{set_active}
use ikuzo_neko_pay.Server.Accounts.Operations.{is_active_admin}
use ikuzo_neko_pay.Server.Accounts.Examples.{plain, met, without_bob}
use ikuzo_neko_pay.Server.Routes.{
  Http, set_status, delete, reset, Call, on_accounts, log_in, log_out, served, refused, service,
  serve, serve_all, finish,
}
use ikuzo_neko_pay.Server.Routes.Guards.{Authorised, Untouched, serve-Guarded}
use ikuzo_neko_pay.Server.Routes.Admins.{serve_all-HasAdmin}

abbrev from_ann : Http
from_ann = record { now = 50; cookie = "a"; header = some "d"; form = none }

abbrev from_bob : Http
from_bob = record { now = 60; cookie = "t"; header = none; form = some "c" }

-- Ann disables Bob, whose session ends; he cannot delete her any more.
serve-quarrel :
    (serve plain (on_accounts (set_status 2 false)) from_ann met ≡ (served, without_bob))
    × (serve plain (on_accounts (delete 1 true)) from_bob without_bob
        ≡ (refused unauthenticated, without_bob))
unfolding serve verify_csrf require_admin find_member set_active
serve-quarrel = (refl, refl)

serve-Guarded_example :
    Untouched from_ann met (serve plain (on_accounts (set_status 2 false)) from_ann met).1
    ⊎ ((m : Member) × (us : UserSession) × Authorised from_ann met m us
        × (serve plain (on_accounts (set_status 2 false)) from_ann met
            ≡ finish met (service plain (set_status 2 false) m met)))
serve-Guarded_example = serve-Guarded plain (set_status 2 false) from_ann met

abbrev quarrel : List (Call × Http)
quarrel =
    (on_accounts (set_status 2 false), from_ann)
    ∷ (on_accounts (delete 1 true), from_bob)
    ∷ (log_in "u" "e" 1 "bob" "hidden", from_bob)
    ∷ (on_accounts (delete 2 true), from_ann)
    ∷ (on_accounts (reset "secret"), from_ann)
    ∷ (log_out, from_ann)
    ∷ []

serve_all-HasAdmin_example : any_where is_active_admin (serve_all plain quarrel met).members ≡ true
unfolding any_where
serve_all-HasAdmin_example = serve_all-HasAdmin plain quarrel met refl
