-- ===== src/Client/Ends/Examples.antt =====
-- A user who cancels every dialog in the end, before a server that always answers.
use ikuzo_neko_pay.Prelude.{◌≡◌, ◌≢◌, refl, [], ◌∷◌}
use ikuzo_neko_pay.Client.Page.{Env, failed, write, press_cancel, inside}
use ikuzo_neko_pay.Client.Js.{waiting}
use ikuzo_neko_pay.Client.Handlers.{topup, play, rename_member, dispatch, session}
use ikuzo_neko_pay.Client.Ends.{Settles, leaves}
use ikuzo_neko_pay.Client.Ends.Dispatch.{session-dispatch_ends}
use ikuzo_neko_pay.Client.Session.Samples.{world, page}

abbrev hesitant : Env
hesitant = record world {
  answer = λ p req. failed;
  gestures = λ p d. inside ∷ write "x" ∷ press_cancel ∷ [];
}

hesitant-Settles : Settles hesitant
unfolding leaves
hesitant-Settles = record { answers = λ p req h. cc; leaving = λ p d. refl }

session-dispatch_ends_example :
    ((dispatch hesitant (rename_member 2) (session hesitant (topup ∷ play ∷ []) page)).0 ≢ waiting)
    × ((dispatch hesitant (rename_member 2) (session hesitant (topup ∷ play ∷ []) page)).1.overlays
        ≡ page.overlays)
session-dispatch_ends_example =
    session-dispatch_ends hesitant hesitant-Settles (topup ∷ play ∷ []) (rename_member 2) page
