-- ===== src/Client/Session/Examples.antt =====
-- The theorems about sessions at a concrete page, and runs of the handlers.
use ikuzo_neko_pay.Prelude.{◌+◌, ◌≤◌, ◌≡◌, refl, true, false, [], ◌∷◌}
use ikuzo_neko_pay.Prelude.Int.{pos, int_laws}
use ikuzo_neko_pay.Client.Number.{of_ℕ}
use ikuzo_neko_pay.Client.Page.{Page}
use ikuzo_neko_pay.Client.Handlers.{play, topup, delete_member, dispatch, session}
use ikuzo_neko_pay.Client.Trace.{sound, writes}
use ikuzo_neko_pay.Client.Kept.{Restored}
use ikuzo_neko_pay.Client.Session.{session-sound, dispatch-Restored, writes-dispatch}
use ikuzo_neko_pay.Client.Guards.{calls-play_declined, calls}
use ikuzo_neko_pay.Client.Toggles.{BoxAgrees, toggle_auto_attribute-BoxAgrees}
use ikuzo_neko_pay.Client.Settings.{toggle_auto_attribute}
use ikuzo_neko_pay.Client.Play
use ikuzo_neko_pay.Client.Play.{anti_addiction_ok}
use ikuzo_neko_pay.Client.Session.Samples.{page, world, offline}

session-sound_example :
    sound (session world (play ∷ topup ∷ delete_member 2 ∷ []) page).trace ≡ true
unfolding sound
session-sound_example = session-sound world (play ∷ topup ∷ delete_member 2 ∷ []) page refl

dispatch-Restored_example :
    Restored (dispatch offline play page).0 page (dispatch offline play page).1
dispatch-Restored_example = dispatch-Restored offline play page

writes-dispatch_example :
    writes (dispatch world (delete_member 2) page).1.trace ≤ writes page.trace + 2
writes-dispatch_example = writes-dispatch world (delete_member 2) page

-- 20 of 30 points are spent, and 11 more are refused by the user.
calls-play_declined_example :
    calls (Play.play world (of_ℕ 1) (of_ℕ 11) "" page).1.trace ≡ calls page.trace
calls-play_declined_example =
    calls-play_declined world page (pos 100) (pos 2000) (pos 3000) (pos 1100) "" refl refl refl refl
      (λ h. omega (int_laws, h)) refl

abbrev unchecked : Page
unchecked = record page { checked = λ t. false }

-- The user has just switched the setting off, and the network is down.
toggle_auto_attribute-BoxAgrees_example : BoxAgrees (toggle_auto_attribute offline unchecked)
toggle_auto_attribute-BoxAgrees_example = toggle_auto_attribute-BoxAgrees offline unchecked refl
