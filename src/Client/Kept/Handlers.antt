-- ===== src/Client/Kept/Handlers.antt =====
-- Each handler keeps the page.
use ikuzo_neko_pay.Prelude.{ℕ, ◌≤◌, ◌≡◌, refl, String, Bool, true, false, not, if◌then◌else◌, arith}
use ikuzo_neko_pay.Client.Number.{Number, strict_eq, num_le, of_ℕ}
use ikuzo_neko_pay.Client.Page.{
  Page, Env, enter_points, pl_member, pl_points, pl_note, tu_member, tu_money,
}
use ikuzo_neko_pay.Client.Js.{
  Outcome, Js, Done, pure, if_both, val_cases, continue, done, thrown, waiting, ◌>>=◌, alert, fetch,
  confirm,
}
use ikuzo_neko_pay.Client.Dialogs.{Choice, chosen, manual, cancel}
use ikuzo_neko_pay.Client.Api.{nk_post, reload_on_success}
use ikuzo_neko_pay.Client.Attribution.{auto_attribute_flow}
use ikuzo_neko_pay.Client.Play.{
  play, within_limit, limit_question, anti_addiction_ok, send_play, attributed_play, do_play,
}
use ikuzo_neko_pay.Client.Topup.{send_topup, attributed_topup, do_topup, topup_points, not_positive}
use ikuzo_neko_pay.Client.Trace.{sound, writes}
use ikuzo_neko_pay.Client.Kept.{Kept, Consent, Restored-trans, Kept-trans}
use ikuzo_neko_pay.Client.Kept.Flow.{Decides, auto_attribute_flow-Decides}

send_play-Kept :
    (e : Env) (member points : Number) (note : String) (c : Choice) (p : Page)
    → Consent (done c) p.trace
    → Kept 1 p (send_play e member points note c p)
unfolding send_play nk_post fetch alert reload_on_success ◌>>=◌ sound writes
send_play-Kept e member points note cancel p h = ground arith
send_play-Kept e member points note manual p h = ground arith
send_play-Kept e member points note (chosen n) p h = ground arith

send_topup-Kept :
    (e : Env) (member money : Number) (c : Choice) (p : Page)
    → Consent (done c) p.trace
    → Kept 1 p (send_topup e member money c p)
unfolding send_topup nk_post fetch alert reload_on_success ◌>>=◌ sound writes
send_topup-Kept e member money cancel p h = ground arith
send_topup-Kept e member money manual p h = ground arith
send_topup-Kept e member money (chosen n) p h = ground arith

-- A decision, and then an action that relies on its consent.
decided-Kept :
    (f : Choice → Js Done) (r : Outcome Choice × Page) (p : Page)
    → Decides 1 p r
    → ((c : Choice) (q : Page) → Consent (done c) q.trace → Kept 1 q (f c q))
    → Kept 2 p (continue r.0 f r.1)
decided-Kept f (done c, q) p d step =
    let k = step c q d.consent in
    record {
      sounds = λ h. k.sounds (d.kept.sounds h);
      overlays = Restored-trans (f c q).0 p q (f c q).1 d.kept.overlays k.overlays;
      few_writes = omega (arith, k.few_writes, d.kept.few_writes);
    }
decided-Kept f (thrown, q) p d step = ground arith
decided-Kept f (waiting, q) p d step = ground arith

attributed_play-Kept :
    (e : Env) (member points : Number) (note : String) (p : Page)
    → Kept 2 p (attributed_play e member points note p)
unfolding attributed_play ◌>>=◌
attributed_play-Kept e member points note p =
    decided-Kept (send_play e member points note)
      (auto_attribute_flow e "pay" points (strict_eq member p.member_id) p) p
      (auto_attribute_flow-Decides e "pay" points (strict_eq member p.member_id) p)
      (send_play-Kept e member points note)

attributed_topup-Kept :
    (e : Env) (member money total : Number) (p : Page)
    → Kept 2 p (attributed_topup e member money total p)
unfolding attributed_topup ◌>>=◌
attributed_topup-Kept e member money total p =
    decided-Kept (send_topup e member money)
      (auto_attribute_flow e "topup" total (strict_eq member p.member_id) p) p
      (auto_attribute_flow-Decides e "topup" total (strict_eq member p.member_id) p)
      (send_topup-Kept e member money)

-- `doPlay` once the question of the daily limit, if any, is answered.
allowed-Kept :
    (e : Env) (member points : Number) (note : String) (allowed : Bool) (p q : Page)
    → (sound p.trace ≡ true → sound q.trace ≡ true)
    → q.overlays ≡ p.overlays
    → writes q.trace ≤ writes p.trace
    → Kept 2 p ((if not allowed then pure tt else attributed_play e member points note) q)
allowed-Kept e member points note true p q s o w =
    Kept-trans (attributed_play-Kept e member points note q) s o w
allowed-Kept e member points note false p q s o w = record {
  sounds = s;
  overlays = o;
  few_writes = omega arith;
}

play-Kept :
    (e : Env) (member points : Number) (note : String) (p : Page)
    → Kept 2 p (play e member points note p)
unfolding play anti_addiction_ok confirm alert ◌>>=◌ sound writes
play-Kept e member points note p =
    let next =
      λ (allowed : Bool). if not allowed then pure tt else attributed_play e member points note in
    let limited = confirm e (limit_question p points) in
    if_both (Kept 2 p) (not_positive points) (alert enter_points)
      (anti_addiction_ok e member points >>= next) p (λ _. ground arith)
      (λ _.
        if_both (λ r. Kept 2 p (continue r.0 next r.1)) (within_limit p member points) (pure true)
          limited p (λ _. allowed-Kept e member points note true p p (λ h. h) refl (omega arith))
          (λ _.
            allowed-Kept e member points note (e.choose p (limit_question p points)) p (limited p).1
              (λ h. h) refl (omega arith)))

thrown-Kept : {A : Type 0} (k : ℕ) (p : Page) → Kept {A = A} k p (thrown, p)
thrown-Kept k p = record { sounds = λ h. h; overlays = refl; few_writes = omega arith }

pub do_play-Kept : (e : Env) (p : Page) → Kept 2 p (do_play e p)
unfolding do_play
do_play-Kept e p = val_cases (Kept 2 p) pl_member _ p (thrown-Kept 2 p) λ member.
    val_cases (Kept 2 p) pl_points _ p (thrown-Kept 2 p) λ points.
      val_cases (Kept 2 p) pl_note _ p (thrown-Kept 2 p)
        λ note. play-Kept e (e.to_number member) (e.to_number points) note p

pub do_topup-Kept : (e : Env) (p : Page) → Kept 2 p (do_topup e p)
unfolding do_topup alert ◌>>=◌ sound writes
do_topup-Kept e p = val_cases (Kept 2 p) tu_member _ p (thrown-Kept 2 p) λ m.
    val_cases (Kept 2 p) tu_money _ p (thrown-Kept 2 p) λ t.
      if_both (Kept 2 p) (not_positive (e.to_number t)) _ _ p (λ _. ground arith)
        (λ _.
          if_both (Kept 2 p) (num_le (topup_points e p (e.to_number t)).total (of_ℕ 0)) _ _ p
            (λ _. ground arith)
            (λ _.
              attributed_topup-Kept e (e.to_number m) (e.to_number t)
                (topup_points e p (e.to_number t)).total p))
