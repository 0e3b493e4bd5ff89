-- ===== src/Contract/Examples.antt =====
-- The contract theorems at concrete inputs.
use ikuzo_neko_pay.Prelude.{suc, ◌/◌, ◌≡◌, refl, arith, ◌*◌, ◌≤◌, ◌<◌}
use ikuzo_neko_pay.Prelude.Int.{pos, ◌+ℤ◌, ◌*ℤ◌}
use ikuzo_neko_pay.Client.Number.{of_ℕ}
use ikuzo_neko_pay.Client.Topup.{topup_points}
use ikuzo_neko_pay.Client.Session.Samples.{page, world}
use ikuzo_neko_pay.Server.Vip.{topup_breakdown, bonus_min_topup, decimal_floordiv, int_percent}
use ikuzo_neko_pay.Server.Vip.Tiers.{whole, topup_breakdown_bounds}
use ikuzo_neko_pay.Contract.Topup.{FloorsWhole, shown, topup_points-eq-topup_breakdown}

world-FloorsWhole : FloorsWhole world
world-FloorsWhole a b small_a small_b =
    let top : 100 * a / 100 ≡ a = omega arith in
    let bottom : 100 * suc b / 100 ≡ suc b = omega arith in rw (top, bottom) refl

-- NT$ 305 at NT$ 10 a point with 10 %.
topup_points-eq-topup_breakdown_example :
    topup_points world page (of_ℕ 305)
    ≡ shown (topup_breakdown 1 (pos 305) (pos 10) 10 bonus_min_topup)
topup_points-eq-topup_breakdown_example =
    topup_points-eq-topup_breakdown world page 305 9 10 world-FloorsWhole (omega arith)
      (omega arith) (omega arith) refl refl refl

breakdown_305 :
    topup_breakdown 100 (pos 30500) (pos 1000) 10 bonus_min_topup
    ≡ record { base = pos 30; bonus = pos 3; total = pos 33 }
unfolding topup_breakdown decimal_floordiv int_percent ◌+ℤ◌ ◌*ℤ◌
breakdown_305 = refl

topup_breakdown_bounds_example :
    (topup_breakdown 100 (pos 30500) (pos 1000) 10 bonus_min_topup ≡ whole 30 3)
    × (30 * 1000 ≤ 30500)
    × (30500 < 31 * 1000)
    × (100 * 3 ≤ 30 * 10)
topup_breakdown_bounds_example = topup_breakdown_bounds 100 30500 999 10
