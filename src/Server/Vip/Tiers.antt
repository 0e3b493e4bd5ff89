-- ===== src/Server/Vip/Tiers.antt =====
-- What the breakdown of a top-up guarantees at amounts from 0 on.
use ikuzo_neko_pay.Prelude.{
  ℕ, suc, ◌+◌, ◌*◌, ◌/◌, ◌≤◌, ◌<◌, ◌≡◌, refl, arith, Bool, true, false, leb, if◌then◌else◌,
}
use ikuzo_neko_pay.Prelude.Int.{pos, ◌*ℤ◌, *ℤ-pos, +ℤ-pos, leb_ℤ-pos, ltb_ℤ-zero-suc}
use ikuzo_neko_pay.Server.Vip.{
  topup_breakdown, Breakdown, bonus_min_topup, decimal_floordiv, int_percent,
}

-- The bonus as a number, of b base points paid for by m units of money.
abbrev pub bonus_points : ℕ → ℕ → ℕ → ℕ → ℕ
bonus_points unit m b k = if leb (unit * 300) m then b * k / 100 else 0

abbrev pub whole : ℕ → ℕ → Breakdown
whole b v = record { base = pos b; bonus = pos v; total = pos (b + v) }

bonus_step :
    (b k : ℕ) (enough : Bool)
    → (if enough then int_percent (pos b *ℤ pos k) else pos 0)
      ≡ pos (if enough then b * k / 100 else 0)
unfolding int_percent
bonus_step b k true = rw *ℤ-pos
bonus_step b k false = refl

pub topup_breakdown-whole :
    (unit m r k : ℕ)
    → topup_breakdown unit (pos m) (pos (suc r)) k bonus_min_topup
      ≡ whole (m / suc r) (bonus_points unit m (m / suc r) k)
unfolding topup_breakdown decimal_floordiv
topup_breakdown-whole unit m r k =
    rw (ltb_ℤ-zero-suc r, *ℤ-pos unit 300, leb_ℤ-pos (unit * 300) m, bonus_step) (rw +ℤ-pos)

bonus_points-le : (unit m b k : ℕ) → 100 * bonus_points unit m b k ≤ b * k
bonus_points-le unit m b k = ground arith

-- A positive rate buys the whole points that the money pays for; the bonus is at most its
-- percentage of them, nothing under NT$ 300, and less than a point short of it from there on.
pub topup_breakdown_bounds :
    (unit m r k : ℕ)
    → let b = m / suc r in
      let v = bonus_points unit m b k in
      (topup_breakdown unit (pos m) (pos (suc r)) k bonus_min_topup ≡ whole b v)
      × (b * suc r ≤ m)
      × (m < suc b * suc r)
      × (100 * v ≤ b * k)
topup_breakdown_bounds unit m r k = (
  topup_breakdown-whole unit m r k,
  grind arith,
  grind arith,
  bonus_points-le unit m (m / suc r) k,
)
