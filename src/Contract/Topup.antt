-- ===== src/Contract/Topup.antt =====
-- The preview of a top-up in app/static/app.js against the server's computation in app/vip.py.
use ikuzo_neko_pay.Prelude.{
  ℕ, suc, ◌+◌, ◌*◌, ◌/◌, ◌<◌, ◌≡◌, refl, ap, arith, Bool, true, false, leb, if◌then◌else◌,
}
use ikuzo_neko_pay.Prelude.Int.{ℤ, pos, ◌*ℤ◌, *ℤ-pos, +ℤ-pos}
use ikuzo_neko_pay.Client.Number.{Number, num, of_ℕ, num_le, num_mul, floor_div, num_add, or_else}
use ikuzo_neko_pay.Client.Page.{Page, Env, Breakdown}
use ikuzo_neko_pay.Client.Topup.{topup_points, rated_points}
use ikuzo_neko_pay.Server.Vip
use ikuzo_neko_pay.Server.Vip.{topup_breakdown, bonus_min_topup}
use ikuzo_neko_pay.Server.Vip.Tiers.{bonus_points, whole, topup_breakdown-whole}

-- A whole number of the server, as a number of the page.
abbrev pub of_ℤ : ℤ → Number
of_ℤ z = num (pos 100 *ℤ z)

abbrev pub shown : Vip.Breakdown → Breakdown
shown b = record { base = of_ℤ b.base; bonus = of_ℤ b.bonus; total = of_ℤ b.total }

-- Math.floor of the quotient of whole numbers below 2 ^ 53 is exact: the quotient, rounded to the nearest
-- binary fraction, does not reach the next whole number.
abbrev pub FloorsWhole : Env → Type 0
FloorsWhole e =
    (a b : ℕ)
    → a < 9007199254740992
    → suc b < 9007199254740992
    → e.floor_quotient (of_ℕ a) (of_ℕ (suc b)) ≡ of_ℕ (a / suc b)

num_mul-of_ℕ : (a b : ℕ) → num_mul (of_ℕ a) (of_ℕ b) ≡ of_ℕ (a * b)
unfolding num_mul floor_div
num_mul-of_ℕ a b = rw *ℤ-pos (ap (λ n. num (pos n)) (omega arith))

num_add-of_ℕ : (a b : ℕ) → num_add (of_ℕ a) (of_ℕ b) ≡ of_ℕ (a + b)
unfolding num_add
num_add-of_ℕ a b = rw +ℤ-pos (ap (λ n. num (pos n)) (omega arith))

num_le-of_ℕ : (a b : ℕ) → num_le (of_ℕ a) (of_ℕ b) ≡ leb a b
num_le-of_ℕ a b = ground arith

of_ℤ-pos : (n : ℕ) → of_ℤ (pos n) ≡ of_ℕ n
of_ℤ-pos n = rw *ℤ-pos refl

either_of_ℕ : (c : Bool) (v : ℕ) → (if c then of_ℕ v else of_ℕ 0) ≡ of_ℕ (if c then v else 0)
either_of_ℕ true v = refl
either_of_ℕ false v = refl

rated_points-whole :
    (e : Env) (m r k : ℕ)
    → FloorsWhole e
    → m < 9007199254740992
    → suc r < 9007199254740992
    → m / suc r * k < 9007199254740992
    → rated_points e (of_ℕ (suc r)) (of_ℕ k) (of_ℕ 300) (of_ℕ m)
      ≡ shown (whole (m / suc r) (bonus_points 1 m (m / suc r) k))
unfolding rated_points
rated_points-whole e m r k exact small_m small_r small =
    rw
      (
        exact m r small_m small_r,
        num_mul-of_ℕ,
        exact (m / suc r * k) 99 small (omega arith),
        num_le-of_ℕ,
        either_of_ℕ,
        num_add-of_ℕ,
        of_ℤ-pos,
        of_ℤ-pos,
        of_ℤ-pos,
      )
      refl

or_else-pos : (n : ℕ) (d : Number) → or_else (of_ℕ (suc n)) d ≡ of_ℕ (suc n)
or_else-pos n d = ground arith

or_else-zero : (k : ℕ) → or_else (of_ℕ k) (of_ℕ 0) ≡ of_ℕ k
or_else-zero k = ground arith

-- Where the page's globals are the rate, the percentage and the minimum of the server, the rate is a
-- whole positive number of NT$, and the division of whole numbers below 2 ^ 53 floors as it does in
-- binary fractions, the preview of a whole amount from NT$ 0 on shows the points that the server
-- credits: the base, the bonus and the total. The amount, the rate and the base times the percentage
-- are below 2 ^ 53.
pub topup_points-eq-topup_breakdown :
    (e : Env) (p : Page) (m r k : ℕ)
    → FloorsWhole e
    → m < 9007199254740992
    → suc r < 9007199254740992
    → m / suc r * k < 9007199254740992
    → p.rate ≡ of_ℕ (suc r)
    → p.vip_bonus_pct ≡ of_ℕ k
    → p.bonus_min_topup ≡ of_ℕ bonus_min_topup
    → topup_points e p (of_ℕ m) ≡ shown (topup_breakdown 1 (pos m) (pos (suc r)) k bonus_min_topup)
unfolding topup_points
topup_points-eq-topup_breakdown e p m r k exact small_m small_r small hr hk hb =
    rw (hr, hk, hb, or_else-pos, or_else-zero, topup_breakdown-whole)
      (rated_points-whole e m r k exact small_m small_r small)
