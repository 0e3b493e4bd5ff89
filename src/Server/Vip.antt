-- ===== src/Server/Vip.antt =====
-- app/vip.py: the tiers of the shared card and the points of a top-up. Money and rate are decimals
-- of any length: whole numbers of a common unit, of which NT$ 1 has `unit`.
pub mod Tiers
use ikuzo_neko_pay.Prelude.{
  ℕ, suc, ◌+◌, ◌/◌, String, Option, none, some, List, [], ◌∷◌, str_eq, if◌then◌else◌,
}
use ikuzo_neko_pay.Prelude.Int.{ℤ, pos, negsuc, ◌+ℤ◌, ◌*ℤ◌, neg, leb_ℤ, ltb_ℤ}

pub record Tier : Type 0 where
  pub name : String
  pub bonus_pct : ℕ
  pub monthly_gift : ℕ
  pub vip_point : ℕ
  pub threshold : ℕ

abbrev pub vip_tiers : List Tier
vip_tiers =
    record { name = "喵民"; bonus_pct = 10; monthly_gift = 0; vip_point = 0; threshold = 0 }
    ∷ record { name = "銀喵"; bonus_pct = 10; monthly_gift = 15; vip_point = 20; threshold = 12000 }
    ∷ record { name = "金喵"; bonus_pct = 15; monthly_gift = 15; vip_point = 40; threshold = 27000 }
    ∷ record { name = "喵皇"; bonus_pct = 15; monthly_gift = 50; vip_point = 70; threshold = 45000 }
    ∷ []

abbrev pub bonus_min_topup : ℕ
bonus_min_topup = 300

abbrev pub head? {ℓ} : {A : Type ℓ} → List A → Option A
head? [] = none
head? (x ∷ xs) = some x

-- `current_name` may be None, which no tier is called.
unfoldable pub next_tier_in : List Tier → String → Option Tier
next_tier_in [] name = none
next_tier_in (t ∷ ts) name = if str_eq t.name name then head? ts else next_tier_in ts name

unfoldable pub next_tier : Option String → Option Tier
unfolding next_tier_in
next_tier none = none
next_tier (some name) = next_tier_in vip_tiers name

unfoldable pub bonus_pct_in : List Tier → String → ℕ
bonus_pct_in [] name = 0
bonus_pct_in (t ∷ ts) name = if str_eq t.name name then t.bonus_pct else bonus_pct_in ts name

unfoldable pub bonus_pct_for : Option String → ℕ
unfolding bonus_pct_in
bonus_pct_for none = 0
bonus_pct_for (some name) = bonus_pct_in vip_tiers name

-- `a // b` on Decimals, at a divisor above 0: towards zero.
unfoldable pub decimal_floordiv : ℤ → ℤ → ℤ
unfolding neg
decimal_floordiv (pos a) (pos b) = pos (a / b)
decimal_floordiv (negsuc a) (pos b) = neg (pos (suc a / b))
decimal_floordiv a (negsuc b) = pos 0

-- `a // 100` on ints: downwards.
unfoldable pub int_percent : ℤ → ℤ
int_percent (pos a) = pos (a / 100)
int_percent (negsuc a) = negsuc (a / 100)

pub record Breakdown : Type 0 where
  pub base : ℤ
  pub bonus : ℤ
  pub total : ℤ

-- `min_topup` in NT$. Quotients of more than 28 digits, which Decimal refuses, are not modelled.
unfoldable pub topup_breakdown : ℕ → ℤ → ℤ → ℕ → ℕ → Breakdown
topup_breakdown unit money rate bonus_pct min_topup =
    let base = if ltb_ℤ (pos 0) rate then decimal_floordiv money rate else pos 0 in
    let bonus =
      if leb_ℤ (pos unit *ℤ pos min_topup) money
      then int_percent (base *ℤ pos bonus_pct)
      else pos 0 in
    record { base = base; bonus = bonus; total = base +ℤ bonus }
