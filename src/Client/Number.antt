-- ===== src/Client/Number.antt =====
-- Numbers of app/static/app.js: NaN, or an exact number of hundredths. Infinity is left out, and the
-- rounding of a quotient is a parameter of the page's environment; `undefined` (a global that the page does not set) is NaN here,
-- since the code only adds it, compares it and tests its truth.
use ikuzo_neko_pay.Prelude.{ℕ, suc, ◌*◌, ◌/◌, Bool, false, not, if◌then◌else◌}
use ikuzo_neko_pay.Prelude.Int.{ℤ, pos, negsuc, ◌+ℤ◌, ◌*ℤ◌, neg, leb_ℤ, eqb_ℤ}

-- `num z` is z / 100.
pub data Number : Type 0 where
  nan : Number
  num : ℤ → Number

-- The whole number n.
abbrev pub of_ℕ : ℕ → Number
of_ℕ n = num (pos (100 * n))

-- `!x` is `not (truthy x)`.
abbrev pub truthy : Number → Bool
truthy nan = false
truthy (num z) = not (eqb_ℤ z (pos 0))

-- `x || d`
abbrev pub or_else : Number → Number → Number
or_else x d = if truthy x then x else d

-- `a <= b`
abbrev pub num_le : Number → Number → Bool
num_le nan b = false
num_le (num x) nan = false
num_le (num x) (num y) = leb_ℤ x y

-- `a === b`
abbrev pub strict_eq : Number → Number → Bool
strict_eq nan b = false
strict_eq (num x) nan = false
strict_eq (num x) (num y) = eqb_ℤ x y

-- `a + b`
unfoldable pub num_add : Number → Number → Number
num_add nan b = nan
num_add (num x) nan = nan
num_add (num x) (num y) = num (x +ℤ y)

-- The floor of a / b.
unfoldable pub floor_div : ℤ → ℤ → ℤ
unfolding neg
floor_div (pos a) (pos b) = pos (a / b)
floor_div (negsuc a) (pos b) = negsuc (a / b)
floor_div (pos a) (negsuc b) = elim (neg (pos a)) [
  | pos c ↦ pos (c / suc b)
  | negsuc c ↦ negsuc (c / suc b)
]
floor_div (negsuc a) (negsuc b) = pos (suc a / suc b)

-- `a * b`, where the product has whole hundredths.
unfoldable pub num_mul : Number → Number → Number
unfolding floor_div
num_mul nan b = nan
num_mul (num x) nan = nan
num_mul (num x) (num y) = num (floor_div (x *ℤ y) (pos 100))
