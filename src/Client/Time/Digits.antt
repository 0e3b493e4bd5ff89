-- ===== src/Client/Time/Digits.antt =====
-- The digits of numbers below 10,000, and of those below 100 as `pad` writes them.

use native.Mathlib.Decide.{dec_lt}
use ikuzo_neko_pay.Prelude.{ℕ, zero, suc, ◌/◌, ◌%◌, ◌≤◌, ◌<◌, ◌≡◌, String, true, false, ltb, arith}
use ikuzo_neko_pay.Client.Time.{digit, digits_onto, to_text, pad_start, pad}

digits_onto-two :
    (fuel n : ℕ) (s : String)
    → 10 ≤ n
    → n < 100
    → digits_onto (suc (suc fuel)) n s ≡ String.◌∷◌ (digit (n / 10)) (String.◌∷◌ (digit (n % 10)) s)
unfolding digits_onto
digits_onto-two fuel n s lo hi =
    let big : ltb n 10 ≡ false = ground arith in
    let small : ltb (n / 10) 10 ≡ true = ground arith in rw (big, small)

digits_onto-four :
    (fuel n : ℕ) (s : String)
    → 1000 ≤ n
    → n < 10000
    → digits_onto (suc (suc (suc (suc fuel)))) n s
      ≡ String.◌∷◌ (digit (n / 1000)) (
          String.◌∷◌
            (digit (n / 100 % 10))
            (String.◌∷◌ (digit (n / 10 % 10)) (String.◌∷◌ (digit (n % 10)) s)))
unfolding digits_onto
digits_onto-four fuel n s lo hi =
    let big : ltb n 10 ≡ false = ground arith in
    let big' : ltb (n / 10) 10 ≡ false = ground arith in
    let deep : n / 10 / 10 / 10 ≡ n / 1000 = omega arith in
    let mid : n / 10 / 10 ≡ n / 100 = omega arith in
    rw (
      big,
      big',
      digits_onto-two fuel (n / 10 / 10)
          (String.◌∷◌ (digit (n / 10 % 10)) (String.◌∷◌ (digit (n % 10)) s)) (omega arith)
          (omega arith),
      deep,
      mid,
    )

-- The same on any fuel that is enough.
pub digits_onto-year :
    (fuel n : ℕ)
    → 4 ≤ fuel
    → 1000 ≤ n
    → n < 10000
    → digits_onto fuel n ""
      ≡ String.◌∷◌ (digit (n / 1000)) (
          String.◌∷◌
            (digit (n / 100 % 10))
            (String.◌∷◌ (digit (n / 10 % 10)) (String.◌∷◌ (digit (n % 10)) "")))
digits_onto-year zero n f lo hi = absurd (omega arith)
digits_onto-year (suc zero) n f lo hi = absurd (omega arith)
digits_onto-year (suc (suc zero)) n f lo hi = absurd (omega arith)
digits_onto-year (suc (suc (suc zero))) n f lo hi = absurd (omega arith)
digits_onto-year (suc (suc (suc (suc fuel)))) n f lo hi = digits_onto-four fuel n "" lo hi

digits_onto-small : (fuel n : ℕ) → n < 10 → digits_onto (suc fuel) n "" ≡ String.◌∷◌ (digit n) ""
unfolding digits_onto
digits_onto-small fuel n h = let small : ltb n 10 ≡ true = ground arith in rw small

digits_onto-pair :
    (fuel n : ℕ)
    → 2 ≤ fuel
    → 10 ≤ n
    → n < 100
    → digits_onto fuel n "" ≡ String.◌∷◌ (digit (n / 10)) (String.◌∷◌ (digit (n % 10)) "")
digits_onto-pair zero n f lo hi = absurd (omega arith)
digits_onto-pair (suc zero) n f lo hi = absurd (omega arith)
digits_onto-pair (suc (suc fuel)) n f lo hi = digits_onto-two fuel n "" lo hi

pub pad-two :
    (n : ℕ) → n < 100 → pad n ≡ String.◌∷◌ (digit (n / 10)) (String.◌∷◌ (digit (n % 10)) "")
unfolding pad to_text pad_start
pad-two n hi = elim (dec_lt n 10) [
  | yes small ↦
      let high : n / 10 ≡ 0 = omega arith in
      let low : n % 10 ≡ n = omega arith in rw (digits_onto-small n n small, high, low)
  | no large ↦ rw (digits_onto-pair (suc n) n (omega arith) (omega arith) hi)
]
