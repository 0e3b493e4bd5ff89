-- ===== src/Prelude/Lists.antt =====
-- Lists measured by the native numbers, predicates on every element, and sums.
use Prim.Native.Nat.{ℕ, zero, suc, ◌+◌, ◌-◌}
use mathlib.Core.Path.{◌≡◌, refl, ap}
use mathlib.Core.Option.{Option, none, some}
use mathlib.Core.List.{List, [], ◌∷◌, ◌++◌}
use native.Mathlib.Omega.{arith}

module _ {ℓ} {A : Type ℓ} where
  abbrev pub length : List A → ℕ
  length [] = 0
  length (x ∷ xs) = suc (length xs)

  abbrev pub get_elem? : List A → ℕ → Option A
  get_elem? [] i = none
  get_elem? (x ∷ xs) zero = some x
  get_elem? (x ∷ xs) (suc i) = get_elem? xs i

  abbrev pub All {κ} : (A → Type κ) → List A → Type κ
  All P [] = Unit
  All P (x ∷ xs) = P x × All P xs

  pub length-append : (xs ys : List A) → length (xs ++ ys) ≡ length xs + length ys
  length-append [] ys = omega arith
  length-append (x ∷ xs) ys = omega (arith, length-append xs ys)

  pub All-append {κ} : (P : A → Type κ) (xs ys : List A) → All P xs → All P ys → All P (xs ++ ys)
  All-append P [] ys hx hy = hy
  All-append P (x ∷ xs) ys hx hy = (hx.0, All-append P xs ys hx.1 hy)

module _ {ℓ} {A : Type ℓ} where
  abbrev pub drop : ℕ → List A → List A
  drop zero xs = xs
  drop (suc n) [] = []
  drop (suc n) (x ∷ xs) = drop n xs

  pub length-drop : (n : ℕ) (xs : List A) → length (drop n xs) ≡ length xs - n
  length-drop zero xs = omega arith
  length-drop (suc n) [] = omega arith
  length-drop (suc n) (x ∷ xs) = omega (arith, length-drop n xs)

-- n, n + 1, ..., n + k - 1
abbrev pub range_from : ℕ → ℕ → List ℕ
range_from n zero = []
range_from n (suc k) = n ∷ range_from (suc n) k

pub length-range_from : (n k : ℕ) → length (range_from n k) ≡ k
length-range_from n zero = refl
length-range_from n (suc k) = omega (arith, length-range_from (suc n) k)

pub range_from-append : (n k l : ℕ) → range_from n k ++ range_from (n + k) l ≡ range_from n (k + l)
range_from-append n zero l =
    let e : n + 0 ≡ n = omega arith in let f : 0 + l ≡ l = omega arith in rw (e, f)
range_from-append n (suc k) l =
    let e : n + suc k ≡ suc n + k = omega arith in
    let f : suc k + l ≡ suc (k + l) = omega arith in
    rw (e, f) (ap (n ∷◌) (range_from-append (suc n) k l))
