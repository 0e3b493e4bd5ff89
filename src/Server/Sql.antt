-- ===== src/Server/Sql.antt =====
-- The statements that the services send for whole tables: DELETE, UPDATE and COUNT with a WHERE.
use ikuzo_neko_pay.Prelude.{
  ℕ, ◌+◌, ◌≡◌, refl, Bool, true, false, List, [], ◌∷◌, if◌then◌else◌, arith,
}

module _ {A : Type 0} (test : A → Bool) where
  unfoldable pub delete_where : List A → List A
  delete_where [] = []
  delete_where (x ∷ xs) = if test x then delete_where xs else x ∷ delete_where xs

  unfoldable pub update_where : (A → A) → List A → List A
  update_where f [] = []
  update_where f (x ∷ xs) = (if test x then f x else x) ∷ update_where f xs

  unfoldable pub count_where : List A → ℕ
  count_where [] = 0
  count_where (x ∷ xs) = (if test x then 1 else 0) + count_where xs

  unfoldable pub any_where : List A → Bool
  any_where [] = false
  any_where (x ∷ xs) = if test x then true else any_where xs

  pub any_where-delete_where : (xs : List A) → any_where (delete_where xs) ≡ false
  unfolding any_where delete_where
  any_where-delete_where [] = refl
  any_where-delete_where (x ∷ xs) = ground (arith, any_where-delete_where xs)

  pub any_where-update_where :
      (f : A → A) (xs : List A)
      → ((x : A) → test (f x) ≡ false)
      → any_where (update_where f xs) ≡ false
  unfolding any_where update_where
  any_where-update_where f [] h = refl
  any_where-update_where f (x ∷ xs) h = ground (arith, h x, any_where-update_where f xs h)

  pub count_where-eq-zero : (xs : List A) → any_where xs ≡ false → count_where xs ≡ 0
  unfolding any_where count_where
  count_where-eq-zero [] h = refl
  count_where-eq-zero (x ∷ xs) h = ground (arith, count_where-eq-zero xs)
