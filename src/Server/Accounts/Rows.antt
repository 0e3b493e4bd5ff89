-- ===== src/Server/Accounts/Rows.antt =====
-- The rows of the members under the changes of an operation.
use ikuzo_neko_pay.Prelude.{
  ℕ, ◌≤◌, ◌≡◌, ◌≢◌, refl, String, true, not, Option, some, List, [], ◌∷◌, ◌==◌, arith, Bool-cases,
  inl, inr,
}
use ikuzo_neko_pay.Server.Store.{Db, Member, ok, find_member}
use ikuzo_neko_pay.Server.Sql.{delete_where, update_where, any_where}
use ikuzo_neko_pay.Server.Auth.{Library}
use ikuzo_neko_pay.Server.Accounts.{renamed, is_member, max_member}
use ikuzo_neko_pay.Server.Accounts.Operations.{is_active_admin, may_act}

pub may_act-any_where :
    (k : ℕ) (ms : List Member)
    → may_act (find_member k ms) ≡ true
    → any_where is_active_admin ms ≡ true
unfolding any_where find_member
may_act-any_where k [] h = cc
may_act-any_where k (m ∷ ms) h = ground (arith, may_act-any_where k ms)

pub find_member-max_member :
    (k : ℕ) (ms : List Member) (m : Member)
    → find_member k ms ≡ some m
    → (m.id ≡ k) × (k ≤ max_member ms)
unfolding find_member max_member
find_member-max_member k [] m h = cc
find_member-max_member k (x ∷ xs) m h = ground (arith, find_member-max_member k xs m)

pub find_member-update_other :
    (j k : ℕ) (m' : Member) (ms : List Member)
    → m'.id ≡ k
    → j ≢ k
    → find_member j (update_where (is_member k) (λ x. m') ms) ≡ find_member j ms
unfolding find_member update_where
find_member-update_other j k m' [] e h = refl
find_member-update_other j k m' (x ∷ xs) e h =
    ground (arith, find_member-update_other j k m' xs e h)

pub find_member-update_self :
    (k : ℕ) (m m' : Member) (ms : List Member)
    → m'.id ≡ k
    → find_member k ms ≡ some m
    → find_member k (update_where (is_member k) (λ x. m') ms) ≡ some m'
unfolding find_member update_where
find_member-update_self k m m' [] e h = cc
find_member-update_self k m m' (x ∷ xs) e h = ground (arith, find_member-update_self k m m' xs e)

-- A row is replaced by one that is as much an active administrator, or is another's.
pub update-may_act :
    (actor k : ℕ) (m m' : Member) (ms : List Member)
    → m'.id ≡ k
    → find_member k ms ≡ some m
    → (k ≡ actor → is_active_admin m ≡ true → is_active_admin m' ≡ true)
    → may_act (find_member actor ms) ≡ true
    → may_act (find_member actor (update_where (is_member k) (λ x. m') ms)) ≡ true
update-may_act actor k m m' ms e h keeps a = elim (Bool-cases (actor == k)) [
  | inl same ↦ ground (arith, find_member-update_self k m m' ms e h, keeps)
  | inr other ↦ ground (arith, find_member-update_other actor k m' ms e)
]

pub renamed-flags :
    (l : Library) (k : ℕ) (n : Option String) (m m' : Member) (db : Db)
    → renamed l k n m db ≡ ok m'
    → (m'.id ≡ m.id) × (m'.is_admin ≡ m.is_admin) × (m'.is_active ≡ m.is_active)
renamed-flags l k n m m' db h = ground arith

pub find_member-head :
    (k : ℕ) (m : Member) (ms : List Member) → m.id ≢ k → find_member k (m ∷ ms) ≡ find_member k ms
unfolding find_member
find_member-head k m ms h = ground arith

pub find_member-delete_other :
    (j k : ℕ) (ms : List Member)
    → j ≢ k
    → find_member j (delete_where (is_member k) ms) ≡ find_member j ms
unfolding find_member delete_where
find_member-delete_other j k [] h = refl
find_member-delete_other j k (m ∷ ms) h = ground (arith, find_member-delete_other j k ms h)

pub find_member-delete_rest :
    (k : ℕ) (ms : List Member)
    → find_member k (delete_where (λ m. not (is_member k m)) ms) ≡ find_member k ms
unfolding find_member delete_where
find_member-delete_rest k [] = refl
find_member-delete_rest k (m ∷ ms) = ground (arith, find_member-delete_rest k ms)
