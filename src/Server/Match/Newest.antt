-- ===== src/Server/Match/Newest.antt =====
-- Which real transactions are offered.
use ikuzo_neko_pay.Prelude.{
  ℕ, zero, suc, ◌≤◌, ◌≡◌, refl, sym, subst, ◌⊎◌, inl, inr, true, List, [], ◌∷◌, All, length, leb,
  if_either, arith,
}
use ikuzo_neko_pay.Server.Store.{Db, RealTransaction}
use ikuzo_neko_pay.Server.Dedup.{RealKind}
use ikuzo_neko_pay.Server.Match.{matches, matching, insert_newest, newest_first, limit, candidates}

-- One of the list.
abbrev pub Among : RealTransaction → List RealTransaction → Type 0
Among r [] = ⊥
Among r (s ∷ rs) = (r ≡ s) ⊎ Among r rs

abbrev pub NotNewer : RealTransaction → RealTransaction → Type 0
NotNewer r s = r.occurred_at ≤ s.occurred_at

abbrev Sorted : List RealTransaction → Type 0
Sorted [] = Unit {0}
Sorted (r ∷ rs) = All (λ s. NotNewer s r) rs × Sorted rs

module _ (kind : RealKind) (points : ℕ) where
  All-matching :
      (rs : List RealTransaction)
      → All (λ r. matches kind points r ≡ true) (matching kind points rs)
  unfolding matching
  All-matching [] = tt
  All-matching (r ∷ rs) =
      if_either (All (λ s. matches kind points s ≡ true)) (matches kind points r)
        (r ∷ matching kind points rs) (matching kind points rs) (λ h. (h, All-matching rs))
        (λ h. All-matching rs)

  Among-matching :
      (r : RealTransaction) (rs : List RealTransaction)
      → Among r rs
      → matches kind points r ≡ true
      → Among r (matching kind points rs)
  unfolding matching
  Among-matching r [] m h = elim m [ ]
  Among-matching r (s ∷ rs) (inl same) h =
      rw (subst (λ x. matches kind points x ≡ true) same h) (inl same)
  Among-matching r (s ∷ rs) (inr later) h =
      if_either (Among r) (matches kind points s) (s ∷ matching kind points rs)
        (matching kind points rs) (λ e. inr (Among-matching r rs later h))
        (λ e. Among-matching r rs later h)

Among-insert_newest :
    (r : RealTransaction) (rs : List RealTransaction) → Among r (insert_newest r rs)
unfolding insert_newest
Among-insert_newest r [] = inl refl
Among-insert_newest r (s ∷ rs) =
    if_either (Among r) (leb s.occurred_at r.occurred_at) (r ∷ s ∷ rs) (s ∷ insert_newest r rs)
      (λ e. inl refl) (λ e. inr (Among-insert_newest r rs))

insert_newest-keeps :
    (r t : RealTransaction) (rs : List RealTransaction) → Among t rs → Among t (insert_newest r rs)
unfolding insert_newest
insert_newest-keeps r t [] m = elim m [ ]
insert_newest-keeps r t (s ∷ rs) (inl same) =
    if_either (Among t) (leb s.occurred_at r.occurred_at) (r ∷ s ∷ rs) (s ∷ insert_newest r rs)
      (λ e. inr (inl same)) (λ e. inl same)
insert_newest-keeps r t (s ∷ rs) (inr later) =
    if_either (Among t) (leb s.occurred_at r.occurred_at) (r ∷ s ∷ rs) (s ∷ insert_newest r rs)
      (λ e. inr (inr later)) (λ e. inr (insert_newest-keeps r t rs later))

Among-newest_first :
    (r : RealTransaction) (rs : List RealTransaction) → Among r rs → Among r (newest_first rs)
unfolding newest_first
Among-newest_first r [] m = elim m [ ]
Among-newest_first r (s ∷ rs) (inl same) =
    subst (λ x. Among r (insert_newest x (newest_first rs))) same
      (Among-insert_newest r (newest_first rs))
Among-newest_first r (s ∷ rs) (inr later) =
    insert_newest-keeps s r (newest_first rs) (Among-newest_first r rs later)

module _ (P : RealTransaction → Type 0) where
  All-insert_newest :
      (r : RealTransaction) (rs : List RealTransaction)
      → P r
      → All P rs
      → All P (insert_newest r rs)
  unfolding insert_newest
  All-insert_newest r [] h hs = (h, tt)
  All-insert_newest r (s ∷ rs) h hs =
      if_either (All P) (leb s.occurred_at r.occurred_at) (r ∷ s ∷ rs) (s ∷ insert_newest r rs)
        (λ e. (h, hs)) (λ e. (hs.0, All-insert_newest r rs h hs.1))

  All-newest_first : (rs : List RealTransaction) → All P rs → All P (newest_first rs)
  unfolding newest_first
  All-newest_first [] hs = tt
  All-newest_first (r ∷ rs) hs =
      All-insert_newest r (newest_first rs) hs.0 (All-newest_first rs hs.1)

  All-limit : (n : ℕ) (rs : List RealTransaction) → All P rs → All P (limit n rs)
  unfolding limit
  All-limit zero rs hs = tt
  All-limit (suc n) [] hs = tt
  All-limit (suc n) (r ∷ rs) hs = (hs.0, All-limit n rs hs.1)

length-limit : (n : ℕ) (rs : List RealTransaction) → length (limit n rs) ≤ n
unfolding limit
length-limit zero rs = omega arith
length-limit (suc n) [] = omega arith
length-limit (suc n) (r ∷ rs) = omega (arith, length-limit n rs)

All-weaken :
    (r s : RealTransaction) (rs : List RealTransaction)
    → NotNewer s r
    → All (λ x. NotNewer x s) rs
    → All (λ x. NotNewer x r) rs
All-weaken r s [] h hs = tt
All-weaken r s (x ∷ rs) h hs = (omega (arith, h, hs.0), All-weaken r s rs h hs.1)

Sorted-insert_newest :
    (r : RealTransaction) (rs : List RealTransaction) → Sorted rs → Sorted (insert_newest r rs)
unfolding insert_newest
Sorted-insert_newest r [] v = (tt, tt)
Sorted-insert_newest r (s ∷ rs) v =
    if_either Sorted (leb s.occurred_at r.occurred_at) (r ∷ s ∷ rs) (s ∷ insert_newest r rs)
      (λ e. let h : NotNewer s r = ground (arith, e) in ((h, All-weaken r s rs h v.0), v))
      (λ e. (
        All-insert_newest (λ x. NotNewer x s) r rs (ground (arith, e)) v.0,
        Sorted-insert_newest r rs v.1,
      ))

Sorted-newest_first : (rs : List RealTransaction) → Sorted (newest_first rs)
unfolding newest_first
Sorted-newest_first [] = tt
Sorted-newest_first (r ∷ rs) = Sorted-insert_newest r (newest_first rs) (Sorted-newest_first rs)

All-Among :
    (P : RealTransaction → Type 0) (r : RealTransaction) (rs : List RealTransaction)
    → All P rs
    → Among r rs
    → P r
All-Among P r [] hs m = elim m [ ]
All-Among P r (s ∷ rs) hs (inl same) = subst P (sym same) hs.0
All-Among P r (s ∷ rs) hs (inr later) = All-Among P r rs hs.1 later

limit-newest :
    (n : ℕ) (r : RealTransaction) (rs : List RealTransaction)
    → Sorted rs
    → Among r rs
    → Among r (limit n rs) ⊎ All (NotNewer r) (limit n rs)
unfolding limit
limit-newest zero r rs v m = inr tt
limit-newest (suc n) r [] v m = elim m [ ]
limit-newest (suc n) r (s ∷ rs) v (inl same) = inl (inl same)
limit-newest (suc n) r (s ∷ rs) v (inr later) = elim (limit-newest n r rs v.1 later) [
  | inl found ↦ inl (inr found)
  | inr older ↦ inr (All-Among (λ x. NotNewer x s) r rs v.0 later, older)
]

-- At most ten real transactions are offered, each unattributed and of the kind and the signed value
-- that was asked for; and one that is so but is not offered is not newer than any that is.
pub candidates-newest :
    (kind : RealKind) (points : ℕ) (db : Db)
    → (length (candidates kind points db) ≤ 10)
      × All (λ r. matches kind points r ≡ true) (candidates kind points db)
      × ((r : RealTransaction)
          → Among r db.reals
          → matches kind points r ≡ true
          → Among r (candidates kind points db) ⊎ All (NotNewer r) (candidates kind points db))
unfolding candidates
candidates-newest kind points db =
    let found = matching kind points db.reals in
    (
      length-limit 10 (newest_first found),
      All-limit _ 10 (newest_first found)
          (All-newest_first _ found (All-matching kind points db.reals)),
      λ r m h.
          limit-newest 10 r (newest_first found) (Sorted-newest_first found)
            (Among-newest_first r found (Among-matching kind points r db.reals m h)),
    )
