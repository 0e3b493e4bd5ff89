-- ===== src/Server/Dedup/Counts.antt =====
-- What reconcile inserts: for each hash the missing occurrences, numbered on from the stored ones.
use ikuzo_neko_pay.Prelude.{
  ℕ, zero, suc, ◌+◌, ◌-◌, ◌≡◌, ◌≢◌, refl, ap, sym, ◌∙◌, List, [], ◌∷◌, ◌++◌, ◌==◌, if◌then◌else◌,
  arith, length, drop, length-drop, All, range_from, length-range_from, Bool-cases, inl, inr,
}
use mathlib.Core.List.{append-nil}
use ikuzo_neko_pay.Server.Dedup.{ParsedRecord, number_from, reconcile_groups, reconcile, group_from}
use ikuzo_neko_pay.Server.Dedup.Groups.{
  count_hash, size_of, Fresh, IsGrouped, size_of-group_from, group_from-IsGrouped,
}

-- The occurrence indices of the records with hash h, in order.
unfoldable pub indices : ℕ → List ParsedRecord → List ℕ
indices h [] = []
indices h (r ∷ rs) = if r.base_hash == h then r.occurrence_index ∷ indices h rs else indices h rs

pub length-indices : (h : ℕ) (rs : List ParsedRecord) → length (indices h rs) ≡ count_hash h rs
unfolding indices count_hash
length-indices h [] = refl
length-indices h (r ∷ rs) = ground (arith, length-indices h rs)

pub indices-append :
    (h : ℕ) (rs ss : List ParsedRecord) → indices h (rs ++ ss) ≡ indices h rs ++ indices h ss
unfolding indices
indices-append h [] ss = refl
indices-append h (r ∷ rs) ss = elim (Bool-cases (r.base_hash == h)) [
  | inl same ↦ simp (same, indices-append h rs ss)
  | inr other ↦ simp (other, indices-append h rs ss)
]

pub count_hash-append :
    (h : ℕ) (rs ss : List ParsedRecord)
    → count_hash h (rs ++ ss) ≡ count_hash h rs + count_hash h ss
unfolding count_hash
count_hash-append h [] ss = omega arith
count_hash-append h (r ∷ rs) ss = omega (arith, count_hash-append h rs ss)

All-drop :
    (h n : ℕ) (rs : List ParsedRecord)
    → All (λ r. r.base_hash ≡ h) rs
    → All (λ r. r.base_hash ≡ h) (drop n rs)
All-drop h zero rs a = a
All-drop h (suc n) [] a = tt
All-drop h (suc n) (r ∷ rs) a = All-drop h n rs a.1

module _ (digest : ℕ → ℕ → ℕ) where
  indices-number_from :
      (h idx : ℕ) (rs : List ParsedRecord)
      → All (λ r. r.base_hash ≡ h) rs
      → indices h (number_from digest h idx rs) ≡ range_from idx (length rs)
  unfolding indices number_from
  indices-number_from h idx [] a = refl
  indices-number_from h idx (r ∷ rs) a = ground (arith, a.0, indices-number_from h (suc idx) rs a.1)

  indices-number_from_ne :
      (k h idx : ℕ) (rs : List ParsedRecord)
      → k ≢ h
      → All (λ r. r.base_hash ≡ k) rs
      → indices h (number_from digest k idx rs) ≡ []
  unfolding indices number_from
  indices-number_from_ne k h idx [] ne a = refl
  indices-number_from_ne k h idx (r ∷ rs) ne a =
      ground (arith, a.0, indices-number_from_ne k h (suc idx) rs ne a.1)

  indices-Fresh :
      (h : ℕ) (counts : ℕ → ℕ) (g : List (ℕ × List ParsedRecord))
      → Fresh h g
      → IsGrouped g
      → indices h (reconcile_groups digest counts g).to_insert ≡ []
  unfolding reconcile_groups
  indices-Fresh h counts [] f i = unfold indices in refl
  indices-Fresh h counts ((k, rs) ∷ g) f i =
      rw
        (
          indices-append,
          indices-number_from_ne k h (counts k) (drop (counts k) rs) f.0
              (All-drop k (counts k) rs i.0),
        )
        (indices-Fresh h counts g f.1 i.2)

  -- The group of h itself stands first.
  indices-head_group :
      (h : ℕ) (counts : ℕ → ℕ) (rs : List ParsedRecord) (g : List (ℕ × List ParsedRecord))
      → IsGrouped ((h, rs) ∷ g)
      → indices h (reconcile_groups digest counts ((h, rs) ∷ g)).to_insert
        ≡ range_from (counts h) (length rs - counts h)
  unfolding reconcile_groups
  indices-head_group h counts rs g i =
      rw
        (
          indices-append,
          indices-number_from h (counts h) (drop (counts h) rs) (All-drop h (counts h) rs i.0),
          indices-Fresh h counts g i.1 i.2,
          length-drop,
        )
        (append-nil _)

  indices-reconcile_groups :
      (h : ℕ) (counts : ℕ → ℕ) (g : List (ℕ × List ParsedRecord))
      → IsGrouped g
      → indices h (reconcile_groups digest counts g).to_insert
        ≡ range_from (counts h) (size_of h g - counts h)
  unfolding reconcile_groups size_of
  indices-reconcile_groups h counts [] i =
      let e : 0 - counts h ≡ 0 = omega arith in unfold indices in rw e
  indices-reconcile_groups h counts ((k, rs) ∷ g) i = elim (Bool-cases (k == h)) [
    | inl same ↦
        let e : h ≡ k = ground arith in
        rw (same, ← e) (indices-head_group h counts rs g (rw (← e) at i))
    | inr other ↦
        rw
          (
            other,
            indices-append,
            indices-number_from_ne k h (counts k) (drop (counts k) rs) (λ e. ground arith)
                (All-drop k (counts k) rs i.0),
          )
          (indices-reconcile_groups h counts g i.2)
  ]

  -- For every hash h, the new rows are the records of h beyond those in the database, numbered on
  -- from the number stored: none are left out, none are repeated.
  pub indices-reconcile :
      (h : ℕ) (records : List ParsedRecord) (counts : ℕ → ℕ)
      → indices h (reconcile digest records counts).to_insert
        ≡ range_from (counts h) (count_hash h records - counts h)
  unfolding reconcile
  indices-reconcile h records counts =
      rw
        (
          indices-reconcile_groups h counts (group_from [] records)
              (group_from-IsGrouped [] records tt),
          size_of-group_from h [] records,
        )
        (unfold size_of in ap (λ n. range_from (counts h) (n - counts h)) (omega arith))

  pub count_hash-reconcile :
      (h : ℕ) (records : List ParsedRecord) (counts : ℕ → ℕ)
      → count_hash h (reconcile digest records counts).to_insert ≡ count_hash h records - counts h
  count_hash-reconcile h records counts =
      sym (length-indices h _)
      ∙ ap length (indices-reconcile h records counts)
      ∙ length-range_from (counts h) (count_hash h records - counts h)
