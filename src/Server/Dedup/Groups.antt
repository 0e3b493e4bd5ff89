-- ===== src/Server/Dedup/Groups.antt =====
-- The groups by base hash: one group for each hash, with the records of that hash in order.
use ikuzo_neko_pay.Prelude.{
  ℕ, ◌+◌, ◌≡◌, ◌≢◌, refl, List, [], ◌∷◌, ◌++◌, ◌==◌, if◌then◌else◌, arith, length, length-append,
  All, Bool-cases, inl, inr,
}
use ikuzo_neko_pay.Server.Dedup.{ParsedRecord, push, group_from}

-- The number of records with hash h.
unfoldable pub count_hash : ℕ → List ParsedRecord → ℕ
count_hash h [] = 0
count_hash h (r ∷ rs) = (if r.base_hash == h then 1 else 0) + count_hash h rs

-- The size of the group of hash h.
unfoldable pub size_of : ℕ → List (ℕ × List ParsedRecord) → ℕ
size_of h [] = 0
size_of h ((k, rs) ∷ g) = if k == h then length rs else size_of h g

abbrev pub Fresh : ℕ → List (ℕ × List ParsedRecord) → Type 0
Fresh h = All (λ kr. kr.0 ≢ h)

-- No hash has two groups, and a group holds only records of its hash.
abbrev pub IsGrouped : List (ℕ × List ParsedRecord) → Type 0
IsGrouped [] = Unit
IsGrouped ((h, rs) ∷ g) = All (λ r. r.base_hash ≡ h) rs × Fresh h g × IsGrouped g

size_of-push :
    (h : ℕ) (r : ParsedRecord) (g : List (ℕ × List ParsedRecord))
    → size_of h (push r g) ≡ size_of h g + (if r.base_hash == h then 1 else 0)
unfolding size_of push
size_of-push h r [] = ground arith
size_of-push h r ((k, rs) ∷ g) = ground (arith, size_of-push h r g, length-append rs (r ∷ []))

pub size_of-group_from :
    (h : ℕ) (g : List (ℕ × List ParsedRecord)) (rs : List ParsedRecord)
    → size_of h (group_from g rs) ≡ size_of h g + count_hash h rs
unfolding group_from count_hash
size_of-group_from h g [] = omega arith
size_of-group_from h g (r ∷ rs) =
    omega (arith, size_of-group_from h (push r g) rs, size_of-push h r g)

Fresh-push :
    (h : ℕ) (r : ParsedRecord) (g : List (ℕ × List ParsedRecord))
    → r.base_hash ≢ h
    → Fresh h g
    → Fresh h (push r g)
unfolding push
Fresh-push h r [] ne f = (ne, tt)
Fresh-push h r ((k, rs) ∷ g) ne f = ground (arith, Fresh-push h r g ne f.1)

All-snoc :
    (h : ℕ) (r : ParsedRecord) (rs : List ParsedRecord)
    → All (λ s. s.base_hash ≡ h) rs
    → r.base_hash ≡ h
    → All (λ s. s.base_hash ≡ h) (rs ++ r ∷ [])
All-snoc h r [] a e = (e, tt)
All-snoc h r (x ∷ rs) a e = (a.0, All-snoc h r rs a.1 e)

push-IsGrouped :
    (r : ParsedRecord) (g : List (ℕ × List ParsedRecord)) → IsGrouped g → IsGrouped (push r g)
unfolding push
push-IsGrouped r [] h = ((refl, tt), tt, tt)
push-IsGrouped r ((k, rs) ∷ g) h = elim (Bool-cases (k == r.base_hash)) [
  | inl same ↦ rw same (All-snoc k r rs h.0 (ground arith), h.1, h.2)
  | inr other ↦ rw other (h.0, Fresh-push k r g (λ e. ground arith) h.1, push-IsGrouped r g h.2)
]

pub group_from-IsGrouped :
    (g : List (ℕ × List ParsedRecord)) (rs : List ParsedRecord)
    → IsGrouped g
    → IsGrouped (group_from g rs)
unfolding group_from
group_from-IsGrouped g [] h = h
group_from-IsGrouped g (r ∷ rs) h = group_from-IsGrouped (push r g) rs (push-IsGrouped r g h)
