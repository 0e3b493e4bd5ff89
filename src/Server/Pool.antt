-- ===== src/Server/Pool.antt =====
-- What the ledger promises, without its rows: a pool with a balance of each member.
pub mod Refines
use ikuzo_neko_pay.Prelude.{ℕ, ◌≡◌, ◌≢◌, List, [], ◌∷◌, ◌==◌, if◌then◌else◌}
use ikuzo_neko_pay.Prelude.Int.{ℤ, pos, neg, ◌+ℤ◌, ◌≤ℤ◌}

abbrev pub Pool : Type 0
Pool = ℕ → ℤ

-- The part of a change by z at member k that member j sees.
abbrev pub at : ℕ → ℤ → ℕ → ℤ
at k z j = if k == j then z else pos 0

-- What a caller is told: that the pool stays, that a member gets points, spends them, or hands them on to
-- another.
pub data Answer : Type 0 where
  unchanged : Answer
  gained spent : (k : ℕ) (z : ℤ) → Answer
  handed : (k l : ℕ) (z : ℤ) → Answer

-- What each answer says of the pool before and after. Points that are spent or handed on are there.
pub data Step : Answer → Pool → Pool → Type 0 where
  idle : {b b' : Pool} → ((j : ℕ) → b' j ≡ b j) → Step unchanged b b'
  credit :
      {b b' : Pool} (k : ℕ) (z : ℤ)
      → pos 1 ≤ℤ z
      → ((j : ℕ) → b' j ≡ at k z j +ℤ b j)
      → Step (gained k z) b b'
  debit :
      {b b' : Pool} (k : ℕ) (z : ℤ)
      → pos 1 ≤ℤ z
      → z ≤ℤ b k
      → ((j : ℕ) → b' j ≡ at k (neg z) j +ℤ b j)
      → Step (spent k z) b b'
  shift :
      {b b' : Pool} (k l : ℕ) (z : ℤ)
      → pos 1 ≤ℤ z
      → z ≤ℤ b k
      → k ≢ l
      → ((j : ℕ) → b' j ≡ at l z j +ℤ (at k (neg z) j +ℤ b j))
      → Step (handed k l z) b b'

-- The pools that a sequence of answers passes through.
pub data Steps : List Answer → Pool → Pool → Type 0 where
  start : {b : Pool} → Steps [] b b
  next :
      {x : Answer} {xs : List Answer} {b c d : Pool}
      → Step x b c
      → Steps xs c d
      → Steps (x ∷ xs) b d
