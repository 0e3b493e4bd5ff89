-- ===== src/Server/Pool/Refines.antt =====
-- Every operation of the ledger is a step of the pool.
use ikuzo_neko_pay.Prelude.{
  ℕ, zero, suc, ◌≡◌, ◌≢◌, refl, ◌≡⟨◌⟩◌, ◌∎, ◌⊎◌, inl, inr, ap, Bool, true, false, List,
  if◌then◌else◌, [], ◌∷◌, arith, All,
}
use ikuzo_neko_pay.Prelude.Int.{ℤ, pos, neg, ◌+ℤ◌, ◌≤ℤ◌}
use ikuzo_neko_pay.Server.Store.{Db, LedgerEntry, Result, ok, err, balance, insert_entry, is_found}
use ikuzo_neko_pay.Server.Ledger.{existing_by_key, TopupIn, PlayIn, record_topup, record_play}
use ikuzo_neko_pay.Server.Transfer.{TransferIn, Transferred, transfer, insert_pair, existing_pair}
use ikuzo_neko_pay.Server.Operations.{
  Operation, topping, playing, moving, kept_one, kept_pair, apply, apply_all, IsStrict,
}
use ikuzo_neko_pay.Server.Pool.{
  Pool, Answer, unchanged, gained, spent, handed, Step, idle, credit, debit, shift, at, Steps,
  start, next,
}

-- The balances of the tables.
abbrev pub pool : Db → Pool
pool db k = balance k db.entries

record_topup-row :
    (now : ℕ) (a : TopupIn) (db db' : Db) (e : LedgerEntry)
    → record_topup now a db ≡ ok (e, db')
    → ((is_found (existing_by_key a.idempotency_key db) ≡ true) × (db' ≡ db))
      ⊎ ((is_found (existing_by_key a.idempotency_key db) ≡ false)
          × (pos 1 ≤ℤ a.points)
          × (db'.entries ≡ e ∷ db.entries)
          × (e.member_id ≡ a.member_id)
          × (e.points_delta ≡ a.points))
unfolding record_topup
record_topup-row now a db db' e h = ground arith

record_play-row :
    (now : ℕ) (a : PlayIn) (db db' : Db) (e : LedgerEntry)
    → record_play now a db ≡ ok (e, db')
    → ((is_found (existing_by_key a.idempotency_key db) ≡ true) × (db' ≡ db))
      ⊎ ((is_found (existing_by_key a.idempotency_key db) ≡ false)
          × (pos 1 ≤ℤ a.points)
          × (a.allow_negative ≡ false → a.points ≤ℤ balance a.member_id db.entries)
          × (db'.entries ≡ e ∷ db.entries)
          × (e.member_id ≡ a.member_id)
          × (e.points_delta ≡ neg a.points))
unfolding record_play
record_play-row now a db db' e h = ground arith

existing_pair-keeps :
    (x : LedgerEntry) (db db' : Db) (e f : LedgerEntry)
    → existing_pair x db ≡ ok (e, f, db')
    → db' ≡ db
unfolding existing_pair
existing_pair-keeps x db db' e f h = ground arith

abbrev PairRows : TransferIn → Db → Db → LedgerEntry → LedgerEntry → Type 0
PairRows a db db' out in_row =
    (db'.entries ≡ in_row ∷ out ∷ db.entries)
    × (out.member_id ≡ a.from_member_id)
    × (out.points_delta ≡ neg a.points)
    × (in_row.member_id ≡ a.to_member_id)
    × (in_row.points_delta ≡ a.points)

insert_pair-PairRows :
    (now group : ℕ) (a : TransferIn) (db db' : Db) (e f : LedgerEntry)
    → insert_pair now group a db ≡ ok (e, f, db')
    → PairRows a db db' e f
unfolding insert_pair insert_entry
insert_pair-PairRows now group a db db' e f h = ground arith

transfer-rows :
    (fuel now group : ℕ) (a : TransferIn) (db db' : Db) (e f : LedgerEntry)
    → transfer fuel now group a db ≡ ok (e, f, db')
    → ((is_found (existing_by_key a.idempotency_key db) ≡ true) × (db' ≡ db))
      ⊎ ((is_found (existing_by_key a.idempotency_key db) ≡ false)
          × (pos 1 ≤ℤ a.points)
          × (a.allow_negative ≡ false → a.points ≤ℤ balance a.from_member_id db.entries)
          × (a.from_member_id ≢ a.to_member_id)
          × PairRows a db db' e f)
unfolding transfer
transfer-rows zero now group a db db' e f h = cc
transfer-rows (suc fuel) now group a db db' e f h = grind (
  arith,
  existing_pair-keeps,
  insert_pair-PairRows now group a db db' e f,
  transfer-rows fuel now group a db db' e f,
)

balance-cons :
    (e : LedgerEntry) (es es' : List LedgerEntry) (k j : ℕ) (z : ℤ)
    → es' ≡ e ∷ es
    → e.member_id ≡ k
    → e.points_delta ≡ z
    → balance j es' ≡ at k z j +ℤ balance j es
unfolding balance
balance-cons e es es' k j z h p q = rw (h, p, q)

moved-balance :
    (a : TransferIn) (db db' : Db) (e f : LedgerEntry)
    → PairRows a db db' e f
    → (j : ℕ)
    → balance j db'.entries
      ≡ at a.to_member_id a.points j
        +ℤ (at a.from_member_id (neg a.points) j +ℤ balance j db.entries)
moved-balance a db db' e f (rows, from_k, from_z, to_k, to_z) j =
    balance j db'.entries
    ≡⟨ balance-cons f (e ∷ db.entries) db'.entries a.to_member_id j a.points rows to_k to_z ⟩
      at a.to_member_id a.points j +ℤ balance j (e ∷ db.entries)
    ≡⟨ ap (λ b. at a.to_member_id a.points j +ℤ b)
        (balance-cons e db.entries (e ∷ db.entries) a.from_member_id j (neg a.points) refl from_k
          from_z) ⟩
      at a.to_member_id a.points j
      +ℤ (at a.from_member_id (neg a.points) j +ℤ balance j db.entries) ∎

-- The answer to an operation: unchanged where it fails or its key is in use, and else what it asks for.
abbrev answered : {A : Type 0} → Bool → Answer → Result A → Answer
answered replayed x (ok r) = if replayed then unchanged else x
answered replayed x (err e) = unchanged

abbrev pub answer : Operation → Db → Answer
answer (topping now a) db =
    answered (is_found (existing_by_key a.idempotency_key db)) (gained a.member_id a.points)
      (record_topup now a db)
answer (playing now a) db =
    answered (is_found (existing_by_key a.idempotency_key db)) (spent a.member_id a.points)
      (record_play now a db)
answer (moving fuel now group a) db =
    answered (is_found (existing_by_key a.idempotency_key db))
      (handed a.from_member_id a.to_member_id a.points) (transfer fuel now group a db)

-- The answers to a sequence of operations, each on the tables that the ones before it left.
unfoldable pub answers : List Operation → Db → List Answer
answers [] db = []
answers (o ∷ os) db = answer o db ∷ answers os (apply o db)

kept_one-Step :
    (db : Db) (b : Bool) (x : Answer) (r : Result (LedgerEntry × Db))
    → ((e : LedgerEntry) (db' : Db)
        → r ≡ ok (e, db')
        → Step (if b then unchanged else x) (pool db) (pool db'))
    → Step (answered b x r) (pool db) (pool (kept_one db r))
kept_one-Step db b x (ok (e, db')) h = h e db' refl
kept_one-Step db b x (err z) h = idle (λ j. refl)

kept_pair-Step :
    (db : Db) (b : Bool) (x : Answer) (r : Result Transferred)
    → ((e f : LedgerEntry) (db' : Db)
        → r ≡ ok (e, f, db')
        → Step (if b then unchanged else x) (pool db) (pool db'))
    → Step (answered b x r) (pool db) (pool (kept_pair db r))
kept_pair-Step db b x (ok (e, f, db')) h = h e f db' refl
kept_pair-Step db b x (err z) h = idle (λ j. refl)

replayed-Step :
    (b : Bool) (x : Answer) (db db' : Db)
    → b ≡ true
    → db' ≡ db
    → Step (if b then unchanged else x) (pool db) (pool db')
replayed-Step true x db db' h same = idle (λ j. rw same)
replayed-Step false x db db' h same = cc

new-Step :
    (b : Bool) (x : Answer) (p q : Pool)
    → b ≡ false
    → Step x p q
    → Step (if b then unchanged else x) p q
new-Step true x p q h s = cc
new-Step false x p q h s = s

-- Each operation without leave to overdraw is a step of the pool with its answer.
pub apply-Step :
    (o : Operation) (db : Db) → IsStrict o → Step (answer o db) (pool db) (pool (apply o db))
apply-Step (topping now a) db strict =
    let b = is_found (existing_by_key a.idempotency_key db) in
    kept_one-Step db b (gained a.member_id a.points) (record_topup now a db) (λ e db' h.
      elim (record_topup-row now a db db' e h) [
        | inl (found, same) ↦ replayed-Step b (gained a.member_id a.points) db db' found same
        | inr (new, some_points, rows, k, z) ↦
            new-Step b (gained a.member_id a.points) (pool db) (pool db') new (
              credit a.member_id a.points some_points
                (λ j. balance-cons e db.entries db'.entries a.member_id j a.points rows k z))
      ])
apply-Step (playing now a) db strict =
    let b = is_found (existing_by_key a.idempotency_key db) in
    kept_one-Step db b (spent a.member_id a.points) (record_play now a db) (λ e db' h.
      elim (record_play-row now a db db' e h) [
        | inl (found, same) ↦ replayed-Step b (spent a.member_id a.points) db db' found same
        | inr (new, some_points, covers, rows, k, z) ↦
            new-Step b (spent a.member_id a.points) (pool db) (pool db') new (
              debit a.member_id a.points some_points (covers strict)
                (λ j. balance-cons e db.entries db'.entries a.member_id j (neg a.points) rows k z))
      ])
apply-Step (moving fuel now group a) db strict =
    let b = is_found (existing_by_key a.idempotency_key db) in
    let x = handed a.from_member_id a.to_member_id a.points in
    kept_pair-Step db b x (transfer fuel now group a db) (λ e f db' h.
      elim (transfer-rows fuel now group a db db' e f h) [
        | inl (found, same) ↦ replayed-Step b x db db' found same
        | inr (new, some_points, covers, other, rows) ↦ new-Step b x (pool db) (pool db') new (
            shift a.from_member_id a.to_member_id a.points some_points (covers strict) other
              (moved-balance a db db' e f rows))
      ])

-- The ledger refines the pool: over any sequence of top-ups, plays and transfers without leave to
-- overdraw, the balances pass through the steps of the pool that their answers name. The answer to an
-- operation that returns under a key that is not in use is the credit, the debit or the shift that it
-- asks for, of its members and its points; that to one that fails, or whose key is in use, is that the
-- pool stays. A debit and a shift are covered.
pub apply_all-Steps :
    (os : List Operation) (db : Db)
    → All IsStrict os
    → Steps (answers os db) (pool db) (pool (apply_all os db))
unfolding apply_all answers
apply_all-Steps [] db strict = start
apply_all-Steps (o ∷ os) db strict =
    next (apply-Step o db strict.0) (apply_all-Steps os (apply o db) strict.1)
