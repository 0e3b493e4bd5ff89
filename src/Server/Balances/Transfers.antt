-- ===== src/Server/Balances/Transfers.antt =====
-- What a transfer does to the balances and to the total.
use ikuzo_neko_pay.Prelude.{
  ℕ, zero, suc, ◌≡◌, ◌≢◌, ◌⊎◌, inl, inr, false, none, some, ◌∷◌, ◌==◌, if◌then◌else◌, arith,
}
use ikuzo_neko_pay.Prelude.Int.{ℤ, pos, neg, ◌+ℤ◌, ◌≤ℤ◌, int_laws}
use ikuzo_neko_pay.Server.Store.{Db, LedgerEntry, ok, balance, internal_total, insert_entry}
use ikuzo_neko_pay.Server.Ledger.{existing_by_key}
use ikuzo_neko_pay.Server.Transfer.{TransferIn, Transferred, transfer, insert_pair, existing_pair}
use ikuzo_neko_pay.Server.Balances.{NoDebt}

-- An earlier transfer under the key is found, its two rows are the answer, and the tables stay.
abbrev pub Replayed : TransferIn → Db → Transferred → Type 0
Replayed a db (out, in_row, db') =
    (x : LedgerEntry) × (existing_by_key a.idempotency_key db ≡ some x)
    × (existing_pair x db ≡ ok (out, in_row, db'))
    × (db' ≡ db)

-- The pair of rows of a transfer is new; it moves the points and nothing else.
abbrev pub Moves : TransferIn → Db → ℕ → Transferred → Type 0
Moves a db k (out, in_row, db') =
    (out.points_delta +ℤ in_row.points_delta ≡ pos 0)
    × (internal_total db'.entries ≡ internal_total db.entries)
    × (balance k db'.entries
        ≡ (if a.to_member_id == k then a.points else pos 0)
          +ℤ ((if a.from_member_id == k then neg a.points else pos 0) +ℤ balance k db.entries))
    × (db'.entries ≡ in_row ∷ out ∷ db.entries)
    × (out.member_id ≡ a.from_member_id)
    × (out.points_delta ≡ neg a.points)
    × (in_row.member_id ≡ a.to_member_id)
    × (in_row.points_delta ≡ a.points)

neg-add_self : (z : ℤ) → neg z +ℤ z ≡ pos 0
neg-add_self z = omega int_laws

add-neg_add : (z t : ℤ) → z +ℤ (neg z +ℤ t) ≡ t
add-neg_add z t = omega int_laws

insert_pair-Moves :
    (now group : ℕ) (a : TransferIn) (db db' : Db) (out in_row : LedgerEntry) (k : ℕ)
    → insert_pair now group a db ≡ ok (out, in_row, db')
    → Moves a db k (out, in_row, db')
unfolding insert_pair insert_entry balance internal_total
insert_pair-Moves now group a db db' out in_row k h = (
  ground (arith, neg-add_self a.points),
  ground (arith, add-neg_add a.points (internal_total db.entries)),
  ground arith,
  ground arith,
  ground arith,
  ground arith,
  ground arith,
  ground arith,
)

existing_pair-same :
    (x : LedgerEntry) (db db' : Db) (out in_row : LedgerEntry)
    → existing_pair x db ≡ ok (out, in_row, db')
    → db' ≡ db
unfolding existing_pair
existing_pair-same x db db' out in_row h = ground arith

pub transfer-Moves :
    (fuel now group : ℕ) (a : TransferIn) (db db' : Db) (out in_row : LedgerEntry) (k : ℕ)
    → transfer fuel now group a db ≡ ok (out, in_row, db')
    → Replayed a db (out, in_row, db')
      ⊎ ((pos 1 ≤ℤ a.points)
          × (a.from_member_id ≢ a.to_member_id)
          × (a.allow_negative ≡ false → a.points ≤ℤ balance a.from_member_id db.entries)
          × Moves a db k (out, in_row, db')
          × (existing_by_key a.idempotency_key db ≡ none))
unfolding transfer
transfer-Moves zero now group a db db' out in_row k h = cc
transfer-Moves (suc fuel) now group a db db' out in_row k h = grind (
  arith,
  existing_pair-same,
  insert_pair-Moves now group a db db' out in_row k,
  transfer-Moves fuel now group a db db' out in_row k,
)

pub transfer-NoDebt :
    (fuel now group : ℕ) (a : TransferIn) (db db' : Db) (out in_row : LedgerEntry)
    → a.allow_negative ≡ false
    → transfer fuel now group a db ≡ ok (out, in_row, db')
    → NoDebt db
    → NoDebt db'
transfer-NoDebt fuel now group a db db' out in_row strict h n k =
    elim (transfer-Moves fuel now group a db db' out in_row k h) [
      | inl (x, found, pair, same) ↦ rw same (n k)
      | inr moved ↦ rw moved.3.2 (moves (moved.2 strict) moved.0 (n k))
    ]
  where
    moves :
        a.points ≤ℤ balance a.from_member_id db.entries
        → pos 1 ≤ℤ a.points
        → pos 0 ≤ℤ balance k db.entries
        → pos 0
          ≤ℤ (if a.to_member_id == k then a.points else pos 0)
            +ℤ ((if a.from_member_id == k then neg a.points else pos 0) +ℤ balance k db.entries)
    moves c p q = grind int_laws
