-- ===== src/Server/Balances.antt =====
-- What the operations of the ledger do to the balances.
pub mod Transfers
mod Examples
mod Edits
use ikuzo_neko_pay.Prelude.{
  ℕ, zero, suc, ◌≡◌, ◌≢◌, refl, ◌⊎◌, inl, inr, String, Bool, true, false, Option, none, some, List,
  [], ◌∷◌, ◌==◌, if◌then◌else◌, arith,
}
use ikuzo_neko_pay.Prelude.Int.{ℤ, pos, neg, ◌+ℤ◌, ◌≤ℤ◌, leb_ℤ, ltb_ℤ, int_laws}
use ikuzo_neko_pay.Server.Store.{
  Db, LedgerEntry, Result, ok, err, ◌>>=◌, balance, internal_total, insert_entry, admissible,
}
use ikuzo_neko_pay.Server.Ledger.{
  TopupIn, PlayIn, record_topup, record_play, existing_by_key, commit_entry,
}
use ikuzo_neko_pay.Server.Transfer.{
  TransferIn, Transferred, transfer, insert_pair, existing_pair, next_out, next_in, order_by_points,
  rows_of_group,
}

-- No member owes points to the pool.
abbrev pub NoDebt : Db → Type 0
NoDebt db = (m : ℕ) → pos 0 ≤ℤ balance m db.entries

-- A top-up that returns is the stored entry of its key, and changes nothing; or it is a new row, and
-- raises the balance of its member alone, by its positive number of points.
pub balance-record_topup :
    (now : ℕ) (a : TopupIn) (db db' : Db) (e : LedgerEntry) (k : ℕ)
    → record_topup now a db ≡ ok (e, db')
    → ((existing_by_key a.idempotency_key db ≡ some e) × (db' ≡ db))
      ⊎ ((pos 1 ≤ℤ a.points)
          × (e.points_delta ≡ a.points)
          × (balance k db'.entries
              ≡ (if a.member_id == k then a.points else pos 0) +ℤ balance k db.entries))
unfolding record_topup balance
balance-record_topup now a db db' e k h = ground arith

-- The same for a play, which lowers the balance by its points; without leave to overdraw it needs a
-- balance of at least that many.
pub balance-record_play :
    (now : ℕ) (a : PlayIn) (db db' : Db) (e : LedgerEntry) (k : ℕ)
    → record_play now a db ≡ ok (e, db')
    → ((existing_by_key a.idempotency_key db ≡ some e) × (db' ≡ db))
      ⊎ ((pos 1 ≤ℤ a.points)
          × (a.allow_negative ≡ false → a.points ≤ℤ balance a.member_id db.entries)
          × (balance k db'.entries
              ≡ (if a.member_id == k then neg a.points else pos 0) +ℤ balance k db.entries))
unfolding record_play balance
balance-record_play now a db db' e k h = ground arith

-- A top-up and a play that has no leave to overdraw keep every balance from 0 on.
pub record_topup-NoDebt :
    (now : ℕ) (a : TopupIn) (db db' : Db) (e : LedgerEntry)
    → record_topup now a db ≡ ok (e, db')
    → NoDebt db
    → NoDebt db'
record_topup-NoDebt now a db db' e h n k = elim (balance-record_topup now a db db' e k h) [
  | inl same ↦ rw same.1 (n k)
  | inr added ↦ rw added.2 (raised k added.0 (n k))
]
  where
    raised :
        (k : ℕ)
        → pos 1 ≤ℤ a.points
        → pos 0 ≤ℤ balance k db.entries
        → pos 0 ≤ℤ (if a.member_id == k then a.points else pos 0) +ℤ balance k db.entries
    raised k p q = grind int_laws

pub record_play-NoDebt :
    (now : ℕ) (a : PlayIn) (db db' : Db) (e : LedgerEntry)
    → a.allow_negative ≡ false
    → record_play now a db ≡ ok (e, db')
    → NoDebt db
    → NoDebt db'
record_play-NoDebt now a db db' e strict h n k = elim (balance-record_play now a db db' e k h) [
  | inl same ↦ rw same.1 (n k)
  | inr added ↦ rw added.2 (lowered (added.1 strict) (n k))
]
  where
    lowered :
        a.points ≤ℤ balance a.member_id db.entries
        → pos 0 ≤ℤ balance k db.entries
        → pos 0 ≤ℤ (if a.member_id == k then neg a.points else pos 0) +ℤ balance k db.entries
    lowered p q = grind int_laws
