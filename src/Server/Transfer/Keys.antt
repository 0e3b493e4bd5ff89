-- ===== src/Server/Transfer/Keys.antt =====
-- The idempotency keys of a transfer.
use ikuzo_neko_pay.Prelude.{
  ℕ, zero, suc, ◌≡◌, ◌≢◌, refl, String, true, false, none, some, is_empty, arith,
}
use ikuzo_neko_pay.Prelude.Int.{pos, ◌≤ℤ◌}
use Prim.Native.String.{◌++◌ as str_append}
use ikuzo_neko_pay.Server.Store.{
  Db, LedgerEntry, Error, Result, ok, err, ◌>>=◌, insert_entry, admissible, find_key, integrity,
  recursion, is_found,
}
use ikuzo_neko_pay.Server.Ledger.{existing_by_key, require_active_member, covered}
use ikuzo_neko_pay.Server.Transfer.{TransferIn, Transferred, transfer, insert_pair, out_row, in_row}

-- A row whose key is taken is refused.
key_taken :
    (e : LedgerEntry) (db : Db) (k : String)
    → e.idempotency_key ≡ some k
    → is_found (find_key k db.entries) ≡ true
    → insert_entry e db ≡ err integrity
unfolding insert_entry admissible
key_taken e db k key taken = ground arith

insert_entry-error :
    (e : LedgerEntry) (db : Db) (x : Error) → insert_entry e db ≡ err x → x ≡ integrity
unfolding insert_entry
insert_entry-error e db x h = ground arith

-- A row that goes in leaves every key taken that was taken.
insert_entry-keeps_key :
    (e : LedgerEntry) (db : Db) (row : LedgerEntry) (db' : Db) (j : String)
    → insert_entry e db ≡ ok (row, db')
    → is_found (find_key j db.entries) ≡ true
    → is_found (find_key j db'.entries) ≡ true
unfolding insert_entry find_key
insert_entry-keeps_key e db row db' j h taken = ground arith

insert_pair-integrity :
    (now group : ℕ) (a : TransferIn) (db : Db) (k : String)
    → a.idempotency_key ≡ some k
    → is_empty k ≡ false
    → is_found (find_key (str_append k ":in") db.entries) ≡ true
    → insert_pair now group a db ≡ err integrity
unfolding insert_pair
insert_pair-integrity now group a db k key ne taken =
    by_first (insert_entry (out_row now group a) db) refl
  where
    by_first :
        (r : Result (LedgerEntry × Db))
        → insert_entry (out_row now group a) db ≡ r
        → ◌>>=◌ {B = Transferred} r (λ x.
          ◌>>=◌ {B = Transferred} (insert_entry (in_row now group a) x.1) (λ y. ok (x.0, y.0, y.1)))
          ≡ err integrity
    by_first (err x) h = cc (insert_entry-error (out_row now group a) db x h)
    by_first (ok (row, db')) h = rw (
        key_taken (in_row now group a) db' (str_append k ":in") (ground arith)
          (insert_entry-keeps_key (out_row now group a) db row db' (str_append k ":in") h taken))

-- A transfer that passes every check, under a key k that is new while the key "k:in" is in use, never
-- returns: whatever the recursion limit, it ends in a RecursionError.
pub transfer_recursion :
    (fuel now group : ℕ) (a : TransferIn) (db : Db) (k : String)
    → pos 1 ≤ℤ a.points
    → a.from_member_id ≢ a.to_member_id
    → require_active_member a.from_member_id db ≡ ok tt
    → require_active_member a.to_member_id db ≡ ok tt
    → covered a.allow_negative a.points a.from_member_id db ≡ ok tt
    → a.idempotency_key ≡ some k
    → is_empty k ≡ false
    → existing_by_key (some k) db ≡ none
    → is_found (find_key (str_append k ":in") db.entries) ≡ true
    → transfer fuel now group a db ≡ err recursion
unfolding transfer
transfer_recursion zero now group a db k p ne f t c key full new taken = refl
transfer_recursion (suc fuel) now group a db k p ne f t c key full new taken = ground (
  arith,
  insert_pair-integrity now group a db k key full taken,
  transfer_recursion fuel now group a db k p ne f t c key full new taken,
)
