-- ===== src/Server/Edit/Undo.antt =====
-- Deleting what an operation has added.
use ikuzo_neko_pay.Prelude.{ℕ, zero, suc, ◌≡◌, Bool, true, ◌||◌, none, some, [], ◌==◌, arith}
use ikuzo_neko_pay.Server.Store.{Db, Member, LedgerEntry, ok, insert_entry, find_entry}
use ikuzo_neko_pay.Server.Ledger.{existing_by_key}
use ikuzo_neko_pay.Server.Transfer.{TransferIn, Transferred, transfer, insert_pair, rows_of_group}
use ikuzo_neko_pay.Server.Edit.{delete_entry, delete_group, remove_entry, owns, reversals_known}

-- A transfer under a key that is not in use inserts its pair.
pub insert_pair-transfer :
    (fuel now group : ℕ) (a : TransferIn) (db : Db) (r : Transferred)
    → existing_by_key a.idempotency_key db ≡ none
    → transfer fuel now group a db ≡ ok r
    → insert_pair now group a db ≡ ok r
unfolding transfer
insert_pair-transfer zero now group a db r new h = cc
insert_pair-transfer (suc fuel) now group a db r new h =
    grind (arith, insert_pair-transfer fuel now group a db r new)

abbrev pub may_delete : Member → TransferIn → Bool
may_delete actor a = actor.is_admin || a.from_member_id == actor.id || a.to_member_id == actor.id

-- Deleting either row of a pair takes both out again.
delete_entry-insert_pair :
    (now group : ℕ) (a : TransferIn) (db db' : Db) (out in_row : LedgerEntry) (actor : Member)
    → insert_pair now group a db ≡ ok (out, in_row, db')
    → rows_of_group (some group) db.entries ≡ []
    → reversals_known db.entries db.entries ≡ true
    → may_delete actor a ≡ true
    → (delete_entry actor out.id db' ≡ ok db) × (delete_entry actor in_row.id db' ≡ ok db)
unfolding insert_pair insert_entry delete_entry delete_group remove_entry find_entry rows_of_group
    owns
delete_entry-insert_pair now group a db db' out in_row actor h fresh known may = ground (arith)

-- After a transfer under a key that was not in use and with a uuid of its own, deleting either of
-- its two rows, by an administrator or by one of its two members, leaves the tables as they were
-- before the transfer, where these had no reversal of an entry that they do not have.
pub delete_entry-transfer :
    (fuel now group : ℕ) (a : TransferIn) (db db' : Db) (out in_row : LedgerEntry) (actor : Member)
    → transfer fuel now group a db ≡ ok (out, in_row, db')
    → existing_by_key a.idempotency_key db ≡ none
    → rows_of_group (some group) db.entries ≡ []
    → reversals_known db.entries db.entries ≡ true
    → may_delete actor a ≡ true
    → (delete_entry actor out.id db' ≡ ok db) × (delete_entry actor in_row.id db' ≡ ok db)
delete_entry-transfer fuel now group a db db' out in_row actor h new fresh known may =
    delete_entry-insert_pair now group a db db' out in_row actor
      (insert_pair-transfer fuel now group a db (out, in_row, db') new h) fresh known may
