-- ===== src/Server/Edit/Reversed.antt =====
-- Deleting an entry that has been reversed.
use ikuzo_neko_pay.Prelude.{ℕ, ◌≡◌, ◌≤◌, String, true, ◌||◌, none, some, List, [], ◌∷◌, ◌==◌, arith}
use ikuzo_neko_pay.Server.Store.{
  Db, Member, LedgerEntry, ok, err, integrity, insert_entry, find_entry, max_id,
}
use ikuzo_neko_pay.Server.Ledger.{reverse_entry, commit_entry, existing_by_key}
use ikuzo_neko_pay.Server.Edit.{delete_entry, delete_group, remove_entry, owns, reversals_known}

find_entry-max_id :
    (k : ℕ) (es : List LedgerEntry) (e : LedgerEntry)
    → find_entry k es ≡ some e
    → (e.id ≡ k) × (k ≤ max_id es)
unfolding find_entry max_id
find_entry-max_id k [] e h = cc
find_entry-max_id k (x ∷ xs) e h = ground (arith, find_entry-max_id k xs e)

-- Where an entry of no transfer has been reversed and primary keys are unique, the owner or an
-- administrator who deletes it gets an IntegrityError.
pub delete_entry-reverse_entry :
    (now k created_by : ℕ) (text : String) (db db' : Db) (e row : LedgerEntry) (actor : Member)
    → reverse_entry now k created_by text db ≡ ok (row, db')
    → find_entry k db.entries ≡ some e
    → e.transfer_group_id ≡ none
    → find_entry k (remove_entry k db.entries) ≡ none
    → actor.is_admin || e.member_id == actor.id ≡ true
    → delete_entry actor k db' ≡ err integrity
unfolding reverse_entry commit_entry existing_by_key insert_entry delete_entry delete_group owns
    reversals_known remove_entry find_entry
delete_entry-reverse_entry now k created_by text db db' e row actor h known single unique may =
    ground (arith, find_entry-max_id k db.entries e known)
