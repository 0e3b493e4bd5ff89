-- ===== src/Server/Balances/Edits.antt =====
-- Runs of deletions and edits on the ledger of Server.Balances.Examples, and their theorems there.
use ikuzo_neko_pay.Prelude.{◌≡◌, ◌||◌, ◌==◌, refl, true, false, Option, none, some, [], ◌∷◌, ℕ}
use ikuzo_neko_pay.Prelude.Int.{pos, ◌+ℤ◌}
use ikuzo_neko_pay.Server.Store.{LedgerEntry, ok, balance, find_key, find_entry}
use ikuzo_neko_pay.Server.Ledger.{existing_by_key}
use ikuzo_neko_pay.Server.Edit.{delete_entry, reversals_known, edit_entry, owns, update_entry}
use ikuzo_neko_pay.Server.Edit.Effects.{share_of, edit_entry-Allowed}
use ikuzo_neko_pay.Server.Edit.Undo.{delete_entry-transfer}
use ikuzo_neko_pay.Server.Transfer.{rows_of_group}
use ikuzo_neko_pay.Server.Balances.Examples.{
  member, bought, stocked, gives, given, taken, shared, transfer-gives,
}

-- Member 2, who received the points, takes the transfer back.
delete_entry-transfer_example :
    (delete_entry (member 2) 2 shared ≡ ok stocked)
    × (delete_entry (member 2) 3 shared ≡ ok stocked)
unfolding existing_by_key find_key rows_of_group reversals_known
delete_entry-transfer_example =
    delete_entry-transfer 1000 9 5 (gives (some "g")) stocked shared given taken (member 2)
      transfer-gives refl refl refl refl

-- The owner corrects the top-up of 10 points to 12.
abbrev corrected : LedgerEntry
corrected = record bought { points_delta = pos 12 }

edit_entry-bought :
    edit_entry (member 1) 1 (some (pos 12)) none none stocked
    ≡ ok (corrected, record stocked { entries = corrected ∷ [] })
unfolding edit_entry find_entry owns update_entry
edit_entry-bought = refl

edit_entry-Allowed_example :
    (false || 1 == 1 ≡ true)
    × (◌≡◌ {A = Option ℕ} none none)
    × (false ≡ true → pos 12 ≡ pos 10)
    × (balance 1 (corrected ∷ []) +ℤ share_of 1 bought
        ≡ balance 1 (bought ∷ []) +ℤ share_of 1 corrected)
    × (corrected.member_id ≡ bought.member_id)
    × (corrected.id ≡ bought.id)
    × (corrected.entry_type ≡ bought.entry_type)
unfolding find_entry
edit_entry-Allowed_example =
    edit_entry-Allowed (member 1) 1 (some (pos 12)) none none stocked
      (record stocked { entries = corrected ∷ [] }) bought corrected 1 refl edit_entry-bought
