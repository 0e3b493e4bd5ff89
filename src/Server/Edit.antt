-- ===== src/Server/Edit.antt =====
-- app/services/ledger_edit.py: deleting and editing entries of the ledger, and tying an entry to a real
-- transaction. The audit rows that they write are not modelled.
pub mod Undo
mod Examples
pub mod Reversed
pub mod Effects
use ikuzo_neko_pay.Prelude.{
  ℕ, String, Bool, true, false, not, ◌||◌, ◌&&◌, Option, none, some, List, [], ◌∷◌, ◌==◌,
  if◌then◌else◌,
}
use ikuzo_neko_pay.Prelude.Int.{ℤ, pos, neg, abs, leb_ℤ, eqb_ℤ}
use ikuzo_neko_pay.Server.Dedup.{RealKind, pay}
use ikuzo_neko_pay.Server.Dedup.RealKind.{topup as real_topup}
use ikuzo_neko_pay.Server.Store.{
  Db, Member, LedgerEntry, RealTransaction, EntryType, topup, play, transfer_in, transfer_out,
  adjustment, unattributed, attributed, AttributionStatus, validation, not_found, forbidden,
  conflict, integrity, Result, ok, err, ◌>>=◌, ◌>>◌, raise_if, is_found, find_entry, find_real,
  source_free, sign_fits, entry_known,
}
use ikuzo_neko_pay.Server.Transfer.{rows_of_group}

unfoldable pub owns : ℕ → List LedgerEntry → Bool
owns m [] = false
owns m (e ∷ es) = e.member_id == m || owns m es

-- `_check_permission`
abbrev pub check_permission : Member → List LedgerEntry → Result (Unit {0})
check_permission actor group = raise_if (not actor.is_admin && not (owns actor.id group)) forbidden

-- `_group`
abbrev pub group_of : LedgerEntry → Db → List LedgerEntry
group_of e db = elim e.transfer_group_id [
  | none ↦ e ∷ []
  | some g ↦ rows_of_group (some g) db.entries
]

abbrev pub freed : RealTransaction → RealTransaction
freed r = record r {
  attribution_status = unattributed;
  attributed_member_id = none;
  attributed_by = none;
  attributed_at = none;
  ledger_entry_id = none;
}

-- A change of the row with a primary key.
unfoldable pub update_real :
    ℕ → (RealTransaction → RealTransaction) → List RealTransaction → List RealTransaction
update_real k f [] = []
update_real k f (r ∷ rs) = if r.id == k then f r ∷ rs else r ∷ update_real k f rs

unfoldable pub update_entry : ℕ → (LedgerEntry → LedgerEntry) → List LedgerEntry → List LedgerEntry
update_entry k f [] = []
update_entry k f (e ∷ es) = if e.id == k then f e ∷ es else e ∷ update_entry k f es

unfoldable pub remove_entry : ℕ → List LedgerEntry → List LedgerEntry
remove_entry k [] = []
remove_entry k (e ∷ es) = if e.id == k then es else e ∷ remove_entry k es

-- `_free_real_txn`
abbrev pub free_real_txn : LedgerEntry → List RealTransaction → List RealTransaction
free_real_txn e rs = elim e.source_real_txn_id [ none ↦ rs | some n ↦ update_real n freed rs ]

-- The loop over the group.
unfoldable pub delete_group : List LedgerEntry → Db → Db
unfolding update_real remove_entry
delete_group [] db = db
delete_group (e ∷ es) db =
    delete_group es
      (record db { entries = remove_entry e.id db.entries; reals = free_real_txn e db.reals })

-- Whether every reversal in the first list has its entry in the second.
unfoldable pub reversals_known : List LedgerEntry → List LedgerEntry → Bool
reversals_known [] all = true
reversals_known (e ∷ es) all = entry_known e.reversal_of_id all && reversals_known es all

-- The deletion fails at the foreign key of a reversal that is left behind.
unfoldable pub delete_entry : Member → ℕ → Db → Result Db
unfolding delete_group reversals_known
delete_entry actor k db = elim (find_entry k db.entries) [
  | none ↦ err not_found
  | some e ↦ do
    let group = group_of e db
    check_permission actor group
    let db' = delete_group group db
    raise_if (not (reversals_known db'.entries db'.entries)) integrity
    ok db'
]

-- The points of an edit, by the type of the entry.
abbrev pub edited_points : LedgerEntry → Option ℤ → Result ℤ
edited_points e none = ok e.points_delta
edited_points e (some p) =
    raise_if (is_found e.source_real_txn_id) validation >> signed e.entry_type
  where
    signed : EntryType → Result ℤ
    signed topup = raise_if (leb_ℤ p (pos 0)) validation >> ok p
    signed play = raise_if (leb_ℤ p (pos 0)) validation >> ok (neg p)
    signed adjustment = raise_if (eqb_ℤ p (pos 0)) validation >> ok p
    signed transfer_in = err validation
    signed transfer_out = err validation

abbrev is_topup : EntryType → Bool
is_topup topup = true
is_topup _ = false

abbrev pub edited_money : LedgerEntry → Option ℤ → Result (Option ℤ)
edited_money e none = ok e.money_nt
edited_money e (some m) = do
  raise_if (not (is_topup e.entry_type)) validation
  raise_if (leb_ℤ m (pos 0)) validation
  ok (some m)

abbrev pub edited_note : LedgerEntry → Option String → Option String
edited_note e none = e.note
edited_note e (some s) = some s

unfoldable pub edit_entry :
    Member → ℕ → Option ℤ → Option ℤ → Option String → Db → Result (LedgerEntry × Db)
unfolding update_entry
edit_entry actor k points money note db = elim (find_entry k db.entries) [
  | none ↦ err not_found
  | some e ↦ do
    raise_if (is_found e.transfer_group_id) validation
    check_permission actor (e ∷ [])
    delta ← edited_points e points
    paid ← edited_money e money
    let e' = record e { points_delta = delta; money_nt = paid; note = edited_note e note }
    raise_if (not (sign_fits e.entry_type delta paid)) integrity
    ok (e', record db { entries = update_entry k (λ x. e') db.entries })
]
