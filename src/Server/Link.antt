-- ===== src/Server/Link.antt =====
-- attribute_existing of app/services/ledger_edit.py: a manual entry is tied to a real transaction.
pub mod Effects
mod Examples
use ikuzo_neko_pay.Prelude.{
  ℕ, String, Bool, true, false, not, ◌||◌, ◌&&◌, Option, none, some, List, [], ◌∷◌, ◌==◌,
  if◌then◌else◌,
}
use ikuzo_neko_pay.Prelude.Int.{ℤ, abs}
use ikuzo_neko_pay.Server.Dedup.{RealKind}
use ikuzo_neko_pay.Server.Store.{
  Db, Member, LedgerEntry, RealTransaction, EntryType, topup, play, Error, validation, not_found,
  conflict, Result, ok, err, ◌>>=◌, ◌>>◌, raise_if, is_found, find_entry, find_real, source_free,
}
use ikuzo_neko_pay.Server.Edit.{check_permission, update_entry, update_real}
use ikuzo_neko_pay.Server.Attribution.{is_unattributed, taken_by}

-- A top-up or a play of no transfer, with no real transaction yet.
abbrev pub kind_of : EntryType → Option RealKind
kind_of topup = some RealKind.topup
kind_of play = some RealKind.pay
kind_of _ = none

abbrev pub kind_is : RealKind → Option RealKind → Bool
kind_is k none = false
kind_is RealKind.topup (some RealKind.topup) = true
kind_is RealKind.topup (some RealKind.pay) = false
kind_is RealKind.pay (some RealKind.topup) = false
kind_is RealKind.pay (some RealKind.pay) = true

abbrev pub noted : Bool → RealTransaction → LedgerEntry → Option String
noted true rt e = some rt.raw_name
noted false rt e = e.note

abbrev pub linked : Bool → RealTransaction → LedgerEntry → LedgerEntry
linked overwrite rt e = record e {
  source_real_txn_id = some rt.id;
  created_at = rt.occurred_at;
  note = noted overwrite rt e;
}

unfoldable pub link :
    ℕ → Member → Bool → LedgerEntry → RealTransaction → Db → Result (LedgerEntry × Db)
unfolding update_entry update_real
link now actor overwrite e rt db = do
  raise_if (not (is_unattributed rt.attribution_status)) conflict
  raise_if (not (kind_is rt.kind (kind_of e.entry_type))) validation
  raise_if (not (abs rt.value == abs e.points_delta)) validation
  let e' = linked overwrite rt e
  raise_if (not (source_free e' db.entries)) conflict
  ok (
    e',
    record db {
      entries = update_entry e.id (λ x. e') db.entries;
      reals = update_real rt.id (taken_by now e.member_id actor.id e.id) db.reals;
    },
  )

unfoldable pub attribute_existing : ℕ → Member → ℕ → ℕ → Bool → Db → Result (LedgerEntry × Db)
unfolding link
attribute_existing now actor k n overwrite db = elim (find_entry k db.entries) [
  | none ↦ err not_found
  | some e ↦ do
    check_permission actor (e ∷ [])
    raise_if (is_found e.transfer_group_id || not (is_found (kind_of e.entry_type))) validation
    raise_if (is_found e.source_real_txn_id) conflict
    elim (find_real n db.reals) [
      | none ↦ err not_found
      | some rt ↦ link now actor overwrite e rt db
    ]
]
