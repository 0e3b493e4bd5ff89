-- ===== src/Server/Attribution.antt =====
-- app/services/attribution_service.py: real transactions tied to ledger entries by `attribute`,
-- `ignore_real_txn` and `reverse_attribution`. `rate` is for a point, in the unit of money.
pub mod Again
mod Examples
use ikuzo_neko_pay.Prelude.{
  ℕ, String, Bool, true, false, not, ◌||◌, ◌&&◌, Option, none, some, List, [], ◌∷◌, ◌==◌,
  if◌then◌else◌, is_empty,
}
use ikuzo_neko_pay.Prelude.Int.{ℤ, pos, neg, abs, ◌*ℤ◌}
use ikuzo_neko_pay.Server.Dedup.{RealKind}
use ikuzo_neko_pay.Server.Store.{
  Db, LedgerEntry, RealTransaction, topup, play, unattributed, attributed, ignored,
  AttributionStatus, Error, validation, not_found, conflict, Result, ok, err, ◌>>=◌, ◌>>◌, raise_if,
  find_real, insert_entry,
}
use ikuzo_neko_pay.Server.Ledger.{require_active_member, covered, blank, reverse_entry}
use ikuzo_neko_pay.Server.Edit.{update_real, freed}

abbrev pub is_unattributed : AttributionStatus → Bool
is_unattributed unattributed = true
is_unattributed _ = false

abbrev pub paid_or : Option ℤ → ℤ → ℤ
paid_or none z = z
paid_or (some m) z = m

-- The entry for a real transaction, or the overdraft guard's error.
abbrev pub attributed_entry :
    RealTransaction → ℕ → ℕ → ℤ → Option ℤ → Bool → Db → RealKind → Result LedgerEntry
attributed_entry rt member actor rate money allow db RealKind.topup = ok (record blank {
  member_id = member;
  entry_type = topup;
  points_delta = pos (abs rt.value);
  money_nt = some (paid_or money (pos (abs rt.value) *ℤ rate));
  note = some rt.raw_name;
  created_by = actor;
  source_real_txn_id = some rt.id;
  created_at = rt.occurred_at;
})
attributed_entry rt member actor rate money allow db RealKind.pay = do
  covered allow (pos (abs rt.value)) member db
  ok (record blank {
    member_id = member;
    entry_type = play;
    points_delta = neg (pos (abs rt.value));
    note = some rt.raw_name;
    created_by = actor;
    source_real_txn_id = some rt.id;
    created_at = rt.occurred_at;
  })

abbrev pub taken_by : ℕ → ℕ → ℕ → ℕ → RealTransaction → RealTransaction
taken_by now member actor entry rt = record rt {
  attribution_status = attributed;
  attributed_member_id = some member;
  attributed_by = some actor;
  attributed_at = some now;
  ledger_entry_id = some entry;
}

-- `except IntegrityError: raise ConflictError`
abbrev pub or_conflict : Result (LedgerEntry × Db) → Result (LedgerEntry × Db)
or_conflict (ok r) = ok r
or_conflict (err e) = err conflict

unfoldable pub attribute : ℕ → ℕ → ℕ → ℕ → ℤ → Option ℤ → Bool → Db → Result (LedgerEntry × Db)
unfolding insert_entry update_real
attribute now k member actor rate money allow db = elim (find_real k db.reals) [
  | none ↦ err not_found
  | some rt ↦ do
    raise_if (not (is_unattributed rt.attribution_status)) conflict
    require_active_member member db
    e ← attributed_entry rt member actor rate money allow db rt.kind
    (row, db') ← or_conflict (insert_entry e db)
    ok (row, record db' { reals = update_real k (taken_by now member actor row.id) db'.reals })
]

abbrev pub ignoring : RealTransaction → RealTransaction
ignoring rt = record rt { attribution_status = ignored }

unfoldable pub ignore_real_txn : ℕ → String → Db → Result Db
unfolding update_real
ignore_real_txn k reason db = raise_if (is_empty reason) validation >> elim (find_real k db.reals) [
  | none ↦ err conflict
  | some rt ↦ do
    raise_if (not (is_unattributed rt.attribution_status)) conflict
    ok (record db { reals = update_real k ignoring db.reals })
]

-- `note` is the text "reversal of #id: reason".
unfoldable pub reverse_attribution : ℕ → ℕ → ℕ → String → Db → Result Db
unfolding update_real
reverse_attribution now k actor note db = elim (find_real k db.reals) [
  | none ↦ err not_found
  | some rt ↦ elim rt.ledger_entry_id [
    | none ↦ err not_found
    | some id ↦ do
      (row, db') ← reverse_entry now id actor note db
      ok (record db' { reals = update_real k freed db'.reals })
  ]
]
