-- ===== src/Server/Report.antt =====
-- reconcile_report of app/services/reconciliation.py: the ledger against the balance of the shared card.
pub mod Moved
mod Examples
use ikuzo_neko_pay.Prelude.{
  ℕ, ◌+◌, Bool, true, false, not, ◌&&◌, Option, none, some, List, [], ◌∷◌, if◌then◌else◌,
}
use ikuzo_neko_pay.Prelude.Int.{ℤ, pos, neg, ◌+ℤ◌}
use ikuzo_neko_pay.Server.Store.{
  Db, LedgerEntry, RealTransaction, EntryType, topup, play, is_found, internal_total,
}
use ikuzo_neko_pay.Server.Sql.{count_where}
use ikuzo_neko_pay.Server.Attribution.{is_unattributed}

-- The balance of the latest snapshot, and the seconds at which it was captured.
pub record Snapshot : Type 0 where
  pub balance : ℤ
  pub captured_at : ℤ

pub record Reconciliation : Type 0 where
  pub internal_total : ℤ
  pub pooled_balance : Option ℤ
  pub drift : Option ℤ
  pub snapshot_age_sec : Option ℤ
  pub unattributed_count : ℕ
  pub unattributed_value : ℤ
  pub manual_entry_count : ℕ

abbrev pub is_open : RealTransaction → Bool
is_open r = is_unattributed r.attribution_status

unfoldable pub sum_open : List RealTransaction → ℤ
sum_open [] = pos 0
sum_open (r ∷ rs) = (if is_open r then r.value else pos 0) +ℤ sum_open rs

abbrev pub is_action : EntryType → Bool
is_action topup = true
is_action play = true
is_action _ = false

abbrev pub is_manual : LedgerEntry → Bool
is_manual e = not (is_found e.source_real_txn_id) && is_action e.entry_type

abbrev pub less : ℤ → ℤ → ℤ
less a b = a +ℤ neg b

abbrev pub balance_of : Option Snapshot → Option ℤ
balance_of none = none
balance_of (some s) = some s.balance

abbrev pub drift_of : ℤ → Option Snapshot → Option ℤ
drift_of total none = none
drift_of total (some s) = some (less total s.balance)

abbrev pub age_of : ℤ → Option Snapshot → Option ℤ
age_of now none = none
age_of now (some s) = some (less now s.captured_at)

unfoldable pub reconcile_report : ℤ → Option Snapshot → Db → Reconciliation
unfolding count_where sum_open
reconcile_report now snap db = record {
  internal_total = internal_total db.entries;
  pooled_balance = balance_of snap;
  drift = drift_of (internal_total db.entries) snap;
  snapshot_age_sec = age_of now snap;
  unattributed_count = count_where is_open db.reals;
  unattributed_value = sum_open db.reals;
  manual_entry_count = count_where is_manual db.entries;
}
