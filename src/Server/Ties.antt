-- ===== src/Server/Ties.antt =====
-- What the ledger and the mirrored real transactions have to agree on, and everything that the program
-- does to the two, as a sequence of events.
pub mod Rows
pub mod Inserts
pub mod Records
pub mod Changes
pub mod Edits
pub mod Links
pub mod Deletes
pub mod Statements
pub mod Purges
pub mod Events
mod Examples
use ikuzo_neko_pay.Prelude.{
  ℕ, suc, ◌≡◌, String, Bool, true, false, not, ◌||◌, ◌&&◌, Option, none, some, List, [], ◌∷◌, ◌<◌,
  max, All,
}
use ikuzo_neko_pay.Prelude.Int.{ℤ}
use ikuzo_neko_pay.Server.Dedup.{RealKind, signed_value}
use ikuzo_neko_pay.Server.Store.{
  Db, Member, LedgerEntry, RealTransaction, AttributionStatus, unattributed, attributed, ignored,
  Result, ok, err, is_found, sign_fits, find_entry, find_real,
}
use ikuzo_neko_pay.Server.Ledger.{TopupIn, PlayIn, record_topup, record_play, record_adjustment}
use ikuzo_neko_pay.Server.Transfer.{TransferIn, transfer}
use ikuzo_neko_pay.Server.Operations.{kept_one, kept_pair}
use ikuzo_neko_pay.Server.Edit.{delete_entry, edit_entry}
use ikuzo_neko_pay.Server.Attribution.{attribute, ignore_real_txn, reverse_attribution}
use ikuzo_neko_pay.Server.Link.{attribute_existing}
use ikuzo_neko_pay.Server.Accounts.Operations.{kept_db}
use ikuzo_neko_pay.Server.Purge.{delete_member, reset_database}

unfoldable pub max_real_id : List RealTransaction → ℕ
max_real_id [] = 0
max_real_id (r ∷ rs) = max r.id (max_real_id rs)

-- The row of a record of the pay history, whose value is signed by its kind.
abbrev pub new_real : RealKind → ℤ → String → ℕ → List RealTransaction → RealTransaction
new_real kind value raw_name occurred_at rs = record {
  id = suc (max_real_id rs);
  kind = kind;
  raw_name = raw_name;
  value = signed_value kind value;
  occurred_at = occurred_at;
  attribution_status = unattributed;
  attributed_member_id = none;
  attributed_by = none;
  attributed_at = none;
  ledger_entry_id = none;
}

abbrev pub add_real : RealKind → ℤ → String → ℕ → Db → Db
add_real kind value raw_name occurred_at db = record db {
  reals = new_real kind value raw_name occurred_at db.reals ∷ db.reals;
}

pub data Event : Type 0 where
  topping : (now : ℕ) → TopupIn → Event
  playing : (now : ℕ) → PlayIn → Event
  moving : (fuel now group : ℕ) → TransferIn → Event
  adjusting : (now member : ℕ) (points : ℤ) (created_by : ℕ) (reason : String) → Event
  arriving : RealKind → (value : ℤ) (raw_name : String) (occurred_at : ℕ) → Event
  attributing : (now k member actor : ℕ) (rate : ℤ) (money : Option ℤ) (allow : Bool) → Event
  ignoring : (k : ℕ) (reason : String) → Event
  reversing : (now k actor : ℕ) (note : String) → Event
  linking : (now : ℕ) (actor : Member) (k n : ℕ) (overwrite : Bool) → Event
  editing : (actor : Member) (k : ℕ) (points money : Option ℤ) (note : Option String) → Event
  deleting : (actor : Member) (k : ℕ) → Event
  purging : (actor k : ℕ) (force : Bool) → Event
  wiping : (keep : ℕ) → Event

unfoldable pub happen : Event → Db → Db
happen (topping now a) db = kept_one db (record_topup now a db)
happen (playing now a) db = kept_one db (record_play now a db)
happen (moving fuel now group a) db = kept_pair db (transfer fuel now group a db)
happen (adjusting now m z by reason) db = kept_one db (record_adjustment now m z by reason db)
happen (arriving kind value raw_name at) db = add_real kind value raw_name at db
happen (attributing now k m actor rate money allow) db =
    kept_one db (attribute now k m actor rate money allow db)
happen (ignoring k reason) db = kept_db db (ignore_real_txn k reason db)
happen (reversing now k actor note) db = kept_db db (reverse_attribution now k actor note db)
happen (linking now actor k n overwrite) db =
    kept_one db (attribute_existing now actor k n overwrite db)
happen (editing actor k points money note) db =
    kept_one db (edit_entry actor k points money note db)
happen (deleting actor k) db = kept_db db (delete_entry actor k db)
happen (purging actor k force) db = kept_db db (delete_member actor k force db)
happen (wiping keep) db = reset_database keep db

unfoldable pub happen_all : List Event → Db → Db
unfolding happen
happen_all [] db = db
happen_all (ev ∷ evs) db = happen_all evs (happen ev db)

-- The rows stand in falling order of their ids.
abbrev pub Descending : List LedgerEntry → Type 0
Descending [] = Unit {0}
Descending (e ∷ es) = All (λ f. f.id < e.id) es × Descending es

-- A row fits the constraint on signs, and one that is tied to a real transaction is in no transfer.
abbrev pub is_good : LedgerEntry → Bool
is_good e =
    sign_fits e.entry_type e.points_delta e.money_nt
    && not (is_found e.source_real_txn_id && is_found e.transfer_group_id)

-- The entry of an attributed real transaction k.
pub record Tie (es : List LedgerEntry) (k : ℕ) (r : RealTransaction) : Type 0 where
  pub entry : LedgerEntry
  pub pointer : r.ledger_entry_id ≡ some entry.id
  pub stored : find_entry entry.id es ≡ some entry
  pub source : entry.source_real_txn_id ≡ some k
  pub owner : r.attributed_member_id ≡ some entry.member_id
  pub points : entry.points_delta ≡ r.value

abbrev Loose : RealTransaction → Type 0
Loose r = (r.ledger_entry_id ≡ none) × (r.attributed_member_id ≡ none)

abbrev pub TiedAs : AttributionStatus → List LedgerEntry → ℕ → RealTransaction → Type 0
TiedAs attributed es k r = Tie es k r
TiedAs unattributed es k r = Loose r
TiedAs ignored es k r = Loose r

-- The value is signed by the kind, and the attribution names its entry.
abbrev pub Tied : List LedgerEntry → ℕ → RealTransaction → Type 0
Tied es k r = TiedAs r.attribution_status es k r × (signed_value r.kind r.value ≡ r.value)

pub record Agrees (db : Db) : Type 0 where
  pub order : Descending db.entries
  pub good : All (λ e. is_good e ≡ true) db.entries
  pub tied : (k : ℕ) (r : RealTransaction) → find_real k db.reals ≡ some r → Tied db.entries k r
