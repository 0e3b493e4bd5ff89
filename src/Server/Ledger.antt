-- ===== src/Server/Ledger.antt =====
-- app/services/ledger_service.py: top-up, play, transfer, adjustment and reversal. An operation
-- returns its result and the tables after its commit; where it raises, the session is dropped and
-- the tables stay as they were. Other sessions do not commit in the middle of an operation.
use ikuzo_neko_pay.Prelude.{
  ℕ, String, Bool, false, not, ◌&&◌, Option, none, some, if◌then◌else◌, is_empty,
}
use ikuzo_neko_pay.Prelude.Int.{ℤ, pos, neg, leb_ℤ, ltb_ℤ, eqb_ℤ}
use ikuzo_neko_pay.Server.Store.{
  Db, Member, LedgerEntry, topup, play, adjustment, validation, not_found, insufficient, integrity,
  Result, ok, err, ◌>>=◌, ◌>>◌, raise_if, find_member, find_entry, find_key, balance, insert_entry,
}

abbrev pub is_active_member : Option Member → Bool
is_active_member none = false
is_active_member (some m) = m.is_active

-- `_require_active_member`
abbrev pub require_active_member : ℕ → Db → Result (Unit {0})
require_active_member m db = raise_if (not (is_active_member (find_member m db.members))) not_found

-- `_existing_by_key`: no key, and the empty key, find nothing.
unfoldable pub existing_by_key : Option String → Db → Option LedgerEntry
existing_by_key none db = none
existing_by_key (some k) db = if is_empty k then none else find_key k db.entries

abbrev or_raise : Option LedgerEntry → Db → Result (LedgerEntry × Db)
or_raise none db = err integrity
or_raise (some e) db = ok (e, db)

abbrev or_existing : Option String → Db → Result (LedgerEntry × Db) → Result (LedgerEntry × Db)
or_existing key db (ok r) = ok r
or_existing key db (err e) = or_raise (existing_by_key key db) db

-- `_commit_entry`
unfoldable pub commit_entry : LedgerEntry → Option String → Db → Result (LedgerEntry × Db)
unfolding insert_entry existing_by_key
commit_entry e key db = or_existing key db (insert_entry e db)

-- `created_at` if it is given, and the time of the insertion if not.
abbrev at_or : Option ℕ → ℕ → ℕ
at_or none now = now
at_or (some t) now = t

abbrev pub blank : LedgerEntry
blank = record {
  id = 0;
  member_id = 0;
  entry_type = adjustment;
  points_delta = pos 0;
  money_nt = none;
  note = none;
  created_by = 0;
  transfer_group_id = none;
  source_real_txn_id = none;
  reversal_of_id = none;
  idempotency_key = none;
  created_at = 0;
}

-- `money` is none where `_to_decimal` finds no number.
pub record TopupIn : Type 0 where
  pub member_id : ℕ
  pub points : ℤ
  pub money : Option ℤ
  pub created_by : ℕ
  pub note : Option String
  pub idempotency_key : Option String
  pub source_real_txn_id : Option ℕ
  pub created_at : Option ℕ

abbrev to_decimal : Option ℤ → Result ℤ
to_decimal none = err validation
to_decimal (some m) = ok m

abbrev pub topup_entry : ℕ → TopupIn → ℤ → LedgerEntry
topup_entry now a money = record blank {
  member_id = a.member_id;
  entry_type = topup;
  points_delta = a.points;
  money_nt = some money;
  note = a.note;
  created_by = a.created_by;
  source_real_txn_id = a.source_real_txn_id;
  idempotency_key = a.idempotency_key;
  created_at = at_or a.created_at now;
}

abbrev pub existing_or :
    Option LedgerEntry → Db → Result (LedgerEntry × Db) → Result (LedgerEntry × Db)
existing_or (some e) db make = ok (e, db)
existing_or none db make = make

unfoldable pub record_topup : ℕ → TopupIn → Db → Result (LedgerEntry × Db)
unfolding existing_by_key commit_entry
record_topup now a db = do
  raise_if (leb_ℤ a.points (pos 0)) validation
  money ← to_decimal a.money
  raise_if (leb_ℤ money (pos 0)) validation
  require_active_member a.member_id db
  existing_or (existing_by_key a.idempotency_key db) db
      (commit_entry (topup_entry now a money) a.idempotency_key db)

pub record PlayIn : Type 0 where
  pub member_id : ℕ
  pub points : ℤ
  pub created_by : ℕ
  pub note : Option String
  pub idempotency_key : Option String
  pub allow_negative : Bool
  pub source_real_txn_id : Option ℕ
  pub created_at : Option ℕ

abbrev pub play_entry : ℕ → PlayIn → LedgerEntry
play_entry now a = record blank {
  member_id = a.member_id;
  entry_type = play;
  points_delta = neg a.points;
  note = a.note;
  created_by = a.created_by;
  source_real_txn_id = a.source_real_txn_id;
  idempotency_key = a.idempotency_key;
  created_at = at_or a.created_at now;
}

-- The overdraft guard of a play and of a transfer.
abbrev pub covered : Bool → ℤ → ℕ → Db → Result (Unit {0})
covered allow points m db = raise_if (not allow && ltb_ℤ (balance m db.entries) points) insufficient

unfoldable pub record_play : ℕ → PlayIn → Db → Result (LedgerEntry × Db)
unfolding existing_by_key commit_entry
record_play now a db = do
  raise_if (leb_ℤ a.points (pos 0)) validation
  require_active_member a.member_id db
  existing_or (existing_by_key a.idempotency_key db) db (do
    covered a.allow_negative a.points a.member_id db
    commit_entry (play_entry now a) a.idempotency_key db)

unfoldable pub record_adjustment : ℕ → ℕ → ℤ → ℕ → String → Db → Result (LedgerEntry × Db)
unfolding commit_entry
record_adjustment now member points_delta created_by reason db = do
  raise_if (eqb_ℤ points_delta (pos 0)) validation
  raise_if (is_empty reason) validation
  require_active_member member db
  commit_entry
      (record blank {
        member_id = member;
        points_delta = points_delta;
        note = some reason;
        created_by = created_by;
        created_at = now;
      })
      none db

abbrev negated : Option ℤ → Option ℤ
negated none = none
negated (some m) = some (neg m)

abbrev pub reversal : ℕ → LedgerEntry → ℕ → String → LedgerEntry
reversal now original created_by note = record blank {
  member_id = original.member_id;
  points_delta = neg original.points_delta;
  money_nt = negated original.money_nt;
  note = some note;
  created_by = created_by;
  reversal_of_id = some original.id;
  created_at = now;
}

-- `note` is the text "reversal of #id: reason".
unfoldable pub reverse_entry : ℕ → ℕ → ℕ → String → Db → Result (LedgerEntry × Db)
unfolding commit_entry
reverse_entry now entry_id created_by note db = elim (find_entry entry_id db.entries) [
  | none ↦ err not_found
  | some original ↦ commit_entry (reversal now original created_by note) none db
]
