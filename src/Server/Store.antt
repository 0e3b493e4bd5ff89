-- ===== src/Server/Store.antt =====
-- The tables that the ledger works on (app/models/ledger.py, app/models/real.py, app/models/user.py),
-- the errors of app/services/errors.py, and what a commit checks. Money is in a decimal unit of NT$
-- (how the column rounds what is finer than its hundredths is not modelled), an instant is a number, and the uuid of a transfer is a number. Rows stand latest first.
use ikuzo_neko_pay.Prelude.{
  ℕ, suc, String, Bool, true, false, not, ◌&&◌, ◌||◌, Option, none, some, List, [], ◌∷◌, ◌==◌,
  str_eq, max, if◌then◌else◌,
}
use ikuzo_neko_pay.Prelude.Int.{ℤ, pos, ◌+ℤ◌, ltb_ℤ}
use ikuzo_neko_pay.Server.Dedup.{RealKind}

pub data EntryType : Type 0 where
  topup play transfer_in transfer_out adjustment : EntryType

pub data AttributionStatus : Type 0 where
  unattributed attributed ignored : AttributionStatus

-- The personal settings of a member (auto_attribute and so on) are left out.
pub record Member : Type 0 where
  pub id : ℕ
  pub username : String
  pub display_name : String
  pub password_hash : String
  pub is_admin : Bool
  pub is_active : Bool

pub record LedgerEntry : Type 0 where
  pub id : ℕ
  pub member_id : ℕ
  pub entry_type : EntryType
  pub points_delta : ℤ
  pub money_nt : Option ℤ
  pub note : Option String
  pub created_by : ℕ
  pub transfer_group_id : Option ℕ
  pub source_real_txn_id : Option ℕ
  pub reversal_of_id : Option ℕ
  pub idempotency_key : Option String
  pub created_at : ℕ

pub record RealTransaction : Type 0 where
  pub id : ℕ
  pub kind : RealKind
  pub raw_name : String
  pub value : ℤ
  pub occurred_at : ℕ
  pub attribution_status : AttributionStatus
  pub attributed_member_id : Option ℕ
  pub attributed_by : Option ℕ
  pub attributed_at : Option ℕ
  pub ledger_entry_id : Option ℕ

-- The answers that close a claim set `resolved_by`; the status of a claim is left out.
pub record AttributionClaim : Type 0 where
  pub id : ℕ
  pub real_txn_id : ℕ
  pub member_id : ℕ
  pub resolved_by : Option ℕ

pub record UserSession : Type 0 where
  pub token : String
  pub member_id : ℕ
  pub csrf_token : String
  pub expires_at : ℕ

pub record Db : Type 0 where
  pub members : List Member
  pub entries : List LedgerEntry
  pub reals : List RealTransaction
  pub claims : List AttributionClaim
  pub sessions : List UserSession

-- `integrity` and `recursion` are Python's IntegrityError and RecursionError, `stop` the
-- StopIteration of a `next` that finds nothing, `multiple` the MultipleResultsFound of a query for one row.
pub data Error : Type 0 where
  validation not_found forbidden insufficient conflict integrity recursion stop multiple : Error

pub data Result (A : Type 0) : Type 0 where
  ok : A → Result A
  err : Error → Result A

infixl 5 ◌>>=◌ ◌>>◌
abbrev pub ◌>>=◌ : {A B : Type 0} → Result A → (A → Result B) → Result B
ok a >>= f = f a
err e >>= f = err e

abbrev pub ◌>>◌ : {B : Type 0} → Result (Unit {0}) → Result B → Result B
m >> k = m >>= λ _. k

-- `if b: raise e`
abbrev pub raise_if : Bool → Error → Result (Unit {0})
raise_if true e = err e
raise_if false e = ok tt

-- `session.get(Member, id)`, and so on for the other tables.
unfoldable pub find_member : ℕ → List Member → Option Member
find_member k [] = none
find_member k (m ∷ ms) = if m.id == k then some m else find_member k ms

unfoldable pub find_entry : ℕ → List LedgerEntry → Option LedgerEntry
find_entry k [] = none
find_entry k (e ∷ es) = if e.id == k then some e else find_entry k es

unfoldable pub find_real : ℕ → List RealTransaction → Option RealTransaction
find_real k [] = none
find_real k (r ∷ rs) = if r.id == k then some r else find_real k rs

abbrev pub is_found {ℓ} : {A : Type ℓ} → Option A → Bool
is_found none = false
is_found (some a) = true

-- SQL's `=` on a nullable text: NULL equals nothing.
abbrev pub key_is : String → Option String → Bool
key_is k none = false
key_is k (some j) = str_eq j k

unfoldable pub find_key : String → List LedgerEntry → Option LedgerEntry
find_key k [] = none
find_key k (e ∷ es) = if key_is k e.idempotency_key then some e else find_key k es

-- SUM(points_delta) of a member, and of all.
unfoldable pub balance : ℕ → List LedgerEntry → ℤ
balance m [] = pos 0
balance m (e ∷ es) = (if e.member_id == m then e.points_delta else pos 0) +ℤ balance m es

unfoldable pub internal_total : List LedgerEntry → ℤ
internal_total [] = pos 0
internal_total (e ∷ es) = e.points_delta +ℤ internal_total es

-- The primary key that SQLite gives the next row: one more than the largest.
unfoldable pub max_id : List LedgerEntry → ℕ
max_id [] = 0
max_id (e ∷ es) = max e.id (max_id es)

abbrev nonzero : ℤ → Bool
nonzero z = ltb_ℤ z (pos 0) || ltb_ℤ (pos 0) z

-- ck_ledger_entry_sign
abbrev pub sign_fits : EntryType → ℤ → Option ℤ → Bool
sign_fits topup z money = ltb_ℤ (pos 0) z && is_found money
sign_fits play z money = ltb_ℤ z (pos 0)
sign_fits transfer_in z money = ltb_ℤ (pos 0) z
sign_fits transfer_out z money = ltb_ℤ z (pos 0)
sign_fits adjustment z money = nonzero z

-- The unique idempotency_key, where it is not NULL.
abbrev pub key_free : Option String → List LedgerEntry → Bool
key_free none es = true
key_free (some k) es = not (is_found (find_key k es))

abbrev id_is : ℕ → Option ℕ → Bool
id_is n none = false
id_is n (some k) = k == n

-- An entry that is tied to real transaction n and reverses nothing.
abbrev pub holds_source : ℕ → LedgerEntry → Bool
holds_source n e = id_is n e.source_real_txn_id && not (is_found e.reversal_of_id)

unfoldable pub source_taken : ℕ → List LedgerEntry → Bool
source_taken n [] = false
source_taken n (e ∷ es) = holds_source n e || source_taken n es

-- uq_ledger_source_real_active
abbrev pub source_free : LedgerEntry → List LedgerEntry → Bool
source_free e es = elim e.source_real_txn_id [
  | none ↦ true
  | some n ↦ is_found e.reversal_of_id || not (source_taken n es)
]

abbrev real_known : Option ℕ → List RealTransaction → Bool
real_known none rs = true
real_known (some n) rs = is_found (find_real n rs)

abbrev pub entry_known : Option ℕ → List LedgerEntry → Bool
entry_known none es = true
entry_known (some n) es = is_found (find_entry n es)

-- The foreign keys of an entry.
abbrev pub references_known : LedgerEntry → Db → Bool
references_known e db =
    is_found (find_member e.member_id db.members)
    && is_found (find_member e.created_by db.members)
    && real_known e.source_real_txn_id db.reals
    && entry_known e.reversal_of_id db.entries

unfoldable pub admissible : LedgerEntry → Db → Bool
admissible e db =
    sign_fits e.entry_type e.points_delta e.money_nt
    && key_free e.idempotency_key db.entries
    && source_free e db.entries
    && references_known e db

-- `session.add(entry)` and a flush: the row with its id, or an IntegrityError.
unfoldable pub insert_entry : LedgerEntry → Db → Result (LedgerEntry × Db)
insert_entry e db =
    let row = record e { id = suc (max_id db.entries) } in
    if admissible row db then ok (row, record db { entries = row ∷ db.entries }) else err integrity
