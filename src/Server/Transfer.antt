-- ===== src/Server/Transfer.antt =====
-- transfer of app/services/ledger_service.py. `group` is the uuid that the call draws. The retry after
-- an IntegrityError calls the function again: its fuel is Python's recursion limit, and running out
-- of it is a RecursionError.
pub mod Keys
pub mod Again
pub mod Repeat
use Prim.Native.String.{◌++◌ as str_append}
use ikuzo_neko_pay.Prelude.{
  ℕ, zero, suc, String, Bool, true, false, Option, none, some, List, [], ◌∷◌, ◌==◌, if◌then◌else◌,
  is_empty,
}
use ikuzo_neko_pay.Prelude.Int.{ℤ, pos, neg, leb_ℤ, ltb_ℤ}
use ikuzo_neko_pay.Server.Store.{
  Db, LedgerEntry, transfer_in, transfer_out, Error, validation, integrity, recursion, stop, Result,
  ok, err, ◌>>=◌, ◌>>◌, raise_if, insert_entry,
}
use ikuzo_neko_pay.Server.Ledger.{require_active_member, existing_by_key, covered, blank}

pub record TransferIn : Type 0 where
  pub from_member_id : ℕ
  pub to_member_id : ℕ
  pub points : ℤ
  pub created_by : ℕ
  pub note : Option String
  pub idempotency_key : Option String
  pub allow_negative : Bool

-- The two rows and the tables.
abbrev pub Transferred : Type 0
Transferred = LedgerEntry × LedgerEntry × Db

-- `transfer_group_id == group`; with None the query says IS NULL.
abbrev pub same_group : Option ℕ → Option ℕ → Bool
same_group none none = true
same_group none (some h) = false
same_group (some g) none = false
same_group (some g) (some h) = g == h

unfoldable pub rows_of_group : Option ℕ → List LedgerEntry → List LedgerEntry
rows_of_group g [] = []
rows_of_group g (e ∷ es) =
    if same_group g e.transfer_group_id then e ∷ rows_of_group g es else rows_of_group g es

-- ORDER BY points_delta
unfoldable pub insert_by_points : LedgerEntry → List LedgerEntry → List LedgerEntry
insert_by_points e [] = e ∷ []
insert_by_points e (f ∷ fs) =
    if ltb_ℤ e.points_delta f.points_delta then e ∷ f ∷ fs else f ∷ insert_by_points e fs

unfoldable pub order_by_points : List LedgerEntry → List LedgerEntry
unfolding insert_by_points
order_by_points [] = []
order_by_points (e ∷ es) = insert_by_points e (order_by_points es)

-- `next(r for r in rows if ...)`
unfoldable pub next_out : List LedgerEntry → Result LedgerEntry
next_out [] = err stop
next_out (e ∷ es) = if ltb_ℤ e.points_delta (pos 0) then ok e else next_out es

unfoldable pub next_in : List LedgerEntry → Result LedgerEntry
next_in [] = err stop
next_in (e ∷ es) = if ltb_ℤ (pos 0) e.points_delta then ok e else next_in es

unfoldable pub existing_pair : LedgerEntry → Db → Result Transferred
unfolding rows_of_group order_by_points next_out next_in
existing_pair existing db = do
  let rows = order_by_points (rows_of_group existing.transfer_group_id db.entries)
  out ← next_out rows
  in_row ← next_in rows
  ok (out, in_row, db)

-- f"{idempotency_key}:in" if idempotency_key else None
abbrev pub in_key : Option String → Option String
in_key none = none
in_key (some k) = if is_empty k then none else some (str_append k ":in")

abbrev pub out_row : ℕ → ℕ → TransferIn → LedgerEntry
out_row now group a = record blank {
  member_id = a.from_member_id;
  entry_type = transfer_out;
  points_delta = neg a.points;
  note = a.note;
  created_by = a.created_by;
  transfer_group_id = some group;
  idempotency_key = a.idempotency_key;
  created_at = now;
}

abbrev pub in_row : ℕ → ℕ → TransferIn → LedgerEntry
in_row now group a = record blank {
  member_id = a.to_member_id;
  entry_type = transfer_in;
  points_delta = a.points;
  note = a.note;
  created_by = a.created_by;
  transfer_group_id = some group;
  idempotency_key = in_key a.idempotency_key;
  created_at = now;
}

-- `session.add_all([out_row, in_row])` and the commit: both rows or none.
unfoldable pub insert_pair : ℕ → ℕ → TransferIn → Db → Result Transferred
insert_pair now group a db = do
  (out, db') ← insert_entry (out_row now group a) db
  (in_, db'') ← insert_entry (in_row now group a) db'
  ok (out, in_, db'')

-- Whether `if idempotency_key:` holds.
abbrev pub has_key : Option String → Bool
has_key none = false
has_key (some k) = if is_empty k then false else true

-- The `except IntegrityError` around the commit.
abbrev pub on_integrity : Bool → Result Transferred → Result Transferred → Result Transferred
on_integrity keyed retry (ok r) = ok r
on_integrity keyed retry (err integrity) = if keyed then retry else err integrity
on_integrity keyed retry (err e) = err e

abbrev pub pair_or : Option LedgerEntry → Db → Result Transferred → Result Transferred
pair_or (some e) db make = existing_pair e db
pair_or none db make = make

unfoldable pub transfer : ℕ → ℕ → ℕ → TransferIn → Db → Result Transferred
transfer zero now group a db = err recursion
transfer (suc fuel) now group a db = do
  raise_if (leb_ℤ a.points (pos 0)) validation
  raise_if (a.from_member_id == a.to_member_id) validation
  require_active_member a.from_member_id db
  require_active_member a.to_member_id db
  pair_or (existing_by_key a.idempotency_key db) db (do
    covered a.allow_negative a.points a.from_member_id db
    on_integrity (has_key a.idempotency_key) (transfer fuel now group a db)
        (insert_pair now group a db))
