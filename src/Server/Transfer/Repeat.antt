-- ===== src/Server/Transfer/Repeat.antt =====
-- A transfer that is submitted again.
use Prim.Native.String.{◌++◌ as str_append}
use Prim.Native.String.{count}
use text.Mathlib.TextLemmas.{length-append}
use text.Mathlib.TextEquality.{eq_iff}
use ikuzo_neko_pay.Prelude.{
  ℕ, zero, suc, ap, ◌≡◌, ◌≢◌, refl, String, Bool, true, false, none, some, List, [], ◌∷◌, ◌==◌,
  is_empty, arith, str_eq, str_eq_refl,
}
use ikuzo_neko_pay.Prelude.Int.{ℤ, pos, ◌≤ℤ◌, int_laws, neg, ltb_ℤ, leb_ℤ}
use ikuzo_neko_pay.Server.Store.{Db, LedgerEntry, ok, insert_entry, find_key, find_member}
use ikuzo_neko_pay.Server.Ledger.{existing_by_key, is_active_member}
use ikuzo_neko_pay.Server.Transfer.{
  TransferIn, Transferred, transfer, insert_pair, existing_pair, rows_of_group, order_by_points,
  insert_by_points, next_out, next_in,
}
use ikuzo_neko_pay.Server.Edit.Undo.{insert_pair-transfer}

count-in : count ":in" ≡ 3
count-in = refl

longer : (k : String) → count (str_append k ":in") ≢ count k
longer k p = omega (arith, p, length-append k ":in", count-in)

str_eq-in_key : (k : String) → str_eq (str_append k ":in") k ≡ false
str_eq-in_key k = by_answer (str_eq (str_append k ":in") k) refl
  where
    by_answer : (b : Bool) → str_eq (str_append k ":in") k ≡ b → b ≡ false
    by_answer false h = refl
    by_answer true h = absurd (longer k (ap count ((eq_iff (str_append k ":in") k).0 h)))

order-pair :
    (e f : LedgerEntry)
    → ltb_ℤ e.points_delta f.points_delta ≡ false
    → order_by_points (e ∷ f ∷ []) ≡ f ∷ e ∷ []
unfolding order_by_points insert_by_points
order-pair e f h = ground (arith, h)

rows-pair :
    (e f : LedgerEntry) (g : ℕ) (es : List LedgerEntry)
    → e.transfer_group_id ≡ some g
    → f.transfer_group_id ≡ some g
    → rows_of_group (some g) es ≡ []
    → rows_of_group f.transfer_group_id (e ∷ f ∷ es) ≡ e ∷ f ∷ []
unfolding rows_of_group
rows-pair e f g es p q fresh = ground (arith, fresh)

existing_pair-ordered :
    (f e : LedgerEntry) (db : Db)
    → order_by_points (rows_of_group f.transfer_group_id db.entries) ≡ f ∷ e ∷ []
    → ltb_ℤ f.points_delta (pos 0) ≡ true
    → ltb_ℤ (pos 0) f.points_delta ≡ false
    → ltb_ℤ (pos 0) e.points_delta ≡ true
    → existing_pair f db ≡ ok (f, e, db)
unfolding existing_pair next_out next_in
existing_pair-ordered f e db rows p q r = rw (rows, p, q, r)

-- What an insertion of a pair leaves in the tables.
insert_pair-rows :
    (now group : ℕ) (a : TransferIn) (db db' : Db) (out in_row : LedgerEntry)
    → insert_pair now group a db ≡ ok (out, in_row, db')
    → (out.transfer_group_id ≡ some group)
      × (in_row.transfer_group_id ≡ some group)
      × (out.points_delta ≡ neg a.points)
      × (in_row.points_delta ≡ a.points)
      × (db'.entries ≡ in_row ∷ out ∷ db.entries)
      × (db'.members ≡ db.members)
unfolding insert_pair insert_entry
insert_pair-rows now group a db db' out in_row h = ground arith

signs :
    (z : ℤ)
    → pos 1 ≤ℤ z
    → (ltb_ℤ z (neg z) ≡ false)
      × (ltb_ℤ (neg z) (pos 0) ≡ true)
      × (ltb_ℤ (pos 0) (neg z) ≡ false)
      × (ltb_ℤ (pos 0) z ≡ true)
signs z h = grind (arith, int_laws)

insert_pair-key :
    (now group : ℕ) (a : TransferIn) (db db' : Db) (out in_row : LedgerEntry) (k : String)
    → a.idempotency_key ≡ some k
    → is_empty k ≡ false
    → insert_pair now group a db ≡ ok (out, in_row, db')
    → existing_by_key (some k) db' ≡ some out
unfolding insert_pair insert_entry existing_by_key find_key
insert_pair-key now group a db db' out in_row k key full h =
    ground (arith, str_eq_refl k, str_eq-in_key k)

-- The pair is what its key finds.
insert_pair-existing :
    (now group : ℕ) (a : TransferIn) (db db' : Db) (out in_row : LedgerEntry)
    → pos 1 ≤ℤ a.points
    → rows_of_group (some group) db.entries ≡ []
    → insert_pair now group a db ≡ ok (out, in_row, db')
    → existing_pair out db' ≡ ok (out, in_row, db')
insert_pair-existing now group a db db' out in_row p fresh h =
    let rows = insert_pair-rows now group a db db' out in_row h in
    let sign = signs a.points p in
    existing_pair-ordered out in_row db'
      (rw rows.4 (
        rw (rows-pair in_row out group db.entries rows.1 rows.0 fresh)
          (order-pair in_row out (rw (rows.2, rows.3) sign.0))))
      (rw rows.2 sign.1) (rw rows.2 sign.2) (rw rows.3 sign.3)

abbrev Passes : TransferIn → Db → Type 0
Passes a db =
    (leb_ℤ a.points (pos 0) ≡ false)
    × (a.from_member_id == a.to_member_id ≡ false)
    × (is_active_member (find_member a.from_member_id db.members) ≡ true)
    × (is_active_member (find_member a.to_member_id db.members) ≡ true)

transfer-Passes :
    (fuel now group : ℕ) (a : TransferIn) (db : Db) (r : Transferred)
    → transfer fuel now group a db ≡ ok r
    → Passes a db
unfolding transfer
transfer-Passes zero now group a db r h = cc
transfer-Passes (suc fuel) now group a db r h = ground arith

transfer-stored :
    (fuel now group : ℕ) (a : TransferIn) (db : Db) (e : LedgerEntry)
    → Passes a db
    → existing_by_key a.idempotency_key db ≡ some e
    → transfer (suc fuel) now group a db ≡ existing_pair e db
unfolding transfer
transfer-stored fuel now group a db e p stored = rw (p.0, p.1, p.2, p.3, stored)

-- A transfer under a new key and with a uuid of its own, once it has returned, returns the same two
-- rows whenever it is submitted again under that key, and adds nothing.
pub transfer-transfer :
    (fuel now group fuel' later group' : ℕ) (a : TransferIn) (db db' : Db)
    (out in_row : LedgerEntry) (k : String)
    → transfer fuel now group a db ≡ ok (out, in_row, db')
    → existing_by_key a.idempotency_key db ≡ none
    → a.idempotency_key ≡ some k
    → is_empty k ≡ false
    → rows_of_group (some group) db.entries ≡ []
    → transfer (suc fuel') later group' a db' ≡ ok (out, in_row, db')
transfer-transfer fuel now group fuel' later group' a db db' out in_row k h new key full fresh =
    let made = insert_pair-transfer fuel now group a db (out, in_row, db') new h in
    let passed = transfer-Passes fuel now group a db (out, in_row, db') h in
    let members = (insert_pair-rows now group a db db' out in_row made).5 in
    rw
      (transfer-stored fuel' later group' a db' out
        (passed.0, passed.1, rw members passed.2, rw members passed.3)
        (rw key (insert_pair-key now group a db db' out in_row k key full made)))
      (insert_pair-existing now group a db db' out in_row (positive passed.0) fresh made)
  where
    positive : leb_ℤ a.points (pos 0) ≡ false → pos 1 ≤ℤ a.points
    positive p = grind (arith, int_laws)
