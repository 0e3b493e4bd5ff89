-- ===== src/Server/Transfer/Again.antt =====
-- A call that is repeated under its idempotency key.
use ikuzo_neko_pay.Prelude.{
  ℕ, ◌≡◌, refl, String, true, false, Option, none, some, arith, str_eq_refl,
}
use ikuzo_neko_pay.Prelude.Int.{ℤ, pos, leb_ℤ}
use ikuzo_neko_pay.Server.Store.{Db, LedgerEntry, ok, insert_entry, find_key, find_member}
use ikuzo_neko_pay.Server.Ledger.{
  TopupIn, PlayIn, record_topup, record_play, existing_by_key, existing_or, is_active_member,
  topup_entry, play_entry, commit_entry,
}
use ikuzo_neko_pay.Server.Transfer.{has_key}

-- What an operation finds, or commits, for a key is what the key finds from then on.
existing_or-found :
    (f e : LedgerEntry) (key : Option String) (db db' : Db)
    → f.idempotency_key ≡ key
    → has_key key ≡ true
    → existing_or (existing_by_key key db) db (commit_entry f key db) ≡ ok (e, db')
    → (existing_by_key key db' ≡ some e) × (db'.members ≡ db.members)
unfolding commit_entry existing_by_key insert_entry find_key
existing_or-found f e none db db' own keyed h = ground arith
existing_or-found f e (some k) db db' own keyed h = ground (arith, str_eq_refl k)

-- Where a top-up returns, its guards let it pass.
record_topup-passes :
    (now : ℕ) (a : TopupIn) (db db' : Db) (e : LedgerEntry) (money : ℤ)
    → a.money ≡ some money
    → record_topup now a db ≡ ok (e, db')
    → (leb_ℤ a.points (pos 0) ≡ false)
      × (leb_ℤ money (pos 0) ≡ false)
      × (is_active_member (find_member a.member_id db.members) ≡ true)
      × (existing_or
            (existing_by_key a.idempotency_key db)
            db
            (commit_entry (topup_entry now a money) a.idempotency_key db)
          ≡ ok (e, db'))
unfolding record_topup
record_topup-passes now a db db' e money paid h = ground arith

record_topup-stored :
    (now : ℕ) (a : TopupIn) (db : Db) (e : LedgerEntry) (money : ℤ)
    → a.money ≡ some money
    → leb_ℤ a.points (pos 0) ≡ false
    → leb_ℤ money (pos 0) ≡ false
    → is_active_member (find_member a.member_id db.members) ≡ true
    → existing_by_key a.idempotency_key db ≡ some e
    → record_topup now a db ≡ ok (e, db)
unfolding record_topup
record_topup-stored now a db e money paid p q active stored = rw (paid, p, q, active, stored)

-- A top-up that is submitted again under its key, whenever, returns the same entry and adds nothing.
pub record_topup-record_topup :
    (now later : ℕ) (a : TopupIn) (db db' : Db) (e : LedgerEntry)
    → has_key a.idempotency_key ≡ true
    → record_topup now a db ≡ ok (e, db')
    → record_topup later a db' ≡ ok (e, db')
unfolding record_topup
record_topup-record_topup now later a db db' e keyed h = by_money a.money refl
  where
    by_money : (m : Option ℤ) → a.money ≡ m → record_topup later a db' ≡ ok (e, db')
    by_money none lost = ground arith
    by_money (some m) paid =
        let passed = record_topup-passes now a db db' e m paid h in
        let found =
          existing_or-found (topup_entry now a m) e a.idempotency_key db db' refl keyed passed.3 in
        record_topup-stored later a db' e m paid passed.0 passed.1 (rw found.1 passed.2) found.0

record_play-passes :
    (now : ℕ) (a : PlayIn) (db db' : Db) (e : LedgerEntry)
    → record_play now a db ≡ ok (e, db')
    → (leb_ℤ a.points (pos 0) ≡ false)
      × (is_active_member (find_member a.member_id db.members) ≡ true)
      × (existing_or
            (existing_by_key a.idempotency_key db)
            db
            (commit_entry (play_entry now a) a.idempotency_key db)
          ≡ ok (e, db'))
unfolding record_play
record_play-passes now a db db' e h = ground arith

record_play-stored :
    (now : ℕ) (a : PlayIn) (db : Db) (e : LedgerEntry)
    → leb_ℤ a.points (pos 0) ≡ false
    → is_active_member (find_member a.member_id db.members) ≡ true
    → existing_by_key a.idempotency_key db ≡ some e
    → record_play now a db ≡ ok (e, db)
unfolding record_play
record_play-stored now a db e p active stored = rw (p, active, stored)

-- A play that is submitted again under its key, whenever, returns the same entry and adds nothing,
-- even where the balance left would not cover it.
pub record_play-record_play :
    (now later : ℕ) (a : PlayIn) (db db' : Db) (e : LedgerEntry)
    → has_key a.idempotency_key ≡ true
    → record_play now a db ≡ ok (e, db')
    → record_play later a db' ≡ ok (e, db')
record_play-record_play now later a db db' e keyed h =
    let passed = record_play-passes now a db db' e h in
    let found =
      existing_or-found (play_entry now a) e a.idempotency_key db db' refl keyed passed.2 in
    record_play-stored later a db' e passed.0 (rw found.1 passed.1) found.0
