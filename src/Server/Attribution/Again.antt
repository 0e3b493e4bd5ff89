-- ===== src/Server/Attribution/Again.antt =====
-- A real transaction that is attributed, released and attributed once more.
use ikuzo_neko_pay.Prelude.{ℕ, ◌≡◌, ◌≢◌, String, Bool, true, Option, some, List, [], ◌∷◌, arith}
use ikuzo_neko_pay.Prelude.Int.{ℤ}
use ikuzo_neko_pay.Server.Store.{
  Db, LedgerEntry, RealTransaction, ok, insert_entry, admissible, find_real, source_taken,
}
use ikuzo_neko_pay.Server.Ledger.{reverse_entry, commit_entry, existing_by_key}
use ikuzo_neko_pay.Server.Attribution.{attribute, reverse_attribution}

find_real-id :
    (k : ℕ) (rs : List RealTransaction) (rt : RealTransaction)
    → find_real k rs ≡ some rt
    → rt.id ≡ k
unfolding find_real
find_real-id k [] rt h = cc
find_real-id k (r ∷ rs) rt h = ground (arith, find_real-id k rs rt)

-- An attribution leaves an entry that holds its real transaction.
attribute-source_taken :
    (now k member actor : ℕ) (rate : ℤ) (money : Option ℤ) (allow : Bool) (db db' : Db)
    (e : LedgerEntry)
    → attribute now k member actor rate money allow db ≡ ok (e, db')
    → source_taken k db'.entries ≡ true
unfolding attribute source_taken insert_entry
attribute-source_taken now k member actor rate money allow db db' e h = grind (arith, find_real-id)

reverse_attribution-source_taken :
    (now k actor : ℕ) (note : String) (db db' : Db)
    → source_taken k db.entries ≡ true
    → reverse_attribution now k actor note db ≡ ok db'
    → source_taken k db'.entries ≡ true
unfolding reverse_attribution reverse_entry commit_entry existing_by_key insert_entry source_taken
reverse_attribution-source_taken now k actor note db db' taken h = ground arith

attribute-source_taken_refused :
    (now k member actor : ℕ) (rate : ℤ) (money : Option ℤ) (allow : Bool) (db : Db)
    (r : LedgerEntry × Db)
    → source_taken k db.entries ≡ true
    → attribute now k member actor rate money allow db ≢ ok r
unfolding attribute insert_entry admissible
attribute-source_taken_refused now k member actor rate money allow db r taken h =
    grind (arith, find_real-id)

-- A real transaction that was attributed and whose attribution was then reversed cannot be attributed
-- again, to anybody, at any rate, with or without leave to overdraw.
pub attribute-reverse_attribution :
    (t1 t2 t3 k member actor : ℕ) (rate : ℤ) (money : Option ℤ) (allow : Bool) (note : String)
    (db db' db'' : Db) (e : LedgerEntry)
    → attribute t1 k member actor rate money allow db ≡ ok (e, db')
    → reverse_attribution t2 k actor note db' ≡ ok db''
    → (member' actor' : ℕ) (rate' : ℤ) (money' : Option ℤ) (allow' : Bool) (r : LedgerEntry × Db)
    → attribute t3 k member' actor' rate' money' allow' db'' ≢ ok r
attribute-reverse_attribution t1 t2 t3 k member actor rate money allow note db db' db'' e h reversed
      member' actor' rate' money' allow' r =
    attribute-source_taken_refused t3 k member' actor' rate' money' allow' db'' r (
      reverse_attribution-source_taken t2 k actor note db' db''
        (attribute-source_taken t1 k member actor rate money allow db db' e h) reversed)
