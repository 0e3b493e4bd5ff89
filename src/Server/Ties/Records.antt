-- ===== src/Server/Ties/Records.antt =====
-- Top-ups, plays, adjustments, reversals and transfers keep the agreement.
use ikuzo_neko_pay.Prelude.{
  ℕ, zero, suc, ◌≡◌, refl, sym, subst, ◌⊎◌, inl, inr, String, Bool, true, false, not, ◌&&◌, Option,
  none, some, arith,
}
use ikuzo_neko_pay.Prelude.Int.{ℤ}
use ikuzo_neko_pay.Server.Store.{Db, LedgerEntry, ok, not_found, is_found, find_entry, insert_entry}
use ikuzo_neko_pay.Server.Results.{bind-ok, found-ok}
use ikuzo_neko_pay.Server.Ledger.{
  TopupIn, PlayIn, record_topup, record_play, record_adjustment, reverse_entry, reversal,
  commit_entry, topup_entry, play_entry, blank,
}
use ikuzo_neko_pay.Server.Transfer.{
  TransferIn, transfer, insert_pair, existing_pair, out_row, in_row,
}
use ikuzo_neko_pay.Server.Ties.{Agrees}
use ikuzo_neko_pay.Server.Ties.Inserts.{insert_entry-Added, commit_entry-Agrees}

apart : (b : Bool) → not (b && false) ≡ true
apart b = ground arith

pub record_topup-Agrees :
    (now : ℕ) (i : TopupIn) (db db' : Db) (e : LedgerEntry)
    → Agrees db
    → record_topup now i db ≡ ok (e, db')
    → Agrees db'
unfolding record_topup
record_topup-Agrees now i db db' e a h =
    let made : (m : ℤ)
        → commit_entry (topup_entry now i m) i.idempotency_key db ≡ ok (e, db')
        → Agrees db' =
      λ m.
        commit_entry-Agrees (topup_entry now i m) e i.idempotency_key db db'
          (apart (is_found i.source_real_txn_id)) a in
    grind (arith, a, made)

pub record_play-Agrees :
    (now : ℕ) (i : PlayIn) (db db' : Db) (e : LedgerEntry)
    → Agrees db
    → record_play now i db ≡ ok (e, db')
    → Agrees db'
unfolding record_play
record_play-Agrees now i db db' e a h = grind (
  arith,
  a,
  commit_entry-Agrees (play_entry now i) e i.idempotency_key db db'
      (apart (is_found i.source_real_txn_id)) a,
)

pub record_adjustment-Agrees :
    (now m : ℕ) (z : ℤ) (by : ℕ) (reason : String) (db db' : Db) (e : LedgerEntry)
    → Agrees db
    → record_adjustment now m z by reason db ≡ ok (e, db')
    → Agrees db'
unfolding record_adjustment
record_adjustment-Agrees now m z by reason db db' e a h =
    let row = record blank {
      member_id = m;
      points_delta = z;
      note = some reason;
      created_by = by;
      created_at = now;
    } in
    grind (arith, commit_entry-Agrees row e none db db' refl a)

reverse_entry-made :
    (now k by : ℕ) (note : String) (db db' : Db) (e : LedgerEntry)
    → reverse_entry now k by note db ≡ ok (e, db')
    → (x : LedgerEntry) × (find_entry k db.entries ≡ some x)
      × (commit_entry (reversal now x by note) none db ≡ ok (e, db'))
unfolding reverse_entry
reverse_entry-made now k by note db db' e h =
    found-ok (find_entry k db.entries) not_found _ (e, db') h

commit_entry-reals :
    (e row : LedgerEntry) (key : Option String) (db db' : Db)
    → commit_entry e key db ≡ ok (row, db')
    → db'.reals ≡ db.reals
unfolding commit_entry insert_entry
commit_entry-reals e row key db db' h = ground arith

pub reverse_entry-reals :
    (now k by : ℕ) (note : String) (db db' : Db) (e : LedgerEntry)
    → reverse_entry now k by note db ≡ ok (e, db')
    → db'.reals ≡ db.reals
reverse_entry-reals now k by note db db' e h =
    let (x, found, made) = reverse_entry-made now k by note db db' e h in
    commit_entry-reals (reversal now x by note) e none db db' made

pub reverse_entry-Agrees :
    (now k by : ℕ) (note : String) (db db' : Db) (e : LedgerEntry)
    → Agrees db
    → reverse_entry now k by note db ≡ ok (e, db')
    → Agrees db'
reverse_entry-Agrees now k by note db db' e a h =
    let (x, found, made) = reverse_entry-made now k by note db db' e h in
    commit_entry-Agrees (reversal now x by note) e none db db' refl a made

existing_pair-keeps :
    (x : LedgerEntry) (db db' : Db) (e f : LedgerEntry)
    → existing_pair x db ≡ ok (e, f, db')
    → db' ≡ db
unfolding existing_pair
existing_pair-keeps x db db' e f h = ground arith

insert_pair-Agrees :
    (now group : ℕ) (i : TransferIn) (db db' : Db) (e f : LedgerEntry)
    → Agrees db
    → insert_pair now group i db ≡ ok (e, f, db')
    → Agrees db'
unfolding insert_pair
insert_pair-Agrees now group i db db' e f a h =
    let ((out, db1), first, rest) =
      bind-ok (insert_entry (out_row now group i) db) _ (e, f, db') h in
    let ((in_, db2), second, done) =
      bind-ok (insert_entry (in_row now group i) db1) _ (e, f, db') rest in
    let a1 = (insert_entry-Added (out_row now group i) out db db1 refl a first).agrees in
    let same : db2 ≡ db' = cc in
    subst Agrees same (insert_entry-Added (in_row now group i) in_ db1 db2 refl a1 second).agrees

transfer-made :
    (fuel now group : ℕ) (i : TransferIn) (db db' : Db) (e f : LedgerEntry)
    → transfer fuel now group i db ≡ ok (e, f, db')
    → (db' ≡ db) ⊎ (insert_pair now group i db ≡ ok (e, f, db'))
unfolding transfer
transfer-made zero now group i db db' e f h = cc
transfer-made (suc fuel) now group i db db' e f h =
    grind (arith, existing_pair-keeps, transfer-made fuel now group i db db' e f)

pub transfer-Agrees :
    (fuel now group : ℕ) (i : TransferIn) (db db' : Db) (e f : LedgerEntry)
    → Agrees db
    → transfer fuel now group i db ≡ ok (e, f, db')
    → Agrees db'
transfer-Agrees fuel now group i db db' e f a h =
    elim (transfer-made fuel now group i db db' e f h) [
      | inl same ↦ subst Agrees (sym same) a
      | inr made ↦ insert_pair-Agrees now group i db db' e f a made
    ]
