-- ===== src/Server/Actions/Effects.antt =====
-- What an action of a member who is no administrator does to the balances.
use ikuzo_neko_pay.Prelude.{
  ℕ, ◌≡◌, ◌≢◌, refl, sym, ◌∙◌, inl, inr, false, ◌==◌, if◌then◌else◌, arith,
}
use ikuzo_neko_pay.Prelude.Int.{pos, neg, ◌+ℤ◌, ◌≤ℤ◌, int_laws}
use ikuzo_neko_pay.Server.Store.{Db, Member, LedgerEntry, Result, ok, err, forbidden, balance}
use ikuzo_neko_pay.Server.Results.{raise_if-ok}
use ikuzo_neko_pay.Server.Ledger.{TopupIn, PlayIn, record_topup, record_play}
use ikuzo_neko_pay.Server.Transfer.{TransferIn, Transferred, transfer}
use ikuzo_neko_pay.Server.Balances.{
  NoDebt, balance-record_topup, balance-record_play, record_topup-NoDebt, record_play-NoDebt,
}
use ikuzo_neko_pay.Server.Balances.Transfers.{transfer-Moves, transfer-NoDebt}
use ikuzo_neko_pay.Server.Actions.{
  Context, TopUpBody, PlayBody, TransferBody, for_other, create_topup, create_play, create_transfer,
  topup_in, play_in, moved_by, db_of_entry, db_of_pair, Action, topup_action, play_action,
  transfer_action, act,
}

db_of_entry-ok :
    (r : Result (LedgerEntry × Db)) (db' : Db)
    → db_of_entry r ≡ ok db'
    → (e : LedgerEntry) × (r ≡ ok (e, db'))
db_of_entry-ok (ok (e, db)) db' h = (e, cc)
db_of_entry-ok (err x) db' h = cc

db_of_pair-ok :
    (r : Result Transferred) (db' : Db)
    → db_of_pair r ≡ ok db'
    → (e : LedgerEntry) × (f : LedgerEntry) × (r ≡ ok (e, f, db'))
db_of_pair-ok (ok (e, f, db)) db' h = (e, f, cc)
db_of_pair-ok (err x) db' h = cc

-- For oneself: `and not _is_admin(viewer)`.
own :
    (viewer : Member) (k : ℕ) → for_other viewer k ≡ false → viewer.is_admin ≡ false → k ≡ viewer.id
own viewer k h plain = ground arith

-- No balance falls but that of the viewer, and nobody gets into debt.
pub record Harmless (viewer : Member) (db db' : Db) : Type 0 where
  pub spares : (k : ℕ) → k ≢ viewer.id → balance k db.entries ≤ℤ balance k db'.entries
  pub solvent : NoDebt db → NoDebt db'

topup-spares :
    (now : ℕ) (a : TopupIn) (db db' : Db) (e : LedgerEntry) (k : ℕ)
    → record_topup now a db ≡ ok (e, db')
    → balance k db.entries ≤ℤ balance k db'.entries
topup-spares now a db db' e k h = elim (balance-record_topup now a db db' e k h) [
  | inl same ↦ rw same.1 (omega arith)
  | inr added ↦ rw added.2 (grows added.0)
]
  where
    grows :
        pos 1 ≤ℤ a.points
        → balance k db.entries
          ≤ℤ (if a.member_id == k then a.points else pos 0) +ℤ balance k db.entries
    grows p = grind int_laws

play-spares :
    (now : ℕ) (a : PlayIn) (db db' : Db) (e : LedgerEntry) (k : ℕ)
    → record_play now a db ≡ ok (e, db')
    → a.member_id ≢ k
    → balance k db.entries ≤ℤ balance k db'.entries
play-spares now a db db' e k h other = elim (balance-record_play now a db db' e k h) [
  | inl same ↦ rw same.1 (omega arith)
  | inr added ↦ rw added.2 keeps
]
  where
    keeps :
        balance k db.entries
        ≤ℤ (if a.member_id == k then neg a.points else pos 0) +ℤ balance k db.entries
    keeps = grind int_laws

transfer-spares :
    (fuel now group : ℕ) (a : TransferIn) (db db' : Db) (e f : LedgerEntry) (k : ℕ)
    → transfer fuel now group a db ≡ ok (e, f, db')
    → a.from_member_id ≢ k
    → balance k db.entries ≤ℤ balance k db'.entries
transfer-spares fuel now group a db db' e f k h other =
    elim (transfer-Moves fuel now group a db db' e f k h) [
      | inl (x, found, pair, same) ↦ rw same (omega arith)
      | inr moved ↦ rw moved.3.2 (keeps moved.0)
    ]
  where
    keeps :
        pos 1 ≤ℤ a.points
        → balance k db.entries
          ≤ℤ (if a.to_member_id == k then a.points else pos 0)
            +ℤ ((if a.from_member_id == k then neg a.points else pos 0) +ℤ balance k db.entries)
    keeps p = grind int_laws

create_topup-Harmless :
    (now : ℕ) (c : Context) (a : TopUpBody) (viewer : Member) (db db' : Db)
    → create_topup now c a viewer db ≡ ok db'
    → Harmless viewer db db'
unfolding create_topup
create_topup-Harmless now c a viewer db db' h =
    let (e, made) = db_of_entry-ok (record_topup now (topup_in c a viewer) db) db' (ground arith) in
    record {
      spares = λ k other. topup-spares now (topup_in c a viewer) db db' e k made;
      solvent = record_topup-NoDebt now (topup_in c a viewer) db db' e made;
    }

create_play-Harmless :
    (now : ℕ) (c : Context) (a : PlayBody) (viewer : Member) (db db' : Db)
    → viewer.is_admin ≡ false
    → create_play now c a viewer db ≡ ok db'
    → Harmless viewer db db'
unfolding create_play
create_play-Harmless now c a viewer db db' plain h =
    let (allowed, done) = raise_if-ok (for_other viewer a.member_id) forbidden _ db' h in
    let (e, made) = db_of_entry-ok (record_play now (play_in c a viewer) db) db' done in
    let itself = own viewer a.member_id allowed plain in
    record {
      spares = λ k other.
          play-spares now (play_in c a viewer) db db' e k made (λ same. other (sym same ∙ itself));
      solvent = record_play-NoDebt now (play_in c a viewer) db db' e (ground arith) made;
    }

create_transfer-Harmless :
    (fuel now group : ℕ) (a : TransferBody) (viewer : Member) (db db' : Db)
    → viewer.is_admin ≡ false
    → create_transfer fuel now group a viewer db ≡ ok db'
    → Harmless viewer db db'
unfolding create_transfer
create_transfer-Harmless fuel now group a viewer db db' plain h =
    let (allowed, done) = raise_if-ok (for_other viewer a.from_member_id) forbidden _ db' h in
    let (e, f, made) = db_of_pair-ok (transfer fuel now group (moved_by a viewer) db) db' done in
    let itself = own viewer a.from_member_id allowed plain in
    record {
      spares = λ k other.
          transfer-spares fuel now group (moved_by a viewer) db db' e f k made
            (λ same. other (sym same ∙ itself));
      solvent = transfer-NoDebt fuel now group (moved_by a viewer) db db' e f refl made;
    }

pub act-Harmless :
    (now : ℕ) (c : Context) (o : Action) (viewer : Member) (db db' : Db)
    → viewer.is_admin ≡ false
    → act now c o viewer db ≡ ok db'
    → Harmless viewer db db'
unfolding act
act-Harmless now c (topup_action a) viewer db db' plain h =
    create_topup-Harmless now c a viewer db db' h
act-Harmless now c (play_action a) viewer db db' plain h =
    create_play-Harmless now c a viewer db db' plain h
act-Harmless now c (transfer_action fuel group a) viewer db db' plain h =
    create_transfer-Harmless fuel now group a viewer db db' plain h
