-- ===== src/Server/Ties/Inserts.antt =====
-- An insertion keeps the agreement.
use ikuzo_neko_pay.Prelude.{
  ℕ, suc, ◌≡◌, refl, sym, ◌∙◌, ap, subst, String, true, not, ◌&&◌, Option, some, List, [], ◌∷◌, ◌<◌,
  All, arith,
}
use ikuzo_neko_pay.Server.Store.{
  Db, LedgerEntry, RealTransaction, AttributionStatus, unattributed, attributed, ignored, ok,
  is_found, find_entry, max_id, insert_entry, admissible,
}
use ikuzo_neko_pay.Server.Ledger.{commit_entry}
use ikuzo_neko_pay.Server.Ties.{is_good, Tie, Tied, TiedAs, Agrees}
use ikuzo_neko_pay.Server.Ties.Rows.{find_entry-max_id, find_entry-id}

-- A row that is tied to real transaction k is found again, with the same owner, points and source.
abbrev pub Carries : ℕ → List LedgerEntry → List LedgerEntry → Type 0
Carries k es es' =
    (i : ℕ) (x : LedgerEntry)
    → find_entry i es ≡ some x
    → x.source_real_txn_id ≡ some k
    → (y : LedgerEntry) × (find_entry i es' ≡ some y)
      × (y.id ≡ i)
      × (y.source_real_txn_id ≡ some k)
      × (y.member_id ≡ x.member_id)
      × (y.points_delta ≡ x.points_delta)

Tie-carried :
    (es es' : List LedgerEntry) (k : ℕ) (r : RealTransaction)
    → Carries k es es'
    → Tie es k r
    → Tie es' k r
Tie-carried es es' k r c t =
    let (y, found, itself, source, owner, points) = c t.entry.id t.entry t.stored t.source in
    record {
      entry = y;
      pointer = t.pointer ∙ ap some (sym itself);
      stored = subst (λ i. find_entry i es' ≡ some y) (sym itself) found;
      source = source;
      owner = t.owner ∙ ap some (sym owner);
      points = points ∙ t.points;
    }

TiedAs-carried :
    (s : AttributionStatus) (es es' : List LedgerEntry) (k : ℕ) (r : RealTransaction)
    → Carries k es es'
    → TiedAs s es k r
    → TiedAs s es' k r
TiedAs-carried attributed es es' k r c t = Tie-carried es es' k r c t
TiedAs-carried unattributed es es' k r c t = t
TiedAs-carried ignored es es' k r c t = t

pub Tied-carried :
    (es es' : List LedgerEntry) (k : ℕ) (r : RealTransaction)
    → Carries k es es'
    → Tied es k r
    → Tied es' k r
Tied-carried es es' k r c t = (TiedAs-carried r.attribution_status es es' k r c t.0, t.1)

Below-max_id : (es : List LedgerEntry) (k : ℕ) → max_id es < k → All (λ f. f.id < k) es
unfolding max_id
Below-max_id [] k h = tt
Below-max_id (e ∷ es) k h = (ground (arith, h), Below-max_id es k (ground (arith, h)))

-- What an insertion leaves.
pub record Added (e row : LedgerEntry) (db db' : Db) : Type 0 where
  pub same : row ≡ record e { id = suc (max_id db.entries) }
  pub rows : db' ≡ record db { entries = row ∷ db.entries }
  pub agrees : Agrees db'

added-Carries :
    (k : ℕ) (row : LedgerEntry) (es : List LedgerEntry)
    → row.id ≡ suc (max_id es)
    → Carries k es (row ∷ es)
unfolding find_entry
added-Carries k row es new i x found source = (
  x,
  ground (arith, new, find_entry-max_id i es x found, found),
  find_entry-id i es x found,
  source,
  refl,
  refl,
)

insert_entry-same :
    (e row : LedgerEntry) (db db' : Db)
    → insert_entry e db ≡ ok (row, db')
    → (row ≡ record e { id = suc (max_id db.entries) })
      × (db' ≡ record db { entries = row ∷ db.entries })
      × (admissible row db ≡ true)
unfolding insert_entry
insert_entry-same e row db db' h = ground arith

admissible-is_good :
    (e : LedgerEntry) (db : Db)
    → not (is_found e.source_real_txn_id && is_found e.transfer_group_id) ≡ true
    → admissible e db ≡ true
    → is_good e ≡ true
unfolding admissible
admissible-is_good e db apart h = ground arith

-- `es` with a row of a new id in front.
added-Agrees :
    (row : LedgerEntry) (db : Db)
    → row.id ≡ suc (max_id db.entries)
    → is_good row ≡ true
    → Agrees db
    → Agrees (record db { entries = row ∷ db.entries })
added-Agrees row db new fits a = record {
  order = (Below-max_id db.entries row.id (omega (arith, new)), a.order);
  good = (fits, a.good);
  tied = λ k r found.
      Tied-carried db.entries (row ∷ db.entries) k r (added-Carries k row db.entries new)
        (a.tied k r found);
}

pub insert_entry-Added :
    (e row : LedgerEntry) (db db' : Db)
    → not (is_found e.source_real_txn_id && is_found e.transfer_group_id) ≡ true
    → Agrees db
    → insert_entry e db ≡ ok (row, db')
    → Added e row db db'
insert_entry-Added e row db db' apart a h =
    let (same, rows, fits) = insert_entry-same e row db db' h in
    record {
      same = same;
      rows = rows;
      agrees = subst Agrees (sym rows) (
          added-Agrees row db (ap (λ x. x.id) same)
            (admissible-is_good row db
              (subst
                (λ x. not (is_found x.source_real_txn_id && is_found x.transfer_group_id) ≡ true)
                (sym same) apart)
              fits)
            a);
    }

pub commit_entry-Agrees :
    (e row : LedgerEntry) (key : Option String) (db db' : Db)
    → not (is_found e.source_real_txn_id && is_found e.transfer_group_id) ≡ true
    → Agrees db
    → commit_entry e key db ≡ ok (row, db')
    → Agrees db'
unfolding commit_entry
commit_entry-Agrees e row key db db' apart a h =
    grind (arith, a, insert_entry-Added e row db db' apart a)
