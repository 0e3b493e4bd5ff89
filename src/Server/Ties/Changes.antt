-- ===== src/Server/Ties/Changes.antt =====
-- Attributions, edits and links keep the agreement.
use native.Mathlib.Decide.{ℕ_discrete}
use ikuzo_neko_pay.Prelude.{
  ℕ, ◌≡◌, refl, sym, ◌∙◌, ap, subst, String, Bool, true, not, ◌&&◌, Option, none, some, List, ◌==◌,
  if◌then◌else◌, is_empty, arith,
}
use ikuzo_neko_pay.Prelude.Int.{ℤ}
use ikuzo_neko_pay.Server.Dedup.{RealKind, signed_value}
use ikuzo_neko_pay.Server.Store.{
  Db, LedgerEntry, RealTransaction, AttributionStatus, unattributed, attributed, ignored, Result,
  ok, err, not_found, conflict, validation, is_found, find_entry, find_real, insert_entry,
}
use ikuzo_neko_pay.Server.Results.{bind-ok, raise_if-ok, found-ok, ok-pair}
use ikuzo_neko_pay.Server.Ledger.{require_active_member, reverse_entry}
use ikuzo_neko_pay.Server.Edit.{update_real, freed}
use ikuzo_neko_pay.Server.Attribution.{
  attribute, attributed_entry, taken_by, or_conflict, is_unattributed, ignoring, ignore_real_txn,
  reverse_attribution,
}
use ikuzo_neko_pay.Server.Ties.{Tied, TiedAs, Agrees}
use ikuzo_neko_pay.Server.Ties.Rows.{find_entry-head, find_real-update_real, find_real-id, map_real}
use ikuzo_neko_pay.Server.Ties.Inserts.{insert_entry-Added}
use ikuzo_neko_pay.Server.Ties.Records.{reverse_entry-Agrees, reverse_entry-reals}

-- A change of one real transaction that leaves it tied.
pub update_real-Agrees :
    (f : RealTransaction → RealTransaction) (k : ℕ) (r : RealTransaction) (db : Db)
    → ((x : RealTransaction) → (f x).id ≡ x.id)
    → find_real k db.reals ≡ some r
    → Agrees db
    → Tied db.entries k (f r)
    → Agrees (record db { reals = update_real k f db.reals })
update_real-Agrees f k r db keeps found a t = record {
  order = a.order;
  good = a.good;
  tied = λ j x h. by_key j x (find_real-update_real f j k db.reals keeps) h;
}
  where
    by_key :
        (j : ℕ) (x : RealTransaction)
        → find_real j (update_real k f db.reals)
          ≡ (if j == k then map_real f (find_real j db.reals) else find_real j db.reals)
        → find_real j (update_real k f db.reals) ≡ some x
        → Tied db.entries j x
    by_key j x e h = elim (ℕ_discrete j k) [
      | yes same ↦
          let found_j : find_real j db.reals ≡ some r =
            ap (λ i. find_real i db.reals) same ∙ found in
          let changed : f r ≡ x = ground (arith, e, h, same, found_j) in
          subst (Tied db.entries j) changed (subst (λ i. Tied db.entries i (f r)) (sym same) t)
      | no other ↦ a.tied j x (ground (arith, e, h, other))
    ]

-- What `attribute` writes.
attributed_entry-fields :
    (rt : RealTransaction) (m actor : ℕ) (rate : ℤ) (money : Option ℤ) (allow : Bool) (db : Db)
    (kind : RealKind) (e : LedgerEntry)
    → attributed_entry rt m actor rate money allow db kind ≡ ok e
    → (e.source_real_txn_id ≡ some rt.id)
      × (e.transfer_group_id ≡ none)
      × (e.member_id ≡ m)
      × (e.points_delta ≡ signed_value kind rt.value)
unfolding signed_value
attributed_entry-fields rt m actor rate money allow db RealKind.topup e h = ground arith
attributed_entry-fields rt m actor rate money allow db RealKind.pay e h = ground arith

or_conflict-ok :
    (r : Result (LedgerEntry × Db)) (x : LedgerEntry × Db) → or_conflict r ≡ ok x → r ≡ ok x
or_conflict-ok (ok y) x h = h
or_conflict-ok (err e) x h = cc

pub record Attributed (now k m actor : ℕ) (row : LedgerEntry) (db db' : Db) : Type 0 where
  pub rt : RealTransaction
  pub e : LedgerEntry
  pub mid : Db
  pub found : find_real k db.reals ≡ some rt
  pub loose : is_unattributed rt.attribution_status ≡ true
  pub source : e.source_real_txn_id ≡ some rt.id
  pub apart : e.transfer_group_id ≡ none
  pub owner : e.member_id ≡ m
  pub points : e.points_delta ≡ signed_value rt.kind rt.value
  pub inserted : insert_entry e db ≡ ok (row, mid)
  pub written : db' ≡ record mid { reals = update_real k (taken_by now m actor row.id) mid.reals }

pub attribute-Attributed :
    (now k m actor : ℕ) (rate : ℤ) (money : Option ℤ) (allow : Bool) (db db' : Db)
    (row : LedgerEntry)
    → attribute now k m actor rate money allow db ≡ ok (row, db')
    → Attributed now k m actor row db db'
unfolding attribute
attribute-Attributed now k m actor rate money allow db db' row h =
    let (rt, found, rest) = found-ok (find_real k db.reals) not_found _ (row, db') h in
    let (open_, rest) =
      raise_if-ok (not (is_unattributed rt.attribution_status)) conflict _ (row, db') rest in
    let (_, _, rest) = bind-ok (require_active_member m db) _ (row, db') rest in
    let (e, made, rest) =
      bind-ok (attributed_entry rt m actor rate money allow db rt.kind) _ (row, db') rest in
    let ((row', mid), stored, done) = bind-ok (or_conflict (insert_entry e db)) _ (row, db') rest in
    let (source, apart, owner, points) =
      attributed_entry-fields rt m actor rate money allow db rt.kind e made in
    let (same, kept) =
      ok-pair row' row
        (record mid { reals = update_real k (taken_by now m actor row'.id) mid.reals }) db' done in
    record {
      rt = rt;
      e = e;
      mid = mid;
      found = found;
      loose = ground (arith, open_);
      source = source;
      apart = apart;
      owner = owner;
      points = points;
      inserted =
          or_conflict-ok (insert_entry e db) (row, mid) (stored ∙ ap (λ x. ok (x, mid)) same);
      written =
          sym kept
          ∙ ap (λ x. record mid { reals = update_real k (taken_by now m actor x.id) mid.reals })
              same;
    }

pub not-apart :
    (e : LedgerEntry)
    → e.transfer_group_id ≡ none
    → not (is_found e.source_real_txn_id && is_found e.transfer_group_id) ≡ true
not-apart e h = ground arith

pub attribute-Agrees :
    (now k m actor : ℕ) (rate : ℤ) (money : Option ℤ) (allow : Bool) (db db' : Db)
    (row : LedgerEntry)
    → Agrees db
    → attribute now k m actor rate money allow db ≡ ok (row, db')
    → Agrees db'
attribute-Agrees now k m actor rate money allow db db' row a h =
    let w = attribute-Attributed now k m actor rate money allow db db' row h in
    let added = insert_entry-Added w.e row db w.mid (not-apart w.e w.apart) a w.inserted in
    let found : find_real k w.mid.reals ≡ some w.rt =
      ap (λ d. find_real k d.reals) added.rows ∙ w.found in
    let tied : Tied w.mid.entries k (taken_by now m actor row.id w.rt) = (
      record {
        entry = row;
        pointer = refl;
        stored = ap (λ d. find_entry row.id d.entries) added.rows ∙ find_entry-head row db.entries;
        source =
            ap (λ x. x.source_real_txn_id) added.same
            ∙ w.source
            ∙ ap some (find_real-id k db.reals w.rt w.found);
        owner = ap some (sym (ap (λ x. x.member_id) added.same ∙ w.owner));
        points = ap (λ x. x.points_delta) added.same ∙ w.points ∙ (a.tied k w.rt w.found).1;
      },
      (a.tied k w.rt w.found).1,
    ) in
    subst Agrees (sym w.written) (
      update_real-Agrees (taken_by now m actor row.id) k w.rt w.mid (λ x. refl) found added.agrees
        tied)

-- A status that keeps the pointers of a loose transaction.
Tied-ignoring :
    (es : List LedgerEntry) (k : ℕ) (r : RealTransaction)
    → is_unattributed r.attribution_status ≡ true
    → Tied es k r
    → Tied es k (ignoring r)
Tied-ignoring es k r h t = (by_status r.attribution_status h t.0, t.1)
  where
    by_status :
        (s : AttributionStatus)
        → is_unattributed s ≡ true
        → TiedAs s es k r
        → (r.ledger_entry_id ≡ none) × (r.attributed_member_id ≡ none)
    by_status unattributed h t = t
    by_status attributed h t = cc
    by_status ignored h t = cc

ignore_real_txn-made :
    (k : ℕ) (reason : String) (db db' : Db)
    → ignore_real_txn k reason db ≡ ok db'
    → (rt : RealTransaction) × (find_real k db.reals ≡ some rt)
      × (is_unattributed rt.attribution_status ≡ true)
      × (db' ≡ record db { reals = update_real k ignoring db.reals })
unfolding ignore_real_txn
ignore_real_txn-made k reason db db' h =
    let (_, rest) = raise_if-ok (is_empty reason) validation _ db' h in
    let (rt, found, rest) = found-ok (find_real k db.reals) conflict _ db' rest in
    let (loose, done) =
      raise_if-ok (not (is_unattributed rt.attribution_status)) conflict _ db' rest in
    (rt, found, ground (arith, loose), cc)

pub ignore_real_txn-Agrees :
    (k : ℕ) (reason : String) (db db' : Db)
    → Agrees db
    → ignore_real_txn k reason db ≡ ok db'
    → Agrees db'
ignore_real_txn-Agrees k reason db db' a h =
    let (rt, found, loose, written) = ignore_real_txn-made k reason db db' h in
    subst Agrees (sym written) (
      update_real-Agrees ignoring k rt db (λ x. refl) found a
        (Tied-ignoring db.entries k rt loose (a.tied k rt found)))

pub Tied-freed :
    (es : List LedgerEntry) (k : ℕ) (r : RealTransaction)
    → signed_value r.kind r.value ≡ r.value
    → Tied es k (freed r)
Tied-freed es k r signed = ((refl, refl), signed)

reverse_attribution-made :
    (now k actor : ℕ) (note : String) (db db' : Db)
    → reverse_attribution now k actor note db ≡ ok db'
    → (rt : RealTransaction) × (id : ℕ) × (row : LedgerEntry) × (mid : Db) × (find_real k db.reals
        ≡ some rt)
      × (rt.ledger_entry_id ≡ some id)
      × (reverse_entry now id actor note db ≡ ok (row, mid))
      × (db' ≡ record mid { reals = update_real k freed mid.reals })
unfolding reverse_attribution
reverse_attribution-made now k actor note db db' h =
    let (rt, found, rest) = found-ok (find_real k db.reals) not_found _ db' h in
    let (id, tied, rest) = found-ok rt.ledger_entry_id not_found _ db' rest in
    let ((row, mid), reversed, done) = bind-ok (reverse_entry now id actor note db) _ db' rest in
    (rt, id, row, mid, found, tied, reversed, cc)

pub reverse_attribution-Agrees :
    (now k actor : ℕ) (note : String) (db db' : Db)
    → Agrees db
    → reverse_attribution now k actor note db ≡ ok db'
    → Agrees db'
reverse_attribution-Agrees now k actor note db db' a h =
    let (rt, id, row, mid, found, tied, reversed, written) =
      reverse_attribution-made now k actor note db db' h in
    let a' = reverse_entry-Agrees now id actor note db mid row a reversed in
    let kept : find_real k mid.reals ≡ some rt =
      ap (λ rs. find_real k rs) (reverse_entry-reals now id actor note db mid row reversed)
      ∙ found in
    subst Agrees (sym written) (
      update_real-Agrees freed k rt mid (λ x. refl) kept a'
        (Tied-freed mid.entries k rt (a'.tied k rt kept).1))
