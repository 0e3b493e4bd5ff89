-- ===== src/Server/Report/Moved.antt =====
-- An attribution moves the value of a real transaction from what is open to the ledger.
use mathlib.Core.Option.{some-injective}
use ikuzo_neko_pay.Prelude.{
  ℕ, suc, ◌≡◌, refl, sym, ap, ◌∙◌, Bool, true, false, Option, none, some, List, [], ◌∷◌, ◌==◌,
  if◌then◌else◌, arith,
}
use ikuzo_neko_pay.Prelude.Int.{ℤ, pos, ◌+ℤ◌, int_laws}
use ikuzo_neko_pay.Server.Store.{Db, LedgerEntry, RealTransaction, ok, find_real, internal_total}
use ikuzo_neko_pay.Server.Sql.{count_where}
use ikuzo_neko_pay.Server.Edit.{update_real}
use ikuzo_neko_pay.Server.Attribution.{attribute, taken_by}
use ikuzo_neko_pay.Server.Ties.{Agrees}
use ikuzo_neko_pay.Server.Ties.Inserts.{insert_entry-Added}
use ikuzo_neko_pay.Server.Ties.Changes.{attribute-Attributed, not-apart}
use ikuzo_neko_pay.Server.Report.{
  Snapshot, Reconciliation, is_open, sum_open, is_manual, drift_of, less, reconcile_report,
}

add_across : (a v c : ℤ) → a +ℤ (v +ℤ c) ≡ v +ℤ (a +ℤ c)
add_across a v c = omega int_laws

zero_add : (c : ℤ) → pos 0 +ℤ c ≡ c
zero_add c = omega int_laws

abbrev share : RealTransaction → ℤ
share x = if is_open x then x.value else pos 0

module _ (f : RealTransaction → RealTransaction)
    (closes : (x : RealTransaction) → is_open (f x) ≡ false) where
  count-closed :
      (k : ℕ) (rs : List RealTransaction) (r : RealTransaction)
      → find_real k rs ≡ some r
      → is_open r ≡ true
      → count_where is_open rs ≡ suc (count_where is_open (update_real k f rs))
  unfolding count_where find_real update_real
  count-closed k [] r found opened = cc
  count-closed k (x ∷ rs) r found opened =
      ground (arith, closes x, count-closed k rs r, found, opened)

  sum-closed :
      (k : ℕ) (rs : List RealTransaction) (r : RealTransaction)
      → find_real k rs ≡ some r
      → is_open r ≡ true
      → sum_open rs ≡ r.value +ℤ sum_open (update_real k f rs)
  unfolding sum_open find_real update_real
  sum-closed k [] r found opened = cc
  sum-closed k (x ∷ rs) r found opened = by_test (x.id == k) (λ h. sum-closed k rs r h opened) found
    where
      by_test :
          (b : Bool)
          → (find_real k rs ≡ some r → sum_open rs ≡ r.value +ℤ sum_open (update_real k f rs))
          → (if b then some x else find_real k rs) ≡ some r
          → share x +ℤ sum_open rs
            ≡ r.value +ℤ sum_open (if b then f x ∷ rs else x ∷ update_real k f rs)
      by_test true rest h =
          let opened' : is_open x ≡ true = ap is_open (some-injective _ _ h) ∙ opened in
          let value : share x ≡ r.value =
            ap (λ b. if b then x.value else pos 0) opened'
            ∙ ap (λ y. y.value) (some-injective _ _ h) in
          let none_left : share (f x) ≡ pos 0 =
            ap (λ b. if b then (f x).value else pos 0) (closes x) in
          ap (λ v. v +ℤ sum_open rs) value
          ∙ ap (λ c. r.value +ℤ c)
              (sym (ap (λ v. v +ℤ sum_open rs) none_left ∙ zero_add (sum_open rs)))
      by_test false rest h =
          ap (λ c. share x +ℤ c) (rest h)
          ∙ add_across (share x) r.value (sum_open (update_real k f rs))

regroup : (t v c : ℤ) → (v +ℤ t) +ℤ c ≡ t +ℤ (v +ℤ c)
regroup t v c = omega int_laws

drift_regroup : (t v c b : ℤ) → less (v +ℤ t) b +ℤ c ≡ less t b +ℤ (v +ℤ c)
drift_regroup t v c b = omega int_laws

abbrev plus : Option ℤ → ℤ → Option ℤ
plus none c = none
plus (some z) c = some (z +ℤ c)

drift_of-regroup :
    (t v c : ℤ) (snap : Option Snapshot)
    → plus (drift_of (v +ℤ t) snap) c ≡ plus (drift_of t snap) (v +ℤ c)
drift_of-regroup t v c none = refl
drift_of-regroup t v c (some s) = ap some (drift_regroup t v c s.balance)

-- What an attribution keeps of a report, and what it changes.
pub record Moves (r r' : Reconciliation) : Type 0 where
  pub total : r'.internal_total +ℤ r'.unattributed_value ≡ r.internal_total +ℤ r.unattributed_value
  pub drift : plus r'.drift r'.unattributed_value ≡ plus r.drift r.unattributed_value
  pub count : r.unattributed_count ≡ suc r'.unattributed_count
  pub manual : r'.manual_entry_count ≡ r.manual_entry_count

-- An attribution that returns takes one real transaction from those that a report counts as not
-- attributed, and its value from theirs to the total of the ledger: the sum of the two, and that of the
-- drift and their value, stay, whatever the latest snapshot; the manual entries stay as many. The
-- condition is that the tables agreed before.
pub attribute-Moves :
    (now k member actor : ℕ) (rate : ℤ) (money : Option ℤ) (allow : Bool) (db db' : Db)
    (row : LedgerEntry) (at : ℤ) (snap : Option Snapshot)
    → Agrees db
    → attribute now k member actor rate money allow db ≡ ok (row, db')
    → Moves (reconcile_report at snap db) (reconcile_report at snap db')
unfolding reconcile_report internal_total count_where
attribute-Moves now k member actor rate money allow db db' row at snap a h =
    let w = attribute-Attributed now k member actor rate money allow db db' row h in
    let added = insert_entry-Added w.e row db w.mid (not-apart w.e w.apart) a w.inserted in
    let f = taken_by now member actor row.id in
    let rows : db'.entries ≡ row ∷ db.entries =
      ap (λ d. d.entries) w.written ∙ ap (λ d. d.entries) added.rows in
    let reals : db'.reals ≡ update_real k f db.reals =
      ap (λ d. d.reals) w.written ∙ ap (λ d. update_real k f d.reals) added.rows in
    let points : row.points_delta ≡ w.rt.value =
      ap (λ x. x.points_delta) added.same ∙ (w.points ∙ (a.tied k w.rt w.found).1) in
    let sourced : row.source_real_txn_id ≡ some w.rt.id =
      ap (λ x. x.source_real_txn_id) added.same ∙ w.source in
    let total : internal_total db'.entries ≡ w.rt.value +ℤ internal_total db.entries =
      ap internal_total rows ∙ ap (λ z. z +ℤ internal_total db.entries) points in
    let value : sum_open db.reals ≡ w.rt.value +ℤ sum_open db'.reals =
      sum-closed f (λ x. refl) k db.reals w.rt w.found w.loose
      ∙ ap (λ rs. w.rt.value +ℤ sum_open rs) (sym reals) in
    record {
      total =
          ap (λ t. t +ℤ sum_open db'.reals) total
          ∙ (regroup (internal_total db.entries) w.rt.value (sum_open db'.reals)
              ∙ ap (λ c. internal_total db.entries +ℤ c) (sym value));
      drift =
          ap (λ t. plus (drift_of t snap) (sum_open db'.reals)) total
          ∙ (drift_of-regroup (internal_total db.entries) w.rt.value (sum_open db'.reals) snap
              ∙ ap (plus (drift_of (internal_total db.entries) snap)) (sym value));
      count =
          count-closed f (λ x. refl) k db.reals w.rt w.found w.loose
          ∙ ap (λ rs. suc (count_where is_open rs)) (sym reals);
      manual = ap (count_where is_manual) rows ∙ ground (arith, sourced);
    }
