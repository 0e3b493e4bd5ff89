-- ===== src/Server/Ties/Rows.antt =====
-- Lookups after an insertion, a change and a removal.
use ikuzo_neko_pay.Prelude.{
  ℕ, ◌≡◌, ◌≢◌, refl, Bool, false, Option, none, some, List, [], ◌∷◌, ◌≤◌, ◌==◌, if◌then◌else◌,
  arith,
}
use ikuzo_neko_pay.Server.Store.{LedgerEntry, RealTransaction, find_entry, find_real, max_id}
use ikuzo_neko_pay.Server.Sql.{delete_where, update_where}
use ikuzo_neko_pay.Server.Edit.{update_real, update_entry, remove_entry}
use ikuzo_neko_pay.Server.Ties.{max_real_id}

pub find_entry-id :
    (k : ℕ) (es : List LedgerEntry) (e : LedgerEntry) → find_entry k es ≡ some e → e.id ≡ k
unfolding find_entry
find_entry-id k [] e h = cc
find_entry-id k (x ∷ es) e h = ground (arith, find_entry-id k es e)

pub find_entry-head : (e : LedgerEntry) (es : List LedgerEntry) → find_entry e.id (e ∷ es) ≡ some e
unfolding find_entry
find_entry-head e es = ground arith

pub find_entry-max_id :
    (k : ℕ) (es : List LedgerEntry) (e : LedgerEntry) → find_entry k es ≡ some e → k ≤ max_id es
unfolding find_entry max_id
find_entry-max_id k [] e h = cc
find_entry-max_id k (x ∷ es) e h = ground (arith, find_entry-max_id k es e)

pub find_real-id :
    (k : ℕ) (rs : List RealTransaction) (r : RealTransaction) → find_real k rs ≡ some r → r.id ≡ k
unfolding find_real
find_real-id k [] r h = cc
find_real-id k (x ∷ rs) r h = ground (arith, find_real-id k rs r)

pub find_real-max :
    (k : ℕ) (rs : List RealTransaction) (r : RealTransaction)
    → find_real k rs ≡ some r
    → k ≤ max_real_id rs
unfolding find_real max_real_id
find_real-max k [] r h = cc
find_real-max k (x ∷ rs) r h = ground (arith, find_real-max k rs r)

abbrev pub map_real :
    (RealTransaction → RealTransaction) → Option RealTransaction → Option RealTransaction
map_real f none = none
map_real f (some r) = some (f r)

-- A change that keeps the primary key.
pub find_real-update_real :
    (f : RealTransaction → RealTransaction) (j k : ℕ) (rs : List RealTransaction)
    → ((r : RealTransaction) → (f r).id ≡ r.id)
    → find_real j (update_real k f rs)
      ≡ (if j == k then map_real f (find_real j rs) else find_real j rs)
unfolding find_real update_real
find_real-update_real f j k [] keeps = ground arith
find_real-update_real f j k (r ∷ rs) keeps =
    ground (arith, keeps r, find_real-update_real f j k rs keeps)

pub find_real-update_where :
    (test : RealTransaction → Bool) (f : RealTransaction → RealTransaction) (j : ℕ)
    (rs : List RealTransaction)
    → ((r : RealTransaction) → (f r).id ≡ r.id)
    → find_real j (update_where test f rs)
      ≡ map_real (λ r. if test r then f r else r) (find_real j rs)
unfolding find_real update_where
find_real-update_where test f j [] keeps = refl
find_real-update_where test f j (r ∷ rs) keeps =
    ground (arith, keeps r, find_real-update_where test f j rs keeps)

pub find_entry-remove_entry :
    (j k : ℕ) (es : List LedgerEntry) → j ≢ k → find_entry j (remove_entry k es) ≡ find_entry j es
unfolding find_entry remove_entry
find_entry-remove_entry j k [] other = refl
find_entry-remove_entry j k (e ∷ es) other = ground (arith, find_entry-remove_entry j k es other)

pub find_entry-update_entry :
    (f : LedgerEntry → LedgerEntry) (j k : ℕ) (es : List LedgerEntry)
    → ((e : LedgerEntry) → e.id ≡ k → (f e).id ≡ k)
    → j ≢ k
    → find_entry j (update_entry k f es) ≡ find_entry j es
unfolding find_entry update_entry
find_entry-update_entry f j k [] keeps other = refl
find_entry-update_entry f j k (e ∷ es) keeps other =
    ground (arith, keeps e, find_entry-update_entry f j k es keeps other)

pub find_entry-updated :
    (f : LedgerEntry → LedgerEntry) (k : ℕ) (es : List LedgerEntry) (e : LedgerEntry)
    → (f e).id ≡ k
    → find_entry k es ≡ some e
    → find_entry k (update_entry k f es) ≡ some (f e)
unfolding find_entry update_entry
find_entry-updated f k [] e keeps h = cc
find_entry-updated f k (x ∷ es) e keeps h = ground (arith, keeps, find_entry-updated f k es e keeps)

-- A row that is found and that a DELETE spares is found afterwards.
pub find_entry-delete_where :
    (test : LedgerEntry → Bool) (k : ℕ) (es : List LedgerEntry) (e : LedgerEntry)
    → find_entry k es ≡ some e
    → test e ≡ false
    → find_entry k (delete_where test es) ≡ some e
unfolding find_entry delete_where
find_entry-delete_where test k [] e h spared = cc
find_entry-delete_where test k (x ∷ es) e h spared =
    ground (arith, find_entry-delete_where test k es e)

abbrev pub map_entry : (LedgerEntry → LedgerEntry) → Option LedgerEntry → Option LedgerEntry
map_entry f none = none
map_entry f (some e) = some (f e)

pub find_entry-update_where :
    (test : LedgerEntry → Bool) (f : LedgerEntry → LedgerEntry) (j : ℕ) (es : List LedgerEntry)
    → ((e : LedgerEntry) → (f e).id ≡ e.id)
    → find_entry j (update_where test f es)
      ≡ map_entry (λ e. if test e then f e else e) (find_entry j es)
unfolding find_entry update_where
find_entry-update_where test f j [] keeps = refl
find_entry-update_where test f j (e ∷ es) keeps =
    ground (arith, keeps e, find_entry-update_where test f j es keeps)
