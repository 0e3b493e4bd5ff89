-- ===== src/Server/Ties/Statements.antt =====
-- A DELETE that spares the tied entries and an UPDATE that keeps the ties keep the agreement.
use mathlib.Core.Option.{some-injective}
use ikuzo_neko_pay.Prelude.{
  ℕ, ◌≡◌, refl, sym, ◌∙◌, ap, subst, Bool, true, false, Option, none, some, List, [], ◌∷◌, ◌<◌, All,
  if◌then◌else◌, if_either, arith,
}
use ikuzo_neko_pay.Server.Store.{
  Db, LedgerEntry, RealTransaction, AttributionStatus, unattributed, attributed, ignored,
  find_entry, find_real,
}
use ikuzo_neko_pay.Server.Sql.{delete_where, update_where}
use ikuzo_neko_pay.Server.Ties.{Descending, is_good, Tie, Tied, TiedAs, Agrees}
use ikuzo_neko_pay.Server.Ties.Rows.{
  find_entry-id, find_entry-delete_where, find_entry-update_where, find_real-update_where,
  map_entry, map_real,
}
use ikuzo_neko_pay.Server.Ties.Inserts.{Carries}

module _ (test : LedgerEntry → Bool) where
  All-delete_where :
      (P : LedgerEntry → Type 0) (es : List LedgerEntry) → All P es → All P (delete_where test es)
  unfolding delete_where
  All-delete_where P [] h = tt
  All-delete_where P (e ∷ es) h =
      if_either (All P) (test e) (delete_where test es) (e ∷ delete_where test es)
        (λ t. All-delete_where P es h.1) (λ t. (h.0, All-delete_where P es h.1))

  Descending-delete_where :
      (es : List LedgerEntry) → Descending es → Descending (delete_where test es)
  unfolding delete_where
  Descending-delete_where [] d = tt
  Descending-delete_where (e ∷ es) d =
      if_either Descending (test e) (delete_where test es) (e ∷ delete_where test es)
        (λ t. Descending-delete_where es d.1)
        (λ t. (All-delete_where (λ f. f.id < e.id) es d.0, Descending-delete_where es d.1))

  pub All-update_where :
      (f : LedgerEntry → LedgerEntry) (P : LedgerEntry → Type 0) (es : List LedgerEntry)
      → ((e : LedgerEntry) → P e → P (f e))
      → All P es
      → All P (update_where test f es)
  unfolding update_where
  All-update_where f P [] keeps h = tt
  All-update_where f P (e ∷ es) keeps h = (
    if_either P (test e) (f e) e (λ t. keeps e h.0) (λ t. h.0),
    All-update_where f P es keeps h.1,
  )

  -- No tied entry meets the condition of the DELETE.
  unfoldable pub Spares : Db → Type 0
  Spares db =
      (k : ℕ) (r : RealTransaction)
      → find_real k db.reals ≡ some r
      → (t : Tie db.entries k r) → test t.entry ≡ false

  delete_where-TiedAs :
      (s : AttributionStatus) (es : List LedgerEntry) (k : ℕ) (r : RealTransaction)
      → ((t : Tie es k r) → test t.entry ≡ false)
      → TiedAs s es k r
      → TiedAs s (delete_where test es) k r
  delete_where-TiedAs attributed es k r spared t = record {
    entry = t.entry;
    pointer = t.pointer;
    stored = find_entry-delete_where test t.entry.id es t.entry t.stored (spared t);
    source = t.source;
    owner = t.owner;
    points = t.points;
  }
  delete_where-TiedAs unattributed es k r spared t = t
  delete_where-TiedAs ignored es k r spared t = t

  pub delete_where-Agrees :
      (db : Db)
      → Spares db
      → Agrees db
      → Agrees (record db { entries = delete_where test db.entries })
  unfolding Spares
  delete_where-Agrees db spared a = record {
    order = Descending-delete_where db.entries a.order;
    good = All-delete_where (λ e. is_good e ≡ true) db.entries a.good;
    tied = λ k r h. (
      delete_where-TiedAs r.attribution_status db.entries k r (spared k r h) (a.tied k r h).0,
      (a.tied k r h).1,
    );
  }

-- A row that was updated where a condition held.
pub find_real-of_update :
    (test : RealTransaction → Bool) (f : RealTransaction → RealTransaction) (k : ℕ)
    (rs : List RealTransaction) (r : RealTransaction)
    → ((x : RealTransaction) → (f x).id ≡ x.id)
    → find_real k (update_where test f rs) ≡ some r
    → (x : RealTransaction) × (find_real k rs ≡ some x) × ((if test x then f x else x) ≡ r)
find_real-of_update test f k rs r keeps h =
    by_row (find_real k rs) refl (sym (find_real-update_where test f k rs keeps) ∙ h)
  where
    by_row :
        (o : Option RealTransaction)
        → find_real k rs ≡ o
        → map_real (λ x. if test x then f x else x) o ≡ some r
        → (x : RealTransaction) × (find_real k rs ≡ some x) × ((if test x then f x else x) ≡ r)
    by_row none e u = cc
    by_row (some x) e u = (x, e, some-injective _ _ u)

pub update_where-Agrees :
    (test : RealTransaction → Bool) (f : RealTransaction → RealTransaction) (db : Db)
    → ((x : RealTransaction) → (f x).id ≡ x.id)
    → ((k : ℕ) (x : RealTransaction) → Tied db.entries k x → Tied db.entries k (f x))
    → Agrees db
    → Agrees (record db { reals = update_where test f db.reals })
update_where-Agrees test f db keeps ties a = record {
  order = a.order;
  good = a.good;
  tied = λ k r h.
      let (x, found, same) = find_real-of_update test f k db.reals r keeps h in
      let t = a.tied k x found in
      subst (Tied db.entries k) same
        (if_either (Tied db.entries k) (test x) (f x) x (λ b. ties k x t) (λ b. t));
}

pub update_where-Carries :
    (test : LedgerEntry → Bool) (by n : ℕ) (es : List LedgerEntry)
    → Carries n es (update_where test (λ e. record e { created_by = by }) es)
update_where-Carries test by n es i x found source =
    let f = λ (e : LedgerEntry). record e { created_by = by } in
    let y = if test x then f x else x in
    let i_x = find_entry-id i es x found in
    let found' : find_entry i (update_where test f es) ≡ some y =
      find_entry-update_where test f i es (λ e. refl)
      ∙ ap (map_entry (λ e. if test e then f e else e)) found in
    (y, found', ground (arith, i_x), ground (arith, source), ground arith, ground arith)

pub Descending-update_where :
    (test : LedgerEntry → Bool) (by : ℕ) (es : List LedgerEntry)
    → Descending es
    → Descending (update_where test (λ e. record e { created_by = by }) es)
unfolding update_where
Descending-update_where test by [] d = tt
Descending-update_where test by (e ∷ es) d =
    let f = λ (x : LedgerEntry). record x { created_by = by } in
    let same : e.id ≡ (if test e then f e else e).id = ground arith in
    (
      subst (λ i. All (λ x. x.id < i) (update_where test f es)) same
          (All-update_where test f (λ x. x.id < e.id) es (λ x h. h) d.0),
      Descending-update_where test by es d.1,
    )
