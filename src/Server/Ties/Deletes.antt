-- ===== src/Server/Ties/Deletes.antt =====
-- Deletions of entries, alone or with their transfer, keep the agreement.
use mathlib.Core.Option.{some-injective}
use native.Mathlib.Decide.{ℕ_discrete}
use ikuzo_neko_pay.Prelude.{
  ℕ, ◌≡◌, ◌≢◌, refl, sym, ◌∙◌, ap, subst, true, not, Option, none, some, List, [], ◌∷◌, ◌<◌, ◌==◌,
  All, if◌then◌else◌, if_either, arith,
}
use ikuzo_neko_pay.Server.Store.{
  Db, Member, LedgerEntry, RealTransaction, ok, not_found, integrity, find_entry, find_real,
}
use ikuzo_neko_pay.Server.Transfer.{rows_of_group, same_group}
use ikuzo_neko_pay.Server.Results.{bind-ok, raise_if-ok, found-ok}
use ikuzo_neko_pay.Server.Edit.{
  update_real, remove_entry, freed, free_real_txn, delete_group, delete_entry, group_of,
  check_permission, reversals_known,
}
use ikuzo_neko_pay.Server.Ties.{Descending, is_good, Tied, Agrees}
use ikuzo_neko_pay.Server.Ties.Rows.{
  find_entry-head, find_entry-id, find_entry-remove_entry, find_real-update_real, map_real,
}
use ikuzo_neko_pay.Server.Ties.Inserts.{Carries, Tied-carried}
use ikuzo_neko_pay.Server.Ties.Changes.{Tied-freed}

All-remove_entry :
    (P : LedgerEntry → Type 0) (k : ℕ) (es : List LedgerEntry)
    → All P es
    → All P (remove_entry k es)
unfolding remove_entry
All-remove_entry P k [] h = tt
All-remove_entry P k (e ∷ es) h =
    if_either (All P) (e.id == k) es (e ∷ remove_entry k es) (λ t. h.1)
      (λ t. (h.0, All-remove_entry P k es h.1))

Descending-remove_entry :
    (k : ℕ) (es : List LedgerEntry) → Descending es → Descending (remove_entry k es)
unfolding remove_entry
Descending-remove_entry k [] d = tt
Descending-remove_entry k (e ∷ es) d =
    if_either Descending (e.id == k) es (e ∷ remove_entry k es) (λ t. d.1)
      (λ t. (All-remove_entry (λ f. f.id < e.id) k es d.0, Descending-remove_entry k es d.1))

remove_entry-Carries :
    (k : ℕ) (e : LedgerEntry) (es : List LedgerEntry)
    → find_entry e.id es ≡ some e
    → e.source_real_txn_id ≢ some k
    → Carries k es (remove_entry e.id es)
remove_entry-Carries k e es stored apart i x found source =
    let other : i ≢ e.id = λ same. apart (
      ap (λ y. y.source_real_txn_id)
        (some-injective _ _ (sym stored ∙ ap (λ j. find_entry j es) (sym same) ∙ found))
      ∙ source) in
    (
      x,
      find_entry-remove_entry i e.id es other ∙ found,
      find_entry-id i es x found,
      source,
      refl,
      refl,
    )

-- A real transaction after the one of a deleted entry is freed.
find_real-freed :
    (n k : ℕ) (rs : List RealTransaction) (r : RealTransaction)
    → find_real k (update_real n freed rs) ≡ some r
    → (x : RealTransaction) × (find_real k rs ≡ some x) × (r ≡ (if k == n then freed x else x))
find_real-freed n k rs r h =
    by_row (find_real k rs) refl (find_real-update_real freed k n rs (λ x. refl))
  where
    by_row :
        (o : Option RealTransaction)
        → find_real k rs ≡ o
        → find_real k (update_real n freed rs)
          ≡ (if k == n then map_real freed (find_real k rs) else find_real k rs)
        → (x : RealTransaction) × (find_real k rs ≡ some x) × (r ≡ (if k == n then freed x else x))
    by_row none e u = ground (arith, h, e, u)
    by_row (some x) e u = (x, e, ground (arith, h, e, u))

removed-Tied :
    (e : LedgerEntry) (db : Db) (k : ℕ) (r : RealTransaction)
    → find_entry e.id db.entries ≡ some e
    → Agrees db
    → find_real k (free_real_txn e db.reals) ≡ some r
    → Tied (remove_entry e.id db.entries) k r
removed-Tied e db k r stored a = by_source e.source_real_txn_id refl
  where
    es' : List LedgerEntry
    es' = remove_entry e.id db.entries

    by_source :
        (o : Option ℕ)
        → e.source_real_txn_id ≡ o
        → find_real k (elim o [ none ↦ db.reals | some n ↦ update_real n freed db.reals ]) ≡ some r
        → Tied es' k r
    by_source none s h =
        Tied-carried db.entries es' k r (remove_entry-Carries k e db.entries stored (λ t. cc))
          (a.tied k r h)
    by_source (some n) s h =
        let (x, found, same) = find_real-freed n k db.reals r h in
        elim (ℕ_discrete k n) [
          | yes it ↦
              let is_freed : freed x ≡ r = ground (arith, it, same) in
              subst (Tied es' k) is_freed (Tied-freed es' k x (a.tied k x found).1)
          | no other ↦
              let is_same : x ≡ r = ground (arith, other, same) in
              let apart : e.source_real_txn_id ≢ some k =
                λ t. other (some-injective _ _ (sym t ∙ s)) in
              subst (Tied es' k) is_same (
                Tied-carried db.entries es' k x (remove_entry-Carries k e db.entries stored apart)
                  (a.tied k x found))
        ]

removed-Agrees :
    (e : LedgerEntry) (db : Db)
    → find_entry e.id db.entries ≡ some e
    → Agrees db
    → Agrees
        (record db { entries = remove_entry e.id db.entries; reals = free_real_txn e db.reals })
removed-Agrees e db stored a = record {
  order = Descending-remove_entry e.id db.entries a.order;
  good = All-remove_entry (λ x. is_good x ≡ true) e.id db.entries a.good;
  tied = λ k r h. removed-Tied e db k r stored a h;
}

abbrev pub IsStored : List LedgerEntry → LedgerEntry → Type 0
IsStored es f = find_entry f.id es ≡ some f

still_stored :
    (k : ℕ) (es gs : List LedgerEntry)
    → All (λ f. f.id < k) gs
    → All (IsStored es) gs
    → All (IsStored (remove_entry k es)) gs
still_stored k es [] below h = tt
still_stored k es (g ∷ gs) below h = (
  find_entry-remove_entry g.id k es (λ same. omega (arith, below.0, same)) ∙ h.0,
  still_stored k es gs below.1 h.1,
)

delete_group-Agrees :
    (gs : List LedgerEntry) (db : Db)
    → Descending gs
    → All (IsStored db.entries) gs
    → Agrees db
    → Agrees (delete_group gs db)
unfolding delete_group
delete_group-Agrees [] db d h a = a
delete_group-Agrees (g ∷ gs) db d h a =
    delete_group-Agrees gs
      (record db { entries = remove_entry g.id db.entries; reals = free_real_txn g db.reals }) d.1
      (still_stored g.id db.entries gs d.0 h.1) (removed-Agrees g db h.0 a)

All-rows_of_group :
    (P : LedgerEntry → Type 0) (g : Option ℕ) (es : List LedgerEntry)
    → All P es
    → All P (rows_of_group g es)
unfolding rows_of_group
All-rows_of_group P g [] h = tt
All-rows_of_group P g (e ∷ es) h =
    if_either (All P) (same_group g e.transfer_group_id) (e ∷ rows_of_group g es)
      (rows_of_group g es) (λ t. (h.0, All-rows_of_group P g es h.1))
      (λ t. All-rows_of_group P g es h.1)

Descending-rows_of_group :
    (g : Option ℕ) (es : List LedgerEntry) → Descending es → Descending (rows_of_group g es)
unfolding rows_of_group
Descending-rows_of_group g [] d = tt
Descending-rows_of_group g (e ∷ es) d =
    if_either Descending (same_group g e.transfer_group_id) (e ∷ rows_of_group g es)
      (rows_of_group g es)
      (λ t. (All-rows_of_group (λ f. f.id < e.id) g es d.0, Descending-rows_of_group g es d.1))
      (λ t. Descending-rows_of_group g es d.1)

behind :
    (e : LedgerEntry) (es gs : List LedgerEntry)
    → All (λ f. f.id < e.id) gs
    → All (IsStored es) gs
    → All (IsStored (e ∷ es)) gs
unfolding find_entry
behind e es [] below h = tt
behind e es (g ∷ gs) below h = (ground (arith, below.0, h.0), behind e es gs below.1 h.1)

-- Where no id occurs twice, each row is the one that its id finds.
pub all_stored : (es : List LedgerEntry) → Descending es → All (IsStored es) es
all_stored [] d = tt
all_stored (e ∷ es) d = (find_entry-head e es, behind e es es d.0 (all_stored es d.1))

-- What is deleted together.
group-stored :
    (e : LedgerEntry) (db : Db)
    → Descending db.entries
    → IsStored db.entries e
    → Descending (group_of e db) × All (IsStored db.entries) (group_of e db)
group-stored e db d stored = by_group e.transfer_group_id
  where
    by_group :
        (o : Option ℕ)
        → Descending (elim o [ none ↦ e ∷ [] | some g ↦ rows_of_group (some g) db.entries ])
          × All
              (IsStored db.entries)
              (elim o [ none ↦ e ∷ [] | some g ↦ rows_of_group (some g) db.entries ])
    by_group none = ((tt, tt), (stored, tt))
    by_group (some g) = (
      Descending-rows_of_group (some g) db.entries d,
      All-rows_of_group (IsStored db.entries) (some g) db.entries (all_stored db.entries d),
    )

delete_entry-made :
    (actor : Member) (k : ℕ) (db db' : Db)
    → delete_entry actor k db ≡ ok db'
    → (e : LedgerEntry) × (find_entry k db.entries ≡ some e)
      × (delete_group (group_of e db) db ≡ db')
unfolding delete_entry
delete_entry-made actor k db db' h =
    let (e, found, rest) = found-ok (find_entry k db.entries) not_found _ db' h in
    let (_, _, rest) = bind-ok (check_permission actor (group_of e db)) _ db' rest in
    let after = delete_group (group_of e db) db in
    let (_, done) =
      raise_if-ok (not (reversals_known after.entries after.entries)) integrity _ db' rest in
    (e, found, cc)

pub delete_entry-Agrees :
    (actor : Member) (k : ℕ) (db db' : Db)
    → Agrees db
    → delete_entry actor k db ≡ ok db'
    → Agrees db'
delete_entry-Agrees actor k db db' a h =
    let (e, found, made) = delete_entry-made actor k db db' h in
    let stored = ap (λ i. find_entry i db.entries) (find_entry-id k db.entries e found) ∙ found in
    let (order, group) = group-stored e db a.order stored in
    subst Agrees made (delete_group-Agrees (group_of e db) db order group a)
