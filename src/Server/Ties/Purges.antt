-- ===== src/Server/Ties/Purges.antt =====
-- A purge, the deletion of an account and a reset keep the agreement.
use ikuzo_neko_pay.Prelude.{
  ℕ, ◌≡◌, refl, sym, ◌∙◌, ap, subst, Bool, true, false, not, ◌&&◌, none, some, List, [], ◌∷◌, ◌==◌,
  All, if◌then◌else◌, if_either, ltb, arith,
}
use ikuzo_neko_pay.Server.Store.{
  Db, LedgerEntry, RealTransaction, AttributionStatus, unattributed, attributed, ignored, ok,
  validation, conflict, find_real,
}
use ikuzo_neko_pay.Server.Sql.{delete_where, update_where, any_where}
use ikuzo_neko_pay.Server.Results.{bind-ok, raise_if-ok}
use ikuzo_neko_pay.Server.Edit.{freed}
use ikuzo_neko_pay.Server.Accounts.{require, revoke}
use ikuzo_neko_pay.Server.Purge.{
  owned, authored, held, decided, in_groups, force_purge, count_references, remove_member,
  delete_member, reset_database,
}
use ikuzo_neko_pay.Server.Ties.{Descending, is_good, Tied, TiedAs, Agrees}
use ikuzo_neko_pay.Server.Ties.Inserts.{Tied-carried}
use ikuzo_neko_pay.Server.Ties.Changes.{Tied-freed}
use ikuzo_neko_pay.Server.Ties.Edits.{find_entry-All}
use ikuzo_neko_pay.Server.Ties.Statements.{
  Spares, All-update_where, delete_where-Agrees, find_real-of_update, update_where-Agrees,
  update_where-Carries, Descending-update_where,
}

-- The entries of a transfer have no source.
in_groups-single :
    (k : ℕ) (es fs : List LedgerEntry) (e : LedgerEntry)
    → e.transfer_group_id ≡ none
    → in_groups k es e ≡ false
unfolding any_where
in_groups-single k [] fs e h = refl
in_groups-single k (f ∷ es) fs e h = ground (arith, h, in_groups-single k es fs e h)

alone_of :
    (e : LedgerEntry) (n : ℕ)
    → is_good e ≡ true
    → e.source_real_txn_id ≡ some n
    → e.transfer_group_id ≡ none
alone_of e n h s = ground (arith, h, s)

in_groups-Spares : (k : ℕ) (db : Db) → Agrees db → Spares (in_groups k db.entries) db
unfolding Spares
in_groups-Spares k db a n r found t = in_groups-single k db.entries [] t.entry (
    alone_of t.entry n
      (find_entry-All (λ e. is_good e ≡ true) t.entry.id db.entries t.entry a.good t.stored)
      t.source)

-- No entry of the member is tied when the member holds no real transaction.
owned-Spares :
    (k : ℕ) (es : List LedgerEntry) (db : Db)
    → Spares (owned k) (record db { entries = es; reals = update_where (held k) freed db.reals })
unfolding Spares
owned-Spares k es db n r found t =
    let (x, _, same) = find_real-of_update (held k) freed n db.reals r (λ y. refl) found in
    let free : held k r ≡ false =
      subst (λ y. held k y ≡ false) same
        (if_either (λ y. held k y ≡ false) (held k x) (freed x) x (λ b. refl) (λ b. b)) in
    ground (arith, free, t.owner)

authored-Agrees :
    (k by : ℕ) (db : Db)
    → Agrees db
    → Agrees (record db {
      entries = update_where (authored k) (λ e. record e { created_by = by }) db.entries;
    })
authored-Agrees k by db a = record {
  order = Descending-update_where (authored k) by db.entries a.order;
  good =
      All-update_where (authored k) (λ e. record e { created_by = by }) (λ e. is_good e ≡ true)
        db.entries (λ e h. h) a.good;
  tied = λ n r h.
      Tied-carried db.entries
        (update_where (authored k) (λ e. record e { created_by = by }) db.entries) n r
        (update_where-Carries (authored k) by n db.entries) (a.tied n r h);
}

undecided-TiedAs :
    (s : AttributionStatus) (es : List LedgerEntry) (k : ℕ) (r : RealTransaction)
    → TiedAs s es k r
    → TiedAs s es k (record r { attributed_by = none })
undecided-TiedAs attributed es k r t = record {
  entry = t.entry;
  pointer = t.pointer;
  stored = t.stored;
  source = t.source;
  owner = t.owner;
  points = t.points;
}
undecided-TiedAs unattributed es k r t = t
undecided-TiedAs ignored es k r t = t

-- The agreement is of the entries and the real transactions alone.
pub same_rows-Agrees :
    (db db' : Db) → db'.entries ≡ db.entries → db'.reals ≡ db.reals → Agrees db → Agrees db'
same_rows-Agrees db db' entries reals a = record {
  order = subst Descending (sym entries) a.order;
  good = subst (All (λ e. is_good e ≡ true)) (sym entries) a.good;
  tied = λ k r h.
      subst (λ es. Tied es k r) (sym entries) (a.tied k r (ap (find_real k) (sym reals) ∙ h));
}

-- The tables that a purge leaves.
abbrev spared : ℕ → List LedgerEntry → List LedgerEntry
spared k es = delete_where (owned k) (delete_where (in_groups k es) es)

abbrev reassigned : ℕ → ℕ → List LedgerEntry → List LedgerEntry
reassigned k actor es = update_where (authored k) (λ e. record e { created_by = actor }) es

abbrev undecided : ℕ → List RealTransaction → List RealTransaction
undecided k rs = update_where (decided k) (λ r. record r { attributed_by = none }) rs

force_purge-tables :
    (k actor : ℕ) (db db' : Db)
    → force_purge k actor db ≡ ok db'
    → (db'.entries ≡ reassigned k actor (spared k db.entries))
      × (db'.reals ≡ undecided k (update_where (held k) freed db.reals))
unfolding force_purge
force_purge-tables k actor db db' h = ground (arith, h)

pub force_purge-Agrees :
    (k actor : ℕ) (db db' : Db) → Agrees db → force_purge k actor db ≡ ok db' → Agrees db'
force_purge-Agrees k actor db db' a h =
    let es1 = delete_where (in_groups k db.entries) db.entries in
    let es2 = spared k db.entries in
    let es3 = reassigned k actor es2 in
    let rs1 = update_where (held k) freed db.reals in
    let a1 = delete_where-Agrees (in_groups k db.entries) db (in_groups-Spares k db a) a in
    let a2 =
      update_where-Agrees (held k) freed (record db { entries = es1 }) (λ x. refl)
        (λ n x t. Tied-freed es1 n x t.1) a1 in
    let a3 =
      delete_where-Agrees (owned k) (record db { entries = es1; reals = rs1 })
        (owned-Spares k es1 db) a2 in
    let a4 = authored-Agrees k actor (record db { entries = es2; reals = rs1 }) a3 in
    let a5 =
      update_where-Agrees (decided k) (λ r. record r { attributed_by = none })
        (record db { entries = es3; reals = rs1 }) (λ x. refl)
        (λ n x t. (undecided-TiedAs x.attribution_status es3 n x t.0, t.1)) a4 in
    let (entries, reals) = force_purge-tables k actor db db' h in
    same_rows-Agrees (record db { entries = es3; reals = undecided k rs1 }) db' entries reals a5

remove_member-rows :
    (k : ℕ) (db db' : Db)
    → remove_member k (revoke k db) ≡ ok db'
    → (db'.entries ≡ db.entries) × (db'.reals ≡ db.reals)
remove_member-rows k db db' h = ground (arith, h)

delete_member-made :
    (actor k : ℕ) (force : Bool) (db db' : Db)
    → delete_member actor k force db ≡ ok db'
    → (mid : Db) × ((if force && ltb 0 (count_references k db)
          then force_purge k actor db
          else ok db)
        ≡ ok mid)
      × (remove_member k (revoke k mid) ≡ ok db')
unfolding delete_member
delete_member-made actor k force db db' h =
    let (_, rest) = raise_if-ok (k == actor) validation _ db' h in
    let (m, _, rest) = bind-ok (require k db) _ db' rest in
    let (_, rest) = raise_if-ok (ltb 0 (count_references k db) && not force) conflict _ db' rest in
    bind-ok (if force && ltb 0 (count_references k db) then force_purge k actor db else ok db) _ db'
      rest

pub delete_member-Agrees :
    (actor k : ℕ) (force : Bool) (db db' : Db)
    → Agrees db
    → delete_member actor k force db ≡ ok db'
    → Agrees db'
delete_member-Agrees actor k force db db' a h =
    let (mid, purged, removed) = delete_member-made actor k force db db' h in
    let (entries, reals) = remove_member-rows k mid db' removed in
    let a' : Agrees mid =
      if_either (λ r. r ≡ ok mid → Agrees mid) (force && ltb 0 (count_references k db))
        (force_purge k actor db) (ok db) (λ t p. force_purge-Agrees k actor db mid a p)
        (λ t p. let same : db ≡ mid = cc in subst Agrees same a) purged in
    same_rows-Agrees mid db' entries reals a'

pub reset_database-Agrees : (k : ℕ) (db : Db) → Agrees (reset_database k db)
unfolding reset_database find_real
reset_database-Agrees k db = record { order = tt; good = tt; tied = λ n r h. cc }
