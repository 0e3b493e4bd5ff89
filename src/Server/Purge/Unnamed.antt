-- ===== src/Server/Purge/Unnamed.antt =====
-- A forced deletion clears every row of the name of the member, and the purge does not fail.
use ikuzo_neko_pay.Prelude.{
  ℕ, ◌≡◌, ◌≢◌, refl, Bool, true, false, not, ◌&&◌, none, List, [], ◌∷◌, ◌==◌, arith,
}
use ikuzo_neko_pay.Server.Store.{
  Db, Error, LedgerEntry, RealTransaction, AttributionClaim, ok, err, is_found,
}
use ikuzo_neko_pay.Server.Sql.{delete_where, update_where, count_where, any_where}
use ikuzo_neko_pay.Server.Edit.{freed, reversals_known}
use ikuzo_neko_pay.Server.Purge.{
  entry_refers, real_refers, claim_refers, count_references, owned, authored, held, decided,
  claimed, resolved, in_groups, force_purge,
}

entries-unnamed :
    (k actor : ℕ) (es : List LedgerEntry)
    → actor == k ≡ false
    → any_where (entry_refers k) (
        update_where
          (authored k)
          (λ e. record e { created_by = actor })
          (delete_where (owned k) es))
      ≡ false
unfolding any_where update_where delete_where
entries-unnamed k actor [] h = refl
entries-unnamed k actor (e ∷ es) h = ground (arith, entries-unnamed k actor es h)

reals-unnamed :
    (k : ℕ) (rs : List RealTransaction)
    → any_where (real_refers k) (
        update_where
          (decided k)
          (λ r. record r { attributed_by = none })
          (update_where (held k) freed rs))
      ≡ false
unfolding any_where update_where
reals-unnamed k [] = refl
reals-unnamed k (r ∷ rs) = ground (arith, reals-unnamed k rs)

claims-unnamed :
    (k : ℕ) (cs : List AttributionClaim)
    → any_where (claim_refers k) (
        update_where
          (resolved k)
          (λ c. record c { resolved_by = none })
          (delete_where (claimed k) cs))
      ≡ false
unfolding any_where update_where delete_where
claims-unnamed k [] = refl
claims-unnamed k (c ∷ cs) = ground (arith, claims-unnamed k cs)

any_where-of_count :
    {A : Type 0} (test : A → Bool) (xs : List A)
    → count_where test xs ≡ 0
    → any_where test xs ≡ false
unfolding any_where count_where
any_where-of_count test [] h = refl
any_where-of_count test (x ∷ xs) h = ground (arith, any_where-of_count test xs)

-- No entry is the reversal of another.
unfoldable pub no_reversals : List LedgerEntry → Bool
no_reversals [] = true
no_reversals (e ∷ es) = not (is_found e.reversal_of_id) && no_reversals es

reversals_known-no_reversals :
    (es all : List LedgerEntry) → no_reversals es ≡ true → reversals_known es all ≡ true
unfolding no_reversals reversals_known
reversals_known-no_reversals [] all h = refl
reversals_known-no_reversals (e ∷ es) all h = ground (arith, reversals_known-no_reversals es all)

no_reversals-delete_where :
    (test : LedgerEntry → Bool) (es : List LedgerEntry)
    → no_reversals es ≡ true
    → no_reversals (delete_where test es) ≡ true
unfolding no_reversals delete_where
no_reversals-delete_where test [] h = refl
no_reversals-delete_where test (e ∷ es) h = ground (arith, no_reversals-delete_where test es)

-- What a purge leaves.
pub record Unnamed (k : ℕ) (db db' : Db) : Type 0 where
  pub entries : any_where (entry_refers k) db'.entries ≡ false
  pub reals : any_where (real_refers k) db'.reals ≡ false
  pub claims : any_where (claim_refers k) db'.claims ≡ false
  pub members : db'.members ≡ db.members

pub force_purge-Unnamed :
    (k actor : ℕ) (db db' : Db)
    → actor == k ≡ false
    → force_purge k actor db ≡ ok db'
    → Unnamed k db db'
unfolding force_purge
force_purge-Unnamed k actor db db' other h = ground (
  arith,
  entries-unnamed k actor (delete_where (in_groups k db.entries) db.entries) other,
  reals-unnamed k db.reals,
  claims-unnamed k db.claims,
)

pub force_purge-no_error :
    (k actor : ℕ) (db : Db) (x : Error)
    → no_reversals db.entries ≡ true
    → force_purge k actor db ≢ err x
unfolding force_purge
force_purge-no_error k actor db x h fails =
    let es = delete_where (in_groups k db.entries) db.entries in
    let kept = no_reversals-delete_where (in_groups k db.entries) db.entries h in
    let kept' = no_reversals-delete_where (owned k) es kept in
    ground (
      arith,
      reversals_known-no_reversals es es kept,
      reversals_known-no_reversals (delete_where (owned k) es) (delete_where (owned k) es) kept',
    )

pub Unnamed-of_count : (k : ℕ) (db : Db) → count_references k db ≡ 0 → Unnamed k db db
unfolding count_references
Unnamed-of_count k db h = record {
  entries = any_where-of_count (entry_refers k) db.entries (omega arith);
  reals = any_where-of_count (real_refers k) db.reals (omega arith);
  claims = any_where-of_count (claim_refers k) db.claims (omega arith);
  members = refl;
}
