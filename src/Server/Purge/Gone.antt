-- ===== src/Server/Purge/Gone.antt =====
-- A member that is deleted leaves nothing behind, and a deletion does not fail half-way.
use ikuzo_neko_pay.Prelude.{
  ℕ, ◌≡◌, ◌≢◌, refl, Bool, true, false, none, some, List, [], ◌∷◌, ◌==◌, ◌<◌, if◌then◌else◌, ltb,
  ltb→lt, arith,
}
use ikuzo_neko_pay.Server.Store.{Db, Member, Error, Result, ok, err, conflict, ◌>>=◌, find_member}
use ikuzo_neko_pay.Server.Sql.{delete_where, any_where-delete_where}
use ikuzo_neko_pay.Server.Accounts.{require, is_member, session_of, revoke}
use ikuzo_neko_pay.Server.Purge.{
  count_references, force_purge, names_member, delete_member, remove_member,
}
use ikuzo_neko_pay.Server.Purge.Unnamed.{
  no_reversals, Unnamed, force_purge-Unnamed, force_purge-no_error, Unnamed-of_count,
}

find_member-delete_where :
    (j k : ℕ) (ms : List Member)
    → find_member j (delete_where (is_member k) ms) ≡ (if j == k then none else find_member j ms)
unfolding find_member delete_where
find_member-delete_where j k [] = ground arith
find_member-delete_where j k (m ∷ ms) = ground (arith, find_member-delete_where j k ms)

-- What the tables say of a member that is gone, and of the others.
pub record IsGone (k : ℕ) (db db' : Db) : Type 0 where
  pub unnamed : names_member k db' ≡ false
  pub members :
      (j : ℕ) → find_member j db'.members ≡ (if j == k then none else find_member j db.members)

removed-IsGone :
    (k : ℕ) (db db' db'' : Db)
    → Unnamed k db db'
    → remove_member k (revoke k db') ≡ ok db''
    → IsGone k db db''
removed-IsGone k db db' db'' u h = record {
  unnamed =
      ground
        (arith, u.entries, u.reals, u.claims, any_where-delete_where (session_of k) db'.sessions);
  members = λ j. ground (arith, find_member-delete_where j k db.members, u.members);
}

removed-returns :
    (k : ℕ) (db db' : Db) (x : Error) → Unnamed k db db' → remove_member k (revoke k db') ≢ err x
removed-returns k db db' x u h =
    ground (arith, u.entries, u.reals, u.claims, any_where-delete_where (session_of k) db'.sessions)

zero_of : {n : ℕ} → ltb 0 n ≡ false → n ≡ 0
zero_of h = ground arith

-- How a deletion may end.
abbrev pub Deletes : ℕ → Bool → Db → Result Db → Type 0
Deletes k force db (ok db') = IsGone k db db' × (force ≡ false → count_references k db ≡ 0)
Deletes k force db (err x) = (x ≡ conflict) × (force ≡ false) × (0 < count_references k db)

removed-Deletes :
    (k : ℕ) (force : Bool) (db db' : Db) (r : Result Db)
    → Unnamed k db db'
    → (force ≡ false → count_references k db ≡ 0)
    → remove_member k (revoke k db') ≡ r
    → Deletes k force db r
removed-Deletes k force db db' (ok db'') u c h = (removed-IsGone k db db' db'' u h, c)
removed-Deletes k force db db' (err x) u c h = absurd (removed-returns k db db' x u h)

purged-Deletes :
    (k actor : ℕ) (db : Db) (r : Result Db)
    → actor == k ≡ false
    → no_reversals db.entries ≡ true
    → force_purge k actor db ≡ r
    → Deletes k true db (r >>= λ db'. remove_member k (revoke k db'))
purged-Deletes k actor db (ok db') other plain h =
    removed-Deletes k true db db' (remove_member k (revoke k db'))
      (force_purge-Unnamed k actor db db' other h) (λ e. cc) refl
purged-Deletes k actor db (err x) other plain h = absurd (force_purge-no_error k actor db x plain h)

-- Where no entry is a reversal, deleting an account other than one's own succeeds, but for a conflict
-- where records are tied to it and the deletion is not forced. After a success no entry, real
-- transaction, claim or session names the member any more, its row is gone, and all others stay.
pub delete_member-Deletes :
    (actor k : ℕ) (force : Bool) (db : Db) (m : Member)
    → k ≢ actor
    → find_member k db.members ≡ some m
    → no_reversals db.entries ≡ true
    → Deletes k force db (delete_member actor k force db)
unfolding delete_member
delete_member-Deletes actor k force db m other known plain =
    let differ : k == actor ≡ false = ground arith in
    let differ' : actor == k ≡ false = ground arith in
    by_count force (ltb 0 (count_references k db)) refl differ differ'
  where
    by_count :
        (f b : Bool)
        → ltb 0 (count_references k db) ≡ b
        → k == actor ≡ false
        → actor == k ≡ false
        → Deletes k f db (delete_member actor k f db)
    by_count true true some_refs d d' =
        rw (d, require, known, some_refs)
          (purged-Deletes k actor db (force_purge k actor db) d' plain refl)
    by_count false true some_refs d d' =
        rw (d, require, known, some_refs) (refl, refl, ltb→lt 0 (count_references k db) some_refs)
    by_count true false no_refs d d' =
        rw (d, require, known, no_refs)
          (removed-Deletes k true db db (remove_member k (revoke k db))
            (Unnamed-of_count k db (zero_of no_refs)) (λ e. cc) refl)
    by_count false false no_refs d d' =
        rw (d, require, known, no_refs)
          (removed-Deletes k false db db (remove_member k (revoke k db))
            (Unnamed-of_count k db (zero_of no_refs)) (λ e. zero_of no_refs) refl)
