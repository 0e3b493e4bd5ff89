-- ===== src/Server/Edit/Effects.antt =====
-- What an edit of an entry may change.
use ikuzo_neko_pay.Prelude.{
  ℕ, ◌≡◌, ◌≢◌, String, Bool, true, false, ◌||◌, Option, none, some, List, [], ◌∷◌, ◌==◌,
  if◌then◌else◌, arith,
}
use ikuzo_neko_pay.Prelude.Int.{ℤ, pos, ◌+ℤ◌, int_laws}
use ikuzo_neko_pay.Server.Store.{
  Db, Member, LedgerEntry, ok, err, integrity, find_entry, balance, is_found, sign_fits,
}
use ikuzo_neko_pay.Server.Edit.{edit_entry, update_entry, owns, edited_points, edited_money}

-- The part of an entry in the balance of member m.
abbrev pub share_of : ℕ → LedgerEntry → ℤ
share_of m e = if e.member_id == m then e.points_delta else pos 0

swap_ends : (a b c : ℤ) → (a +ℤ b) +ℤ c ≡ (c +ℤ b) +ℤ a
swap_ends a b c = omega int_laws

add_assoc : (a b c : ℤ) → (a +ℤ b) +ℤ c ≡ a +ℤ (b +ℤ c)
add_assoc a b c = omega int_laws

below : (a b c d f : ℤ) → b +ℤ c ≡ d +ℤ f → (a +ℤ b) +ℤ c ≡ (a +ℤ d) +ℤ f
below a b c d f h = rw (add_assoc a b c, add_assoc a d f, h)

balance-update_entry :
    (m k : ℕ) (es : List LedgerEntry) (e e' : LedgerEntry)
    → find_entry k es ≡ some e
    → balance m (update_entry k (λ x. e') es) +ℤ share_of m e ≡ balance m es +ℤ share_of m e'
unfolding balance update_entry find_entry
balance-update_entry m k [] e e' h = cc
balance-update_entry m k (x ∷ xs) e e' h = by_id (x.id == k) (balance-update_entry m k xs e e') h
  where
    by_id :
        (b : Bool)
        → (find_entry k xs ≡ some e
            → balance m (update_entry k (λ y. e') xs) +ℤ share_of m e
              ≡ balance m xs +ℤ share_of m e')
        → (if b then some x else find_entry k xs) ≡ some e
        → balance m (if b then e' ∷ xs else x ∷ update_entry k (λ y. e') xs) +ℤ share_of m e
          ≡ (share_of m x +ℤ balance m xs) +ℤ share_of m e'
    by_id true rest same = ground (arith, swap_ends (share_of m e') (balance m xs) (share_of m e))
    by_id false rest later =
        below (share_of m x) (balance m (update_entry k (λ y. e') xs)) (share_of m e) (balance m xs)
          (share_of m e') (rest later)

-- An edit that returns is by an administrator or the owner of the entry, which is no row of a
-- transfer; the points of an entry that is tied to a real transaction stay; the entry keeps its id,
-- its type and its owner; and the balance of the owner changes by the difference of the points, all
-- other balances not at all.
pub edit_entry-Allowed :
    (actor : Member) (k : ℕ) (points money : Option ℤ) (text : Option String) (db db' : Db)
    (e e' : LedgerEntry) (m : ℕ)
    → find_entry k db.entries ≡ some e
    → edit_entry actor k points money text db ≡ ok (e', db')
    → (actor.is_admin || e.member_id == actor.id ≡ true)
      × (e.transfer_group_id ≡ none)
      × (is_found e.source_real_txn_id ≡ true → e'.points_delta ≡ e.points_delta)
      × (balance m db'.entries +ℤ share_of m e ≡ balance m db.entries +ℤ share_of m e')
      × (e'.member_id ≡ e.member_id)
      × (e'.id ≡ e.id)
      × (e'.entry_type ≡ e.entry_type)
unfolding edit_entry owns
edit_entry-Allowed actor k points money text db db' e e' m known h =
    ground (arith, balance-update_entry m k db.entries e e')

-- The points and the money that an edit gives a row fit its type, where the row itself does.
edited-sign_fits :
    (e : LedgerEntry) (points money paid : Option ℤ) (delta : ℤ)
    → sign_fits e.entry_type e.points_delta e.money_nt ≡ true
    → edited_points e points ≡ ok delta
    → edited_money e money ≡ ok paid
    → sign_fits e.entry_type delta paid ≡ true
edited-sign_fits e points money paid delta fits p q = grind (arith, int_laws)

-- A row that satisfies the constraint on signs keeps it: no edit of it ends in an IntegrityError.
pub edit_entry-no_integrity :
    (actor : Member) (k : ℕ) (points money : Option ℤ) (text : Option String) (db : Db)
    (e : LedgerEntry)
    → find_entry k db.entries ≡ some e
    → sign_fits e.entry_type e.points_delta e.money_nt ≡ true
    → edit_entry actor k points money text db ≢ err integrity
unfolding edit_entry
edit_entry-no_integrity actor k points money text db e known fits h =
    grind (arith, edited-sign_fits)
