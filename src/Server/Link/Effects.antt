-- ===== src/Server/Link/Effects.antt =====
-- What tying an entry to a real transaction may change.
use ikuzo_neko_pay.Prelude.{ℕ, ◌≡◌, refl, Bool, true, ◌||◌, none, some, List, [], ◌∷◌, ◌==◌, arith}
use ikuzo_neko_pay.Prelude.Int.{abs}
use ikuzo_neko_pay.Server.Store.{
  Db, Member, LedgerEntry, RealTransaction, ok, find_entry, find_real, balance,
}
use ikuzo_neko_pay.Server.Edit.{update_entry, owns}
use ikuzo_neko_pay.Server.Link.{attribute_existing, linked, kind_is, kind_of}

balance-same_points :
    (m k : ℕ) (es : List LedgerEntry) (e e' : LedgerEntry)
    → find_entry k es ≡ some e
    → e'.member_id ≡ e.member_id
    → e'.points_delta ≡ e.points_delta
    → balance m (update_entry k (λ x. e') es) ≡ balance m es
unfolding balance update_entry find_entry
balance-same_points m k [] e e' h p q = cc
balance-same_points m k (x ∷ xs) e e' h p q = ground (arith, balance-same_points m k xs e e')

find_entry-id :
    (k : ℕ) (es : List LedgerEntry) (e : LedgerEntry) → find_entry k es ≡ some e → e.id ≡ k
unfolding find_entry
find_entry-id k [] e h = cc
find_entry-id k (x ∷ xs) e h = ground (arith, find_entry-id k xs e)

-- Tying an entry to a real transaction is for an administrator or the owner of an entry that is tied to
-- none yet; kind and points of the two agree; and no balance changes.
pub attribute_existing-Allowed :
    (now : ℕ) (actor : Member) (k n : ℕ) (overwrite : Bool) (db db' : Db) (e e' : LedgerEntry)
    (rt : RealTransaction) (m : ℕ)
    → find_entry k db.entries ≡ some e
    → find_real n db.reals ≡ some rt
    → attribute_existing now actor k n overwrite db ≡ ok (e', db')
    → (actor.is_admin || e.member_id == actor.id ≡ true)
      × (e.source_real_txn_id ≡ none)
      × (kind_is rt.kind (kind_of e.entry_type) ≡ true)
      × (abs rt.value ≡ abs e.points_delta)
      × (balance m db'.entries ≡ balance m db.entries)
unfolding attribute_existing owns
attribute_existing-Allowed now actor k n overwrite db db' e e' rt m known real h = ground (
  arith,
  find_entry-id k db.entries e known,
  balance-same_points m k db.entries e (linked overwrite rt e) known refl refl,
)
