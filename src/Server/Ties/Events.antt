-- ===== src/Server/Ties/Events.antt =====
-- Every event keeps the agreement.
use native.Mathlib.Decide.{ℕ_discrete}
use ikuzo_neko_pay.Prelude.{ℕ, suc, ◌≡◌, refl, subst, String, List, [], ◌∷◌, arith}
use ikuzo_neko_pay.Prelude.Int.{ℤ, neg}
use ikuzo_neko_pay.Server.Dedup.{RealKind, signed_value}
use ikuzo_neko_pay.Server.Store.{Db, find_real}
use ikuzo_neko_pay.Server.Ledger.{record_topup, record_play, record_adjustment}
use ikuzo_neko_pay.Server.Transfer.{transfer}
use ikuzo_neko_pay.Server.Operations.{kept_one-keeps, kept_pair-keeps}
use ikuzo_neko_pay.Server.Accounts.Operations.{kept_db-keeps}
use ikuzo_neko_pay.Server.Edit.{delete_entry, edit_entry}
use ikuzo_neko_pay.Server.Attribution.{attribute, ignore_real_txn, reverse_attribution}
use ikuzo_neko_pay.Server.Link.{attribute_existing}
use ikuzo_neko_pay.Server.Purge.{delete_member}
use ikuzo_neko_pay.Server.Ties.{
  Agrees, Tied, Event, topping, playing, moving, adjusting, arriving, attributing, ignoring,
  reversing, linking, editing, deleting, purging, wiping, happen, happen_all, new_real, add_real,
  max_real_id,
}
use ikuzo_neko_pay.Server.Ties.Records.{
  record_topup-Agrees, record_play-Agrees, record_adjustment-Agrees, transfer-Agrees,
}
use ikuzo_neko_pay.Server.Ties.Changes.{
  attribute-Agrees, ignore_real_txn-Agrees, reverse_attribution-Agrees,
}
use ikuzo_neko_pay.Server.Ties.Edits.{edit_entry-Agrees}
use ikuzo_neko_pay.Server.Ties.Links.{attribute_existing-Agrees}
use ikuzo_neko_pay.Server.Ties.Deletes.{delete_entry-Agrees}
use ikuzo_neko_pay.Server.Ties.Purges.{delete_member-Agrees, reset_database-Agrees}

signed_value-twice :
    (kind : RealKind) (v : ℤ) → signed_value kind (signed_value kind v) ≡ signed_value kind v
unfolding signed_value neg
signed_value-twice RealKind.topup v = ground arith
signed_value-twice RealKind.pay v = ground arith

add_real-Agrees :
    (kind : RealKind) (value : ℤ) (raw_name : String) (at : ℕ) (db : Db)
    → Agrees db
    → Agrees (add_real kind value raw_name at db)
unfolding find_real
add_real-Agrees kind value raw_name at db a = record {
  order = a.order;
  good = a.good;
  tied = λ k r h. elim (ℕ_discrete (suc (max_real_id db.reals)) k) [
    | yes same ↦
        let is_new : new_real kind value raw_name at db.reals ≡ r = ground (arith, same, h) in
        subst (Tied db.entries k) is_new ((refl, refl), signed_value-twice kind value)
    | no other ↦ a.tied k r (ground (arith, other, h))
  ];
}

happen-Agrees : (ev : Event) (db : Db) → Agrees db → Agrees (happen ev db)
unfolding happen
happen-Agrees (topping now i) db a =
    kept_one-keeps Agrees db (record_topup now i db)
      (λ e db' h. record_topup-Agrees now i db db' e a h) a
happen-Agrees (playing now i) db a =
    kept_one-keeps Agrees db (record_play now i db)
      (λ e db' h. record_play-Agrees now i db db' e a h) a
happen-Agrees (moving fuel now group i) db a =
    kept_pair-keeps Agrees db (transfer fuel now group i db)
      (λ e f db' h. transfer-Agrees fuel now group i db db' e f a h) a
happen-Agrees (adjusting now m z by reason) db a =
    kept_one-keeps Agrees db (record_adjustment now m z by reason db)
      (λ e db' h. record_adjustment-Agrees now m z by reason db db' e a h) a
happen-Agrees (arriving kind value raw_name at) db a = add_real-Agrees kind value raw_name at db a
happen-Agrees (attributing now k m actor rate money allow) db a =
    kept_one-keeps Agrees db (attribute now k m actor rate money allow db)
      (λ e db' h. attribute-Agrees now k m actor rate money allow db db' e a h) a
happen-Agrees (ignoring k reason) db a =
    kept_db-keeps Agrees db (ignore_real_txn k reason db)
      (λ db' h. ignore_real_txn-Agrees k reason db db' a h) a
happen-Agrees (reversing now k actor remark) db a =
    kept_db-keeps Agrees db (reverse_attribution now k actor remark db)
      (λ db' h. reverse_attribution-Agrees now k actor remark db db' a h) a
happen-Agrees (linking now actor k n overwrite) db a =
    kept_one-keeps Agrees db (attribute_existing now actor k n overwrite db)
      (λ e db' h. attribute_existing-Agrees now actor k n overwrite db db' e a h) a
happen-Agrees (editing actor k points money remark) db a =
    kept_one-keeps Agrees db (edit_entry actor k points money remark db)
      (λ e db' h. edit_entry-Agrees actor k points money remark db db' e a h) a
happen-Agrees (deleting actor k) db a =
    kept_db-keeps Agrees db (delete_entry actor k db)
      (λ db' h. delete_entry-Agrees actor k db db' a h) a
happen-Agrees (purging actor k force) db a =
    kept_db-keeps Agrees db (delete_member actor k force db)
      (λ db' h. delete_member-Agrees actor k force db db' a h) a
happen-Agrees (wiping keep) db a = reset_database-Agrees keep db

-- Where the mirrored real transactions and the ledger agree, they agree after any sequence of events.
-- They agree when each attributed real transaction names an entry of the table that has it as its
-- source and its member and points as its own, when one that is ignored or not attributed names no
-- entry and no member, and when the value of each is signed by its kind; each entry fits the constraint
-- on signs, none with a source is in a transfer, and the ids of the entries fall from row to row. The
-- events are top-ups, plays, transfers, adjustments, new records, attributions, ignored records,
-- reversals, links, edits, deletions of entries and accounts, and a reset, with any arguments; an event
-- that fails changes nothing.
pub happen_all-Agrees : (evs : List Event) (db : Db) → Agrees db → Agrees (happen_all evs db)
unfolding happen_all
happen_all-Agrees [] db a = a
happen_all-Agrees (ev ∷ evs) db a = happen_all-Agrees evs (happen ev db) (happen-Agrees ev db a)
