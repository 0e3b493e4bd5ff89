-- ===== src/Server/Ties/Links.antt =====
-- A link of an entry to a real transaction keeps the agreement.
use ikuzo_neko_pay.Prelude.{
  ℕ, suc, ◌≡◌, refl, sym, ◌∙◌, ap, subst, Bool, true, false, not, ◌||◌, Option, none, some, [], ◌∷◌,
  ◌==◌, arith,
}
use ikuzo_neko_pay.Prelude.Int.{ℤ, pos, negsuc, neg, abs, ltb_ℤ}
use ikuzo_neko_pay.Server.Dedup.{RealKind, signed_value}
use ikuzo_neko_pay.Server.Store.{
  Db, Member, LedgerEntry, RealTransaction, EntryType, topup, play, transfer_in, transfer_out,
  adjustment, ok, not_found, conflict, validation, is_found, sign_fits, find_entry, find_real,
  source_free,
}
use ikuzo_neko_pay.Server.Results.{bind-ok, raise_if-ok, found-ok, ok-pair}
use ikuzo_neko_pay.Server.Edit.{update_real, update_entry, check_permission}
use ikuzo_neko_pay.Server.Attribution.{is_unattributed, taken_by}
use ikuzo_neko_pay.Server.Link.{kind_of, kind_is, linked, link, attribute_existing}
use ikuzo_neko_pay.Server.Ties.{is_good, Tied, Agrees}
use ikuzo_neko_pay.Server.Ties.Rows.{find_entry-id, find_real-id, find_entry-updated}
use ikuzo_neko_pay.Server.Ties.Changes.{update_real-Agrees}
use ikuzo_neko_pay.Server.Ties.Edits.{Version, update_entry-Agrees, find_entry-All}

-- The points of an entry and of a real transaction of its kind and as many points are the same.
same_gain : (v z : ℤ) → abs v == abs z ≡ true → ltb_ℤ (pos 0) z ≡ true → pos (abs v) ≡ v → z ≡ v
same_gain (pos a) (pos b) m s signed = ground arith
same_gain (pos a) (negsuc b) m s signed = ground arith
same_gain (negsuc a) z m s signed = cc

neg-suc : (n : ℕ) → neg (pos (suc n)) ≡ negsuc n
unfolding neg
neg-suc n = ground arith

same_loss :
    (v z : ℤ) → abs v == abs z ≡ true → ltb_ℤ z (pos 0) ≡ true → neg (pos (abs v)) ≡ v → z ≡ v
same_loss v (pos b) m s signed = ground arith
same_loss v (negsuc b) m s signed =
    let size : abs v ≡ suc b = ground (arith, m) in
    sym (neg-suc b) ∙ ap (λ n. neg (pos n)) (sym size) ∙ signed

same_points :
    (t : EntryType) (kind : RealKind) (v z : ℤ) (money : Option ℤ)
    → kind_is kind (kind_of t) ≡ true
    → abs v == abs z ≡ true
    → sign_fits t z money ≡ true
    → signed_value kind v ≡ v
    → z ≡ v
unfolding signed_value
same_points topup RealKind.topup v z money k m s signed = same_gain v z m (ground (arith, s)) signed
same_points play RealKind.pay v z money k m s signed = same_loss v z m s signed
same_points topup RealKind.pay v z money k m s signed = cc
same_points play RealKind.topup v z money k m s signed = cc
same_points transfer_in kind v z money k m s signed = ground (arith, k)
same_points transfer_out kind v z money k m s signed = ground (arith, k)
same_points adjustment kind v z money k m s signed = ground (arith, k)

record Linked (now k n : ℕ) (actor : Member) (row : LedgerEntry) (db db' : Db) : Type 0 where
  e : LedgerEntry
  rt : RealTransaction
  overwrite : Bool
  found : find_entry k db.entries ≡ some e
  real : find_real n db.reals ≡ some rt
  alone : is_found e.transfer_group_id ≡ false
  unsourced : e.source_real_txn_id ≡ none
  kind : kind_is rt.kind (kind_of e.entry_type) ≡ true
  size : abs rt.value == abs e.points_delta ≡ true
  row_is : row ≡ linked overwrite rt e
  written : db' ≡ record db {
    entries = update_entry e.id (λ x. row) db.entries;
    reals = update_real rt.id (taken_by now e.member_id actor.id e.id) db.reals;
  }

attribute_existing-Linked :
    (now : ℕ) (actor : Member) (k n : ℕ) (overwrite : Bool) (db db' : Db) (row : LedgerEntry)
    → attribute_existing now actor k n overwrite db ≡ ok (row, db')
    → Linked now k n actor row db db'
unfolding attribute_existing link
attribute_existing-Linked now actor k n overwrite db db' row h =
    let (e, found, rest) = found-ok (find_entry k db.entries) not_found _ (row, db') h in
    let (_, _, rest) = bind-ok (check_permission actor (e ∷ [])) _ (row, db') rest in
    let (fit, rest) =
      raise_if-ok (is_found e.transfer_group_id || not (is_found (kind_of e.entry_type))) validation
        _ (row, db') rest in
    let (unsourced, rest) =
      raise_if-ok (is_found e.source_real_txn_id) conflict _ (row, db') rest in
    let (rt, real, rest) = found-ok (find_real n db.reals) not_found _ (row, db') rest in
    let (_, rest) =
      raise_if-ok (not (is_unattributed rt.attribution_status)) conflict _ (row, db') rest in
    let (kind, rest) =
      raise_if-ok (not (kind_is rt.kind (kind_of e.entry_type))) validation _ (row, db') rest in
    let (size, rest) =
      raise_if-ok (not (abs rt.value == abs e.points_delta)) validation _ (row, db') rest in
    let (_, done) =
      raise_if-ok (not (source_free (linked overwrite rt e) db.entries)) conflict _ (row, db')
        rest in
    let (same, kept) = ok-pair (linked overwrite rt e) row _ db' done in
    record {
      e = e;
      rt = rt;
      overwrite = overwrite;
      found = found;
      real = real;
      alone = ground (arith, fit);
      unsourced = ground (arith, unsourced);
      kind = ground (arith, kind);
      size = ground (arith, size);
      row_is = sym same;
      written =
          sym kept
          ∙ ap
              (λ x. record db {
                entries = update_entry e.id (λ y. x) db.entries;
                reals = update_real rt.id (taken_by now e.member_id actor.id e.id) db.reals;
              })
              same;
    }

linked-Version :
    (overwrite : Bool) (rt : RealTransaction) (e : LedgerEntry)
    → is_found e.transfer_group_id ≡ false
    → e.source_real_txn_id ≡ none
    → is_good e ≡ true
    → Version e (linked overwrite rt e)
linked-Version overwrite rt e alone unsourced fits = record {
  itself = refl;
  source = λ n h. cc;
  fits = ground (arith, alone, fits);
}

sign_of :
    (e : LedgerEntry) → is_good e ≡ true → sign_fits e.entry_type e.points_delta e.money_nt ≡ true
sign_of e h = ground (arith, h)

pub attribute_existing-Agrees :
    (now : ℕ) (actor : Member) (k n : ℕ) (overwrite : Bool) (db db' : Db) (row : LedgerEntry)
    → Agrees db
    → attribute_existing now actor k n overwrite db ≡ ok (row, db')
    → Agrees db'
attribute_existing-Agrees now actor k n overwrite db db' row a h =
    let w = attribute_existing-Linked now actor k n overwrite db db' row h in
    let fits = find_entry-All (λ x. is_good x ≡ true) k db.entries w.e a.good w.found in
    let v =
      subst (Version w.e) (sym w.row_is)
        (linked-Version w.overwrite w.rt w.e w.alone w.unsourced fits) in
    let e_k = find_entry-id k db.entries w.e w.found in
    let found = ap (λ i. find_entry i db.entries) e_k ∙ w.found in
    let a' = update_entry-Agrees w.e row w.e.id db found v a in
    let rt_n = find_real-id n db.reals w.rt w.real in
    let real = ap (λ i. find_real i db.reals) rt_n ∙ w.real in
    let signed = (a.tied n w.rt w.real).1 in
    let tied : Tied (update_entry w.e.id (λ x. row) db.entries) w.rt.id
        (taken_by now w.e.member_id actor.id w.e.id w.rt) =
      (
        record {
          entry = row;
          pointer = ap some (sym v.itself);
          stored =
              ap (λ i. find_entry i (update_entry w.e.id (λ x. row) db.entries)) v.itself
              ∙ find_entry-updated (λ x. row) w.e.id db.entries w.e v.itself found;
          source = ap (λ x. x.source_real_txn_id) w.row_is;
          owner = ap (λ x. some x.member_id) (sym w.row_is);
          points =
              ap (λ x. x.points_delta) w.row_is
              ∙ same_points w.e.entry_type w.rt.kind w.rt.value w.e.points_delta w.e.money_nt w.kind
                  w.size (sign_of w.e fits) signed;
        },
        signed,
      ) in
    subst Agrees (sym w.written) (
      update_real-Agrees (taken_by now w.e.member_id actor.id w.e.id) w.rt.id w.rt
        (record db { entries = update_entry w.e.id (λ x. row) db.entries }) (λ x. refl) real a'
        tied)
