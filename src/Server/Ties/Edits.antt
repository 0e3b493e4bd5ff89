-- ===== src/Server/Ties/Edits.antt =====
-- Edits of an entry keep the agreement.
use mathlib.Core.Option.{some-injective}
use native.Mathlib.Decide.{ℕ_discrete}
use ikuzo_neko_pay.Prelude.{
  ℕ, ◌≡◌, refl, sym, ◌∙◌, ap, subst, String, true, false, not, Option, none, some, List, [], ◌∷◌,
  ◌<◌, ◌==◌, All, if_either, arith,
}
use ikuzo_neko_pay.Prelude.Int.{ℤ}
use ikuzo_neko_pay.Server.Store.{
  Db, Member, LedgerEntry, ok, not_found, validation, integrity, is_found, sign_fits, find_entry,
}
use ikuzo_neko_pay.Server.Results.{bind-ok, raise_if-ok, found-ok, ok-pair}
use ikuzo_neko_pay.Server.Edit.{
  update_entry, edit_entry, check_permission, edited_points, edited_money, edited_note,
}
use ikuzo_neko_pay.Server.Ties.{Descending, is_good, Agrees}
use ikuzo_neko_pay.Server.Ties.Rows.{find_entry-id, find_entry-update_entry, find_entry-updated}
use ikuzo_neko_pay.Server.Ties.Inserts.{Carries, Tied-carried}

module _ (e' : LedgerEntry) (k : ℕ) (itself : e'.id ≡ k) where
  Below-update_entry :
      (b : ℕ) (es : List LedgerEntry)
      → All (λ f. f.id < b) es
      → All (λ f. f.id < b) (update_entry k (λ x. e') es)
  unfolding update_entry
  Below-update_entry b [] h = tt
  Below-update_entry b (e ∷ es) h = ground (arith, itself, h, Below-update_entry b es h.1)

  Descending-update_entry :
      (es : List LedgerEntry) → Descending es → Descending (update_entry k (λ x. e') es)
  unfolding update_entry
  Descending-update_entry [] d = tt
  Descending-update_entry (e ∷ es) d =
      if_either Descending (e.id == k) (e' ∷ es) (e ∷ update_entry k (λ x. e') es)
        (λ h.
          let same : e.id ≡ e'.id = ground (arith, h, itself) in
          (subst (λ i. All (λ f. f.id < i) es) same d.0, d.1))
        (λ h. (Below-update_entry e.id es d.0, Descending-update_entry es d.1))

  good-update_entry :
      (es : List LedgerEntry)
      → is_good e' ≡ true
      → All (λ e. is_good e ≡ true) es
      → All (λ e. is_good e ≡ true) (update_entry k (λ x. e') es)
  unfolding update_entry
  good-update_entry [] fits g = tt
  good-update_entry (e ∷ es) fits g =
      if_either (All (λ x. is_good x ≡ true)) (e.id == k) (e' ∷ es)
        (e ∷ update_entry k (λ x. e') es) (λ h. (fits, g.1))
        (λ h. (g.0, good-update_entry es fits g.1))

-- A new version of a row that keeps what a tied real transaction needs.
pub record Version (e e' : LedgerEntry) : Type 0 where
  pub itself : e'.id ≡ e.id
  pub source :
      (n : ℕ)
      → e.source_real_txn_id ≡ some n
      → (e'.source_real_txn_id ≡ some n)
        × (e'.member_id ≡ e.member_id)
        × (e'.points_delta ≡ e.points_delta)
  pub fits : is_good e' ≡ true

update_entry-Carries :
    (n : ℕ) (e e' : LedgerEntry) (k : ℕ) (es : List LedgerEntry)
    → find_entry k es ≡ some e
    → Version e e'
    → Carries n es (update_entry k (λ x. e') es)
update_entry-Carries n e e' k es found v i x h source =
    let e_k = find_entry-id k es e found in
    let e'_k : e'.id ≡ k = v.itself ∙ e_k in
    elim (ℕ_discrete i k) [
      | yes same ↦
          let one : e ≡ x =
            some-injective _ _ (sym found ∙ (ap (λ j. find_entry j es) (sym same) ∙ h)) in
          let (s, m, p) = v.source n (ap (λ y. y.source_real_txn_id) one ∙ source) in
          (
            e',
            ap (λ j. find_entry j (update_entry k (λ y. e') es)) same
                ∙ find_entry-updated (λ y. e') k es e e'_k found,
            e'_k ∙ sym same,
            s,
            m ∙ ap (λ y. y.member_id) one,
            p ∙ ap (λ y. y.points_delta) one,
          )
      | no other ↦ (
        x,
        find_entry-update_entry (λ y. e') i k es (λ y z. e'_k) other ∙ h,
        find_entry-id i es x h,
        source,
        refl,
        refl,
      )
    ]

pub update_entry-Agrees :
    (e e' : LedgerEntry) (k : ℕ) (db : Db)
    → find_entry k db.entries ≡ some e
    → Version e e'
    → Agrees db
    → Agrees (record db { entries = update_entry k (λ x. e') db.entries })
update_entry-Agrees e e' k db found v a =
    let e'_k = v.itself ∙ find_entry-id k db.entries e found in
    record {
      order = Descending-update_entry e' k e'_k db.entries a.order;
      good = good-update_entry e' k e'_k db.entries v.fits a.good;
      tied = λ j r h.
          Tied-carried db.entries (update_entry k (λ x. e') db.entries) j r
            (update_entry-Carries j e e' k db.entries found v) (a.tied j r h);
    }

pub find_entry-All :
    (P : LedgerEntry → Type 0) (k : ℕ) (es : List LedgerEntry) (e : LedgerEntry)
    → All P es
    → find_entry k es ≡ some e
    → P e
unfolding find_entry
find_entry-All P k [] e h f = cc
find_entry-All P k (x ∷ es) e h f =
    if_either (λ o. o ≡ some e → P e) (x.id == k) (some x) (find_entry k es)
      (λ t g. subst P (some-injective _ _ g) h.0) (λ t g. find_entry-All P k es e h.1 g) f

edited_points-source :
    (e : LedgerEntry) (points : Option ℤ) (delta : ℤ) (n : ℕ)
    → edited_points e points ≡ ok delta
    → e.source_real_txn_id ≡ some n
    → delta ≡ e.points_delta
edited_points-source e none delta n h source = cc
edited_points-source e (some p) delta n h source = ground arith

edited-Version :
    (e : LedgerEntry) (points : Option ℤ) (delta : ℤ) (paid : Option ℤ) (remark : Option String)
    → is_found e.transfer_group_id ≡ false
    → edited_points e points ≡ ok delta
    → not (sign_fits e.entry_type delta paid) ≡ false
    → Version e (record e { points_delta = delta; money_nt = paid; note = remark })
edited-Version e points delta paid remark single moved signs = record {
  itself = refl;
  source = λ n h. (h, refl, edited_points-source e points delta n moved h);
  fits = ground (arith, single, signs);
}

edit_entry-Version :
    (actor : Member) (k : ℕ) (points money : Option ℤ) (note : Option String) (db db' : Db)
    (row : LedgerEntry)
    → edit_entry actor k points money note db ≡ ok (row, db')
    → (e : LedgerEntry) × (find_entry k db.entries ≡ some e)
      × Version e row
      × (db' ≡ record db { entries = update_entry k (λ x. row) db.entries })
unfolding edit_entry
edit_entry-Version actor k points money note db db' row h =
    let (e, found, rest) = found-ok (find_entry k db.entries) not_found _ (row, db') h in
    let (single, rest) = raise_if-ok (is_found e.transfer_group_id) validation _ (row, db') rest in
    let (_, _, rest) = bind-ok (check_permission actor (e ∷ [])) _ (row, db') rest in
    let (delta, moved, rest) = bind-ok (edited_points e points) _ (row, db') rest in
    let (paid, paying, rest) = bind-ok (edited_money e money) _ (row, db') rest in
    let (signs, done) =
      raise_if-ok (not (sign_fits e.entry_type delta paid)) integrity _ (row, db') rest in
    let e' : LedgerEntry = record e {
      points_delta = delta;
      money_nt = paid;
      note = edited_note e note;
    } in
    let (same, written) =
      ok-pair e' row (record db { entries = update_entry k (λ x. e') db.entries }) db' done in
    (
      e,
      found,
      subst (Version e) same
          (edited-Version e points delta paid (edited_note e note) single moved signs),
      sym written ∙ ap (λ y. record db { entries = update_entry k (λ x. y) db.entries }) same,
    )

pub edit_entry-Agrees :
    (actor : Member) (k : ℕ) (points money : Option ℤ) (note : Option String) (db db' : Db)
    (row : LedgerEntry)
    → Agrees db
    → edit_entry actor k points money note db ≡ ok (row, db')
    → Agrees db'
edit_entry-Agrees actor k points money note db db' row a h =
    let (e, found, v, written) = edit_entry-Version actor k points money note db db' row h in
    subst Agrees (sym written) (update_entry-Agrees e row k db found v a)
