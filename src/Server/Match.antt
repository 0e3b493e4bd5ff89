-- ===== src/Server/Match.antt =====
-- The query of `match` in app/api/attribution.py: the real transactions that a member may take.
pub mod Newest
mod Examples
use ikuzo_neko_pay.Prelude.{
  ℕ, zero, suc, Bool, true, false, ◌&&◌, some, List, [], ◌∷◌, leb, if◌then◌else◌,
}
use ikuzo_neko_pay.Prelude.Int.{ℤ, pos, neg, eqb_ℤ}
use ikuzo_neko_pay.Server.Store.{Db, RealTransaction}
use ikuzo_neko_pay.Server.Dedup.{RealKind}
use ikuzo_neko_pay.Server.Attribution.{is_unattributed}
use ikuzo_neko_pay.Server.Link.{kind_is}

abbrev pub target_of : RealKind → ℕ → ℤ
target_of RealKind.topup points = pos points
target_of RealKind.pay points = neg (pos points)

abbrev pub matches : RealKind → ℕ → RealTransaction → Bool
matches kind points r =
    kind_is r.kind (some kind)
    && is_unattributed r.attribution_status
    && eqb_ℤ r.value (target_of kind points)

unfoldable pub matching : RealKind → ℕ → List RealTransaction → List RealTransaction
matching kind points [] = []
matching kind points (r ∷ rs) =
    if matches kind points r then r ∷ matching kind points rs else matching kind points rs

-- `order_by(RealTransaction.occurred_at.desc())`
unfoldable pub insert_newest : RealTransaction → List RealTransaction → List RealTransaction
insert_newest r [] = r ∷ []
insert_newest r (s ∷ rs) =
    if leb s.occurred_at r.occurred_at then r ∷ s ∷ rs else s ∷ insert_newest r rs

unfoldable pub newest_first : List RealTransaction → List RealTransaction
unfolding insert_newest
newest_first [] = []
newest_first (r ∷ rs) = insert_newest r (newest_first rs)

unfoldable pub limit : ℕ → List RealTransaction → List RealTransaction
limit zero rs = []
limit (suc n) [] = []
limit (suc n) (r ∷ rs) = r ∷ limit n rs

unfoldable pub candidates : RealKind → ℕ → Db → List RealTransaction
unfolding matching newest_first limit
candidates kind points db = limit 10 (newest_first (matching kind points db.reals))
