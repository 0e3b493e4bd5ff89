-- ===== src/Server/Settlement.antt =====
-- settle of app/services/settlement.py, in hundredths of NT$. A position comes with its fairness net,
-- which compute_positions and the properties of Position work out. The loop takes fuel: `none` would
-- mean that it did not end in that many rounds.
pub mod Loop
pub mod Fair
mod Examples
use ikuzo_neko_pay.Prelude.{
  ℕ, zero, suc, ◌+◌, ◌-◌, String, Bool, Option, none, some, List, [], ◌∷◌, leb, ltb, length, min,
  if◌then◌else◌,
}
use ikuzo_neko_pay.Prelude.Int.{ℤ, pos, negsuc}

pub record Position : Type 0 where
  pub member_id : ℕ
  pub display_name : String
  pub fairness_net : ℤ

pub record SettlementTxn : Type 0 where
  pub from_member_id : ℕ
  pub from_name : String
  pub to_member_id : ℕ
  pub to_name : String
  pub amount_nt : ℕ

-- `[net, p]`: what is still owed to, or by, a member.
pub record Share : Type 0 where
  pub owed : ℕ
  pub who : Position

abbrev pub cent : ℕ
cent = 1

-- The nets above a cent, and the negated nets below minus a cent.
abbrev pub credit_of : ℤ → ℕ
credit_of (pos n) = n
credit_of (negsuc n) = 0

abbrev pub debt_of : ℤ → ℕ
debt_of (pos n) = 0
debt_of (negsuc n) = suc n

-- Into a list sorted by falling amount; equal amounts keep their order.
unfoldable pub insert : Share → List Share → List Share
insert s [] = s ∷ []
insert s (t ∷ ts) = if leb t.owed s.owed then s ∷ t ∷ ts else t ∷ insert s ts

unfoldable pub shares : (ℤ → ℕ) → List Position → List Share
unfolding insert
shares side [] = []
shares side (p ∷ ps) =
    if ltb cent (side p.fairness_net)
    then insert (record { owed = side p.fairness_net; who = p }) (shares side ps)
    else shares side ps

-- `cred[0] -= amount`, and the index moves on if a cent or less is left.
abbrev pub reduce : ℕ → Share → List Share → List Share
reduce amount s rest =
    if leb (s.owed - amount) cent then rest else record s { owed = s.owed - amount } ∷ rest

abbrev pub payment : Share → Share → SettlementTxn
payment cred debt = record {
  from_member_id = debt.who.member_id;
  from_name = debt.who.display_name;
  to_member_id = cred.who.member_id;
  to_name = cred.who.display_name;
  amount_nt = min cred.owed debt.owed;
}

abbrev pub prepend : SettlementTxn → Option (List SettlementTxn) → Option (List SettlementTxn)
prepend t none = none
prepend t (some ts) = some (t ∷ ts)

unfoldable pub settle_loop : ℕ → List Share → List Share → Option (List SettlementTxn)
settle_loop fuel [] ds = some []
settle_loop fuel (c ∷ cs) [] = some []
settle_loop zero (c ∷ cs) (d ∷ ds) = none
settle_loop (suc fuel) (c ∷ cs) (d ∷ ds) =
    let amount = min c.owed d.owed in
    prepend (payment c d) (settle_loop fuel (reduce amount c cs) (reduce amount d ds))

-- The fuel is the number of creditors and debtors: each round settles one of them.
unfoldable pub settle : List Position → Option (List SettlementTxn)
unfolding shares settle_loop
settle positions =
    let creditors = shares credit_of positions in
    let debtors = shares debt_of positions in
    settle_loop (length creditors + length debtors) creditors debtors
