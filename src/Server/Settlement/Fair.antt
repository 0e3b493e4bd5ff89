-- ===== src/Server/Settlement/Fair.antt =====
-- settle as a whole: from the positions to the payments.
use ikuzo_neko_pay.Prelude.{
  ℕ, ◌+◌, ◌-◌, ◌≤◌, ◌<◌, ◌≡◌, refl, ◌⊎◌, Option, none, some, List, [], ◌∷◌, ◌==◌, length,
  if◌then◌else◌, arith, All,
}
use ikuzo_neko_pay.Prelude.Int.{ℤ}
use ikuzo_neko_pay.Server.Settlement.{
  Position, SettlementTxn, Share, cent, credit_of, debt_of, insert, shares, settle,
}
use ikuzo_neko_pay.Server.Settlement.Loop.{
  Above, IsSettled, total_owed, total_paid, owed_to, received, paid, settle_loop-IsSettled,
}

Above-insert : (s : Share) (ss : List Share) → cent < s.owed → Above ss → Above (insert s ss)
unfolding insert
Above-insert s [] h a = (h, tt)
Above-insert s (t ∷ ts) h a = ground (arith, Above-insert s ts h a.1)

shares-Above : (side : ℤ → ℕ) (ps : List Position) → Above (shares side ps)
unfolding shares
shares-Above side [] = tt
shares-Above side (p ∷ ps) = ground (
  arith,
  shares-Above side ps,
  Above-insert (record { owed = side p.fairness_net; who = p }) (shares side ps),
)

owed_to-insert :
    (m : ℕ) (s : Share) (ss : List Share) → owed_to m (insert s ss) ≡ owed_to m (s ∷ ss)
unfolding insert owed_to
owed_to-insert m s [] = refl
owed_to-insert m s (t ∷ ts) = ground (arith, owed_to-insert m s ts)

-- What the positions of member m owe, or are owed, on one side.
unfoldable pub net_of : ℕ → (ℤ → ℕ) → List Position → ℕ
net_of m side [] = 0
net_of m side (p ∷ ps) = (if p.member_id == m then side p.fairness_net else 0) + net_of m side ps

owed_to-shares :
    (m : ℕ) (side : ℤ → ℕ) (ps : List Position) → owed_to m (shares side ps) ≤ net_of m side ps
unfolding shares owed_to net_of
owed_to-shares m side [] = omega arith
owed_to-shares m side (p ∷ ps) = ground (
  arith,
  owed_to-shares m side ps,
  owed_to-insert m (record { owed = side p.fairness_net; who = p }) (shares side ps),
)

-- What settle returns for a list of positions.
pub record IsFair (ps : List Position) (ts : List SettlementTxn) : Type 0 where
  pub few : length ts ≤ length (shares credit_of ps) + length (shares debt_of ps) - 1
  pub positive : All (λ t. cent < t.amount_nt) ts
  pub within_credit : (m : ℕ) → received m ts ≤ net_of m credit_of ps
  pub within_debt : (m : ℕ) → paid m ts ≤ net_of m debt_of ps
  pub settles :
      (total_owed (shares credit_of ps) ≤ total_paid ts + length (shares credit_of ps))
      ⊎ (total_owed (shares debt_of ps) ≤ total_paid ts + length (shares debt_of ps))

abbrev pub Returns : List Position → Option (List SettlementTxn) → Type 0
Returns ps none = ⊥
Returns ps (some ts) = IsFair ps ts

returned :
    (ps : List Position) (o : Option (List SettlementTxn))
    → IsSettled (shares credit_of ps) (shares debt_of ps) o
    → Returns ps o
returned ps none h = h
returned ps (some ts) h = record {
  few = h.few;
  positive = h.positive;
  within_credit = λ m. omega (arith, h.within_credit m, owed_to-shares m credit_of ps);
  within_debt = λ m. omega (arith, h.within_debt m, owed_to-shares m debt_of ps);
  settles = h.settles;
}

-- For every list of positions settle ends. It makes fewer payments than there are creditors and
-- debtors, each of more than a cent; no member receives more than its credit or pays more than its
-- debt; and either the creditors or the debtors are settled in full, up to a cent for each of them.
pub settle-Returns : (ps : List Position) → Returns ps (settle ps)
unfolding settle
settle-Returns ps = returned ps (settle ps) (
    settle_loop-IsSettled (length (shares credit_of ps) + length (shares debt_of ps))
      (shares credit_of ps) (shares debt_of ps) (omega arith) (shares-Above credit_of ps)
      (shares-Above debt_of ps))
