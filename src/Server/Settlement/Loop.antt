-- ===== src/Server/Settlement/Loop.antt =====
-- One call of the loop of settle: it ends, and its payments stay within what is owed.
use ikuzo_neko_pay.Prelude.{
  ℕ, zero, suc, ◌+◌, ◌-◌, ◌≤◌, ◌<◌, ◌≡◌, ◌⊎◌, inl, inr, Option, none, some, List, [], ◌∷◌, ◌==◌,
  length, min, if◌then◌else◌, arith, All,
}
use ikuzo_neko_pay.Server.Settlement.{
  Share, SettlementTxn, payment, reduce, settle_loop, cent, prepend,
}

-- Every share of a list is above a cent.
abbrev pub Above : List Share → Type 0
Above = All (λ s. cent < s.owed)

unfoldable pub total_owed : List Share → ℕ
total_owed [] = 0
total_owed (s ∷ ss) = s.owed + total_owed ss

unfoldable pub total_paid : List SettlementTxn → ℕ
total_paid [] = 0
total_paid (t ∷ ts) = t.amount_nt + total_paid ts

-- What member m is owed or owes in a list of shares, receives, and pays.
unfoldable pub owed_to : ℕ → List Share → ℕ
owed_to m [] = 0
owed_to m (s ∷ ss) = (if s.who.member_id == m then s.owed else 0) + owed_to m ss

unfoldable pub received : ℕ → List SettlementTxn → ℕ
received m [] = 0
received m (t ∷ ts) = (if t.to_member_id == m then t.amount_nt else 0) + received m ts

unfoldable pub paid : ℕ → List SettlementTxn → ℕ
paid m [] = 0
paid m (t ∷ ts) = (if t.from_member_id == m then t.amount_nt else 0) + paid m ts

-- What a run of the loop on creditors cs and debtors ds returns.
pub record Settled (cs ds : List Share) (ts : List SettlementTxn) : Type 0 where
  pub few : length ts ≤ length cs + length ds - 1
  pub positive : All (λ t. cent < t.amount_nt) ts
  pub within_credit : (m : ℕ) → received m ts ≤ owed_to m cs
  pub within_debt : (m : ℕ) → paid m ts ≤ owed_to m ds
  pub settles :
      (total_owed cs ≤ total_paid ts + length cs) ⊎ (total_owed ds ≤ total_paid ts + length ds)

abbrev pub IsSettled : List Share → List Share → Option (List SettlementTxn) → Type 0
IsSettled cs ds none = ⊥
IsSettled cs ds (some ts) = Settled cs ds ts

Above-reduce : (a : ℕ) (s : Share) (ss : List Share) → Above ss → Above (reduce a s ss)
Above-reduce a s ss h = ground arith

module _ (a : ℕ) (s : Share) (ss : List Share) where
  length-reduce : length (reduce a s ss) ≤ suc (length ss)
  length-reduce = ground arith

  length-reduce_all : s.owed ≤ a → length (reduce a s ss) ≡ length ss
  length-reduce_all h = ground arith

  -- At most a cent of a share is given up when it leaves the list.
  total_owed-reduce :
      a ≤ s.owed
      → total_owed (s ∷ ss) + length (reduce a s ss)
        ≤ total_owed (reduce a s ss) + a + suc (length ss)
  unfolding total_owed
  total_owed-reduce h = ground arith

  owed_to-reduce :
      (m : ℕ)
      → a ≤ s.owed
      → owed_to m (reduce a s ss) + (if s.who.member_id == m then a else 0) ≤ owed_to m (s ∷ ss)
  unfolding owed_to
  owed_to-reduce m h = ground arith

module _ (c d : Share) (cs ds : List Share) where
  -- One of the two shares is settled in full by the payment.
  length-reduce_both :
      length (reduce (min c.owed d.owed) c cs) + length (reduce (min c.owed d.owed) d ds) + 1
      ≤ suc (length cs) + suc (length ds)
  length-reduce_both =
      let a = min c.owed d.owed in
      let all_of_one : (c.owed ≤ min c.owed d.owed) ⊎ (d.owed ≤ min c.owed d.owed) = omega arith in
      elim all_of_one [
        | inl h ↦ omega (arith, length-reduce_all a c cs h, length-reduce a d ds)
        | inr h ↦ omega (arith, length-reduce_all a d ds h, length-reduce a c cs)
      ]

  step-Settled :
      (ts : List SettlementTxn)
      → cent < c.owed
      → cent < d.owed
      → Settled (reduce (min c.owed d.owed) c cs) (reduce (min c.owed d.owed) d ds) ts
      → Settled (c ∷ cs) (d ∷ ds) (payment c d ∷ ts)
  unfolding total_paid received paid
  step-Settled ts hc hd h =
      let a = min c.owed d.owed in
      record {
        few = omega (arith, h.few, length-reduce_both);
        positive = (omega arith, h.positive);
        within_credit = λ m. omega (arith, h.within_credit m, owed_to-reduce a c cs m);
        within_debt = λ m. omega (arith, h.within_debt m, owed_to-reduce a d ds m);
        settles = elim h.settles [
          | inl p ↦ inl (omega (arith, p, total_owed-reduce a c cs))
          | inr p ↦ inr (omega (arith, p, total_owed-reduce a d ds))
        ];
      }

nothing-Settled-left : (ds : List Share) → Settled [] ds []
unfolding total_owed total_paid received paid
nothing-Settled-left ds = record {
  few = omega arith;
  positive = tt;
  within_credit = λ m. omega arith;
  within_debt = λ m. omega arith;
  settles = inl (omega arith);
}

nothing-Settled-right : (c : Share) (cs : List Share) → Settled (c ∷ cs) [] []
unfolding total_owed total_paid received paid
nothing-Settled-right c cs = record {
  few = omega arith;
  positive = tt;
  within_credit = λ m. omega arith;
  within_debt = λ m. omega arith;
  settles = inr (omega arith);
}

step-IsSettled :
    (c d : Share) (cs ds : List Share) (o : Option (List SettlementTxn))
    → cent < c.owed
    → cent < d.owed
    → IsSettled (reduce (min c.owed d.owed) c cs) (reduce (min c.owed d.owed) d ds) o
    → IsSettled (c ∷ cs) (d ∷ ds) (prepend (payment c d) o)
step-IsSettled c d cs ds none hc hd h = h
step-IsSettled c d cs ds (some ts) hc hd h = step-Settled c d cs ds ts hc hd h

-- With fuel for every creditor and debtor the loop ends, and its payments settle the lists.
pub settle_loop-IsSettled :
    (fuel : ℕ) (cs ds : List Share)
    → length cs + length ds ≤ fuel
    → Above cs
    → Above ds
    → IsSettled cs ds (settle_loop fuel cs ds)
unfolding settle_loop
settle_loop-IsSettled fuel [] ds f hc hd = nothing-Settled-left ds
settle_loop-IsSettled fuel (c ∷ cs) [] f hc hd = nothing-Settled-right c cs
settle_loop-IsSettled zero (c ∷ cs) (d ∷ ds) f hc hd = absurd (omega arith)
settle_loop-IsSettled (suc fuel) (c ∷ cs) (d ∷ ds) f hc hd =
    let a = min c.owed d.owed in
    step-IsSettled c d cs ds (settle_loop fuel (reduce a c cs) (reduce a d ds)) hc.0 hd.0 (
      settle_loop-IsSettled fuel (reduce a c cs) (reduce a d ds)
        (omega (arith, f, length-reduce_both c d cs ds)) (Above-reduce a c cs hc.1)
        (Above-reduce a d ds hd.1))
