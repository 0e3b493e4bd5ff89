-- ===== src/Server/Match/Examples.antt =====
-- Two plays of three points are offered, the newer one first; one of another value is not.
use ikuzo_neko_pay.Prelude.{ℕ, ◌≤◌, ◌≡◌, ◌⊎◌, refl, true, none, [], ◌∷◌, All, length}
use ikuzo_neko_pay.Prelude.Int.{ℤ, negsuc, neg}
use ikuzo_neko_pay.Server.Dedup.{RealKind}
use ikuzo_neko_pay.Server.Store.{Db, RealTransaction, unattributed}
use ikuzo_neko_pay.Server.Match.{matches, candidates}
use ikuzo_neko_pay.Server.Match.Newest.{Among, NotNewer, candidates-newest}

abbrev machine_play : ℕ → ℤ → ℕ → RealTransaction
machine_play k value t = record {
  id = k;
  kind = RealKind.pay;
  raw_name = "machine";
  value = value;
  occurred_at = t;
  attribution_status = unattributed;
  attributed_member_id = none;
  attributed_by = none;
  attributed_at = none;
  ledger_entry_id = none;
}

abbrev mirror : Db
mirror = record {
  members = [];
  entries = [];
  reals =
      machine_play 1 (negsuc 2) 8 ∷ machine_play 2 (negsuc 4) 9 ∷ machine_play 3 (negsuc 2) 10 ∷ [];
  claims = [];
  sessions = [];
}

candidates-mirror :
    candidates RealKind.pay 3 mirror
    ≡ machine_play 3 (negsuc 2) 10 ∷ machine_play 1 (negsuc 2) 8 ∷ []
unfolding candidates neg
candidates-mirror = refl

candidates-newest_example :
    (length (candidates RealKind.pay 3 mirror) ≤ 10)
    × All (λ r. matches RealKind.pay 3 r ≡ true) (candidates RealKind.pay 3 mirror)
    × ((r : RealTransaction)
        → Among r mirror.reals
        → matches RealKind.pay 3 r ≡ true
        → Among r (candidates RealKind.pay 3 mirror)
          ⊎ All (NotNewer r) (candidates RealKind.pay 3 mirror))
candidates-newest_example = candidates-newest RealKind.pay 3 mirror
