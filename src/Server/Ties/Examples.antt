-- ===== src/Server/Ties/Examples.antt =====
-- A record arrives, is attributed, its entry is edited and deleted, and it is tied to a manual entry.
use ikuzo_neko_pay.Prelude.{true, false, none, some, List, [], ◌∷◌}
use ikuzo_neko_pay.Prelude.Int.{pos}
use ikuzo_neko_pay.Server.Dedup.{RealKind}
use ikuzo_neko_pay.Server.Store.{Db, Member, find_real}
use ikuzo_neko_pay.Server.Ledger.{TopupIn}
use ikuzo_neko_pay.Server.Ties.{
  Event, topping, arriving, attributing, deleting, linking, Agrees, happen_all,
}
use ikuzo_neko_pay.Server.Ties.Events.{happen_all-Agrees}

abbrev clerk : Member
clerk = record {
  id = 1;
  username = "";
  display_name = "";
  password_hash = "";
  is_admin = true;
  is_active = true;
}

abbrev opened : Db
opened = record { members = clerk ∷ []; entries = []; reals = []; claims = []; sessions = [] }

opened-Agrees : Agrees opened
unfolding find_real
opened-Agrees = record { order = tt; good = tt; tied = λ k r h. cc }

abbrev by_hand : TopupIn
by_hand = record {
  member_id = 1;
  points = pos 5;
  money = some (pos 5);
  created_by = 1;
  note = none;
  idempotency_key = none;
  source_real_txn_id = none;
  created_at = none;
}

abbrev morning : List Event
morning =
    topping 3 by_hand
    ∷ arriving RealKind.pay (pos 3) "machine" 4
    ∷ arriving RealKind.topup (pos 5) "shop" 5
    ∷ attributing 6 2 1 1 (pos 100) none false
    ∷ attributing 7 1 1 1 (pos 100) none false
    ∷ deleting clerk 2
    ∷ linking 8 clerk 1 2 true
    ∷ []

happen_all-Agrees_example : Agrees (happen_all morning opened)
happen_all-Agrees_example = happen_all-Agrees morning opened opened-Agrees
