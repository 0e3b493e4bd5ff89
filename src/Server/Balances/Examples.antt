-- ===== src/Server/Balances/Examples.antt =====
-- Runs of the ledger's operations on two members, and their theorems there.
use ikuzo_neko_pay.Prelude.{
  ◌≡◌, refl, String, true, false, Option, none, some, List, [], ◌∷◌, ℕ, arith,
}
use ikuzo_neko_pay.Prelude.Int.{pos, negsuc, neg, ◌+ℤ◌, int_laws}
use ikuzo_neko_pay.Server.Store.{
  Db, Member, LedgerEntry, topup, play, ok, err, recursion, balance, insert_entry, admissible,
  find_key, find_member, max_id,
}
use ikuzo_neko_pay.Server.Ledger.{
  TopupIn, PlayIn, record_topup, record_play, blank, existing_by_key, commit_entry,
}
use ikuzo_neko_pay.Server.Transfer.{TransferIn, transfer, insert_pair, out_row, in_row}
use ikuzo_neko_pay.Server.Operations.{Operation, playing, moving, apply_all, apply_all-NoDebt}
use ikuzo_neko_pay.Server.Transfer.{rows_of_group}
use ikuzo_neko_pay.Server.Transfer.Repeat.{transfer-transfer}
use ikuzo_neko_pay.Server.Transfer.Again.{record_topup-record_topup, record_play-record_play}
use ikuzo_neko_pay.Server.Transfer.Keys.{transfer_recursion}
use ikuzo_neko_pay.Server.Pool.{Steps}
use ikuzo_neko_pay.Server.Pool.Refines.{pool, answers, apply_all-Steps}
use ikuzo_neko_pay.Server.Balances.{NoDebt}

abbrev pub member : ℕ → Member
member k = record {
  id = k;
  username = "";
  display_name = "";
  password_hash = "";
  is_admin = false;
  is_active = true;
}

-- An empty ledger with members 1 and 2.
abbrev fresh : Db
fresh = record {
  members = member 1 ∷ member 2 ∷ [];
  entries = [];
  reals = [];
  claims = [];
  sessions = [];
}

abbrev buys : TopupIn
buys = record {
  member_id = 1;
  points = pos 10;
  money = some (pos 10000);
  created_by = 1;
  note = none;
  idempotency_key = some "k:in";
  source_real_txn_id = none;
  created_at = none;
}

-- The row of that top-up.
abbrev pub bought : LedgerEntry
bought = record blank {
  id = 1;
  member_id = 1;
  entry_type = topup;
  points_delta = pos 10;
  money_nt = some (pos 10000);
  created_by = 1;
  idempotency_key = some "k:in";
  created_at = 7;
}

abbrev pub stocked : Db
stocked = record fresh { entries = bought ∷ [] }

record_topup-buys : record_topup 7 buys fresh ≡ ok (bought, stocked)
unfolding record_topup commit_entry insert_entry existing_by_key admissible find_key find_member
    max_id
record_topup-buys = refl

abbrev plays : PlayIn
plays = record {
  member_id = 1;
  points = pos 4;
  created_by = 1;
  note = none;
  idempotency_key = none;
  allow_negative = false;
  source_real_txn_id = none;
  created_at = none;
}

-- The row of that play.
abbrev played : LedgerEntry
played = record blank {
  id = 2;
  member_id = 1;
  entry_type = play;
  points_delta = negsuc 3;
  created_by = 1;
  created_at = 8;
}

abbrev spent : Db
spent = record stocked { entries = played ∷ bought ∷ [] }

record_play-plays : record_play 8 plays stocked ≡ ok (played, spent)
unfolding record_play commit_entry insert_entry existing_by_key admissible find_key find_member
    max_id balance ◌+ℤ◌ neg
record_play-plays = refl

abbrev pub gives : Option String → TransferIn
gives key = record {
  from_member_id = 1;
  to_member_id = 2;
  points = pos 3;
  created_by = 1;
  note = none;
  idempotency_key = key;
  allow_negative = false;
}

abbrev pub given : LedgerEntry
given = record (out_row 9 5 (gives (some "g"))) { id = 2 }

abbrev pub taken : LedgerEntry
taken = record (in_row 9 5 (gives (some "g"))) { id = 3 }

abbrev pub shared : Db
shared = record stocked { entries = taken ∷ given ∷ bought ∷ [] }

pub transfer-gives : transfer 1000 9 5 (gives (some "g")) stocked ≡ ok (given, taken, shared)
unfolding transfer insert_pair insert_entry existing_by_key admissible find_key find_member max_id
    balance ◌+ℤ◌ neg
transfer-gives = refl

stocked-NoDebt : NoDebt stocked
unfolding balance
stocked-NoDebt k = grind int_laws

abbrev afternoon : List Operation
afternoon = playing 8 plays ∷ moving 1000 9 5 (gives (some "g")) ∷ []

-- 10 points, less a play of 4 and a transfer of 3.
balance-afternoon : balance 1 (apply_all afternoon stocked).entries ≡ pos 3
unfolding apply_all record_play commit_entry transfer insert_pair insert_entry existing_by_key
    admissible find_key find_member max_id balance ◌+ℤ◌ neg
balance-afternoon = refl

apply_all-NoDebt_example : NoDebt (apply_all afternoon stocked)
apply_all-NoDebt_example = apply_all-NoDebt afternoon stocked (refl, (refl, tt)) stocked-NoDebt

transfer_recursion_example : transfer 1000 9 5 (gives (some "k")) stocked ≡ err recursion
unfolding balance existing_by_key find_key find_member ◌+ℤ◌
transfer_recursion_example =
    transfer_recursion 1000 9 5 (gives (some "k")) stocked "k" (ground arith) (ground arith) refl
      refl refl refl refl refl refl

record_topup-record_topup_example : record_topup 20 buys stocked ≡ ok (bought, stocked)
record_topup-record_topup_example =
    record_topup-record_topup 7 20 buys fresh stocked bought refl record_topup-buys

-- The second submission comes when 2 points are left.
abbrev plays_once : PlayIn
plays_once = record plays { idempotency_key = some "p"; points = pos 8 }

abbrev played_once : LedgerEntry
played_once = record played { idempotency_key = some "p"; points_delta = negsuc 7 }

record_play-plays_once :
    record_play 8 plays_once stocked
    ≡ ok (played_once, record stocked { entries = played_once ∷ bought ∷ [] })
unfolding record_play commit_entry insert_entry existing_by_key admissible find_key find_member
    max_id balance ◌+ℤ◌ neg
record_play-plays_once = refl

record_play-record_play_example :
    record_play 20 plays_once (record stocked { entries = played_once ∷ bought ∷ [] })
    ≡ ok (played_once, record stocked { entries = played_once ∷ bought ∷ [] })
record_play-record_play_example =
    record_play-record_play 8 20 plays_once stocked
      (record stocked { entries = played_once ∷ bought ∷ [] }) played_once refl
      record_play-plays_once

transfer-transfer_example : transfer 1000 20 6 (gives (some "g")) shared ≡ ok (given, taken, shared)
unfolding existing_by_key find_key rows_of_group
transfer-transfer_example =
    transfer-transfer 1000 9 5 999 20 6 (gives (some "g")) stocked shared given taken "g"
      transfer-gives refl refl refl refl

apply_all-Steps_example :
    Steps (answers afternoon stocked) (pool stocked) (pool (apply_all afternoon stocked))
apply_all-Steps_example = apply_all-Steps afternoon stocked (refl, (refl, tt))
