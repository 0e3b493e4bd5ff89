-- ===== src/Server/Report/Examples.antt =====
-- A found top-up of 5 points is attributed, while the card has 5 points.
use ikuzo_neko_pay.Prelude.{◌≡◌, refl, true, false, none, some, [], ◌∷◌}
use ikuzo_neko_pay.Prelude.Int.{pos, ◌*ℤ◌}
use ikuzo_neko_pay.Server.Dedup.{RealKind, signed_value}
use ikuzo_neko_pay.Server.Store.{
  Db, LedgerEntry, RealTransaction, topup, unattributed, ok, insert_entry, admissible, find_key,
  find_member, find_real, source_taken, max_id,
}
use ikuzo_neko_pay.Server.Ledger.{blank}
use ikuzo_neko_pay.Server.Edit.{update_real}
use ikuzo_neko_pay.Server.Attribution.{attribute, taken_by}
use ikuzo_neko_pay.Server.Ties.{Agrees, arriving, happen_all, max_real_id}
use ikuzo_neko_pay.Server.Ties.Events.{happen_all-Agrees}
use ikuzo_neko_pay.Server.Report.{Snapshot, reconcile_report}
use ikuzo_neko_pay.Server.Report.Moved.{Moves, attribute-Moves}

abbrev found : RealTransaction
found = record {
  id = 1;
  kind = RealKind.topup;
  raw_name = "shop";
  value = pos 5;
  occurred_at = 4;
  attribution_status = unattributed;
  attributed_member_id = none;
  attributed_by = none;
  attributed_at = none;
  ledger_entry_id = none;
}

abbrev opened : Db
opened = record {
  members =
      record {
        id = 1;
        username = "";
        display_name = "";
        password_hash = "";
        is_admin = true;
        is_active = true;
      }
      ∷ [];
  entries = [];
  reals = [];
  claims = [];
  sessions = [];
}

abbrev before : Db
before = record opened { reals = found ∷ [] }

opened-Agrees : Agrees opened
unfolding find_real
opened-Agrees = record { order = tt; good = tt; tied = λ k r h. cc }

before-Agrees : Agrees before
unfolding happen_all signed_value max_real_id
before-Agrees =
    happen_all-Agrees (arriving RealKind.topup (pos 5) "shop" 4 ∷ []) opened opened-Agrees

abbrev entry : LedgerEntry
entry = record blank {
  id = 1;
  member_id = 1;
  entry_type = topup;
  points_delta = pos 5;
  money_nt = some (pos 5000);
  note = some "shop";
  created_by = 1;
  source_real_txn_id = some 1;
  created_at = 4;
}

abbrev after : Db
after = record before { entries = entry ∷ []; reals = taken_by 6 1 1 1 found ∷ [] }

attribute-found_once : attribute 6 1 1 1 (pos 1000) none false before ≡ ok (entry, after)
unfolding attribute insert_entry admissible find_key find_member find_real source_taken max_id
    update_real ◌*ℤ◌
attribute-found_once = refl

abbrev card : Snapshot
card = record { balance = pos 5; captured_at = pos 3 }

attribute-Moves_example :
    Moves (reconcile_report (pos 9) (some card) before) (reconcile_report (pos 9) (some card) after)
attribute-Moves_example =
    attribute-Moves 6 1 1 1 (pos 1000) none false before after entry (pos 9) (some card)
      before-Agrees attribute-found_once
