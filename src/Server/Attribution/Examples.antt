-- ===== src/Server/Attribution/Examples.antt =====
-- Runs of an attribution, its reversal, and the deletion of a transfer.
use ikuzo_neko_pay.Prelude.{◌≡◌, ◌≢◌, refl, true, false, none, some, [], ◌∷◌}
use ikuzo_neko_pay.Prelude.Int.{pos, neg, ◌*ℤ◌}
use ikuzo_neko_pay.Server.Dedup.{RealKind}
use ikuzo_neko_pay.Server.Store.{
  Db, LedgerEntry, RealTransaction, topup, unattributed, ok, insert_entry, admissible, find_key,
  find_member, find_real, find_entry, source_taken, max_id,
}
use ikuzo_neko_pay.Server.Ledger.{blank, reversal, reverse_entry, commit_entry, existing_by_key}
use ikuzo_neko_pay.Server.Attribution.{attribute, reverse_attribution, taken_by}
use ikuzo_neko_pay.Server.Attribution.Again.{attribute-reverse_attribution}
use ikuzo_neko_pay.Server.Edit.{update_real}

-- A top-up of 5 points that the sync has found, and its member.
abbrev found : RealTransaction
found = record {
  id = 3;
  kind = RealKind.topup;
  raw_name = "shop";
  value = pos 5;
  occurred_at = 4;
  attribution_status = unattributed;
  attributed_member_id = none;
  attributed_by = none;
  attributed_at = none;
  ledger_entry_id = none;
}

abbrev before : Db
before = record {
  members =
      record {
        id = 1;
        username = "";
        display_name = "";
        password_hash = "";
        is_admin = true;
        is_active = true;
      }
      ∷ [];
  entries = [];
  reals = found ∷ [];
  claims = [];
  sessions = [];
}

abbrev entry : LedgerEntry
entry = record blank {
  id = 1;
  member_id = 1;
  entry_type = topup;
  points_delta = pos 5;
  money_nt = some (pos 5000);
  note = some "shop";
  created_by = 1;
  source_real_txn_id = some 3;
  created_at = 4;
}

abbrev tied : Db
tied = record before { entries = entry ∷ []; reals = taken_by 6 1 1 1 found ∷ [] }

attribute-found : attribute 6 3 1 1 (pos 1000) none false before ≡ ok (entry, tied)
unfolding attribute insert_entry admissible find_key find_member find_real source_taken max_id
    update_real ◌*ℤ◌
attribute-found = refl

abbrev released : Db
released = record tied {
  entries = record (reversal 7 entry 1 "mistake") { id = 2 } ∷ entry ∷ [];
  reals = found ∷ [];
}

reverse_attribution-tied : reverse_attribution 7 3 1 "mistake" tied ≡ ok released
unfolding reverse_attribution reverse_entry commit_entry existing_by_key insert_entry admissible
    find_entry find_key find_member find_real source_taken max_id update_real neg
reverse_attribution-tied = refl

attribute-reverse_attribution_example :
    attribute 8 3 1 1 (pos 1000) none true released ≢ ok (entry, released)
attribute-reverse_attribution_example =
    attribute-reverse_attribution 6 7 8 3 1 1 (pos 1000) none false "mistake" before tied released
      entry attribute-found reverse_attribution-tied 1 1 (pos 1000) none true (entry, released)
