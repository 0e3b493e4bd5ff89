-- ===== src/Server/Edit/Examples.antt =====
-- The deletion of a play that has been reversed.
use ikuzo_neko_pay.Prelude.{◌≡◌, refl, true, [], ◌∷◌}
use ikuzo_neko_pay.Prelude.Int.{negsuc, neg}
use ikuzo_neko_pay.Server.Store.{
  Db, Member, LedgerEntry, play, ok, err, integrity, insert_entry, admissible, find_key,
  find_member, find_entry, source_taken, max_id,
}
use ikuzo_neko_pay.Server.Ledger.{blank, reversal, reverse_entry, commit_entry, existing_by_key}
use ikuzo_neko_pay.Server.Edit.{delete_entry, remove_entry}
use ikuzo_neko_pay.Server.Edit.Reversed.{delete_entry-reverse_entry}

abbrev boss : Member
boss = record {
  id = 1;
  username = "";
  display_name = "";
  password_hash = "";
  is_admin = true;
  is_active = true;
}

abbrev wrong : LedgerEntry
wrong = record blank {
  id = 1;
  member_id = 1;
  entry_type = play;
  points_delta = negsuc 2;
  created_by = 1;
  created_at = 9;
}

abbrev before : Db
before = record {
  members = boss ∷ [];
  entries = wrong ∷ [];
  reals = [];
  claims = [];
  sessions = [];
}

abbrev undoing : LedgerEntry
undoing = record (reversal 10 wrong 1 "mistake") { id = 2 }

abbrev after : Db
after = record before { entries = undoing ∷ wrong ∷ [] }

reverse_entry-wrong : reverse_entry 10 1 1 "mistake" before ≡ ok (undoing, after)
unfolding reverse_entry commit_entry existing_by_key insert_entry admissible find_key find_member
    find_entry source_taken max_id neg
reverse_entry-wrong = refl

delete_entry-reverse_entry_example : delete_entry boss 1 after ≡ err integrity
unfolding find_entry remove_entry
delete_entry-reverse_entry_example =
    delete_entry-reverse_entry 10 1 1 "mistake" before after wrong undoing boss reverse_entry-wrong
      refl refl refl refl
