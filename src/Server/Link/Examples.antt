-- ===== src/Server/Link/Examples.antt =====
-- A manual play is tied to a real transaction of as many points.
use ikuzo_neko_pay.Prelude.{ℕ, ◌≡◌, ◌||◌, ◌==◌, refl, true, false, Option, none, [], ◌∷◌}
use ikuzo_neko_pay.Prelude.Int.{negsuc}
use ikuzo_neko_pay.Server.Dedup.{RealKind}
use ikuzo_neko_pay.Server.Store.{
  Db, Member, LedgerEntry, RealTransaction, play, unattributed, ok, find_entry, find_real, balance,
  source_taken,
}
use ikuzo_neko_pay.Server.Ledger.{blank}
use ikuzo_neko_pay.Server.Edit.{update_entry, update_real, owns}
use ikuzo_neko_pay.Server.Attribution.{taken_by}
use ikuzo_neko_pay.Server.Link.{attribute_existing, linked}
use ikuzo_neko_pay.Server.Link.Effects.{attribute_existing-Allowed}

abbrev owner : Member
owner = record {
  id = 1;
  username = "";
  display_name = "";
  password_hash = "";
  is_admin = false;
  is_active = true;
}

abbrev manual : LedgerEntry
manual = record blank {
  id = 4;
  member_id = 1;
  entry_type = play;
  points_delta = negsuc 2;
  created_by = 1;
  created_at = 9;
}

abbrev seen : RealTransaction
seen = record {
  id = 7;
  kind = RealKind.pay;
  raw_name = "machine";
  value = negsuc 2;
  occurred_at = 8;
  attribution_status = unattributed;
  attributed_member_id = none;
  attributed_by = none;
  attributed_at = none;
  ledger_entry_id = none;
}

abbrev loose : Db
loose = record {
  members = owner ∷ [];
  entries = manual ∷ [];
  reals = seen ∷ [];
  claims = [];
  sessions = [];
}

abbrev bound : Db
bound = record loose { entries = linked true seen manual ∷ []; reals = taken_by 10 1 1 4 seen ∷ [] }

attribute_existing-manual :
    attribute_existing 10 owner 4 7 true loose ≡ ok (linked true seen manual, bound)
unfolding attribute_existing owns update_entry update_real find_entry find_real source_taken
attribute_existing-manual = refl

attribute_existing-Allowed_example :
    (false || 1 == 1 ≡ true)
    × (◌≡◌ {A = Option ℕ} none none)
    × (true ≡ true)
    × (◌≡◌ {A = ℕ} 3 3)
    × (balance 1 bound.entries ≡ balance 1 loose.entries)
unfolding find_entry find_real
attribute_existing-Allowed_example =
    attribute_existing-Allowed 10 owner 4 7 true loose bound manual (linked true seen manual) seen 1
      refl refl attribute_existing-manual
