-- ===== src/Server/Cycle/Examples.antt =====
-- A cycle over one play, and the same history again on the next day.
use Prim.Native.Char.{code}
use Prim.Native.String.{len}
use ikuzo_neko_pay.Prelude.{
  ℕ, ◌+◌, ◌-◌, ◌*◌, ◌≤◌, ◌≡◌, refl, true, String, Option, none, some, [], ◌∷◌, arith,
}
use ikuzo_neko_pay.Prelude.Int.{pos, negsuc, neg}
use ikuzo_neko_pay.Server.Dedup.{ParsedRecord, pay, reconcile, signed_value}
use ikuzo_neko_pay.Server.Dedup.Groups.{count_hash}
use ikuzo_neko_pay.Server.Text.{decimal}
use ikuzo_neko_pay.Server.History.{Moment}
use ikuzo_neko_pay.Server.Parse.{PayHistory, number}
use ikuzo_neko_pay.Server.Pay.{
  Net, Pay, do_login, user_info, pay_history, body, object, malformed, protocol,
}
use ikuzo_neko_pay.Server.Cycle.{SyncRun, ok_run, SyncDb, Decoder, written, run_sync_cycle, left_by}
use ikuzo_neko_pay.Server.Cycle.Writes.{run_sync_cycle_malformed}
use ikuzo_neko_pay.Server.Cycle.Repeats.{written-written}

abbrev two_digits : String → Option ℕ
two_digits String.[] = none
two_digits (String.◌∷◌ c String.[]) = none
two_digits (String.◌∷◌ c (String.◌∷◌ d String.[])) = some ((code c - 48) * 10 + (code d - 48))
two_digits (String.◌∷◌ c (String.◌∷◌ d (String.◌∷◌ e s))) = none

abbrev one_play : PayHistory
one_play = record {
  topup_rows = none;
  pay_rows = some (
      record {
        name = some "shop - machine";
        value = number (pos 3);
        pay_type = some "card";
        date = some "06/15";
        time = some "10:30";
      }
      ∷ []);
}

abbrev decoder : Decoder PayHistory ℕ
decoder = record {
  reader = record { strip = λ s. s; int_of = two_digits; sha = len; utc = λ t. t };
  snapshot_of = λ h. some 7;
  history_of = λ h. some h;
  cutoff_of = λ s. none;
  digest = λ h idx. 1000 * h + idx;
}

abbrev on_day : ℕ → Moment
on_day k = record { year = 1; month = 6; day = k; hour = 12; minute = 0; second = 0 }

abbrev tables : SyncDb ℕ
tables = record { rows = []; snapshots = []; runs = []; sync_since = none }

abbrev played : ParsedRecord
played = record {
  kind = pay;
  shop = "shop";
  machine = some "machine";
  raw_name = "shop - machine";
  value = negsuc 2;
  pay_type = some "card";
  occurred_date_raw = "06/15";
  occurred_time_raw = "10:30";
  occurred_at = 46002600;
  base_hash = 38;
  occurrence_index = 0;
  dedup_key = 38000;
}

abbrev inserted : SyncRun
inserted = record { status = ok_run; rows_seen = 1; rows_inserted = 1 }

abbrev nothing_new : SyncRun
nothing_new = record { status = ok_run; rows_seen = 1; rows_inserted = 0 }

abbrev stored : SyncDb ℕ
stored = record tables { rows = played ∷ []; runs = inserted ∷ [] }

abbrev again : SyncDb ℕ
again = record stored { snapshots = 7 ∷ []; runs = nothing_new ∷ inserted ∷ [] }

written-first : written decoder (on_day 16) none one_play tables ≡ some (inserted, stored)
unfolding written reconcile count_hash signed_value decimal neg
written-first = refl

written-again :
    written decoder (on_day 17) (some one_play) one_play stored ≡ some (nothing_new, again)
unfolding written reconcile count_hash signed_value decimal neg
written-again = refl

written-written_example : (again.rows ≡ stored.rows) × (nothing_new.rows_inserted ≡ 0)
written-written_example =
    written-written decoder (on_day 16) (on_day 17) none (some one_play) one_play tables stored
      stored again inserted nothing_new refl written-first refl written-again

abbrev service : Net PayHistory
service sent do_login = body (record { code = "1"; token = object (some "t"); content = one_play })
service sent (user_info token) =
    body (record { code = "0"; token = object none; content = one_play })
service sent (pay_history token) =
    body (record { code = "0"; token = object none; content = one_play })

abbrev nothing_held : Pay
nothing_held = record { held = none; sent = [] }

some_retry : 1 ≤ 3
some_retry = omega arith

run_sync_cycle_malformed_example :
    (run_sync_cycle decoder (λ before r. malformed) 3 true (on_day 16) nothing_held tables).0
    ≡ (left_by protocol, tables)
run_sync_cycle_malformed_example =
    run_sync_cycle_malformed decoder (λ before r. malformed) 3 true (on_day 16) nothing_held tables
      some_retry (λ r. refl)
