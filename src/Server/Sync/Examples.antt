-- ===== src/Server/Sync/Examples.antt =====
-- Runs of the sync step, and its theorems at a concrete database.
use ikuzo_neko_pay.Prelude.{ℕ, ◌+◌, ◌*◌, ◌≡◌, refl, none, List, [], ◌∷◌, ◌-◌}
use ikuzo_neko_pay.Prelude.Int.{negsuc}
use ikuzo_neko_pay.Server.Dedup.{ParsedRecord, pay, reconcile}
use ikuzo_neko_pay.Server.Dedup.Groups.{count_hash}
use ikuzo_neko_pay.Server.Dedup.Counts.{indices}
use ikuzo_neko_pay.Server.Sync.{sync_rows, count_hash-sync_rows}

abbrev digest : ℕ → ℕ → ℕ
digest h idx = 1000 * h + idx

-- A play of 3 points with hash h.
abbrev row : ℕ → ParsedRecord
row h = record {
  kind = pay;
  shop = "shop";
  machine = none;
  raw_name = "shop";
  value = negsuc 2;
  pay_type = none;
  occurred_date_raw = "06/15";
  occurred_time_raw = "10:30";
  occurred_at = 0;
  base_hash = h;
  occurrence_index = 0;
  dedup_key = 0;
}

abbrev response : List ParsedRecord
response = row 5 ∷ row 6 ∷ row 5 ∷ []

-- From an empty database both plays of the same minute are kept apart.
indices-response : indices 5 (sync_rows digest response []) ≡ 0 ∷ 1 ∷ []
unfolding indices sync_rows reconcile count_hash
indices-response = refl

count_hash-sync_rows_example : count_hash 5 (sync_rows digest response (row 5 ∷ [])) ≡ 1 + (2 - 1)
unfolding count_hash
count_hash-sync_rows_example = count_hash-sync_rows digest response (row 5 ∷ []) 5
