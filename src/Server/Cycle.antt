-- ===== src/Server/Cycle.antt =====
-- run_sync_cycle of app/services/sync_service.py: from the requests to the rows that it commits. The
-- columns of a snapshot, last_seen_at and the texts of errors are not modelled.
pub mod Writes
pub mod Repeats
mod Examples
use ikuzo_neko_pay.Prelude.{
  ℕ, String, Bool, true, false, Option, none, some, List, [], ◌∷◌, leb, if◌then◌else◌, is_empty,
  length,
}
use ikuzo_neko_pay.Server.Dedup.{ParsedRecord, reconcile}
use ikuzo_neko_pay.Server.History.{Moment}
use ikuzo_neko_pay.Server.Parse.{Reader, PayHistory, parse_history, ◌>>=◌}
use ikuzo_neko_pay.Server.Sync.{existing_counts, sync_rows}
use ikuzo_neko_pay.Server.Pay.{
  Net, Pay, PayError, Fetched, proceeds, auth_failed, transport_failed, escapes, start_cycle,
}

pub data RunStatus : Type 0 where
  ok_run partial_run auth_failed_run transport_failed_run : RunStatus

pub record SyncRun : Type 0 where
  pub status : RunStatus
  pub rows_seen : ℕ
  pub rows_inserted : ℕ

-- The tables of a sync, with the setting of the first day, for snapshots of type S.
pub record SyncDb (S : Type 0) : Type 0 where
  pub rows : List ParsedRecord
  pub snapshots : List S
  pub runs : List SyncRun
  pub sync_since : Option String

-- What the JSON of an answer of type D is read as, or none for an exception; strptime with local_to_utc,
-- or none for a ValueError; and the sha256 of "base_hash:index".
pub record Decoder (D S : Type 0) : Type 0 where
  pub reader : Reader
  pub snapshot_of : D → Option S
  pub history_of : D → Option PayHistory
  pub cutoff_of : String → Option ℕ
  pub digest : ℕ → ℕ → ℕ

unfoldable pub since : ℕ → List ParsedRecord → List ParsedRecord
since cutoff [] = []
since cutoff (r ∷ rs) =
    let rest = since cutoff rs in if leb cutoff r.occurred_at then r ∷ rest else rest

abbrev pub from_cutoff : Option ℕ → List ParsedRecord → List ParsedRecord
from_cutoff none rs = rs
from_cutoff (some cutoff) rs = since cutoff rs

abbrev plain_run : RunStatus → SyncRun
plain_run status = record { status = status; rows_seen = 0; rows_inserted = 0 }

-- The run that is returned, or the exception that leaves the cycle.
pub data Finish : Type 0 where
  returned : SyncRun → Finish
  left_by : PayError → Finish

module _ {D S : Type 0} (d : Decoder D S) where
  -- `if since`, and a malformed setting is ignored.
  abbrev pub after_since : Option String → List ParsedRecord → List ParsedRecord
  after_since none rs = rs
  after_since (some text) rs = if is_empty text then rs else from_cutoff (d.cutoff_of text) rs

  abbrev pub with_snapshot : Option D → List S → Option (List S)
  with_snapshot none ss = some ss
  with_snapshot (some info) ss = d.snapshot_of info >>= λ s. some (s ∷ ss)

  abbrev pub stored_run : List ParsedRecord → List ParsedRecord → SyncRun
  stored_run records rows = record {
    status = ok_run;
    rows_seen = length records;
    rows_inserted = length (reconcile d.digest records (existing_counts rows)).to_insert;
  }

  -- The writes, or none where an exception rolls them back.
  unfoldable pub written : Moment → Option D → D → SyncDb S → Option (SyncRun × SyncDb S)
  unfolding parse_history since sync_rows
  written now info data_ t = do
    snapshots ← with_snapshot info t.snapshots
    history ← d.history_of data_
    parsed ← parse_history d.reader now history
    let records = after_since t.sync_since parsed
    let run = stored_run records t.rows
    some (
      run,
      record t {
        rows = sync_rows d.digest records t.rows;
        snapshots = snapshots;
        runs = run ∷ t.runs;
      },
    )

  abbrev pub failed : RunStatus → SyncDb S → SyncRun × SyncDb S
  failed status t = (plain_run status, record t { runs = plain_run status ∷ t.runs })

  abbrev pub or_partial : SyncDb S → Option (SyncRun × SyncDb S) → SyncRun × SyncDb S
  or_partial t none = failed partial_run t
  or_partial t (some r) = r

  abbrev recorded : SyncRun × SyncDb S → Finish × SyncDb S
  recorded (run, t) = (returned run, t)

  abbrev pub finish : Moment → SyncDb S → Fetched D → Finish × SyncDb S
  finish now t (proceeds info data_) = recorded (or_partial t (written now info data_ t))
  finish now t auth_failed = recorded (failed auth_failed_run t)
  finish now t transport_failed = recorded (failed transport_failed_run t)
  finish now t (escapes x) = (left_by x, t)

  unfoldable pub run_sync_cycle :
      Net D → ℕ → Bool → Moment → Pay → SyncDb S → (Finish × SyncDb S) × Pay
  unfolding start_cycle written
  run_sync_cycle net retries include_snapshot now p t =
      let (fetched, p') = start_cycle net retries include_snapshot p in (finish now t fetched, p')
