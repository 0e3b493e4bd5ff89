-- ===== src/Server/Cycle/Writes.antt =====
-- What a sync cycle leaves, however it ends.
use mathlib.Core.Option.{some-injective}
use ikuzo_neko_pay.Prelude.{
  ℕ, ◌≤◌, ◌≡◌, ◌≢◌, ◌⊎◌, sym, ap, ◌∙◌, Bool, Option, some, List, ◌∷◌, ◌++◌, length,
}
use ikuzo_neko_pay.Server.Dedup.{ParsedRecord}
use ikuzo_neko_pay.Server.History.{Moment}
use ikuzo_neko_pay.Server.Parse.{PayHistory, parse_history}
use ikuzo_neko_pay.Server.Parse.Hashes.{bind-some}
use ikuzo_neko_pay.Server.Sync.{sync_rows, IsNumbered}
use ikuzo_neko_pay.Server.Pay.{Net, Pay, PayRequest, malformed, protocol, attribute_error}
use ikuzo_neko_pay.Server.Pay.Cycle.{start_cycle_malformed}
use ikuzo_neko_pay.Server.Cycle.{
  ok_run, SyncRun, SyncDb, Decoder, after_since, with_snapshot, stored_run, written, Finish,
  returned, left_by, finish, run_sync_cycle,
}

module _ {D S : Type 0} (d : Decoder D S) where
  pub record Recorded (t t' : SyncDb S) (run : SyncRun) : Type 0 where
    pub logged : t'.runs ≡ run ∷ t.runs
    pub added :
        (news : List ParsedRecord) × (t'.rows ≡ t.rows ++ news) × (length news ≡ run.rows_inserted)
    pub numbered : IsNumbered t.rows → IsNumbered t'.rows
    pub untouched : run.status ≢ ok_run → (t'.rows ≡ t.rows) × (t'.snapshots ≡ t.snapshots)

  abbrev pub CycleEnds : SyncDb S → Finish × SyncDb S → Type 0
  CycleEnds t (returned run, t') = Recorded t t' run
  CycleEnds t (left_by x, t') = ((x ≡ protocol) ⊎ (x ≡ attribute_error)) × (t' ≡ t)

  -- What was read before the rows were written.
  pub record Stored (now : Moment) (data_ : D) (t t' : SyncDb S) (run : SyncRun) : Type 0 where
    pub history : PayHistory
    pub parsed : List ParsedRecord
    pub decoded : d.history_of data_ ≡ some history
    pub read : parse_history d.reader now history ≡ some parsed
    pub run_is : run ≡ stored_run d (after_since d t.sync_since parsed) t.rows
    pub rows_are : t'.rows ≡ sync_rows d.digest (after_since d t.sync_since parsed) t.rows
    pub runs_are : t'.runs ≡ run ∷ t.runs

  pub written-Stored :
      (now : Moment) (info : Option D) (data_ : D) (t t' : SyncDb S) (run : SyncRun)
      → written d now info data_ t ≡ some (run, t')
      → Stored now data_ t t' run
  unfolding written
  written-Stored now info data_ t t' run h =
      let (snapshots, _, rest) = bind-some (with_snapshot d info t.snapshots) _ (run, t') h in
      let (history, decoded, rest) = bind-some (d.history_of data_) _ (run, t') rest in
      let (parsed, read, done) = bind-some (parse_history d.reader now history) _ (run, t') rest in
      let same = some-injective _ _ done in
      let run_is = ap (λ x. x.0) same in
      record {
        history = history;
        parsed = parsed;
        decoded = decoded;
        read = read;
        run_is = sym run_is;
        rows_are = sym (ap (λ x. x.1.rows) same);
        runs_are = sym (ap (λ x. x.1.runs) same) ∙ ap (λ r. r ∷ t.runs) run_is;
      }

  -- With at least one retry allowed, a first answer that is no envelope makes run_sync_cycle raise a
  -- NekoPayProtocolError, and no table changes: no SyncRun tells of the cycle.
  pub run_sync_cycle_malformed :
      (net : Net D) (retries : ℕ) (include_snapshot : Bool) (now : Moment) (p : Pay) (t : SyncDb S)
      → 1 ≤ retries
      → ((r : PayRequest) → net p.sent r ≡ malformed)
      → (run_sync_cycle d net retries include_snapshot now p t).0 ≡ (left_by protocol, t)
  unfolding run_sync_cycle
  run_sync_cycle_malformed net retries include_snapshot now p t h bad =
      ap (finish d now t) (start_cycle_malformed net retries include_snapshot p h bad)
