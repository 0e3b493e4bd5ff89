-- ===== src/Server/Sync.antt =====
-- The database step of run_sync_cycle in app/services/sync_service.py: the stored rows are counted
-- by hash, reconciled with the response, and the new rows are added.
mod Examples
use ikuzo_neko_pay.Prelude.{
  ℕ, zero, suc, ◌+◌, ◌-◌, ◌≤◌, ◌≡◌, refl, ap, sym, ◌∙◌, List, [], ◌∷◌, ◌++◌, ◌==◌, arith,
  range_from, range_from-append,
}
use mathlib.Core.List.{append-nil}
use ikuzo_neko_pay.Server.Dedup.{ParsedRecord, reconcile}
use ikuzo_neko_pay.Server.Dedup.Groups.{count_hash}
use ikuzo_neko_pay.Server.Dedup.Counts.{
  indices, indices-append, length-indices, count_hash-append, indices-reconcile,
  count_hash-reconcile,
}

-- `existing_counts`, by hash.
abbrev pub existing_counts : List ParsedRecord → ℕ → ℕ
existing_counts db h = count_hash h db

-- The rows after a sync.
unfoldable pub sync_rows : (ℕ → ℕ → ℕ) → List ParsedRecord → List ParsedRecord → List ParsedRecord
sync_rows digest records db = db ++ (reconcile digest records (existing_counts db)).to_insert

-- The rows of each hash are numbered 0, 1, 2, ... in order of insertion.
abbrev pub IsNumbered : List ParsedRecord → Type 0
IsNumbered db = (h : ℕ) → indices h db ≡ range_from 0 (count_hash h db)

module _ (digest : ℕ → ℕ → ℕ) where
  -- After a sync the database has, of each hash, as many rows as before or as the response lists,
  -- whichever is more.
  pub count_hash-sync_rows :
      (records db : List ParsedRecord) (h : ℕ)
      → count_hash h (sync_rows digest records db)
        ≡ count_hash h db + (count_hash h records - count_hash h db)
  unfolding sync_rows
  count_hash-sync_rows records db h = omega (
    arith,
    count_hash-append h db (reconcile digest records (existing_counts db)).to_insert,
    count_hash-reconcile digest h records (existing_counts db),
  )

  -- A sync keeps the rows that are stored, adds rows behind them, and keeps the numbering of every
  -- hash free of gaps and repetitions.
  pub sync_rows-IsNumbered :
      (records db : List ParsedRecord) → IsNumbered db → IsNumbered (sync_rows digest records db)
  sync_rows-IsNumbered records db n h = rw (count_hash-sync_rows records db h) (
      unfold sync_rows in
      rw (indices-append, n h, indices-reconcile digest h records (existing_counts db))
        (from_zero (count_hash h db) (count_hash h records - count_hash h db)))
    where
      from_zero : (a b : ℕ) → range_from 0 a ++ range_from a b ≡ range_from 0 (a + b)
      from_zero a b = let e : 0 + a ≡ a = omega arith in rw e at (range_from-append 0 a b)

  no_indices : (rs : List ParsedRecord) → ((h : ℕ) → indices h rs ≡ []) → rs ≡ []
  unfolding indices
  no_indices [] n = refl
  no_indices (r ∷ rs) n = ground (arith, n r.base_hash)

  -- A response that lists no more of any hash than the database has changes nothing.
  pub sync_rows_seen :
      (records db : List ParsedRecord)
      → ((h : ℕ) → count_hash h records ≤ count_hash h db)
      → sync_rows digest records db ≡ db
  unfolding sync_rows
  sync_rows_seen records db few =
      rw
        (no_indices (reconcile digest records (existing_counts db)).to_insert (λ h.
          let none_left : count_hash h records - count_hash h db ≡ 0 = omega (arith, few h) in
          indices-reconcile digest h records (existing_counts db)
          ∙ ap (range_from (count_hash h db)) none_left))
        (append-nil db)

  -- Seeing the same response again inserts nothing.
  pub sync_rows-sync_rows :
      (records db : List ParsedRecord)
      → sync_rows digest records (sync_rows digest records db) ≡ sync_rows digest records db
  sync_rows-sync_rows records db =
      sync_rows_seen records (sync_rows digest records db)
        (λ h. omega (arith, count_hash-sync_rows records db h))
