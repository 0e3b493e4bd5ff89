-- ===== src/Server/Cycle/Repeats.antt =====
-- A history that has been stored is not stored again.
use mathlib.Core.Option.{some-injective}
use ikuzo_neko_pay.Prelude.{
  ℕ, ◌≤◌, ◌≡◌, sym, ap, ◌∙◌, String, Option, none, some, List, [], ◌∷◌, if_either, is_empty, length,
  length-append, arith,
}
use ikuzo_neko_pay.Server.Dedup.{ParsedRecord, reconcile}
use ikuzo_neko_pay.Server.Dedup.Groups.{count_hash}
use ikuzo_neko_pay.Server.History.{Moment}
use ikuzo_neko_pay.Server.Parse.Hashes.{parse_history-same_counts}
use ikuzo_neko_pay.Server.Parse.{parse_history}
use ikuzo_neko_pay.Server.Sync.{existing_counts, sync_rows, count_hash-sync_rows, sync_rows_seen}
use ikuzo_neko_pay.Server.Cycle.{SyncRun, SyncDb, Decoder, since, from_cutoff, after_since, written}
use ikuzo_neko_pay.Server.Cycle.Writes.{written-Stored}

count_hash-since :
    (h cutoff : ℕ) (rs : List ParsedRecord) → count_hash h (since cutoff rs) ≤ count_hash h rs
unfolding since count_hash
count_hash-since h cutoff [] = omega arith
count_hash-since h cutoff (r ∷ rs) = ground (arith, count_hash-since h cutoff rs)

count_hash-from_cutoff :
    (h : ℕ) (o : Option ℕ) (rs : List ParsedRecord)
    → count_hash h (from_cutoff o rs) ≤ count_hash h rs
count_hash-from_cutoff h none rs = omega arith
count_hash-from_cutoff h (some cutoff) rs = count_hash-since h cutoff rs

module _ {D S : Type 0} (d : Decoder D S) where
  count_hash-after_since :
      (h : ℕ) (o : Option String) (rs : List ParsedRecord)
      → count_hash h (after_since d o rs) ≤ count_hash h rs
  count_hash-after_since h none rs = omega arith
  count_hash-after_since h (some text) rs =
      if_either (λ xs. count_hash h xs ≤ count_hash h rs) (is_empty text) rs
        (from_cutoff (d.cutoff_of text) rs) (λ e. omega arith)
        (λ e. count_hash-from_cutoff h (d.cutoff_of text) rs)

  none_inserted :
      (records rows : List ParsedRecord)
      → sync_rows d.digest records rows ≡ rows
      → length (reconcile d.digest records (existing_counts rows)).to_insert ≡ 0
  unfolding sync_rows
  none_inserted records rows h =
      let news = (reconcile d.digest records (existing_counts rows)).to_insert in
      omega (arith, length-append rows news, ap length h)

  -- A cycle without a first day has stored a history; a later one, whatever the setting is by then, that
  -- starts from the same rows and stores the same history, read at any other time, adds no row, and its
  -- run says so.
  pub written-written :
      (now now' : Moment) (info info' : Option D) (data_ : D) (t t' u u' : SyncDb S)
      (run run' : SyncRun)
      → t.sync_since ≡ none
      → written d now info data_ t ≡ some (run, t')
      → u.rows ≡ t'.rows
      → written d now' info' data_ u ≡ some (run', u')
      → (u'.rows ≡ u.rows) × (run'.rows_inserted ≡ 0)
  written-written now now' info info' data_ t t' u u' run run' open_ first same second =
      let a = written-Stored d now info data_ t t' run first in
      let b = written-Stored d now' info' data_ u u' run' second in
      let one = some-injective _ _ (sym b.decoded ∙ a.decoded) in
      let read' : parse_history d.reader now' a.history ≡ some b.parsed =
        ap (parse_history d.reader now') (sym one) ∙ b.read in
      let all : after_since d t.sync_since a.parsed ≡ a.parsed =
        ap (λ o. after_since d o a.parsed) open_ in
      let records = after_since d u.sync_since b.parsed in
      let few : (h : ℕ) → count_hash h records ≤ count_hash h u.rows = λ h. omega (
        arith,
        count_hash-after_since h u.sync_since b.parsed,
        parse_history-same_counts d.reader now now' a.history a.parsed b.parsed h a.read read',
        count_hash-sync_rows d.digest a.parsed t.rows h,
        ap (count_hash h) same,
        ap (count_hash h) a.rows_are,
        ap (λ rs. count_hash h (sync_rows d.digest rs t.rows)) all,
      ) in
      let seen = sync_rows_seen d.digest records u.rows few in
      (b.rows_are ∙ seen, ap (λ r. r.rows_inserted) b.run_is ∙ none_inserted records u.rows seen)
