-- ===== src/Server/Parse/Hashes.antt =====
-- The hashes of the records of a response do not depend on the time at which it is read.
use mathlib.Core.Option.{some-injective}
use ikuzo_neko_pay.Prelude.{
  ℕ, ◌≡◌, refl, sym, ap, ◌∙◌, Option, none, some, List, [], ◌∷◌, ◌==◌, if◌then◌else◌, arith,
}
use ikuzo_neko_pay.Prelude.{◌++◌ as ◌+++◌}
use ikuzo_neko_pay.Prelude.Int.{ℤ}
use ikuzo_neko_pay.Server.Dedup.{RealKind, topup, pay, ParsedRecord, signed_value}
use ikuzo_neko_pay.Server.Dedup.Groups.{count_hash}
use ikuzo_neko_pay.Server.Dedup.Counts.{count_hash-append}
use ikuzo_neko_pay.Server.History.{Moment, reconstruct_occurred_at}
use ikuzo_neko_pay.Server.Parse.{
  Reader, HistoryRow, PayHistory, ◌>>=◌, int_value, paid_with, or_empty, or_nothing, two_ints,
  compute_base_hash, parse_row, parse_rows, parse_history,
}

-- A step of a chain of steps that may be missing.
pub bind-some :
    {A B : Type 0} (o : Option A) (f : A → Option B) (b : B)
    → (o >>= f) ≡ some b
    → (a : A) × (o ≡ some a) × (f a ≡ some b)
bind-some (some a) f b h = (a, refl, h)
bind-some none f b h = cc

module _ (l : Reader) (kind : RealKind) where
  abbrev hash_of : HistoryRow → ℤ → ℕ
  hash_of row z =
      compute_base_hash l kind (or_empty row.name) (signed_value kind z) (paid_with kind row)
        (or_empty row.date) (or_empty row.time)

  parse_row-base_hash :
      (now : Moment) (row : HistoryRow) (r : ParsedRecord)
      → parse_row l now kind row ≡ some r
      → (z : ℤ) × (int_value row.value ≡ some z) × (r.base_hash ≡ hash_of row z)
  unfolding parse_row
  parse_row-base_hash now row r h =
      let (z, valued, rest) = bind-some (int_value row.value) _ r h in
      let ((mm, dd), _, rest) = bind-some (two_ints l "/" (or_empty row.date)) _ r rest in
      let ((hh, minute), _, rest) = bind-some (two_ints l ":" (or_empty row.time)) _ r rest in
      let (at, _, done) = bind-some (reconstruct_occurred_at l.utc mm dd hh minute now) _ r rest in
      (z, valued, sym (ap (λ x. x.base_hash) (some-injective _ _ done)))

  parse_row-same_hash :
      (now now' : Moment) (row : HistoryRow) (r r' : ParsedRecord)
      → parse_row l now kind row ≡ some r
      → parse_row l now' kind row ≡ some r'
      → r.base_hash ≡ r'.base_hash
  parse_row-same_hash now now' row r r' h h' =
      let (z, valued, hash) = parse_row-base_hash now row r h in
      let (z', valued', hash') = parse_row-base_hash now' row r' h' in
      hash ∙ (ap (hash_of row) (some-injective _ _ (sym valued ∙ valued')) ∙ sym hash')

  parse_rows-same_counts :
      (now now' : Moment) (rows : List HistoryRow) (rs rs' : List ParsedRecord) (k : ℕ)
      → parse_rows l now kind rows ≡ some rs
      → parse_rows l now' kind rows ≡ some rs'
      → count_hash k rs ≡ count_hash k rs'
  unfolding parse_rows count_hash
  parse_rows-same_counts now now' [] rs rs' k h h' =
      ap (count_hash k) (some-injective _ _ (sym h ∙ h'))
  parse_rows-same_counts now now' (row ∷ rows) rs rs' k h h' =
      let (r, first, rest) = bind-some (parse_row l now kind row) _ rs h in
      let (more, others, done) = bind-some (parse_rows l now kind rows) _ rs rest in
      let (r', first', rest') = bind-some (parse_row l now' kind row) _ rs' h' in
      let (more', others', done') = bind-some (parse_rows l now' kind rows) _ rs' rest' in
      let one = parse_row-same_hash now now' row r r' first first' in
      let all = parse_rows-same_counts now now' rows more more' k others others' in
      let here : ◌≡◌ {A = ℕ} (if r.base_hash == k then 1 else 0)
          (if r'.base_hash == k then 1 else 0) =
        ap (λ b. if b == k then 1 else 0) one in
      sym (ap (count_hash k) (some-injective _ _ done))
      ∙ (omega (arith, here, all) ∙ ap (count_hash k) (some-injective _ _ done'))

pub parse_history-same_counts :
    (l : Reader) (now now' : Moment) (data_ : PayHistory) (rs rs' : List ParsedRecord) (k : ℕ)
    → parse_history l now data_ ≡ some rs
    → parse_history l now' data_ ≡ some rs'
    → count_hash k rs ≡ count_hash k rs'
unfolding parse_history
parse_history-same_counts l now now' data_ rs rs' k h h' =
    let (a, tops, rest) = bind-some (parse_rows l now topup (or_nothing data_.topup_rows)) _ rs h in
    let (b, pays, done) = bind-some (parse_rows l now pay (or_nothing data_.pay_rows)) _ rs rest in
    let (a', tops', rest') =
      bind-some (parse_rows l now' topup (or_nothing data_.topup_rows)) _ rs' h' in
    let (b', pays', done') =
      bind-some (parse_rows l now' pay (or_nothing data_.pay_rows)) _ rs' rest' in
    let same_a =
      parse_rows-same_counts l topup now now' (or_nothing data_.topup_rows) a a' k tops tops' in
    let same_b =
      parse_rows-same_counts l pay now now' (or_nothing data_.pay_rows) b b' k pays pays' in
    let all : count_hash k (a +++ b) ≡ count_hash k (a' +++ b') =
      omega (arith, count_hash-append k a b, count_hash-append k a' b', same_a, same_b) in
    sym (ap (count_hash k) (some-injective _ _ done))
    ∙ (all ∙ ap (count_hash k) (some-injective _ _ done'))
