-- ===== src/Server/Operations.antt =====
-- Sequences of ledger operations, each at its instant, as the requests of several members come in. An
-- operation that raises leaves the tables as they were.
use ikuzo_neko_pay.Prelude.{ℕ, ◌≡◌, refl, false, List, [], ◌∷◌, All}
use ikuzo_neko_pay.Server.Store.{Db, LedgerEntry, Result, ok, err}
use ikuzo_neko_pay.Server.Ledger.{TopupIn, PlayIn, record_topup, record_play}
use ikuzo_neko_pay.Server.Transfer.{TransferIn, Transferred, transfer}
use ikuzo_neko_pay.Server.Balances.{NoDebt, record_topup-NoDebt, record_play-NoDebt}
use ikuzo_neko_pay.Server.Balances.Transfers.{transfer-NoDebt}

-- A transfer carries its recursion limit and its uuid.
pub data Operation : Type 0 where
  topping : (now : ℕ) → TopupIn → Operation
  playing : (now : ℕ) → PlayIn → Operation
  moving : (fuel now group : ℕ) → TransferIn → Operation

abbrev pub kept_one : Db → Result (LedgerEntry × Db) → Db
kept_one db (ok r) = r.1
kept_one db (err e) = db

abbrev pub kept_pair : Db → Result Transferred → Db
kept_pair db (ok r) = r.2
kept_pair db (err e) = db

abbrev pub apply : Operation → Db → Db
apply (topping now a) db = kept_one db (record_topup now a db)
apply (playing now a) db = kept_one db (record_play now a db)
apply (moving fuel now group a) db = kept_pair db (transfer fuel now group a db)

unfoldable pub apply_all : List Operation → Db → Db
apply_all [] db = db
apply_all (o ∷ os) db = apply_all os (apply o db)

-- An operation without leave to overdraw, as every member but an admin sends it.
abbrev pub IsStrict : Operation → Type 0
IsStrict (topping now a) = Unit {0}
IsStrict (playing now a) = a.allow_negative ≡ false
IsStrict (moving fuel now group a) = a.allow_negative ≡ false

-- What a returned step keeps, a step that may fail keeps.
pub kept_one-keeps :
    (P : Db → Type 0) (db : Db) (r : Result (LedgerEntry × Db))
    → ((e : LedgerEntry) (db' : Db) → r ≡ ok (e, db') → P db')
    → P db
    → P (kept_one db r)
kept_one-keeps P db (ok (e, db')) keeps p = keeps e db' refl
kept_one-keeps P db (err x) keeps p = p

pub kept_pair-keeps :
    (P : Db → Type 0) (db : Db) (r : Result Transferred)
    → ((e f : LedgerEntry) (db' : Db) → r ≡ ok (e, f, db') → P db')
    → P db
    → P (kept_pair db r)
kept_pair-keeps P db (ok (e, f, db')) keeps p = keeps e f db' refl
kept_pair-keeps P db (err x) keeps p = p

apply-NoDebt : (o : Operation) (db : Db) → IsStrict o → NoDebt db → NoDebt (apply o db)
apply-NoDebt (topping now a) db strict n =
    kept_one-keeps NoDebt db (record_topup now a db)
      (λ e db' h. record_topup-NoDebt now a db db' e h n) n
apply-NoDebt (playing now a) db strict n =
    kept_one-keeps NoDebt db (record_play now a db)
      (λ e db' h. record_play-NoDebt now a db db' e strict h n) n
apply-NoDebt (moving fuel now group a) db strict n =
    kept_pair-keeps NoDebt db (transfer fuel now group a db)
      (λ e f db' h. transfer-NoDebt fuel now group a db db' e f strict h n) n

-- After any sequence of top-ups, plays and transfers without leave to overdraw, no member owes points
-- to the pool, if none did before.
pub apply_all-NoDebt :
    (os : List Operation) (db : Db) → All IsStrict os → NoDebt db → NoDebt (apply_all os db)
unfolding apply_all
apply_all-NoDebt [] db strict n = n
apply_all-NoDebt (o ∷ os) db strict n =
    apply_all-NoDebt os (apply o db) strict.1 (apply-NoDebt o db strict.0 n)
