-- ===== src/Server/Purge.antt =====
-- delete_member and reset_database of app/services/member_admin.py, with the purge of the records that
-- are tied to a member. Audit rows and the settings are not modelled.
pub mod Unnamed
pub mod Gone
use ikuzo_neko_pay.Prelude.{
  ℕ, ◌+◌, Bool, true, false, not, ◌||◌, ◌&&◌, Option, none, some, List, [], ◌∷◌, ◌==◌,
  if◌then◌else◌, ltb,
}
use ikuzo_neko_pay.Server.Store.{
  Db, Member, LedgerEntry, RealTransaction, AttributionClaim, UserSession, Error, validation,
  not_found, conflict, integrity, Result, ok, err, ◌>>=◌, ◌>>◌, raise_if,
}
use ikuzo_neko_pay.Server.Sql.{delete_where, update_where, count_where, any_where}
use ikuzo_neko_pay.Server.Edit.{freed, reversals_known}
use ikuzo_neko_pay.Server.Accounts.{require, is_member, session_of, revoke}

abbrev pub id_is : ℕ → Option ℕ → Bool
id_is k none = false
id_is k (some j) = j == k

-- The rows that count_references counts, table by table.
abbrev pub entry_refers : ℕ → LedgerEntry → Bool
entry_refers k e = e.member_id == k || e.created_by == k

abbrev pub real_refers : ℕ → RealTransaction → Bool
real_refers k r = id_is k r.attributed_member_id || id_is k r.attributed_by

abbrev pub claim_refers : ℕ → AttributionClaim → Bool
claim_refers k c = c.member_id == k || id_is k c.resolved_by

unfoldable pub count_references : ℕ → Db → ℕ
unfolding count_where
count_references k db =
    count_where (entry_refers k) db.entries
    + count_where (real_refers k) db.reals
    + count_where (claim_refers k) db.claims

abbrev pub owned : ℕ → LedgerEntry → Bool
owned k e = e.member_id == k

abbrev pub authored : ℕ → LedgerEntry → Bool
authored k e = e.created_by == k

abbrev pub held : ℕ → RealTransaction → Bool
held k r = id_is k r.attributed_member_id

abbrev pub decided : ℕ → RealTransaction → Bool
decided k r = id_is k r.attributed_by

abbrev pub claimed : ℕ → AttributionClaim → Bool
claimed k c = c.member_id == k

abbrev pub resolved : ℕ → AttributionClaim → Bool
resolved k c = id_is k c.resolved_by

abbrev shares_group : ℕ → Option ℕ → LedgerEntry → Bool
shares_group k none e = false
shares_group k (some g) e = owned k e && id_is g e.transfer_group_id

-- `transfer_group_id IN (the groups of the member's entries)`
abbrev pub in_groups : ℕ → List LedgerEntry → LedgerEntry → Bool
in_groups k es e = any_where (shares_group k e.transfer_group_id) es

-- What the foreign key of a reversal wants of the entries after a DELETE.
abbrev known_or : Db → Result Db
known_or db = if reversals_known db.entries db.entries then ok db else err integrity

unfoldable pub force_purge : ℕ → ℕ → Db → Result Db
unfolding delete_where update_where any_where reversals_known
force_purge k actor db = do
  db ← known_or (record db { entries = delete_where (in_groups k db.entries) db.entries })
  let db = record db { reals = update_where (held k) freed db.reals }
  db ← known_or (record db { entries = delete_where (owned k) db.entries })
  let db = record db {
    entries = update_where (authored k) (λ e. record e { created_by = actor }) db.entries;
  }
  let db = record db {
    reals = update_where (decided k) (λ r. record r { attributed_by = none }) db.reals;
  }
  let db = record db { claims = delete_where (claimed k) db.claims }
  ok (record db {
    claims = update_where (resolved k) (λ c. record c { resolved_by = none }) db.claims;
  })

-- Whether any row still names the member, when its row is deleted.
abbrev pub names_member : ℕ → Db → Bool
names_member k db =
    any_where (entry_refers k) db.entries
    || any_where (real_refers k) db.reals
    || any_where (claim_refers k) db.claims
    || any_where (session_of k) db.sessions

abbrev pub remove_member : ℕ → Db → Result Db
remove_member k db =
    if names_member k db
    then err integrity
    else ok (record db { members = delete_where (is_member k) db.members })

unfoldable pub delete_member : ℕ → ℕ → Bool → Db → Result Db
unfolding count_references force_purge delete_where any_where
delete_member actor k force db = do
  raise_if (k == actor) validation
  m ← require k db
  let refs = count_references k db
  raise_if (ltb 0 refs && not force) conflict
  db' ← if force && ltb 0 refs then force_purge k actor db else ok db
  remove_member k (revoke k db')

-- Every table but the row of the member that is kept and its sessions.
unfoldable pub reset_database : ℕ → Db → Db
unfolding delete_where
reset_database k db = record {
  members = delete_where (λ m. not (is_member k m)) db.members;
  entries = [];
  reals = [];
  claims = [];
  sessions = delete_where (λ us. not (session_of k us)) db.sessions;
}
