-- ===== src/Server/Dedup.antt =====
-- app/sync/dedup.py: which rows of a pay history are new. A digest of hashlib is a number, and
-- `digest` stands for its sha256 of "base_hash:index".
pub mod Groups
pub mod Counts
use ikuzo_neko_pay.Prelude.{
  ℕ, zero, suc, ◌-◌, String, Option, List, [], ◌∷◌, ◌++◌, ◌==◌, if◌then◌else◌, length, drop, min,
  map,
}
use ikuzo_neko_pay.Prelude.Int.{ℤ, pos, neg, abs}

pub data RealKind : Type 0 where
  topup pay : RealKind

pub record ParsedRecord : Type 0 where
  pub kind : RealKind
  pub shop : String
  pub machine : Option String
  pub raw_name : String
  pub value : ℤ
  pub pay_type : Option String
  pub occurred_date_raw : String
  pub occurred_time_raw : String
  pub occurred_at : ℕ
  pub base_hash : ℕ
  pub occurrence_index : ℕ
  pub dedup_key : ℕ

pub record ReconcileResult : Type 0 where
  pub to_insert : List ParsedRecord
  pub seen_keys : List ℕ

unfoldable pub signed_value : RealKind → ℤ → ℤ
signed_value topup v = pos (abs v)
signed_value pay v = neg (pos (abs v))

-- `groups[r.base_hash].append(r)`, in order of first appearance.
unfoldable pub push : ParsedRecord → List (ℕ × List ParsedRecord) → List (ℕ × List ParsedRecord)
push r [] = (r.base_hash, r ∷ []) ∷ []
push r ((h, rs) ∷ g) = if h == r.base_hash then (h, rs ++ r ∷ []) ∷ g else (h, rs) ∷ push r g

unfoldable pub group_from :
    List (ℕ × List ParsedRecord) → List ParsedRecord → List (ℕ × List ParsedRecord)
unfolding push
group_from g [] = g
group_from g (r ∷ rs) = group_from (push r g) rs

module _ (digest : ℕ → ℕ → ℕ) where
  -- The keys of the rows idx, ..., idx + k - 1 with a hash.
  unfoldable pub keys_from : ℕ → ℕ → ℕ → List ℕ
  keys_from h idx zero = []
  keys_from h idx (suc k) = digest h idx ∷ keys_from h (suc idx) k

  -- The records of a group that are new, numbered from idx on.
  unfoldable pub number_from : ℕ → ℕ → List ParsedRecord → List ParsedRecord
  number_from h idx [] = []
  number_from h idx (r ∷ rs) =
      record r { occurrence_index = idx; dedup_key = digest h idx } ∷ number_from h (suc idx) rs

  -- The loop over the groups, against the counts of the database.
  unfoldable pub reconcile_groups : (ℕ → ℕ) → List (ℕ × List ParsedRecord) → ReconcileResult
  unfolding keys_from number_from
  reconcile_groups counts [] = record { to_insert = []; seen_keys = [] }
  reconcile_groups counts ((h, rs) ∷ g) =
      let rest = reconcile_groups counts g in
      record {
        to_insert = number_from h (counts h) (drop (counts h) rs) ++ rest.to_insert;
        seen_keys = keys_from h 0 (min (counts h) (length rs)) ++ rest.seen_keys;
      }

  unfoldable pub reconcile : List ParsedRecord → (ℕ → ℕ) → ReconcileResult
  unfolding reconcile_groups group_from
  reconcile records counts = reconcile_groups counts (group_from [] records)
