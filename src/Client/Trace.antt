-- ===== src/Client/Trace.antt =====
-- What the events of a page have to look like: which request needs which consent just before it, and
-- what a reload follows. Events are listed latest first.
use ikuzo_neko_pay.Prelude.{
  ℕ, ◌+◌, String, str_eq, Bool, true, false, not, ◌&&◌, ◌||◌, List, [], ◌∷◌, ◌==◌, if◌then◌else◌,
}
use ikuzo_neko_pay.Client.Number.{Number, of_ℕ, strict_eq}
use ikuzo_neko_pay.Client.Page.{
  Json, bool, number, Event, called, confirmed, opened, reloaded, went_home, Url, Reply, reply,
  is_ok, Candidate, on_behalf, auto_off, no_match, pick, admin_password, delete_account,
  delete_record, reset_everything, force_delete, overwrite_note, plays, topups, self_attribute,
  ledger_attribute, ledger_delete, member_delete, member_force_delete, reset,
}

-- The last request that was sent came back with a 2xx status.
abbrev pub last_call_ok : List Event → Bool
last_call_ok [] = false
last_call_ok (called _ (reply r) ∷ t) = is_ok r
last_call_ok (called _ _ ∷ t) = false
last_call_ok (_ ∷ t) = last_call_ok t

abbrev pub has_id : ℕ → List Candidate → Bool
has_id n [] = false
has_id n (c ∷ cs) = c.id == n || has_id n cs

-- The last event is a dialog of the attribution flow.
abbrev pub asked : List Event → Bool
asked (opened on_behalf ∷ t) = true
asked (opened auto_off ∷ t) = true
asked (opened no_match ∷ t) = true
asked (opened (pick cs) ∷ t) = true
asked _ = false

-- The last event is the choice among candidates that include transaction n.
abbrev pub offered : ℕ → List Event → Bool
offered n (opened (pick cs) ∷ t) = has_id n cs
offered n _ = false

-- A number is the id of one of the candidates.
abbrev pub names : Number → List Candidate → Bool
names x [] = false
names x (c ∷ cs) = strict_eq x (of_ℕ c.id) || names x cs

abbrev same_answer : Bool → Bool → Bool
same_answer true b = b
same_answer false b = not b

-- The raw name of the candidate that a number names, as the first with its id has it.
abbrev pub name_at : Number → List Candidate → String
name_at x [] = ""
name_at x (c ∷ cs) = if strict_eq (of_ℕ c.id) x then c.raw_name else name_at x cs

-- The body of a link holds the id of a shown candidate and the user's answer to the question about its
-- note.
abbrev pub links : List Candidate → String → Bool → List (String × Json) → Bool
links cs s b ((key, number x) ∷ (key', bool answer) ∷ []) =
    str_eq key "real_txn_id"
    && names x cs
    && str_eq s (name_at x cs)
    && (str_eq key' "overwrite_note" && same_answer b answer)
links cs s b _ = false

-- The last events are the choice among candidates and the question about the note of the one that the
-- body names.
abbrev pub offered_then_confirmed : List (String × Json) → List Event → Bool
offered_then_confirmed body (confirmed (overwrite_note s) b ∷ opened (pick cs) ∷ t) =
    links cs s b body
offered_then_confirmed body _ = false

abbrev refused_with_409 : ℕ → Url → Reply → Bool
refused_with_409 id (member_delete n) r = id == n && r.status == 409
refused_with_409 id _ r = false

-- The plain deletion of member `id` was refused with 409, and the user agreed to force it.
abbrev pub forced : ℕ → List Event → Bool
forced id (confirmed (force_delete n) true ∷ called req (reply r) ∷ t) =
    refused_with_409 id req.url r
forced id _ = false

abbrev pub agreed_to_delete : List Event → Bool
agreed_to_delete (confirmed delete_account b ∷ t) = b
agreed_to_delete _ = false

abbrev pub agreed_to_delete_record : List Event → Bool
agreed_to_delete_record (confirmed delete_record b ∷ t) = b
agreed_to_delete_record _ = false

-- The password was asked for, after the user agreed to the reset.
abbrev pub agreed_to_reset : List Event → Bool
agreed_to_reset (opened admin_password ∷ confirmed reset_everything b ∷ t) = b
agreed_to_reset _ = false

-- What has to stand just before a request of each route. The button of an administrator names its
-- transaction, and needs no dialog.
abbrev pub url_allowed : Url → List (String × Json) → List Event → Bool
url_allowed plays body t = asked t
url_allowed topups body t = asked t
url_allowed (self_attribute n) body t = offered n t
url_allowed (ledger_attribute n) body t = offered_then_confirmed body t
url_allowed (ledger_delete n) body t = agreed_to_delete_record t
url_allowed (member_delete n) body t = agreed_to_delete t
url_allowed (member_force_delete n) body t = forced n t
url_allowed reset body t = agreed_to_reset t
url_allowed _ body t = true

abbrev pub allowed : Event → List Event → Bool
allowed (called req a) t = url_allowed req.url req.body t
allowed reloaded t = last_call_ok t
allowed went_home t = last_call_ok t
allowed _ t = true

unfoldable pub sound : List Event → Bool
sound [] = true
sound (ev ∷ t) = allowed ev t && sound t

abbrev weight : Event → ℕ
weight (called req a) = 1
weight _ = 0

-- The number of requests. Each may change the data of the server: the one for candidates runs a sync.
unfoldable pub writes : List Event → ℕ
writes [] = 0
writes (ev ∷ t) = weight ev + writes t
