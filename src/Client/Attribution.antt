-- ===== src/Client/Attribution.antt =====
-- autoAttributeFlow and supplementAttribute of app/static/app.js: how a play or a top-up is tied to
-- a real transaction of the shared account.
use ikuzo_neko_pay.Prelude.{
  ℕ, String, Bool, not, Option, none, some, List, [], ◌∷◌, ◌==◌, if◌then◌else◌,
}
use ikuzo_neko_pay.Client.Number.{Number, of_ℕ}
use ikuzo_neko_pay.Client.Page.{
  Env, Json, bool, number, text, match, Payload, Candidate, on_behalf, auto_off, no_match,
  overwrite_note, ledger_attribute, no_candidates,
}
use ikuzo_neko_pay.Client.Js.{Js, Done, pure, throw, gets, try_finally, alert, confirm, ◌>>=◌, ◌>>◌}
use ikuzo_neko_pay.Client.Dialogs.{
  Choice, chosen, manual, cancel, info_dialog, pick_candidate, show_loading, stop_loading,
}
use ikuzo_neko_pay.Client.Api.{nk_post, reload_on_success}

abbrev pub match_body : String → Number → List (String × Json)
match_body kind points = ("kind", text kind) ∷ ("points", number points) ∷ []

-- `res.candidates`: reading `.length` of undefined throws.
unfoldable pub candidates_of : Payload → Js (List Candidate)
candidates_of d = elim d.candidates [ none ↦ throw | some cs ↦ pure cs ]

unfoldable pub offer : Env → List Candidate → Js Choice
offer e [] = info_dialog e no_match
offer e (c ∷ cs) = pick_candidate e (c ∷ cs)

unfoldable pub after_match : Env → Option Payload → Js Choice
unfolding candidates_of offer ◌>>=◌
after_match e none = pure cancel
after_match e (some d) = do cs ← candidates_of d; offer e cs

unfoldable pub query_match : Env → String → Number → Js (Option Payload)
unfolding show_loading stop_loading ◌>>=◌
query_match e kind points = do
  show_loading
  try_finally (nk_post e match (match_body kind points)) stop_loading

unfoldable pub auto_attribute_flow : Env → String → Number → Bool → Js Choice
unfolding query_match after_match ◌>>=◌
auto_attribute_flow e kind points is_self = if not is_self then info_dialog e on_behalf else do
  on ← gets (λ p. p.auto_attribute)
  if not on then info_dialog e auto_off else do res ← query_match e kind points; after_match e res

-- `res.candidates.find(c => c.id === chosen)`, its name or the empty text.
unfoldable pub name_of : ℕ → List Candidate → String
name_of id [] = ""
name_of id (c ∷ cs) = if c.id == id then c.raw_name else name_of id cs

unfoldable pub link_record : Env → ℕ → List Candidate → Choice → Js Done
unfolding name_of ◌>>=◌
link_record e id cs manual = pure tt
link_record e id cs cancel = pure tt
link_record e id cs (chosen txn) = do
  overwrite ← confirm e (overwrite_note (name_of txn cs))
  r ←
      nk_post e (ledger_attribute id)
        (("real_txn_id", number (of_ℕ txn)) ∷ ("overwrite_note", bool overwrite) ∷ [])
  reload_on_success r

unfoldable pub offer_links : Env → ℕ → List Candidate → Js Done
unfolding link_record ◌>>=◌
offer_links e id [] = alert no_candidates
offer_links e id (c ∷ cs) = do choice ← pick_candidate e (c ∷ cs); link_record e id (c ∷ cs) choice

unfoldable pub after_query : Env → ℕ → Option Payload → Js Done
unfolding candidates_of offer_links ◌>>=◌
after_query e id none = pure tt
after_query e id (some d) = do cs ← candidates_of d; offer_links e id cs

-- `supplementAttribute(btn)`, with the data attributes of the button.
unfoldable pub supplement_attribute : Env → ℕ → Bool → Number → Js Done
unfolding after_query ◌>>=◌
supplement_attribute e id is_topup points = do
  res ← nk_post e match (match_body (if is_topup then "topup" else "pay") points)
  after_query e id res
