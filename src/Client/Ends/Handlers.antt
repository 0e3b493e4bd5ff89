-- ===== src/Client/Ends/Handlers.antt =====
-- Every handler ends where requests settle and dialogs are left.
use ikuzo_neko_pay.Prelude.{ℕ, String, Bool, Option, none, some, List, [], ◌∷◌, arith}
use ikuzo_neko_pay.Client.Number.{Number}
use ikuzo_neko_pay.Client.Page.{Env, Payload, Candidate}
use ikuzo_neko_pay.Client.Js.{Js, val, ◌>>=◌}
use ikuzo_neko_pay.Client.Dialogs.{Choice, chosen, manual, cancel}
use ikuzo_neko_pay.Client.Attribution.{
  candidates_of, offer, after_match, query_match, auto_attribute_flow, link_record, offer_links,
  after_query, supplement_attribute,
}
use ikuzo_neko_pay.Client.Topup.{update_topup_preview, send_topup, attributed_topup, do_topup}
use ikuzo_neko_pay.Client.Ends.{Ends, Settles, ends_rules, Ends-pure, Ends-throw, Ends-alert}
use ikuzo_neko_pay.Client.Play.{
  anti_addiction_ok, send_play, attributed_play, play, do_play, do_transfer,
}

module _ {e : Env} (s : Settles e) where
  Ends-candidates_of : (d : Payload) → Ends (candidates_of d)
  unfolding candidates_of
  Ends-candidates_of d =
      elim d.candidates
        as (λ o. Ends (elim o as (λ _. Js (List Candidate)) [ none ↦ _ | some cs ↦ _ ])) [
          | none ↦ Ends-throw
          | some cs ↦ Ends-pure cs
        ]

  Ends-offer : (cs : List Candidate) → Ends (offer e cs)
  unfolding offer
  Ends-offer [] = search (ends_rules)
  Ends-offer (c ∷ cs) = search (ends_rules)

  Ends-after_match : (o : Option Payload) → Ends (after_match e o)
  unfolding after_match
  Ends-after_match none = search (ends_rules)
  Ends-after_match (some d) = search (ends_rules, Ends-candidates_of, Ends-offer)

  Ends-auto_attribute_flow :
      (kind : String) (points : Number) (is_self : Bool)
      → Ends (auto_attribute_flow e kind points is_self)
  unfolding auto_attribute_flow query_match
  Ends-auto_attribute_flow kind points is_self = search (ends_rules, Ends-after_match) depth 14

  Ends-link_record : (id : ℕ) (cs : List Candidate) (c : Choice) → Ends (link_record e id cs c)
  unfolding link_record
  Ends-link_record id cs manual = Ends-pure tt
  Ends-link_record id cs cancel = Ends-pure tt
  Ends-link_record id cs (chosen n) = search (ends_rules) depth 14

  Ends-offer_links : (id : ℕ) (cs : List Candidate) → Ends (offer_links e id cs)
  unfolding offer_links
  Ends-offer_links id [] = Ends-alert _
  Ends-offer_links id (c ∷ cs) = search (ends_rules, Ends-link_record) depth 14

  Ends-after_query : (id : ℕ) (o : Option Payload) → Ends (after_query e id o)
  unfolding after_query
  Ends-after_query id none = Ends-pure tt
  Ends-after_query id (some d) = search (ends_rules, Ends-candidates_of, Ends-offer_links) depth 14

  pub Ends-supplement_attribute :
      (id : ℕ) (t : Bool) (n : Number) → Ends (supplement_attribute e id t n)
  unfolding supplement_attribute
  Ends-supplement_attribute id t n = search (ends_rules, Ends-after_query) depth 14

  pub Ends-update_topup_preview : Ends (update_topup_preview e)
  unfolding update_topup_preview val ◌>>=◌
  Ends-update_topup_preview = record { ends = λ p h. ground arith }

  Ends-send_topup : (m n : Number) (c : Choice) → Ends (send_topup e m n c)
  unfolding send_topup
  Ends-send_topup m n cancel = Ends-pure tt
  Ends-send_topup m n (chosen t) = search (ends_rules) depth 14
  Ends-send_topup m n manual = search (ends_rules) depth 14

  pub Ends-do_topup : Ends (do_topup e)
  unfolding do_topup attributed_topup
  Ends-do_topup = search (ends_rules, Ends-auto_attribute_flow, Ends-send_topup) depth 20

  Ends-send_play : (m n : Number) (t : String) (c : Choice) → Ends (send_play e m n t c)
  unfolding send_play
  Ends-send_play m n t cancel = Ends-pure tt
  Ends-send_play m n t (chosen k) = search (ends_rules) depth 14
  Ends-send_play m n t manual = search (ends_rules) depth 14

  Ends-anti_addiction_ok : (m n : Number) → Ends (anti_addiction_ok e m n)
  unfolding anti_addiction_ok
  Ends-anti_addiction_ok m n = search (ends_rules) depth 14

  pub Ends-do_play : Ends (do_play e)
  unfolding do_play play attributed_play
  Ends-do_play =
      search (ends_rules, Ends-anti_addiction_ok, Ends-auto_attribute_flow, Ends-send_play) depth 20

  pub Ends-do_transfer : Ends (do_transfer e)
  unfolding do_transfer
  Ends-do_transfer = search (ends_rules) depth 20
