-- ===== src/Server/Pay/Calls.antt =====
-- One request, one login, one authenticated call: what is sent, and what the manager holds afterwards.
use ikuzo_neko_pay.Prelude.{
  ℕ, ◌+◌, ◌≤◌, ◌≡◌, ◌≢◌, refl, sym, subst, ap, ◌∙◌, ◌⊎◌, inl, inr, String, Bool, true, false, not,
  Option, none, some, List, ◌∷◌, length, str_eq, str_eq_iff, if◌then◌else◌, is_empty, arith,
}
use ikuzo_neko_pay.Server.Pay.{
  Pay, PayRequest, do_login, Reply, unreachable, malformed, body, Body, PayResult, got, raised,
  PayError, auth, type_error, Net, PayAct, ◌>>=◌, continue, pure, raise, request, login, get_data,
  get_token, hold, token_or, body_of,
}

module _ {D : Type 0} (net : Net D) where
  -- The last request was sent with the token that is held, and was answered with these data.
  abbrev pub Answered : (String → PayRequest) → D → Pay → Type 0
  Answered ask d p =
      (t : String) × (before : List PayRequest) × (b : Body D) × (p.held ≡ some t)
      × (p.sent ≡ ask t ∷ before)
      × (net before (ask t) ≡ body b)
      × (b.code ≡ "0")
      × (b.content ≡ d)

  pub record Sent {A : Type 0} (lo hi : ℕ) (p : Pay) (r : PayResult A × Pay) : Type 0 where
    pub least : length p.sent + lo ≤ length r.1.sent
    pub most : length r.1.sent ≤ length p.sent + hi
    pub typed : r.0 ≢ raised type_error

  login-typed : (p : Pay) → (login net p).0 ≢ raised type_error
  unfolding login request ◌>>=◌
  login-typed p = ground arith

  login-sent : (p : Pay) → (login net p).1 ≡ record p { sent = do_login ∷ p.sent }
  unfolding login request ◌>>=◌
  login-sent p = ground arith

  hold-typed :
      (r : PayResult String) (p : Pay)
      → r ≢ raised type_error
      → (continue r (hold net) p).0 ≢ raised type_error
  hold-typed r p h = ground arith

  hold-sent : (r : PayResult String) (p : Pay) → (continue r (hold net) p).1.sent ≡ p.sent
  hold-sent r p = ground arith

  hold-held :
      (r : PayResult String) (p : Pay) (t : String)
      → (continue r (hold net) p).0 ≡ got t
      → (continue r (hold net) p).1.held ≡ some t
  hold-held r p t h = ground arith

  renewed-Sent : (p : Pay) → Sent 1 1 p ((login net >>= hold net) p)
  unfolding ◌>>=◌
  renewed-Sent p =
      let (r, p') = login net p in
      let sent : (continue (login net p).0 (hold net) (login net p).1).1.sent ≡ do_login ∷ p.sent =
        hold-sent _ _ ∙ ap (λ q. q.sent) (login-sent p) in
      record {
        least = omega (arith, ap length sent);
        most = omega (arith, ap length sent);
        typed = hold-typed _ _ (login-typed p);
      }

  token_or-cases :
      (m : PayAct String) (held : Option String) (p : Pay)
      → (token_or net m held p ≡ m p)
        ⊎ ((t : String) × (held ≡ some t) × (token_or net m held p ≡ (got t, p)))
  token_or-cases m none p = inl refl
  token_or-cases m (some t) p = by_empty (is_empty t)
    where
      by_empty :
          (b : Bool)
          → ((if b then m else pure t) p ≡ m p)
            ⊎ ((s : String) × (some t ≡ some s) × ((if b then m else pure t) p ≡ (got s, p)))
      by_empty true = inl refl
      by_empty false = inr (t, refl, refl)

  -- What a token comes with: it is the one that is held, and a forced or failed call has logged in.
  pub record Token (least : ℕ) (p : Pay) (r : PayResult String × Pay) : Type 0 where
    pub sent : Sent least 1 p r
    pub held : (t : String) → r.0 ≡ got t → r.1.held ≡ some t
    pub tried : (x : PayError) → r.0 ≡ raised x → length p.sent + 1 ≤ length r.1.sent

  renewed-Token : (p : Pay) → Token 1 p ((login net >>= hold net) p)
  unfolding ◌>>=◌
  renewed-Token p = record {
    sent = renewed-Sent p;
    held = hold-held (login net p).0 (login net p).1;
    tried = λ x h. (renewed-Sent p).least;
  }

  -- A token, where m logs in.
  by_cases :
      (p : Pay) (r : PayResult String × Pay)
      → (r ≡ (login net >>= hold net) p) ⊎ ((t : String) × (p.held ≡ some t) × (r ≡ (got t, p)))
      → Token 0 p r
  by_cases p r (inl h) = subst (Token 0 p) (sym h) (record {
    sent = record {
      least = omega (arith, (renewed-Sent p).least);
      most = (renewed-Sent p).most;
      typed = (renewed-Sent p).typed;
    };
    held = (renewed-Token p).held;
    tried = (renewed-Token p).tried;
  })
  by_cases p r (inr (t, h, same)) = subst (Token 0 p) (sym same) (record {
    sent = record { least = omega arith; most = omega arith; typed = λ e. cc };
    held = λ s e. grind (arith, h);
    tried = λ x e. cc;
  })

  pub get_token-Token :
      (force : Bool) (p : Pay) → Token (if force then 1 else 0) p (get_token net force p)
  unfolding get_token
  get_token-Token true p = renewed-Token p
  get_token-Token false p = by_cases p _ (token_or-cases (login net >>= hold net) p.held p)

  get_data-frame :
      (r : PayRequest) (p : Pay) → (get_data net r p).1 ≡ record p { sent = r ∷ p.sent }
  unfolding get_data request ◌>>=◌
  get_data-frame r p = ground arith

  get_data-typed : (r : PayRequest) (p : Pay) → (get_data net r p).0 ≢ raised type_error
  unfolding get_data request ◌>>=◌
  get_data-typed r p = ground arith

  pub get_data-Sent : (r : PayRequest) (p : Pay) → Sent 1 1 p (get_data net r p)
  get_data-Sent r p =
      let sent = ap (λ q. length q.sent) (get_data-frame r p) in
      record { least = omega (arith, sent); most = omega (arith, sent); typed = get_data-typed r p }

  checked-body :
      (b : Body D) (d : D) (p : Pay)
      → ((if not (str_eq b.code "0") then raise auth else pure b.content) p).0 ≡ got d
      → (b.code ≡ "0") × (b.content ≡ d)
  checked-body b d p h =
      let passed : (str_eq b.code "0" ≡ true) × (b.content ≡ d) = ground arith in
      ((str_eq_iff b.code "0").0 passed.0, passed.1)

  pub get_data-Answered :
      (ask : String → PayRequest) (t : String) (d : D) (p : Pay)
      → p.held ≡ some t
      → (get_data net (ask t) p).0 ≡ got d
      → Answered ask d (get_data net (ask t) p).1
  unfolding get_data request ◌>>=◌
  get_data-Answered ask t d p held h = by_reply (net p.sent (ask t)) refl h
    where
      after : Reply D → PayResult D × Pay
      after r =
          continue (body_of r) (λ b. if not (str_eq b.code "0") then raise auth else pure b.content)
            (record p { sent = ask t ∷ p.sent })

      by_reply :
          (r : Reply D)
          → net p.sent (ask t) ≡ r
          → (after r).0 ≡ got d
          → Answered ask d (get_data net (ask t) p).1
      by_reply (body b) e g =
          let ok = checked-body b d (record p { sent = ask t ∷ p.sent }) g in
          (
            t,
            p.sent,
            b,
            ap (λ q. q.held) (get_data-frame (ask t) p) ∙ held,
            ap (λ q. q.sent) (get_data-frame (ask t) p),
            e,
            ok.0,
            ok.1,
          )
      by_reply unreachable e g = cc
      by_reply malformed e g = cc
