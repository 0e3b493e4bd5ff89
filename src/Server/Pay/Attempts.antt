-- ===== src/Server/Pay/Attempts.antt =====
-- How many requests the attempts of a sync make, and what they come back with.
use ikuzo_neko_pay.Prelude.{
  ℕ, zero, suc, ◌+◌, ◌*◌, ◌≤◌, ◌≡◌, ◌≢◌, refl, String, true, false, some, length, arith,
}
use ikuzo_neko_pay.Server.Pay.{
  Pay, PayRequest, PayResult, got, raised, auth, transport, protocol, attribute_error, type_error,
  Net, PayAct, ◌>>=◌, continue, get_data, get_token, call_with_retry, on_auth_error,
  on_transport_error, fetch_loop, fetch_with_retry,
}
use ikuzo_neko_pay.Server.Pay.Calls.{
  Answered, Sent, Token, get_token-Token, get_data-Sent, get_data-Answered,
}

module _ {D : Type 0} (net : Net D) (ask : String → PayRequest) where
  -- Between one and k requests, and data that the held token brought.
  pub record Step (k : ℕ) (p : Pay) (r : PayResult D × Pay) : Type 0 where
    pub sent : Sent net 1 k p r
    pub answered : (d : D) → r.0 ≡ got d → Answered net ask d r.1

  bind-Step :
      (f : String → PayAct D) (k least : ℕ) (p : Pay) (r : PayResult String) (p' : Pay)
      → Token net least p (r, p')
      → ((t : String) (q : Pay) → q.held ≡ some t → Step k q (f t q))
      → Step (k + 1) p (continue r f p')
  bind-Step f k least p (got t) p' token step =
      let next = step t p' (token.held t refl) in
      record {
        sent = record {
          least = omega (arith, token.sent.least, next.sent.least);
          most = omega (arith, token.sent.most, next.sent.most);
          typed = next.sent.typed;
        };
        answered = next.answered;
      }
  bind-Step f k least p (raised x) p' token step = record {
    sent = record {
      least = token.tried x refl;
      most = omega (arith, token.sent.most);
      typed = λ e. token.sent.typed (cc);
    };
    answered = λ d e. cc;
  }

  weaken-Step : (k : ℕ) (p : Pay) (r : PayResult D × Pay) → Step 1 p r → Step (1 + k) p r
  weaken-Step k p r s = record {
    sent = record { least = s.sent.least; most = omega (arith, s.sent.most); typed = s.sent.typed };
    answered = s.answered;
  }

  get_data-Step : (t : String) (p : Pay) → p.held ≡ some t → Step 1 p (get_data net (ask t) p)
  get_data-Step t p h = record {
    sent = get_data-Sent net (ask t) p;
    answered = λ d. get_data-Answered net ask t d p h;
  }

  on_auth_error-Step :
      (again : PayAct D) (k : ℕ) (p : Pay) (r : PayResult D) (p' : Pay)
      → ((q : Pay) → Step k q (again q))
      → Step 1 p (r, p')
      → Step (1 + k) p (on_auth_error net again r p')
  on_auth_error-Step again k p (got d) p' step s = weaken-Step k p (got d, p') s
  on_auth_error-Step again k p (raised auth) p' step s = record {
    sent = record {
      least = omega (arith, s.sent.least, (step p').sent.least);
      most = omega (arith, s.sent.most, (step p').sent.most);
      typed = (step p').sent.typed;
    };
    answered = (step p').answered;
  }
  on_auth_error-Step again k p (raised transport) p' step s =
      weaken-Step k p (raised transport, p') s
  on_auth_error-Step again k p (raised protocol) p' step s = weaken-Step k p (raised protocol, p') s
  on_auth_error-Step again k p (raised attribute_error) p' step s =
      weaken-Step k p (raised attribute_error, p') s
  on_auth_error-Step again k p (raised type_error) p' step s =
      weaken-Step k p (raised type_error, p') s

  call_with_retry-Step : (p : Pay) → Step 4 p (call_with_retry net ask p)
  unfolding call_with_retry ◌>>=◌
  call_with_retry-Step p =
      bind-Step _ 3 0 p (get_token net false p).0 (get_token net false p).1
        (get_token-Token net false p)
        (λ t q h.
          on_auth_error-Step (get_token net true >>= λ s. get_data net (ask s)) 2 q
            (get_data net (ask t) q).0 (get_data net (ask t) q).1
            (λ q'.
              bind-Step _ 1 1 q' (get_token net true q').0 (get_token net true q').1
                (get_token-Token net true q') get_data-Step)
            (get_data-Step t q h))

  -- What comes of n attempts: at most four requests for each; data that the token that is held
  -- afterwards brought, as the last request; a transport error only after n attempts; no other
  -- exception than those of the client.
  pub record Attempts (n : ℕ) (p : Pay) (r : PayResult D × Pay) : Type 0 where
    pub few : length r.1.sent ≤ length p.sent + 4 * n
    pub grows : length p.sent ≤ length r.1.sent
    pub patient : r.0 ≡ raised transport → length p.sent + n ≤ length r.1.sent
    pub typed : r.0 ≢ raised type_error
    pub answered : (d : D) → r.0 ≡ got d → Answered net ask d r.1

  ended-Attempts :
      (n : ℕ) (p : Pay) (r : PayResult D × Pay)
      → r.0 ≢ raised transport
      → Step 4 p r
      → Attempts (suc n) p r
  ended-Attempts n p r other s = record {
    few = omega (arith, s.sent.most);
    grows = omega (arith, s.sent.least);
    patient = λ e. absurd (other e);
    typed = s.sent.typed;
    answered = s.answered;
  }

  on_transport_error-Attempts :
      (again : PayAct D) (n : ℕ) (p : Pay) (r : PayResult D) (p' : Pay)
      → ((q : Pay) → Attempts n q (again q))
      → Step 4 p (r, p')
      → Attempts (suc n) p (on_transport_error net again r p')
  on_transport_error-Attempts again n p (got d) p' step s =
      ended-Attempts n p (got d, p') (λ e. cc) s
  on_transport_error-Attempts again n p (raised auth) p' step s =
      ended-Attempts n p (raised auth, p') (λ e. cc) s
  on_transport_error-Attempts again n p (raised transport) p' step s = record {
    few = omega (arith, s.sent.most, (step p').few);
    grows = omega (arith, s.sent.least, (step p').grows);
    patient = λ e. omega (arith, s.sent.least, (step p').patient e);
    typed = (step p').typed;
    answered = (step p').answered;
  }
  on_transport_error-Attempts again n p (raised protocol) p' step s =
      ended-Attempts n p (raised protocol, p') (λ e. cc) s
  on_transport_error-Attempts again n p (raised attribute_error) p' step s =
      ended-Attempts n p (raised attribute_error, p') (λ e. cc) s
  on_transport_error-Attempts again n p (raised type_error) p' step s =
      ended-Attempts n p (raised type_error, p') (λ e. cc) s

  fetch_loop-Attempts : (n : ℕ) (p : Pay) → Attempts n p (fetch_loop net n transport ask p)
  unfolding fetch_loop
  fetch_loop-Attempts zero p = record {
    few = omega arith;
    grows = omega arith;
    patient = λ e. omega arith;
    typed = λ e. cc;
    answered = λ d e. cc;
  }
  fetch_loop-Attempts (suc n) p =
      on_transport_error-Attempts (fetch_loop net n transport ask) n p (call_with_retry net ask p).0
        (call_with_retry net ask p).1 (fetch_loop-Attempts n) (call_with_retry-Step p)

  -- With at least one retry allowed, and whatever the service answers, a fetch sends at most four
  -- requests for each retry, raises a transport error only after at least as many requests as retries,
  -- and raises nothing but the errors of the client; data come from its last request, which was sent
  -- with the token that is held afterwards and was answered with code 0.
  pub fetch_with_retry-Attempts :
      (retries : ℕ) (p : Pay)
      → 1 ≤ retries
      → Attempts retries p (fetch_with_retry net retries ask p)
  unfolding fetch_with_retry fetch_loop
  fetch_with_retry-Attempts zero p h = absurd (omega (arith, h))
  fetch_with_retry-Attempts (suc n) p h =
      on_transport_error-Attempts (fetch_loop net n transport ask) n p (call_with_retry net ask p).0
        (call_with_retry net ask p).1 (fetch_loop-Attempts n) (call_with_retry-Step p)
