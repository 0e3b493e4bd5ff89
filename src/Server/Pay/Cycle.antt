-- ===== src/Server/Pay/Cycle.antt =====
-- How the network part of a sync cycle ends.
use ikuzo_neko_pay.Prelude.{
  ℕ, zero, suc, ◌+◌, ◌*◌, ◌≤◌, ◌≡◌, ◌≢◌, refl, String, Bool, true, false, Option, none, some,
  length, ◌⊎◌, inl, inr, arith,
}
use ikuzo_neko_pay.Server.Pay.{
  Pay, PayRequest, user_info, pay_history, malformed, PayResult, got, raised, PayError, auth,
  transport, protocol, attribute_error, type_error, Net, PayAct, ◌>>=◌, pure, continue, request,
  login, get_data, get_token, call_with_retry, fetch_loop, fetch_with_retry, fetch_all, Fetched,
  proceeds, transport_failed, escapes, cycle_of, start_cycle,
}
use ikuzo_neko_pay.Server.Pay.Calls.{Answered}
use ikuzo_neko_pay.Server.Pay.Attempts.{Attempts, fetch_with_retry-Attempts}

module _ {D : Type 0} (net : Net D) where
  call-malformed :
      (ask : String → PayRequest) (p : Pay)
      → ((r : PayRequest) → net p.sent r ≡ malformed)
      → (call_with_retry net ask p).0 ≡ raised protocol
  unfolding call_with_retry get_token login get_data request ◌>>=◌
  call-malformed ask p h = grind (arith, h)

  -- Both fetches: at most b requests.
  record Fetches (n b : ℕ) (p : Pay) (r : PayResult (Option D × D) × Pay) : Type 0 where
    pub few : length r.1.sent ≤ length p.sent + b
    pub patient : r.0 ≡ raised transport → length p.sent + n ≤ length r.1.sent
    pub typed : r.0 ≢ raised type_error
    pub answered : (info : Option D) (d : D) → r.0 ≡ got (info, d) → Answered net pay_history d r.1

  history-Fetches :
      (n : ℕ) (info : Option D) (p : Pay) (r : PayResult D) (p' : Pay)
      → Attempts net pay_history n p (r, p')
      → Fetches n (4 * n) p (continue r (λ d. pure (info, d)) p')
  history-Fetches n info p (got d) p' a = record {
    few = a.few;
    patient = λ e. cc;
    typed = λ e. cc;
    answered = λ i h e. a.answered h (cc);
  }
  history-Fetches n info p (raised x) p' a = record {
    few = a.few;
    patient = λ e. a.patient (cc);
    typed = λ e. a.typed (cc);
    answered = λ i h e. cc;
  }

  info-Fetches :
      (n : ℕ) (f : Option D → PayAct (Option D × D)) (p : Pay) (r : PayResult D) (p' : Pay)
      → Attempts net user_info n p (r, p')
      → ((info : Option D) (q : Pay) → Fetches n (4 * n) q (f info q))
      → Fetches n
          (8 * n)
          p
          (continue (continue r (λ d. pure (some d)) p').0 f (continue r (λ d. pure (some d)) p').1)
  info-Fetches n f p (got d) p' a rest =
      let next = rest (some d) p' in
      record {
        few = omega (arith, a.few, next.few);
        patient = λ e. omega (arith, a.grows, next.patient e);
        typed = next.typed;
        answered = next.answered;
      }
  info-Fetches n f p (raised x) p' a rest = record {
    few = omega (arith, a.few);
    patient = λ e. a.patient (cc);
    typed = λ e. a.typed (cc);
    answered = λ i h e. cc;
  }

  fetch_all-Fetches :
      (n : ℕ) (include_snapshot : Bool) (p : Pay)
      → 1 ≤ n
      → Fetches n (8 * n) p (fetch_all net n include_snapshot p)
  unfolding fetch_all ◌>>=◌
  fetch_all-Fetches n false p h =
      let a =
        history-Fetches n none p (fetch_with_retry net n pay_history p).0
          (fetch_with_retry net n pay_history p).1
          (fetch_with_retry-Attempts net pay_history n p h) in
      record {
        few = omega (arith, a.few);
        patient = a.patient;
        typed = a.typed;
        answered = a.answered;
      }
  fetch_all-Fetches n true p h =
      info-Fetches n (λ info. fetch_with_retry net n pay_history >>= λ d. pure (info, d)) p
        (fetch_with_retry net n user_info p).0 (fetch_with_retry net n user_info p).1
        (fetch_with_retry-Attempts net user_info n p h)
        (λ info q.
          history-Fetches n info q (fetch_with_retry net n pay_history q).0
            (fetch_with_retry net n pay_history q).1
            (fetch_with_retry-Attempts net pay_history n q h))

  -- What the network part of a cycle leaves.
  pub record Ends (n : ℕ) (p : Pay) (r : Fetched D × Pay) : Type 0 where
    pub few : length r.1.sent ≤ length p.sent + 8 * n
    pub patient : r.0 ≡ transport_failed → length p.sent + n ≤ length r.1.sent
    pub known : (x : PayError) → r.0 ≡ escapes x → (x ≡ protocol) ⊎ (x ≡ attribute_error)
    pub answered :
        (info : Option D) (d : D) → r.0 ≡ proceeds info d → Answered net pay_history d r.1

  cycle_of-Ends :
      (n : ℕ) (p : Pay) (r : PayResult (Option D × D)) (p' : Pay)
      → Fetches n (8 * n) p (r, p')
      → Ends n p (cycle_of r, p')
  cycle_of-Ends n p (got (info, d)) p' f = record {
    few = f.few;
    patient = λ e. cc;
    known = λ x e. cc;
    answered = λ i h e. f.answered i h (cc);
  }
  cycle_of-Ends n p (raised auth) p' f = record {
    few = f.few;
    patient = λ e. cc;
    known = λ x e. cc;
    answered = λ i h e. cc;
  }
  cycle_of-Ends n p (raised transport) p' f = record {
    few = f.few;
    patient = λ e. f.patient refl;
    known = λ x e. cc;
    answered = λ i h e. cc;
  }
  cycle_of-Ends n p (raised protocol) p' f = record {
    few = f.few;
    patient = λ e. cc;
    known = λ x e. inl (cc);
    answered = λ i h e. cc;
  }
  cycle_of-Ends n p (raised attribute_error) p' f = record {
    few = f.few;
    patient = λ e. cc;
    known = λ x e. inr (cc);
    answered = λ i h e. cc;
  }
  cycle_of-Ends n p (raised type_error) p' f = absurd (f.typed refl)

  -- With at least one retry allowed, whatever the service answers and whatever token is held, the
  -- network part of a sync cycle sends at most eight requests for each retry; it records a transport
  -- failure only after at least as many requests as retries; only a NekoPayProtocolError or an AttributeError
  -- leaves it;
  -- and where the writes follow, the history came with its last request, which was sent with the token
  -- that is held afterwards and was answered with code 0.
  pub start_cycle-Ends :
      (n : ℕ) (include_snapshot : Bool) (p : Pay)
      → 1 ≤ n
      → Ends n p (start_cycle net n include_snapshot p)
  unfolding start_cycle
  start_cycle-Ends n include_snapshot p h =
      cycle_of-Ends n p (fetch_all net n include_snapshot p).0
        (fetch_all net n include_snapshot p).1 (fetch_all-Fetches n include_snapshot p h)

  fetch-malformed :
      (n : ℕ) (ask : String → PayRequest) (p : Pay)
      → 1 ≤ n
      → ((r : PayRequest) → net p.sent r ≡ malformed)
      → (fetch_with_retry net n ask p).0 ≡ raised protocol
  unfolding fetch_with_retry fetch_loop
  fetch-malformed zero ask p some_retry h = absurd (omega (arith, some_retry))
  fetch-malformed (suc n) ask p some_retry h = rw (call-malformed ask p h)

  -- With at least one retry allowed, an answer to the first request that is no envelope makes the
  -- cycle raise a NekoPayProtocolError, which none of its handlers catches: no SyncRun is recorded.
  pub start_cycle_malformed :
      (n : ℕ) (include_snapshot : Bool) (p : Pay)
      → 1 ≤ n
      → ((r : PayRequest) → net p.sent r ≡ malformed)
      → (start_cycle net n include_snapshot p).0 ≡ escapes protocol
  unfolding start_cycle fetch_all ◌>>=◌
  start_cycle_malformed n false p some_retry h = rw (fetch-malformed n pay_history p some_retry h)
  start_cycle_malformed n true p some_retry h = rw (fetch-malformed n user_info p some_retry h)
