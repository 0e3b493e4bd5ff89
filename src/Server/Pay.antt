-- ===== src/Server/Pay.antt =====
-- app/services/nekopay_client.py, app/services/token_manager.py and the network part of
-- app/services/sync_service.py. The service answers a request by any function of the requests before
-- it; waiting between two attempts is not modelled.
pub mod Calls
pub mod Attempts
pub mod Cycle
mod Examples
use ikuzo_neko_pay.Prelude.{
  ℕ, zero, suc, String, Bool, true, false, not, ◌||◌, Option, none, some, List, [], ◌∷◌, str_eq,
  if◌then◌else◌, is_empty,
}

pub data PayRequest : Type 0 where
  do_login : PayRequest
  user_info pay_history : (token : String) → PayRequest

-- What `data` is for `(data or {}).get("token")`: a truthy value that is no object has no `get`; an
-- object, or a falsy value, has a token as text, or none.
pub data LoginData : Type 0 where
  no_object : LoginData
  object : (token : Option String) → LoginData

-- The envelope of an answer: `str(code)`, its data as a login reads them, and the data.
pub record Body (D : Type 0) : Type 0 where
  pub code : String
  pub token : LoginData
  pub content : D

-- What comes back: an error of the connection or of HTTP, a text that is no envelope, an envelope.
pub data Reply (D : Type 0) : Type 0 where
  unreachable malformed : Reply D
  body : Body D → Reply D

-- NekoPayAuthError, NekoPayTransportError, NekoPayProtocolError, the AttributeError of a `get` on what
-- is no object, and the TypeError of `raise None`.
pub data PayError : Type 0 where
  auth transport protocol attribute_error type_error : PayError

pub data PayResult (A : Type 0) : Type 0 where
  got : A → PayResult A
  raised : PayError → PayResult A

-- The token that is held, and the requests sent, the last one first.
pub record Pay : Type 0 where
  pub held : Option String
  pub sent : List PayRequest

abbrev pub PayAct : Type 0 → Type 0
PayAct A = Pay → PayResult A × Pay

abbrev pub Net : Type 0 → Type 0
Net D = List PayRequest → PayRequest → Reply D

abbrev pub pure : {A : Type 0} → A → PayAct A
pure a p = (got a, p)

abbrev pub raise : {A : Type 0} → PayError → PayAct A
raise x p = (raised x, p)

abbrev pub continue : {A B : Type 0} → PayResult A → (A → PayAct B) → PayAct B
continue (got a) f p = f a p
continue (raised x) f p = (raised x, p)

infixl 5 ◌>>=◌ ◌>>◌
unfoldable pub ◌>>=◌ : {A B : Type 0} → PayAct A → (A → PayAct B) → PayAct B
◌>>=◌ m f p = let (r, p') = m p in continue r f p'

abbrev pub ◌>>◌ : {A B : Type 0} → PayAct A → PayAct B → PayAct B
m >> n = m >>= λ _. n

abbrev pub body_of : {D : Type 0} → Reply D → PayResult (Body D)
body_of unreachable = raised transport
body_of malformed = raised protocol
body_of (body b) = got b

module _ {D : Type 0} (net : Net D) where
  -- `_request`
  unfoldable pub request : PayRequest → PayAct (Body D)
  request r p = (body_of (net p.sent r), record p { sent = r ∷ p.sent })

  abbrev token_or_error : LoginData → PayAct String
  token_or_error no_object = raise attribute_error
  token_or_error (object none) = raise protocol
  token_or_error (object (some t)) = if is_empty t then raise protocol else pure t

  unfoldable pub login : PayAct String
  unfolding ◌>>=◌ request
  login = do
    b ← request do_login
    if not (str_eq b.code "1") then raise auth else token_or_error b.token

  -- `get_user_info` and `get_pay_history`
  unfoldable pub get_data : PayRequest → PayAct D
  unfolding ◌>>=◌ request
  get_data r = do b ← request r; if not (str_eq b.code "0") then raise auth else pure b.content

  abbrev pub hold : String → PayAct String
  hold t p = (got t, record p { held = some t })

  abbrev pub token_or : PayAct String → Option String → PayAct String
  token_or m none = m
  token_or m (some t) = if is_empty t then m else pure t

  -- `get_token`, forced or not
  unfoldable pub get_token : Bool → PayAct String
  unfolding ◌>>=◌ login
  get_token force p =
      let renewed = login >>= hold in (if force then renewed else token_or renewed p.held) p

  abbrev pub on_auth_error : {A : Type 0} → PayAct A → PayResult A → PayAct A
  on_auth_error again (got a) = pure a
  on_auth_error again (raised auth) = again
  on_auth_error again (raised transport) = raise transport
  on_auth_error again (raised protocol) = raise protocol
  on_auth_error again (raised attribute_error) = raise attribute_error
  on_auth_error again (raised type_error) = raise type_error

  -- `call_with_retry`, where the factory asks for what the token names.
  unfoldable pub call_with_retry : (String → PayRequest) → PayAct D
  unfolding ◌>>=◌ get_token get_data
  call_with_retry ask = do
    token ← get_token false
    λ p.
        let (r, p') = get_data (ask token) p in
        on_auth_error (get_token true >>= λ t. get_data (ask t)) r p'

  abbrev pub on_transport_error : {A : Type 0} → PayAct A → PayResult A → PayAct A
  on_transport_error again (got a) = pure a
  on_transport_error again (raised auth) = raise auth
  on_transport_error again (raised transport) = again
  on_transport_error again (raised protocol) = raise protocol
  on_transport_error again (raised attribute_error) = raise attribute_error
  on_transport_error again (raised type_error) = raise type_error

  -- The loop over the attempts that are left, and the error that it raises after the last one.
  unfoldable pub fetch_loop : ℕ → PayError → (String → PayRequest) → PayAct D
  unfolding call_with_retry
  fetch_loop zero last ask p = (raised last, p)
  fetch_loop (suc n) last ask p =
      let (r, p') = call_with_retry ask p in on_transport_error (fetch_loop n transport ask) r p'

  -- `_fetch_with_retry`
  unfoldable pub fetch_with_retry : ℕ → (String → PayRequest) → PayAct D
  unfolding fetch_loop
  fetch_with_retry retries ask = fetch_loop retries type_error ask

  abbrev pub info_if : ℕ → Bool → PayAct (Option D)
  info_if retries false = pure none
  info_if retries true = fetch_with_retry retries user_info >>= λ d. pure (some d)

  -- The network part of `run_sync_cycle`, before anything is written.
  unfoldable pub fetch_all : ℕ → Bool → PayAct (Option D × D)
  unfolding ◌>>=◌ fetch_with_retry
  fetch_all retries include_snapshot = do
    info ← info_if retries include_snapshot
    history ← fetch_with_retry retries pay_history
    pure (info, history)

-- How the network part ends: the writes follow; or a SyncRun with the error is the only row that is
-- written; or the exception leaves run_sync_cycle.
pub data Fetched (D : Type 0) : Type 0 where
  proceeds : Option D → D → Fetched D
  auth_failed transport_failed : Fetched D
  escapes : PayError → Fetched D

abbrev pub cycle_of : {D : Type 0} → PayResult (Option D × D) → Fetched D
cycle_of (got (info, history)) = proceeds info history
cycle_of (raised auth) = auth_failed
cycle_of (raised transport) = transport_failed
cycle_of (raised protocol) = escapes protocol
cycle_of (raised attribute_error) = escapes attribute_error
cycle_of (raised type_error) = escapes type_error

unfoldable pub start_cycle : {D : Type 0} → Net D → ℕ → Bool → Pay → Fetched D × Pay
unfolding fetch_all
start_cycle net retries include_snapshot p =
    let (r, p') = fetch_all net retries include_snapshot p in (cycle_of r, p')
