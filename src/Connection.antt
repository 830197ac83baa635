-- ===== src/Connection.antt =====
-- The connection of a session in crates/privchat-sdk/src/lib.rs: the session's states and what each admits,
-- what a connect and an authentication set out to do, the transport's health, and the reconnect driver.
-- Times are milliseconds. Connecting, authenticating and the random jitter are parameters.
pub mod Machine
pub mod Liveness
pub mod Retry
pub mod Driver
use privchat_sdk.Base.{
  ◌==◌, if◌then◌else◌, ℕ, zero, suc, ◌+◌, ◌*◌, min, max, ◌⊎◌, inl, inr, Bool, true, false, not,
  ◌&&◌, ◌||◌, Option, none, some, [], ◌∷◌,
}
use privchat_sdk.Base.Text.{Text}
use privchat_sdk.Base.Word.{u32_saturating_succ, u64_wrapping_succ}
use privchat_sdk.Errors.{Error, request_unanswered, sdk_shutdown, invalid_state, session_not_ready}

pub data SessionState : Type 0 where
  new_state : SessionState
  connected : SessionState
  logged_in : SessionState
  authenticated : SessionState
  terminated : SessionState
  shut_down : SessionState

pub data Action : Type 0 where
  connect : Action
  login : Action
  authenticate : Action
  shutdown : Action

abbrev login_first : Error
login_first = invalid_state (
    b'l' ∷ b'o' ∷ b'g' ∷ b'i' ∷ b'n' ∷ b' ' ∷ b'r' ∷ b'e' ∷ b'q' ∷ b'u' ∷ b'i' ∷ b'r' ∷ b'e' ∷ b's'
    ∷ b' ' ∷ b'c' ∷ b'o' ∷ b'n' ∷ b'n' ∷ b'e' ∷ b'c' ∷ b't' ∷ b' ' ∷ b'f' ∷ b'i' ∷ b'r' ∷ b's'
    ∷ b't' ∷ [])

abbrev login_after_logout : Error
login_after_logout = invalid_state (
    b'l' ∷ b'o' ∷ b'g' ∷ b'i' ∷ b'n' ∷ b' ' ∷ b'r' ∷ b'e' ∷ b'q' ∷ b'u' ∷ b'i' ∷ b'r' ∷ b'e' ∷ b's'
    ∷ b' ' ∷ b'c' ∷ b'o' ∷ b'n' ∷ b'n' ∷ b'e' ∷ b'c' ∷ b't' ∷ b' ' ∷ b'a' ∷ b'f' ∷ b't' ∷ b'e'
    ∷ b'r' ∷ b' ' ∷ b'f' ∷ b'o' ∷ b'r' ∷ b'c' ∷ b'e' ∷ b'd' ∷ b' ' ∷ b'l' ∷ b'o' ∷ b'g' ∷ b'o'
    ∷ b'u' ∷ b't' ∷ [])

abbrev authenticate_first : Error
authenticate_first = invalid_state (
    b'a' ∷ b'u' ∷ b't' ∷ b'h' ∷ b'e' ∷ b'n' ∷ b't' ∷ b'i' ∷ b'c' ∷ b'a' ∷ b't' ∷ b'e' ∷ b' ' ∷ b'r'
    ∷ b'e' ∷ b'q' ∷ b'u' ∷ b'i' ∷ b'r' ∷ b'e' ∷ b's' ∷ b' ' ∷ b'c' ∷ b'o' ∷ b'n' ∷ b'n' ∷ b'e'
    ∷ b'c' ∷ b't' ∷ b' ' ∷ b'a' ∷ b'n' ∷ b'd' ∷ b' ' ∷ b'l' ∷ b'o' ∷ b'g' ∷ b'i' ∷ b'n' ∷ b' '
    ∷ b'f' ∷ b'i' ∷ b'r' ∷ b's' ∷ b't' ∷ [])

-- `==` of two states.
abbrev is_shut_down : SessionState → Bool
is_shut_down shut_down = true
is_shut_down _ = false

abbrev pub is_authenticated : SessionState → Bool
is_authenticated authenticated = true
is_authenticated _ = false

abbrev pub is_new : SessionState → Bool
is_new new_state = true
is_new _ = false

abbrev pub is_connected : SessionState → Bool
is_connected connected = true
is_connected _ = false

unfoldable pub can : SessionState → Action → SessionState ⊎ Error
can shut_down action = inr sdk_shutdown
can new_state connect = inl connected
can connected connect = inl connected
can logged_in connect = inl connected
can authenticated connect = inl connected
can terminated connect = inl connected
can connected login = inl logged_in
can logged_in login = inl logged_in
can authenticated login = inl logged_in
can new_state login = inr login_first
can terminated login = inr login_after_logout
can connected authenticate = inl authenticated
can logged_in authenticate = inl authenticated
can authenticated authenticate = inl authenticated
can new_state authenticate = inr authenticate_first
can terminated authenticate = inl authenticated
can new_state shutdown = inl shut_down
can connected shutdown = inl shut_down
can logged_in shutdown = inl shut_down
can authenticated shutdown = inl shut_down
can terminated shutdown = inl shut_down

pub data ConnectPlan : Type 0 where
  already_ready : ConnectPlan
  restore_persisted_session : ConnectPlan
  connect_transport_only : ConnectPlan

unfoldable pub plan_connect : SessionState → Bool → Bool → ConnectPlan ⊎ Error
plan_connect session_state has_local_session transport_connected =
    if is_shut_down session_state
    then inr sdk_shutdown
    else if is_authenticated session_state && transport_connected
    then inl already_ready
    else if has_local_session
    then inl restore_persisted_session
    else inl connect_transport_only

pub data AuthenticateTransportPlan : Type 0 where
  use_current : AuthenticateTransportPlan
  reconnect_transport : AuthenticateTransportPlan

-- What `?` makes of the state machine's answer.
after_can : SessionState ⊎ Error → AuthenticateTransportPlan ⊎ Error
after_can (inl next) = inl use_current
after_can (inr e) = inr e

unfoldable pub plan_authenticate_transport : SessionState → Bool → AuthenticateTransportPlan ⊎ Error
unfolding can after_can
plan_authenticate_transport session_state transport_connected =
    if is_shut_down session_state
    then inr sdk_shutdown
    else if not transport_connected
    then inl reconnect_transport
    else after_can (can session_state authenticate)

-- `require_authenticated`; the name of the state that the error carries is a parameter.
unfoldable pub require_authenticated : (SessionState → Text) → SessionState → Option Error
require_authenticated name authenticated = none
require_authenticated name shut_down = some sdk_shutdown
require_authenticated name new_state = some (session_not_ready (name new_state))
require_authenticated name connected = some (session_not_ready (name connected))
require_authenticated name logged_in = some (session_not_ready (name logged_in))
require_authenticated name terminated = some (session_not_ready (name terminated))

unfoldable pub outbound_queue_ready : SessionState → Bool → Bool → Bool
outbound_queue_ready session_state has_current_uid has_transport =
    is_authenticated session_state && has_current_uid && has_transport

-- The fields of the actor's `State` that the connection is made of.
pub record State : Type 0 where
  pub session_state : SessionState
  pub has_transport : Bool
  pub has_current_uid : Bool
  pub should_auto_reconnect : Bool
  pub reconnect_attempt : ℕ  -- u32
  pub next_reconnect_at : Option ℕ
  pub network_online : Bool  -- `network_hint.is_online()`
  pub auth_terminal_fired : Bool
  pub inbound_epoch : ℕ  -- u64

abbrev arm_now : ℕ → State → State
arm_now now s = record s { reconnect_attempt = 0; next_reconnect_at = some now }

abbrev pub is_live : SessionState → Bool
is_live connected = true
is_live logged_in = true
is_live authenticated = true
is_live _ = false

-- The state after the probe's answer, and the state before it where the transport was lost.
unfoldable pub apply_transport_health : ℕ → Bool → State → State × Option SessionState
apply_transport_health now probe s =
    if probe
    then (s, none)
    else if not (is_live s.session_state)
    then (s, none)
    else let lost = record s { session_state = new_state; has_transport = false } in
      (if s.should_auto_reconnect then arm_now now lost else lost, some s.session_state)

unfoldable pub reset_reconnect_backoff : State → State
reset_reconnect_backoff s = record s { reconnect_attempt = 0; next_reconnect_at = none }

unfoldable pub base_secs : ℕ → ℕ
base_secs attempt =
    if attempt == 0
    then 1
    else if attempt == 1
    then 2
    else if attempt == 2
    then 4
    else if attempt == 3
    then 8
    else if attempt == 4
    then 16
    else 30

unfoldable pub mark_reconnect_ready_now : ℕ → State → State
mark_reconnect_ready_now now s = arm_now now s

-- `Command::SetNetworkHint`, with whether the hint is one of being online.
unfoldable pub set_network_hint : ℕ → Bool → State → State
unfolding apply_transport_health mark_reconnect_ready_now
set_network_hint now online s =
    let hinted = record s { network_online = online } in
    if not online
    then (apply_transport_health now false hinted).0
    else if not s.network_online && s.should_auto_reconnect
    then mark_reconnect_ready_now now hinted
    else hinted

-- `Command::InboundDisconnected` of an inbound task, with the epoch that the task was started in.
unfoldable pub inbound_disconnected : ℕ → ℕ → State → State
unfolding apply_transport_health
inbound_disconnected now epoch s =
    if not (epoch == s.inbound_epoch) then s else (apply_transport_health now false s).0

-- `delay.max(60 s)` where the system reports the network as offline.
unfoldable pub reconnect_delay : (ℕ → ℕ) → State → ℕ
unfolding base_secs
reconnect_delay jitter s =
    let delay = jitter (base_secs s.reconnect_attempt * 1000) in
    if s.network_online then delay else max delay 60000

-- `jitter` is the product with the random factor, cut to whole milliseconds.
unfoldable pub schedule_next_reconnect : (ℕ → ℕ) → ℕ → State → State
unfolding reconnect_delay
schedule_next_reconnect jitter now s = record s {
  reconnect_attempt = u32_saturating_succ s.reconnect_attempt;
  next_reconnect_at = some (now + reconnect_delay jitter s);
}

-- What the health tick's watchdog and the retry driver ask of a state.
abbrev pub awaits_reauth : State → Bool
awaits_reauth s = is_connected s.session_state && s.has_current_uid

abbrev pub wants_online : State → Bool
wants_online s = s.should_auto_reconnect && (is_new s.session_state || awaits_reauth s)

abbrev pub is_none : Option ℕ → Bool
is_none none = true
is_none (some t) = false

-- The watchdog of the health tick.
unfoldable pub watchdog : ℕ → State → State
watchdog now s =
    if is_shut_down s.session_state
    then s
    else if wants_online s && is_none s.next_reconnect_at
    then arm_now now s
    else s

-- The retry driver when its deadline has come: `reconnect` stands for `try_auto_reconnect` and the
-- handling of what it returns, which runs only past the guard.
unfoldable pub retry_fired : (State → State) → State → State
retry_fired reconnect s =
    if (not (is_new s.session_state) && not (awaits_reauth s)) || not s.should_auto_reconnect
    then record s { next_reconnect_at = none }
    else reconnect s

-- `State::disconnect`, and whether it returned `Ok`; `closed` says whether the transport closed.
unfoldable pub close : Bool → State → State × Bool
close closed s =
    if not s.has_transport
    then (s, true)
    else if closed
    then (record s { has_transport = false }, true)
    else (s, false)

-- `trigger_forced_logout`, which goes on whether the transport closed or not. Its event, the record of the
-- reason and the subscriptions cleared are not modelled.
unfoldable pub trigger_forced_logout : Bool → State → State
unfolding reset_reconnect_backoff close
trigger_forced_logout closed s =
    if s.auth_terminal_fired
    then s
    else let fired = record s {
      auth_terminal_fired = true;
      inbound_epoch = u64_wrapping_succ s.inbound_epoch;
    } in
      reset_reconnect_backoff (record (close closed fired).0 {
        session_state = terminated;
        should_auto_reconnect = false;
        next_reconnect_at = none;
      })

-- `Command::Disconnect`.
unfoldable pub disconnect : Bool → State → State
unfolding reset_reconnect_backoff close
disconnect closed s =
    let (off, result) =
      close closed (reset_reconnect_backoff (record s { should_auto_reconnect = false })) in
    if result && not (is_shut_down off.session_state)
    then record off { session_state = new_state }
    else off

pub data AuthenticateRetryOperation : Type 0 where
  reconnect_op : AuthenticateRetryOperation
  authenticate_op : AuthenticateRetryOperation

abbrev is_unanswered : Error → Bool
is_unanswered (request_unanswered context) = true
is_unanswered _ = false

-- `auth_request_timeout`, in milliseconds.
unfoldable pub auth_request_timeout : ℕ → ℕ
auth_request_timeout configured = min configured 5000

-- `execute_authenticate_with_retry`, with the driver's `run` a parameter. Nothing stands for the
-- `unreachable!` behind the loop.
module _ {World : Type 0} (run : World → AuthenticateRetryOperation → World × Option Error) where
  abbrev Answer : Type 0
  Answer = Option (World × Option Error)

  -- `?` on the outcome of an operation.
  proceed : World × Option Error → (World → Answer) → Answer
  proceed (w, none) next = next w
  proceed (w, some e) next = some (w, some e)

  after_reconnect : Bool → World → (World → Answer) → Answer
  unfolding proceed
  after_reconnect false w next = next w
  after_reconnect true w next = proceed (run w reconnect_op) next

  after_authenticate : Bool → World × Option Error → (World → Answer) → Answer
  after_authenticate first (w, none) retry = some (w, none)
  after_authenticate first (w, some e) retry =
      let again = retry w in if is_unanswered e && first then again else some (w, some e)

  -- The rounds left, of which the last does not retry.
  rounds : ℕ → Bool → World → Answer
  unfolding after_reconnect after_authenticate
  rounds zero need_reconnect w = none
  rounds (suc left) need_reconnect w =
      after_reconnect need_reconnect w (λ w'.
        after_authenticate (left == 1) (run w' authenticate_op) (λ w''. rounds left true w''))

  unfoldable pub execute_authenticate_with_retry : Bool → World → Answer
  unfolding rounds
  execute_authenticate_with_retry need_reconnect w = rounds 2 need_reconnect w
