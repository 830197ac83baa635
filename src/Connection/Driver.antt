-- ===== src/Connection/Driver.antt =====
-- What the retry driver and `Command::Connect` of crates/privchat-sdk/src/lib.rs do: `try_auto_reconnect`, the
-- authentication's driver, and every way that a result is handled. The answers to the attempts to connect
-- and to authenticate are a script, by their number; one instant stands for the time of a call. The
-- inbound task, the replays, the resumed sync and the events are not modelled.
pub mod Keeps
pub mod Restored
pub mod Outcome
pub mod Spin
pub mod Command
use privchat_sdk.Base.{
  if◌then◌else◌, ℕ, ◌+◌, ◌⊎◌, inl, inr, Bool, true, false, not, Option, none, some,
}
use privchat_sdk.Base.Word.{u32_saturating_succ, u64_wrapping_succ}
use privchat_sdk.Errors.{Error, actor_closed}
use privchat_sdk.Errors.Auth.{AuthErrorKind, recoverable, auth_kind, is_auth_terminal}
use privchat_sdk.Connection.{
  SessionState, connected, authenticated, connect, authenticate, AuthenticateRetryOperation,
  reconnect_op, authenticate_op, State, can, apply_transport_health, reset_reconnect_backoff,
  schedule_next_reconnect, trigger_forced_logout, execute_authenticate_with_retry,
}
use privchat_sdk.Sync.{SyncCoordinator, note_network_available}

-- What the network and the store answer, and whether a transport closes.
pub record Script : Type 0 where
  pub connects : ℕ → Option Error
  pub authenticates : ℕ → Option Error
  pub snapshot : Option Bool  -- `load_session`: the snapshot's `bootstrap_completed`
  pub closes : Bool
  pub now : ℕ
  pub jitter : ℕ → ℕ

-- The actor, with how many attempts it has made.
pub record Actor : Type 0 where
  pub state : State
  pub sync_coordinator : SyncCoordinator
  pub bootstrap_completed : Bool
  pub connect_count : ℕ
  pub authenticate_count : ℕ

abbrev pub with_state : Actor → State → Actor
with_state a s = record a { state = s }

unfoldable pub is_some : Option Error → Bool
is_some none = false
is_some (some e) = true

-- `State::connect` within its time: the transport stands exactly where it succeeds.
unfoldable pub connect_transport : Script → Actor → Actor × Option Error
unfolding is_some
connect_transport script a =
    let answer = script.connects a.connect_count in
    (
      record a {
        state = record (a.state) { has_transport = not (is_some answer) };
        connect_count = a.connect_count + 1;
      },
      answer,
    )

unfoldable pub dismantle_auth_transport : Script → Actor → Actor
dismantle_auth_transport script a = with_state a (apply_transport_health script.now false a.state).0

unfoldable pub at_connected : Actor × Option Error → Actor × Option Error
at_connected (a, none) = (with_state a (record (a.state) { session_state = connected }), none)
at_connected (a, some e) = (a, some e)

unfoldable pub authenticated_as : SessionState → Actor → Option Error → Actor × Option Error
authenticated_as next a none =
    (with_state a (record (a.state) { session_state = next; has_current_uid = true }), none)
authenticated_as next a (some e) = (a, some e)

unfoldable pub authenticate_allowed : Script → Actor → SessionState ⊎ Error → Actor × Option Error
unfolding authenticated_as
authenticate_allowed script a (inr e) = (a, some e)
authenticate_allowed script a (inl next) =
    authenticated_as next (record a { authenticate_count = a.authenticate_count + 1 })
      (script.authenticates a.authenticate_count)

-- `ActorAuthenticateRetryDriver::run`.
unfoldable pub run : Script → Actor → AuthenticateRetryOperation → Actor × Option Error
unfolding at_connected authenticate_allowed
run script a reconnect_op =
    at_connected (connect_transport script (dismantle_auth_transport script a))
run script a authenticate_op =
    authenticate_allowed script a (can a.state.session_state authenticate)

unfoldable pub after_restore :
    Script → Bool → Option (Actor × Option Error) → Actor → Actor × (SessionState ⊎ Error)
after_restore script booted none a = (a, inr actor_closed)
after_restore script booted (some (a, none)) before =
    (record a { bootstrap_completed = booted }, inl authenticated)
after_restore script booted (some (a, some e)) before = (dismantle_auth_transport script a, inr e)

unfoldable pub restore : Script → Option Bool → Actor → Actor × (SessionState ⊎ Error)
unfolding after_restore
restore script none a = (a, inl connected)
restore script (some booted) a =
    after_restore script booted (execute_authenticate_with_retry (run script) false a) a

unfoldable pub after_transport : Script → Actor × Option Error → Actor × (SessionState ⊎ Error)
unfolding restore
after_transport script (a, some e) = (a, inr e)
after_transport script (a, none) =
    let a' = with_state a (record (a.state) { session_state = connected }) in
    if a'.state.has_current_uid then restore script script.snapshot a' else (a', inl connected)

unfoldable pub try_auto_reconnect : Script → Actor → Actor × (SessionState ⊎ Error)
unfolding after_transport
try_auto_reconnect script a = after_transport script (connect_transport script a)

-- A new inbound task is a new epoch.
abbrev pub back_online : SessionState → Actor → Actor
back_online next a = record a {
  state = record (reset_reconnect_backoff (record (a.state) { session_state = next })) {
    auth_terminal_fired = false;
    network_online = true;
    inbound_epoch = u64_wrapping_succ a.state.inbound_epoch;
  };
  sync_coordinator = note_network_available a.sync_coordinator;
}

unfoldable pub moved : Actor → SessionState ⊎ Error → Actor
moved a (inl next) = with_state a (record (a.state) { session_state = next })
moved a (inr e) = a

unfoldable pub hand_over : Actor × Option Error → Actor
unfolding moved
hand_over (a, some e) = a
hand_over (a, none) = moved a (can a.state.session_state connect)

-- The hand-over of an expired token to the host, with another attempt a minute later.
unfoldable pub keep_alive : ℕ → Actor → Actor
keep_alive now a = with_state a (record (a.state) {
  reconnect_attempt = u32_saturating_succ a.state.reconnect_attempt;
  next_reconnect_at = some (now + 60000);
})

unfoldable pub is_recoverable : Option AuthErrorKind → Bool
is_recoverable (some recoverable) = true
is_recoverable _ = false

unfoldable pub after_attempt : Script → Actor × (SessionState ⊎ Error) → Actor
unfolding hand_over keep_alive is_recoverable
after_attempt script (a, inl next) = back_online next a
after_attempt script (a, inr e) =
    if is_auth_terminal e
    then with_state a (trigger_forced_logout script.closes a.state)
    else if is_recoverable (auth_kind e)
    then keep_alive script.now (hand_over (connect_transport script a))
    else with_state a (schedule_next_reconnect script.jitter script.now a.state)

-- The retry driver past its guard.
unfoldable pub retry_driver : Script → Actor → Actor
unfolding after_attempt
retry_driver script a = after_attempt script (try_auto_reconnect script a)
