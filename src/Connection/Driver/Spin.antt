-- ===== src/Connection/Driver/Spin.antt =====
-- A session that was logged out by force and then connected again by the host, with a login that the
-- server refuses for good: what the retry driver of crates/privchat-sdk/src/lib.rs does then.
use privchat_sdk.Base.{
  if_true, ℕ, zero, suc, ◌+◌, ◌≡◌, refl, ap, ◌∙◌, inr, Bool, true, false, Option, none, some, arith,
}
use privchat_sdk.Base.Text.{Text}
use privchat_sdk.Errors.{auth}
use privchat_sdk.Errors.Auth.{is_auth_terminal}
use privchat_sdk.Connection.{
  new_state, connected, State, can, apply_transport_health, trigger_forced_logout, after_reconnect,
  after_authenticate, rounds, execute_authenticate_with_retry,
}
use privchat_sdk.Connection.Driver.{
  Script, Actor, with_state, is_some, connect_transport, dismantle_auth_transport, authenticated_as,
  authenticate_allowed, run, after_restore, restore, after_transport, try_auto_reconnect,
  after_attempt, retry_driver,
}

-- The network is up, and the server refuses the stored login for good.
pub record Refuses (script : Script) (message : Text) : Type 0 where
  pub up : (n : ℕ) → script.connects n ≡ none
  pub stored : (booted : Bool) × (script.snapshot ≡ some booted)
  pub refused : (n : ℕ) → script.authenticates n ≡ some (auth message)
  pub terminal : is_auth_terminal (auth message) ≡ true

-- The session wants to be online again, and the gate of the forced logout is still shut.
pub record IsShut (s : State) : Type 0 where
  pub wanted : s.should_auto_reconnect ≡ true
  pub fired : s.auth_terminal_fired ≡ true
  pub has_user : s.has_current_uid ≡ true

-- The actor after one attempt.
abbrev spun : Script → Actor → Actor
spun script a = record a {
  state = record (a.state) {
    session_state = new_state;
    has_transport = false;
    reconnect_attempt = 0;
    next_reconnect_at = some script.now;
  };
  connect_count = a.connect_count + 1;
  authenticate_count = a.authenticate_count + 1;
}

-- The actor with its transport up.
abbrev raised : Actor → Actor
raised a = record a {
  state = record (a.state) { session_state = connected; has_transport = true };
  connect_count = a.connect_count + 1;
}

abbrev tried : Actor → Actor
tried a = record (raised a) { authenticate_count = a.authenticate_count + 1 }

execute-refused :
    (script : Script) (message : Text) (a : Actor)
    → Refuses script message
    → execute_authenticate_with_retry (run script) false (raised a)
      ≡ some (tried a, some (auth message))
unfolding execute_authenticate_with_retry rounds after_reconnect after_authenticate run
    authenticate_allowed authenticated_as can
execute-refused script message a r = rw (r.refused a.authenticate_count) refl

dismantle-spun :
    (script : Script) (a : Actor)
    → IsShut a.state
    → dismantle_auth_transport script (tried a) ≡ spun script a
unfolding dismantle_auth_transport apply_transport_health
dismantle-spun script a shut = rw shut.wanted refl

restore-spun :
    (script : Script) (message : Text) (snapshot : Option Bool) (booted : Bool) (a : Actor)
    → snapshot ≡ some booted
    → Refuses script message
    → IsShut a.state
    → restore script snapshot (raised a) ≡ (spun script a, inr (auth message))
unfolding restore after_restore
restore-spun script message none booted a e r shut = cc
restore-spun script message (some other) booted a e r shut =
    ap (λ answer. after_restore script other answer (raised a)) (execute-refused script message a r)
    ∙ ap (λ w. (w, inr (auth message))) (dismantle-spun script a shut)

-- The actor as `State::connect` leaves it.
abbrev linked : Actor → Actor
linked a = record a {
  state = record (a.state) { has_transport = true };
  connect_count = a.connect_count + 1;
}

connect-linked :
    (script : Script) (message : Text) (a : Actor)
    → Refuses script message
    → connect_transport script a ≡ (linked a, none)
unfolding connect_transport is_some
connect-linked script message a r = rw (r.up a.connect_count) refl

try-spun :
    (script : Script) (message : Text) (a : Actor)
    → Refuses script message
    → IsShut a.state
    → try_auto_reconnect script a ≡ (spun script a, inr (auth message))
unfolding try_auto_reconnect after_transport
try-spun script message a r shut =
    ap (after_transport script) (connect-linked script message a r)
    ∙ if_true a.state.has_current_uid _ _ shut.has_user
    ∙ restore-spun script message script.snapshot r.stored.0 a r.stored.1 r shut

retry-spun :
    (script : Script) (message : Text) (a : Actor)
    → Refuses script message
    → IsShut a.state
    → retry_driver script a ≡ spun script a
unfolding retry_driver after_attempt trigger_forced_logout
retry-spun script message a r shut =
    ap (after_attempt script) (try-spun script message a r shut)
    ∙ if_true (is_auth_terminal (auth message)) _ _ r.terminal
    ∙ ap (with_state (spun script a)) (if_true a.state.auth_terminal_fired _ _ shut.fired)

-- So many attempts of the driver, one after another.
pub drive : ℕ → Script → Actor → Actor
drive zero script a = a
drive (suc n) script a = drive n script (retry_driver script a)

-- When the host connects again after a forced logout and the server refuses the stored login for good,
-- the driver's attempts follow one another without any delay: after each, the next is due at once and
-- the back-off is at its start, no logout stops them, and each sends the refused login once more.
pub refused_login-spins :
    (n : ℕ) (script : Script) (message : Text) (a : Actor)
    → Refuses script message
    → IsShut a.state
    → ((drive (suc n) script a).state.next_reconnect_at ≡ some script.now)
      × ((drive (suc n) script a).state.reconnect_attempt ≡ 0)
      × ((drive (suc n) script a).state.should_auto_reconnect ≡ true)
      × ((drive (suc n) script a).authenticate_count ≡ a.authenticate_count + suc n)
unfolding drive
refused_login-spins zero script message a r shut =
    let e = retry-spun script message a r shut in
    (
      ap (λ b. b.state.next_reconnect_at) e,
      ap (λ b. b.state.reconnect_attempt) e,
      ap (λ b. b.state.should_auto_reconnect) e ∙ shut.wanted,
      ap (λ b. b.authenticate_count) e,
    )
refused_login-spins (suc n) script message a r shut =
    let e = retry-spun script message a r shut in
    let (due, start, wanted, count) =
      refused_login-spins n script message (spun script a) r
        (record { wanted = shut.wanted; fired = shut.fired; has_user = shut.has_user }) in
    (
      ap (λ b. (drive (suc n) script b).state.next_reconnect_at) e ∙ due,
      ap (λ b. (drive (suc n) script b).state.reconnect_attempt) e ∙ start,
      ap (λ b. (drive (suc n) script b).state.should_auto_reconnect) e ∙ wanted,
      ap (λ b. (drive (suc n) script b).authenticate_count) e ∙ omega (arith, count),
    )
