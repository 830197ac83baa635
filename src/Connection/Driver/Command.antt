-- ===== src/Connection/Driver/Command.antt =====
-- `Command::Connect` of crates/privchat-sdk/src/lib.rs. The events, the inbound task beyond its epoch, the
-- reason of the last logout, the replays and the resumed sync behind the answer are not modelled.
use privchat_sdk.Base.{
  if◌then◌else◌, ◌≡◌, refl, sym, ◌∙◌, ◌⊎◌, inl, inr, Bool, true, false, Option, none, some, arith,
}
use privchat_sdk.Base.Word.{u64_wrapping_succ}
use privchat_sdk.Errors.{Error}
use privchat_sdk.Connection.{
  SessionState, new_state, connected, logged_in, authenticated, terminated, shut_down, connect,
  ConnectPlan, already_ready, restore_persisted_session, connect_transport_only, State,
  is_authenticated, can, plan_connect, is_live, apply_transport_health, reset_reconnect_backoff,
  schedule_next_reconnect, is_none,
}
use privchat_sdk.Connection.Driver.{
  Script, Actor, with_state, connect_transport, dismantle_auth_transport, try_auto_reconnect,
}
use privchat_sdk.Connection.Driver.Restored.{connect-Kept, Restored, after_transport-Restored}
use privchat_sdk.Sync.{note_network_available}

is_ready : ConnectPlan ⊎ Error → Bool
is_ready (inl already_ready) = true
is_ready _ = false

unfoldable pub adopt : Actor × (SessionState ⊎ Error) → Actor × Option Error
adopt (a, inl next) = (with_state a (record (a.state) { session_state = next }), none)
adopt (a, inr e) = (a, some e)

unfoldable pub moved_on : SessionState → Actor × Option Error → Actor × Option Error
moved_on next (a, none) = (with_state a (record (a.state) { session_state = next }), none)
moved_on next (a, some e) = (a, some e)

unfoldable pub connect_only : Script → Actor → SessionState ⊎ Error → Actor × Option Error
unfolding moved_on
connect_only script a (inr e) = (a, some e)
connect_only script a (inl next) = moved_on next (connect_transport script a)

unfoldable pub follow_plan : Script → Actor → ConnectPlan ⊎ Error → Actor × Option Error
unfolding adopt connect_only
follow_plan script a (inr e) = (a, some e)
follow_plan script a (inl already_ready) = (a, none)
follow_plan script a (inl restore_persisted_session) = adopt (try_auto_reconnect script a)
follow_plan script a (inl connect_transport_only) =
    connect_only script a (can a.state.session_state connect)

-- A successful connect; a session that was already ready keeps its inbound task and the sync's deadlines.
unfoldable pub connect_succeeded : Bool → Actor → Actor
connect_succeeded was_up a = record a {
  state = record (reset_reconnect_backoff a.state) {
    network_online = true;
    auth_terminal_fired = false;
    inbound_epoch =
        if was_up then a.state.inbound_epoch else u64_wrapping_succ a.state.inbound_epoch;
  };
  sync_coordinator =
      if was_up then a.sync_coordinator else note_network_available a.sync_coordinator;
}

unfoldable pub answer_connect : Script → Bool → Actor × Option Error → Actor × Option Error
unfolding connect_succeeded
answer_connect script was_up (a, none) = (connect_succeeded was_up a, none)
answer_connect script was_up (a, some e) =
    (with_state a (schedule_next_reconnect script.jitter script.now a.state), some e)

unfoldable pub wanting_online : Actor → Actor
wanting_online a = with_state a (record (a.state) { should_auto_reconnect = true })

unfoldable pub probed : Script → Bool → Actor → Actor
probed script true a = a
probed script false a = with_state a (apply_transport_health script.now false a.state).0

-- `probe` says whether the transport is connected.
unfoldable pub connect_command : Script → Bool → Actor → Actor × Option Error
unfolding is_ready follow_plan answer_connect wanting_online probed
connect_command script probe a =
    let plan = plan_connect a.state.session_state a.state.has_current_uid probe in
    let wanting = wanting_online a in
    answer_connect script (is_ready plan) (follow_plan script (probed script probe wanting) plan)

-- A session that wants to be online.
abbrev IsWanted : State → Type 0
IsWanted s = s.should_auto_reconnect ≡ true

kept :
    (s t : State)
    → s.should_auto_reconnect ≡ t.should_auto_reconnect
    → s.next_reconnect_at ≡ t.next_reconnect_at
    → IsWanted s
    → IsWanted t
kept s t e f wanted = sym e ∙ wanted

dismantled :
    (script : Script) (a : Actor)
    → IsWanted a.state
    → IsWanted (dismantle_auth_transport script a).state
unfolding dismantle_auth_transport apply_transport_health
dismantled script a wanted = ground arith

-- The state where a connect succeeds.
abbrev Reached : Actor × Option Error → Type 0
Reached r = IsWanted r.0.state × (r.1 ≡ none → is_live r.0.state.session_state ≡ true)

adopt-Reached :
    (r : Actor × (SessionState ⊎ Error)) → Restored IsWanted kept dismantled r → Reached (adopt r)
unfolding adopt
adopt-Reached (a, inl next) (wanted, live) = (wanted, λ e. live next refl)
adopt-Reached (a, inr e) (wanted, live) = (wanted, λ h. cc)

moved_on-Reached :
    (next : SessionState) (r : Actor × Option Error)
    → is_live next ≡ true
    → IsWanted r.0.state
    → Reached (moved_on next r)
unfolding moved_on
moved_on-Reached next (a, none) live wanted = (wanted, λ e. live)
moved_on-Reached next (a, some e) live wanted = (wanted, λ h. cc)

only-Reached :
    (script : Script) (a : Actor) (s : SessionState)
    → IsWanted a.state
    → Reached (connect_only script a (can s connect))
unfolding connect_only can
only-Reached script a shut_down wanted = (wanted, λ h. cc)
only-Reached script a new_state wanted =
    moved_on-Reached connected (connect_transport script a) refl
      (connect-Kept IsWanted kept dismantled script a wanted)
only-Reached script a connected wanted =
    moved_on-Reached connected (connect_transport script a) refl
      (connect-Kept IsWanted kept dismantled script a wanted)
only-Reached script a logged_in wanted =
    moved_on-Reached connected (connect_transport script a) refl
      (connect-Kept IsWanted kept dismantled script a wanted)
only-Reached script a authenticated wanted =
    moved_on-Reached connected (connect_transport script a) refl
      (connect-Kept IsWanted kept dismantled script a wanted)
only-Reached script a terminated wanted =
    moved_on-Reached connected (connect_transport script a) refl
      (connect-Kept IsWanted kept dismantled script a wanted)

plan-Reached :
    (script : Script) (a : Actor) (plan : ConnectPlan ⊎ Error)
    → IsWanted a.state
    → (plan ≡ inl already_ready → is_live a.state.session_state ≡ true)
    → Reached (follow_plan script a plan)
unfolding follow_plan try_auto_reconnect
plan-Reached script a (inr e) wanted was_up = (wanted, λ h. cc)
plan-Reached script a (inl already_ready) wanted was_up = (wanted, λ h. was_up refl)
plan-Reached script a (inl restore_persisted_session) wanted was_up =
    adopt-Reached (try_auto_reconnect script a) (
      after_transport-Restored IsWanted kept dismantled script (connect_transport script a)
        (connect-Kept IsWanted kept dismantled script a wanted))
plan-Reached script a (inl connect_transport_only) wanted was_up =
    only-Reached script a a.state.session_state wanted

-- What an explicit connect comes to: a live session without a deadline, or an error and a deadline.
abbrev pub Answered : Actor × Option Error → Type 0
Answered r =
    IsWanted r.0.state
    × (r.1 ≡ none
        → (is_live r.0.state.session_state ≡ true)
          × (r.0.state.next_reconnect_at ≡ none)
          × (r.0.state.auth_terminal_fired ≡ false)
          × (r.0.state.network_online ≡ true))
    × ((e : Error) → r.1 ≡ some e → is_none r.0.state.next_reconnect_at ≡ false)

answer-Answered :
    (script : Script) (was_up : Bool) (r : Actor × Option Error)
    → Reached r
    → Answered (answer_connect script was_up r)
unfolding answer_connect connect_succeeded reset_reconnect_backoff schedule_next_reconnect
answer-Answered script was_up (a, none) (wanted, live) =
    (wanted, λ h. (live refl, refl, refl, refl), λ e h. cc)
answer-Answered script was_up (a, some e) (wanted, live) = (wanted, λ h. cc, λ x h. refl)

ready_live :
    (s : SessionState) (known probe : Bool)
    → plan_connect s known probe ≡ inl already_ready
    → (is_authenticated s ≡ true) × (probe ≡ true)
unfolding plan_connect
ready_live s known probe h = ground arith

probed-IsWanted :
    (script : Script) (probe : Bool) (a : Actor)
    → IsWanted a.state
    → IsWanted (probed script probe a).state
unfolding probed apply_transport_health
probed-IsWanted script true a wanted = wanted
probed-IsWanted script false a wanted = ground arith

authenticated_live : (s : SessionState) → is_authenticated s ≡ true → is_live s ≡ true
authenticated_live authenticated h = refl
authenticated_live new_state h = cc
authenticated_live connected h = refl
authenticated_live logged_in h = refl
authenticated_live terminated h = cc
authenticated_live shut_down h = cc

probed_live :
    (script : Script) (probe : Bool) (a : Actor)
    → plan_connect a.state.session_state a.state.has_current_uid probe ≡ inl already_ready
    → is_live (probed script probe (wanting_online a)).state.session_state ≡ true
unfolding probed wanting_online
probed_live script true a h =
    authenticated_live a.state.session_state
      (ready_live a.state.session_state a.state.has_current_uid true h).0
probed_live script false a h =
    absurd (let q = (ready_live a.state.session_state a.state.has_current_uid false h).1 in cc)

-- An explicit connect, whatever the network, the store and the server answer, leaves a session that wants
-- to be online: where it succeeds, live, without a deadline, with the gate of the forced logout open and the
-- network taken for online; where it fails, with a deadline for the retry driver.
pub connect_command-Answered :
    (script : Script) (probe : Bool) (a : Actor) → Answered (connect_command script probe a)
unfolding connect_command wanting_online
connect_command-Answered script probe a =
    let known = probed script probe (wanting_online a) in
    let plan = plan_connect a.state.session_state a.state.has_current_uid probe in
    let wanted = probed-IsWanted script probe (wanting_online a) refl in
    answer-Answered script (is_ready plan) (follow_plan script known plan)
      (plan-Reached script known plan wanted (probed_live script probe a))
