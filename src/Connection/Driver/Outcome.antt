-- ===== src/Connection/Driver/Outcome.antt =====
-- What an attempt of the retry driver of crates/privchat-sdk/src/lib.rs leaves behind: a session that is
-- online, one that was logged out, or a deadline for the next attempt.
use privchat_sdk.Base.{
  if_elim, ◌≡◌, refl, sym, ap, ◌∙◌, ◌⊎◌, inl, inr, Bool, true, false, none, arith,
}
use privchat_sdk.Errors.{Error}
use privchat_sdk.Errors.Auth.{auth_kind, is_auth_terminal}
use privchat_sdk.Connection.{
  SessionState, terminated, State, is_live, apply_transport_health, reset_reconnect_backoff,
  schedule_next_reconnect, is_none, trigger_forced_logout,
}
use privchat_sdk.Connection.Driver.{
  Script, Actor, connect_transport, dismantle_auth_transport, try_auto_reconnect, keep_alive,
  is_recoverable, after_attempt, retry_driver,
}
use privchat_sdk.Connection.Driver.Restored.{
  connect-Kept, Restored, after_transport-Restored, hand_over-Kept,
}

-- A session that wants to be online and has a deadline.
pub record IsArmed (s : State) : Type 0 where
  pub wanted : s.should_auto_reconnect ≡ true
  pub due : is_none s.next_reconnect_at ≡ false

dismantle-IsArmed :
    (script : Script) (a : Actor)
    → IsArmed a.state
    → IsArmed (dismantle_auth_transport script a).state
unfolding dismantle_auth_transport apply_transport_health
dismantle-IsArmed script a armed =
    let wanted = armed.wanted in
    let due = armed.due in record { wanted = ground arith; due = ground arith }

-- The fields that connecting and a change of the session's state leave alone.
kept :
    (s t : State)
    → s.should_auto_reconnect ≡ t.should_auto_reconnect
    → s.next_reconnect_at ≡ t.next_reconnect_at
    → IsArmed s
    → IsArmed t
kept s t e f armed = record { wanted = sym e ∙ armed.wanted; due = ap is_none (sym f) ∙ armed.due }

-- What an attempt of the driver comes to.
abbrev pub Outcome : State → Type 0
Outcome s =
    ((s.next_reconnect_at ≡ none) × (is_live s.session_state ≡ true))
    ⊎ ((s.session_state ≡ terminated) × (s.should_auto_reconnect ≡ false))
    ⊎ IsArmed s

forced-Outcome : (closes : Bool) (s : State) → IsArmed s → Outcome (trigger_forced_logout closes s)
unfolding trigger_forced_logout reset_reconnect_backoff
forced-Outcome closes s armed =
    if_elim Outcome s.auth_terminal_fired (λ again. inr (inr armed))
      (λ first. inr (inl (refl, refl)))

after_attempt-Outcome :
    (script : Script) (r : Actor × (SessionState ⊎ Error))
    → Restored IsArmed kept dismantle-IsArmed r
    → Outcome (after_attempt script r).state
unfolding after_attempt keep_alive schedule_next_reconnect reset_reconnect_backoff
after_attempt-Outcome script (a, inl next) (armed, live) = inl (refl, live next refl)
after_attempt-Outcome script (a, inr e) (armed, live) =
    if_elim (λ (x : Actor). Outcome x.state) (is_auth_terminal e)
      (λ terminal. forced-Outcome script.closes a.state armed)
      (λ other.
        if_elim (λ (x : Actor). Outcome x.state) (is_recoverable (auth_kind e))
          (λ expired.
            let up =
              hand_over-Kept IsArmed kept dismantle-IsArmed (connect_transport script a)
                (connect-Kept IsArmed kept dismantle-IsArmed script a armed) in
            inr (inr (record { wanted = up.wanted; due = refl })))
          (λ transient. inr (inr (record { wanted = armed.wanted; due = refl }))))

-- However the network, the store and the server answer, an attempt of the retry driver for a session that
-- wants to be online and has a deadline leaves it online without a deadline, or logged out for good, or
-- wanting to be online with a deadline again: it never gives up silently.
pub retry_driver-Outcome :
    (script : Script) (a : Actor) → IsArmed a.state → Outcome (retry_driver script a).state
unfolding retry_driver try_auto_reconnect
retry_driver-Outcome script a armed = after_attempt-Outcome script (try_auto_reconnect script a) (
    after_transport-Restored IsArmed kept dismantle-IsArmed script (connect_transport script a)
      (connect-Kept IsArmed kept dismantle-IsArmed script a armed))
