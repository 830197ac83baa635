-- ===== src/Connection/Driver/Restored.antt =====
-- What `try_auto_reconnect` of crates/privchat-sdk/src/lib.rs keeps of a session.
use privchat_sdk.Base.{
  if_elim, ◌+◌, ◌≡◌, refl, ◌⊎◌, inl, inr, Bool, true, false, Option, none, some,
}
use privchat_sdk.Errors.{Error}
use privchat_sdk.Connection.{
  SessionState, connected, authenticated, connect, authenticate, AuthenticateRetryOperation,
  reconnect_op, authenticate_op, State, can, is_live, execute_authenticate_with_retry,
}
use privchat_sdk.Connection.Driver.{
  Script, Actor, with_state, connect_transport, dismantle_auth_transport, at_connected,
  authenticated_as, authenticate_allowed, run, after_restore, restore, after_transport, moved,
  hand_over,
}
use privchat_sdk.Connection.Driver.Keeps.{Holds, execute-Holds}

is_live-connected :
    (next : SessionState)
    → ◌≡◌ {A = SessionState ⊎ Error} (inl connected) (inl next)
    → is_live next ≡ true
is_live-connected next e = let same : connected ≡ next = cc in rw⁻¹ same refl

module _ (P : State → Type 0)
    (kept : (s t : State)
      → s.should_auto_reconnect ≡ t.should_auto_reconnect
      → s.next_reconnect_at ≡ t.next_reconnect_at
      → P s
      → P t)
    (dismantled : (script : Script) (a : Actor)
      → P a.state
      → P (dismantle_auth_transport script a).state) where
  pub connect-Kept :
      (script : Script) (a : Actor) → P a.state → P (connect_transport script a).0.state
  unfolding connect_transport
  connect-Kept script a armed = kept a.state _ refl refl armed

  at_connected-Kept : (r : Actor × Option Error) → P r.0.state → P (at_connected r).0.state
  unfolding at_connected
  at_connected-Kept (a, none) armed = kept a.state _ refl refl armed
  at_connected-Kept (a, some e) armed = armed

  allowed-Kept :
      (script : Script) (a : Actor) (next : SessionState ⊎ Error)
      → P a.state
      → P (authenticate_allowed script a next).0.state
  unfolding authenticate_allowed authenticated_as
  allowed-Kept script a (inr e) armed = armed
  allowed-Kept script a (inl next) armed = answered (script.authenticates a.authenticate_count)
    where
      answered :
          (r : Option Error)
          → P
              (authenticated_as next
                (record a { authenticate_count = a.authenticate_count + 1 })
                r).0.state
      answered none = kept a.state _ refl refl armed
      answered (some e) = kept a.state _ refl refl armed

  run-Kept :
      (script : Script) (a : Actor) (op : AuthenticateRetryOperation)
      → P a.state
      → P (run script a op).0.state
  unfolding run
  run-Kept script a reconnect_op armed =
      at_connected-Kept (connect_transport script (dismantle_auth_transport script a))
        (connect-Kept script (dismantle_auth_transport script a) (dismantled script a armed))
  run-Kept script a authenticate_op armed =
      allowed-Kept script a (can a.state.session_state authenticate) armed

  -- What an attempt to restore a session leaves: an armed session, and a live state where it succeeds.
  abbrev pub Restored : Actor × (SessionState ⊎ Error) → Type 0
  Restored r = P r.0.state × ((next : SessionState) → r.1 ≡ inl next → is_live next ≡ true)

  after_restore-Restored :
      (script : Script) (booted : Bool) (r : Option (Actor × Option Error)) (a : Actor)
      → Holds (run script) (λ w. P w.state) (run-Kept script) r
      → P a.state
      → Restored (after_restore script booted r a)
  unfolding after_restore
  after_restore-Restored script booted none a h armed = (armed, λ next e. cc)
  after_restore-Restored script booted (some (w, none)) a h armed =
      (h, λ next e. let same : authenticated ≡ next = cc in rw⁻¹ same refl)
  after_restore-Restored script booted (some (w, some err)) a h armed =
      (dismantled script w h, λ next e. cc)

  restore-Restored :
      (script : Script) (snapshot : Option Bool) (a : Actor)
      → P a.state
      → Restored (restore script snapshot a)
  unfolding restore
  restore-Restored script none a armed = (armed, is_live-connected)
  restore-Restored script (some booted) a armed =
      after_restore-Restored script booted (execute_authenticate_with_retry (run script) false a) a
        (execute-Holds (run script) (λ w. P w.state) (run-Kept script) false a armed) armed

  pub after_transport-Restored :
      (script : Script) (r : Actor × Option Error)
      → P r.0.state
      → Restored (after_transport script r)
  unfolding after_transport
  after_transport-Restored script (a, some e) armed = (armed, λ next h. cc)
  after_transport-Restored script (a, none) armed =
      let up = with_state a (record (a.state) { session_state = connected }) in
      let armed' = kept a.state up.state refl refl armed in
      if_elim Restored up.state.has_current_uid
        (λ known. restore-Restored script script.snapshot up armed')
        (λ unknown. (armed', is_live-connected))

  moved-Kept : (a : Actor) (next : SessionState ⊎ Error) → P a.state → P (moved a next).state
  unfolding moved
  moved-Kept a (inl next) armed = kept a.state _ refl refl armed
  moved-Kept a (inr e) armed = armed

  pub hand_over-Kept : (r : Actor × Option Error) → P r.0.state → P (hand_over r).state
  unfolding hand_over
  hand_over-Kept (a, some e) armed = armed
  hand_over-Kept (a, none) armed = moved-Kept a (can a.state.session_state connect) armed
