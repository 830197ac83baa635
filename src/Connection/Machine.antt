-- ===== src/Connection/Machine.antt =====
-- What sequences of actions do to the session of crates/privchat-sdk/src/lib.rs, and what its guards
-- promise one another.
use privchat_sdk.Base.{◌≡◌, refl, ◌⊎◌, inl, inr, Bool, true, false, ◌||◌, none, List, [], ◌∷◌}
use privchat_sdk.Base.Text.{Text}
use privchat_sdk.Connection.{
  SessionState, new_state, connected, logged_in, authenticated, terminated, shut_down, Action,
  connect, login, authenticate, shutdown, already_ready, use_current, can, plan_connect, after_can,
  plan_authenticate_transport, require_authenticated, outbound_queue_ready,
}

-- An action is refused where the state machine refuses it, and then changes nothing.
pub perform : SessionState → Action → SessionState
perform s a = elim (can s a) [ inl next ↦ next | inr e ↦ s ]

pub perform_all : SessionState → List Action → SessionState
perform_all s [] = s
perform_all s (a ∷ acts) = perform_all (perform s a) acts

abbrev is_shutdown : Action → Bool
is_shutdown shutdown = true
is_shutdown _ = false

abbrev is_connect : Action → Bool
is_connect connect = true
is_connect _ = false

unfoldable pub any_action : (Action → Bool) → List Action → Bool
any_action p [] = false
any_action p (a ∷ acts) = p a || any_action p acts

shut_down-stays : (acts : List Action) → perform_all shut_down acts ≡ shut_down
unfolding perform_all perform can
shut_down-stays [] = refl
shut_down-stays (a ∷ acts) = shut_down-stays acts

shutdown-works : (s : SessionState) → perform s shutdown ≡ shut_down
unfolding perform can
shutdown-works new_state = refl
shutdown-works connected = refl
shutdown-works logged_in = refl
shutdown-works authenticated = refl
shutdown-works terminated = refl
shutdown-works shut_down = refl

-- Once a shutdown is among the actions, the session ends shut down, from every state and whatever
-- actions come before and after.
pub shutdown_is_final :
    (s : SessionState) (acts : List Action)
    → any_action is_shutdown acts ≡ true
    → perform_all s acts ≡ shut_down
unfolding perform_all any_action
shutdown_is_final s [] h = cc
shutdown_is_final s (shutdown ∷ acts) h = rw (shutdown-works s) (shut_down-stays acts)
shutdown_is_final s (connect ∷ acts) h = shutdown_is_final (perform s connect) acts h
shutdown_is_final s (login ∷ acts) h = shutdown_is_final (perform s login) acts h
shutdown_is_final s (authenticate ∷ acts) h = shutdown_is_final (perform s authenticate) acts h

-- A session that never connected is new or shut down: no login and no authentication gets it further.
pub no_session_without_connect :
    (acts : List Action)
    → any_action is_connect acts ≡ false
    → (perform_all new_state acts ≡ new_state) ⊎ (perform_all new_state acts ≡ shut_down)
unfolding perform_all perform any_action can
no_session_without_connect [] h = inl refl
no_session_without_connect (connect ∷ acts) h = cc
no_session_without_connect (login ∷ acts) h = no_session_without_connect acts h
no_session_without_connect (authenticate ∷ acts) h = no_session_without_connect acts h
no_session_without_connect (shutdown ∷ acts) h = inr (shut_down-stays acts)

-- Where the outbound queue may run, a call passes the authentication check, a connect has nothing to do
-- and an authentication keeps the transport and the state, if the transport is up.
pub outbound_queue_ready-ready :
    (name : SessionState → Text) (s : SessionState) (has_current_uid has_transport : Bool)
    → outbound_queue_ready s has_current_uid has_transport ≡ true
    → (require_authenticated name s ≡ none)
      × (plan_connect s has_current_uid true ≡ inl already_ready)
      × (plan_authenticate_transport s true ≡ inl use_current)
      × (perform s authenticate ≡ s)
unfolding outbound_queue_ready require_authenticated plan_connect plan_authenticate_transport
    perform can after_can
outbound_queue_ready-ready name new_state u t h = cc
outbound_queue_ready-ready name connected u t h = cc
outbound_queue_ready-ready name logged_in u t h = cc
outbound_queue_ready-ready name authenticated u t h = (refl, refl, refl, refl)
outbound_queue_ready-ready name terminated u t h = cc
outbound_queue_ready-ready name shut_down u t h = cc
