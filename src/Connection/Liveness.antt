-- ===== src/Connection/Liveness.antt =====
-- The reconnect driver of crates/privchat-sdk/src/lib.rs: a session that wants to be online is never left
-- without a deadline for long, and one that was told to be offline is left alone.
use privchat_sdk.Base.{
  if◌then◌else◌, Bool-cases, ◌⊎◌, inl, inr, ℕ, ◌+◌, ◌*◌, ◌≤◌, ◌<◌, ◌≡◌, refl, ◌≢◌, Bool, true,
  false, none, some, List, [], ◌∷◌, arith,
}
use privchat_sdk.Base.Word.{u32_max, u64_mod}
use privchat_sdk.Connection.{
  new_state, terminated, State, is_live, apply_transport_health, reset_reconnect_backoff, base_secs,
  reconnect_delay, schedule_next_reconnect, wants_online, is_none, watchdog, retry_fired, close,
  trigger_forced_logout, disconnect, set_network_hint, inbound_disconnected,
  mark_reconnect_ready_now,
}

-- After the health tick's watchdog, a session that wants to be online has a deadline for the retry driver,
-- one that was set before is kept, and the driver's guard lets the session through.
pub watchdog-arms :
    (reconnect : State → State) (now : ℕ) (s : State)
    → wants_online s ≡ true
    → (is_none (watchdog now s).next_reconnect_at ≡ false)
      × ((t : ℕ) → s.next_reconnect_at ≡ some t → watchdog now s ≡ s)
      × (retry_fired reconnect (watchdog now s) ≡ reconnect (watchdog now s))
unfolding watchdog retry_fired
watchdog-arms reconnect now s h = (ground arith, λ t e. ground arith, ground arith)

-- What happens to a session with nobody asking for it: the watchdog's tick, a transport found dead or alive,
-- the retry driver's deadline, a hint of the host that the network is up or down, and the end of an inbound
-- task.
pub data Background : Type 0 where
  tick : ℕ → Background
  probed : ℕ → Bool → Background
  deadline : Background
  hinted : ℕ → Bool → Background
  inbound_ended : ℕ → ℕ → Background

module _ (reconnect : State → State) where
  pub react : Background → State → State
  react (tick now) s = watchdog now s
  react (probed now answered) s = (apply_transport_health now answered s).0
  react deadline s = retry_fired reconnect s
  react (hinted now online) s = set_network_hint now online s
  react (inbound_ended now epoch) s = inbound_disconnected now epoch s

  pub react_all : List Background → State → State
  react_all [] s = s
  react_all (b ∷ bs) s = react_all bs (react b s)

  pub IsOffline : State → Type 0
  IsOffline s = (s.should_auto_reconnect ≡ false) × (s.next_reconnect_at ≡ none)

  react-IsOffline : (b : Background) (s : State) → IsOffline s → IsOffline (react b s)
  unfolding IsOffline react watchdog apply_transport_health retry_fired set_network_hint
      inbound_disconnected mark_reconnect_ready_now
  react-IsOffline (tick now) s h = (ground arith, ground arith)
  react-IsOffline (probed now answered) s h = (ground arith, ground arith)
  react-IsOffline deadline s h = (ground arith, ground arith)
  react-IsOffline (hinted now online) s h = (ground arith, ground arith)
  react-IsOffline (inbound_ended now epoch) s h = (ground arith, ground arith)

  react_all-IsOffline :
      (bs : List Background) (s : State) → IsOffline s → IsOffline (react_all bs s)
  unfolding react_all
  react_all-IsOffline [] s h = h
  react_all-IsOffline (b ∷ bs) s h = react_all-IsOffline bs (react b s) (react-IsOffline b s h)

  trigger_forced_logout-IsOffline :
      (closed : Bool) (s : State)
      → s.auth_terminal_fired ≡ false
      → IsOffline (trigger_forced_logout closed s)
  unfolding trigger_forced_logout reset_reconnect_backoff IsOffline
  trigger_forced_logout-IsOffline closed s h = (ground arith, ground arith)

  disconnect-IsOffline : (closed : Bool) (s : State) → IsOffline (disconnect closed s)
  unfolding disconnect reset_reconnect_backoff IsOffline close
  disconnect-IsOffline closed s = (ground arith, ground arith)

  -- After an explicit disconnect, and after a forced logout unless one has already fired in the round,
  -- whether the transport closed or not, no tick, probe, deadline, network hint or end of an inbound task
  -- arms the retry driver again or wants it to run.
  pub stays-IsOffline :
      (closed : Bool) (bs : List Background) (s : State)
      → IsOffline (react_all bs (disconnect closed s))
        × ((s.auth_terminal_fired ≡ true)
            ⊎ IsOffline (react_all bs (trigger_forced_logout closed s)))
  stays-IsOffline closed bs s = (
    react_all-IsOffline bs _ (disconnect-IsOffline closed s),
    elim (Bool-cases s.auth_terminal_fired) [
      | inl fired ↦ inl fired
      | inr open_gate ↦
          inr (react_all-IsOffline bs _ (trigger_forced_logout-IsOffline closed s open_gate))
    ],
  )

-- A forced logout fires once: a second one changes nothing; the first bumps the epoch by one, up to the
-- wrap of 64 bits, so that frames of the old session are dropped.
pub trigger_forced_logout-once :
    (closed again : Bool) (s : State)
    → s.auth_terminal_fired ≡ false
    → s.inbound_epoch < u64_mod
    → let out = trigger_forced_logout closed s in
      (trigger_forced_logout again out ≡ out)
      × (out.session_state ≡ terminated)
      × (out.inbound_epoch ≢ s.inbound_epoch)
unfolding trigger_forced_logout reset_reconnect_backoff close
trigger_forced_logout-once closed again s h small = (ground arith, ground arith, ground arith)

-- Where no answer comes from the transport, a session that was up is new again and has no transport; if it
-- wants to reconnect its deadline is now, else it keeps what it had; and a second probe changes nothing.
pub apply_transport_health-lost :
    (now later : ℕ) (s : State)
    → is_live s.session_state ≡ true
    → let down = (apply_transport_health now false s).0 in
      (down.session_state ≡ new_state)
      × (down.has_transport ≡ false)
      × (down.next_reconnect_at
          ≡ (if s.should_auto_reconnect then some now else s.next_reconnect_at))
      × (apply_transport_health later false down ≡ (down, none))
unfolding apply_transport_health
apply_transport_health-lost now later s up =
    (ground arith, ground arith, ground arith, ground arith)

-- What the jitter does to a delay: a factor from 0.7 up to 1.3.
abbrev IsJitter : (ℕ → ℕ) → Type 0
IsJitter jitter = (ms : ℕ) → (7 * ms ≤ 10 * jitter ms) × (10 * jitter ms ≤ 13 * ms)

base_secs-range : (attempt : ℕ) → (1 ≤ base_secs attempt) × (base_secs attempt ≤ 30)
unfolding base_secs
base_secs-range attempt = (ground arith, ground arith)

-- With a jitter of at most three tenths either way, the retry driver waits from 0.7 to 39 seconds after
-- every failure while the network is reported online, and a minute exactly while it is not; the attempts
-- counted never wrap.
pub schedule_next_reconnect-range :
    (jitter : ℕ → ℕ) (now : ℕ) (s : State)
    → IsJitter jitter
    → s.reconnect_attempt ≤ u32_max
    → let next = schedule_next_reconnect jitter now s in
      let delay = reconnect_delay jitter s in
      (next.next_reconnect_at ≡ some (now + delay))
      × ((if s.network_online then 700 else 60000) ≤ delay)
      × (delay ≤ (if s.network_online then 39000 else 60000))
      × (s.reconnect_attempt ≤ next.reconnect_attempt)
      × (next.reconnect_attempt ≤ u32_max)
unfolding schedule_next_reconnect reconnect_delay
schedule_next_reconnect-range jitter now s j small =
    let (low, high) = j (base_secs s.reconnect_attempt * 1000) in
    let (least, most) = base_secs-range s.reconnect_attempt in
    (refl, ground arith, ground arith, ground arith, ground arith)
