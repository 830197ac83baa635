-- ===== src/Sync/Gate.antt =====
-- `SyncCoordinator::begin` of crates/privchat-sdk/src/sync_coordinator.rs: what it admits, what it
-- leaves alone, and which operations open the gate again.
use privchat_sdk.Base.{ℕ, String, ◌≡◌, refl, ◌≢◌, ◌↔◌, true, Option, none, some, arith}
use privchat_sdk.Base.Int.{ℤ, ◌≤ℤ◌}
use privchat_sdk.Sync.{
  syncing_critical, critical_failed, SyncRunKind, SyncBeginRejection, already_running, terminal,
  SyncCoordinator, begin_deadline, begin, fail, note_network_available, abandon,
  note_explicit_request, reset,
}

pub record IsOpen (c : SyncCoordinator) (now_ms : ℤ) : Type 0 where
  pub not_running : c.readiness ≢ syncing_critical
  pub not_terminal : c.readiness ≡ critical_failed → c.retryable ≡ true
  pub due : (deadline : ℤ) → c.next_retry_at_ms ≡ some deadline → deadline ≤ℤ now_ms

abbrev pub IsAdmitted : SyncCoordinator → SyncRunKind → ℤ → Type 0
IsAdmitted c kind now_ms = (begin c kind now_ms).1 ≡ none

begin_deadline-admits :
    (d : Option ℤ) (c : SyncCoordinator) (kind : SyncRunKind) (now_ms : ℤ)
    → ((begin_deadline d c kind now_ms).1 ≡ none)
      ↔ ((deadline : ℤ) → d ≡ some deadline → deadline ≤ℤ now_ms)
unfolding begin_deadline
begin_deadline-admits none c kind now_ms = (λ h deadline e. cc, λ h. refl)
begin_deadline-admits (some t) c kind now_ms =
    (λ h deadline e. ground arith, λ h. ground (arith, h t refl))

-- A run is admitted exactly if none is in progress, the last one did not fail for good, and the retry
-- deadline, if one is set, has been reached.
pub begin_admits :
    (c : SyncCoordinator) (kind : SyncRunKind) (now_ms : ℤ)
    → IsAdmitted c kind now_ms ↔ IsOpen c now_ms
unfolding begin
begin_admits c kind now_ms =
    let gate = begin_deadline-admits c.next_retry_at_ms c kind now_ms in
    (
      λ h. record {
        not_running = ground arith;
        not_terminal = ground arith;
        due = gate.0 (ground arith);
      },
      λ o. let passed = gate.1 o.due in ground (arith, o.not_running, o.not_terminal),
    )

-- A rejected `begin` leaves the coordinator as it was, and an admitted one marks a run of its kind in
-- progress, clears the deadline and the failure, and keeps the attempt, the background dimension and
-- the generation.
pub begin_effect :
    (c : SyncCoordinator) (kind : SyncRunKind) (now_ms : ℤ)
    → let c' = (begin c kind now_ms).0 in
      ((r : SyncBeginRejection) → (begin c kind now_ms).1 ≡ some r → c' ≡ c)
      × (IsAdmitted c kind now_ms
          → (c'.readiness ≡ syncing_critical)
            × (c'.run_kind ≡ some kind)
            × (c'.next_retry_at_ms ≡ none)
            × (c'.failure ≡ none)
            × (c'.attempt ≡ c.attempt)
            × (c'.convergence ≡ c.convergence)
            × (c'.generation ≡ c.generation))
unfolding begin
begin_effect c kind now_ms = (λ r h. ground arith, λ h. ground arith)

-- While a run is in progress every `begin` is refused as already running.
pub begin_running :
    (c : SyncCoordinator) (kind : SyncRunKind) (now_ms : ℤ)
    → c.readiness ≡ syncing_critical
    → begin c kind now_ms ≡ (c, some already_running)
unfolding begin
begin_running c kind now_ms h = ground arith

-- `abandon` and `reset` open the gate from every state, for a run of either kind at any time.
pub abandon-reset_reopen :
    (c : SyncCoordinator) (kind : SyncRunKind) (now_ms later : ℤ)
    → IsAdmitted (abandon c now_ms) kind later × IsAdmitted (reset c now_ms) kind later
unfolding begin abandon reset
abandon-reset_reopen c kind now_ms later = (refl, refl)

-- A recovered network and an explicit request end every backoff window: the next `begin` is refused
-- only if a run is in progress or the last one failed for good.
pub recovery_reopens :
    (c : SyncCoordinator) (kind : SyncRunKind) (now_ms : ℤ)
    → c.readiness ≢ syncing_critical
    → (c.readiness ≡ critical_failed → c.retryable ≡ true)
    → IsAdmitted (note_network_available c) kind now_ms
      × IsAdmitted (note_explicit_request c) kind now_ms
unfolding begin note_network_available note_explicit_request
recovery_reopens c kind now_ms idle_gate live = (ground arith, ground arith)

-- After a terminal failure neither of them helps: every `begin` is refused as terminal.
pub terminal_stays :
    (c : SyncCoordinator) (kind later_kind : SyncRunKind) (code : Option ℕ) (text : String)
    (now_ms later : ℤ)
    → let failed = fail c kind true code text now_ms in
      ((begin failed later_kind later).1 ≡ some terminal)
      × ((begin (note_network_available failed) later_kind later).1 ≡ some terminal)
      × ((begin (note_explicit_request failed) later_kind later).1 ≡ some terminal)
unfolding begin fail note_network_available note_explicit_request
terminal_stays c kind later_kind code text now_ms later = (refl, refl, refl)
