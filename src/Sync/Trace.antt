-- ===== src/Sync/Trace.antt =====
-- Any sequence of calls on the coordinator of crates/privchat-sdk/src/sync_coordinator.rs: what holds
-- after it, and that one run is in flight at a time.
use privchat_sdk.Base.{
  All, ℕ, ◌+◌, ◌≤◌, ◌<◌, String, ◌≡◌, refl, ◌⊎◌, inl, inr, Bool, true, false, Option, none, some,
  List, [], ◌∷◌, arith,
}
use privchat_sdk.Base.Int.{ℤ}
use privchat_sdk.Base.Word.{u32_max, u64_mod}
use privchat_sdk.Sync.{
  authenticated, syncing_critical, critical_failed, CriticalFailureCode, Convergence, SyncRunKind,
  SyncBeginRejection, SyncCoordinator, new, begin, complete, set_convergence, schedule_convergence,
  backoff_convergence, fail, note_network_available, abandon, note_explicit_request, reset,
}

-- A call of one of the methods that mutate the coordinator, with its arguments.
pub data Call : Type 0 where
  begins completes : SyncRunKind → ℤ → Call
  sets_convergence : Convergence → ℤ → Call
  schedules_convergence : ℤ → ℤ → Call
  backs_off_convergence abandons resets : ℤ → Call
  fails : SyncRunKind → Bool → Option ℕ → String → ℤ → Call
  notes_network notes_request : Call

unfoldable pub step : SyncCoordinator → Call → SyncCoordinator
step c (begins kind now_ms) = (begin c kind now_ms).0
step c (completes kind now_ms) = complete c kind now_ms
step c (sets_convergence next now_ms) = set_convergence c next now_ms
step c (schedules_convergence now_ms grace_ms) = schedule_convergence c now_ms grace_ms
step c (backs_off_convergence now_ms) = (backoff_convergence c now_ms).0
step c (abandons now_ms) = abandon c now_ms
step c (resets now_ms) = reset c now_ms
step c (fails kind is_terminal code text now_ms) = fail c kind is_terminal code text now_ms
step c notes_network = note_network_available c
step c notes_request = note_explicit_request c

unfoldable pub run : SyncCoordinator → List Call → SyncCoordinator
run c [] = c
run c (call ∷ calls) = run (step c call) calls

pub record Inv (c : SyncCoordinator) : Type 0 where
  pub scheduled : (t : ℤ) → c.next_retry_at_ms ≡ some t → c.readiness ≡ authenticated
  pub final : c.retryable ≡ false → c.readiness ≡ critical_failed
  pub failed : c.readiness ≡ critical_failed → c.retryable ≡ false
  pub explained :
      (f : CriticalFailureCode)
      → c.failure ≡ some f
      → (c.readiness ≡ authenticated) ⊎ (c.readiness ≡ critical_failed)
  pub attempt_fits : c.attempt ≤ u32_max
  pub convergence_attempt_fits : c.convergence_attempt ≤ u32_max
  pub generation_fits : c.generation < u64_mod

pub new-Inv : Inv new
unfolding new
new-Inv = record {
  scheduled = λ t e. cc;
  final = λ e. cc;
  failed = λ e. cc;
  explained = λ f e. cc;
  attempt_fits = omega arith;
  convergence_attempt_fits = omega arith;
  generation_fits = omega arith;
}

step-Inv : (c : SyncCoordinator) (call : Call) → Inv c → Inv (step c call)
unfolding step begin complete set_convergence schedule_convergence backoff_convergence abandon reset
    fail note_network_available note_explicit_request
step-Inv c (begins kind now_ms) v = record {
  scheduled = λ t e. ground (arith, v.scheduled t);
  final = λ e. ground (arith, v.final);
  failed = λ e. ground (arith, v.failed);
  explained = λ f e. ground (arith, v.explained f);
  attempt_fits = ground arith;
  convergence_attempt_fits = ground arith;
  generation_fits = ground arith;
}
step-Inv c call v = record {
  scheduled = λ t e. ground (arith, v.scheduled t);
  final = λ e. ground (arith, v.final);
  failed = λ e. ground (arith, v.failed);
  explained = λ f e. ground (arith, v.explained f);
  attempt_fits = ground arith;
  convergence_attempt_fits = ground arith;
  generation_fits = ground arith;
}

-- Every call, in every order, keeps the invariant: only a state that waits for its next attempt has a
-- retry deadline, a state is not retryable exactly after a terminal failure, a failure is shown only
-- in those two states, and the counters stay in their types.
pub run-Inv : (c : SyncCoordinator) (calls : List Call) → Inv c → Inv (run c calls)
unfolding run
run-Inv c [] v = v
run-Inv c (call ∷ calls) v = run-Inv (step c call) calls (step-Inv c call v)

-- The calls that end a run.
abbrev pub closes : Call → Bool
closes (completes kind now_ms) = true
closes (fails kind is_terminal code text now_ms) = true
closes (abandons now_ms) = true
closes (resets now_ms) = true
closes _ = false

abbrev admits : Option SyncBeginRejection → ℕ
admits none = 1
admits (some r) = 0

unfoldable pub admission : SyncCoordinator → Call → ℕ
admission c (begins kind now_ms) = admits (begin c kind now_ms).1
admission c _ = 0

-- How many calls of `begin` are admitted along the calls.
unfoldable pub admissions : SyncCoordinator → List Call → ℕ
admissions c [] = 0
admissions c (call ∷ calls) = admission c call + admissions (step c call) calls

step_running :
    (c : SyncCoordinator) (call : Call)
    → closes call ≡ false
    → c.readiness ≡ syncing_critical
    → (admission c call ≡ 0) × ((step c call).readiness ≡ syncing_critical)
unfolding step admission begin set_convergence schedule_convergence backoff_convergence
    note_network_available note_explicit_request
step_running c (begins kind now_ms) quiet r = ground arith
step_running c call quiet r = ground arith

admissions_running :
    (c : SyncCoordinator) (calls : List Call)
    → All (λ call. closes call ≡ false) calls
    → c.readiness ≡ syncing_critical
    → admissions c calls ≡ 0
unfolding admissions
admissions_running c [] quiet r = refl
admissions_running c (call ∷ calls) quiet r =
    let (none_now, still) = step_running c call quiet.0 r in
    omega (arith, none_now, admissions_running (step c call) calls quiet.1 still)

step_admits :
    (c : SyncCoordinator) (call : Call)
    → closes call ≡ false
    → (admission c call ≡ 0)
      ⊎ ((admission c call ≡ 1) × ((step c call).readiness ≡ syncing_critical))
unfolding step admission begin
step_admits c (begins kind now_ms) quiet = ground arith
step_admits c call quiet = ground arith

-- From any state, between two calls that end a run at most one `begin` is admitted, however many
-- triggers call it and whatever else happens.
pub single_flight :
    (c : SyncCoordinator) (calls : List Call)
    → All (λ call. closes call ≡ false) calls
    → admissions c calls ≤ 1
unfolding admissions
single_flight c [] quiet = omega arith
single_flight c (call ∷ calls) quiet = elim (step_admits c call quiet.0) [
  | inl idle_now ↦ omega (arith, single_flight (step c call) calls quiet.1)
  | inr r ↦ omega (arith, admissions_running (step c call) calls quiet.1 r.1)
]
