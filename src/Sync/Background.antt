-- ===== src/Sync/Background.antt =====
-- The background dimension of crates/privchat-sdk/src/sync_coordinator.rs: convergence and its backoff.
use privchat_sdk.Base.{◌≡◌, refl, ◌↔◌, true, arith}
use privchat_sdk.Base.Int.{ℤ, pos, ◌+ℤ◌, ◌≤ℤ◌, +ℤ_parts}
use privchat_sdk.Base.Word.{u32_saturating_succ}
use privchat_sdk.Sync.{
  Convergence, SyncRunKind, SyncCoordinator, convergence_retry_ready, retry_delay_ms, begin,
  set_convergence, schedule_convergence, backoff_convergence,
}
use privchat_sdk.Sync.Delay.{retry_delay_ms_range, InRange, deadline_exact}

-- What the host sees of the critical phase and what the gate reads.
pub record SameGate (c d : SyncCoordinator) : Type 0 where
  pub readiness_kept : d.readiness ≡ c.readiness
  pub failure_kept : d.failure ≡ c.failure
  pub retryable_kept : d.retryable ≡ c.retryable
  pub attempt_kept : d.attempt ≡ c.attempt
  pub deadline_kept : d.next_retry_at_ms ≡ c.next_retry_at_ms
  pub generation_kept : d.generation ≡ c.generation
  pub verdict_kept :
      (kind : SyncRunKind) (now_ms : ℤ) → (begin d kind now_ms).1 ≡ (begin c kind now_ms).1

begin_verdict :
    (c d : SyncCoordinator) (kind : SyncRunKind) (now_ms : ℤ)
    → d.readiness ≡ c.readiness
    → d.retryable ≡ c.retryable
    → d.next_retry_at_ms ≡ c.next_retry_at_ms
    → (begin d kind now_ms).1 ≡ (begin c kind now_ms).1
unfolding begin
begin_verdict c d kind now_ms r t n = ground arith

same_gate :
    (c d : SyncCoordinator)
    → d.readiness ≡ c.readiness
    → d.failure ≡ c.failure
    → d.retryable ≡ c.retryable
    → d.attempt ≡ c.attempt
    → d.next_retry_at_ms ≡ c.next_retry_at_ms
    → d.generation ≡ c.generation
    → SameGate c d
same_gate c d r f t a n g = record {
  readiness_kept = r;
  failure_kept = f;
  retryable_kept = t;
  attempt_kept = a;
  deadline_kept = n;
  generation_kept = g;
  verdict_kept = λ kind now_ms. begin_verdict c d kind now_ms r t n;
}

-- No operation of the background dimension touches the readiness, the failure, the attempt, the
-- generation, the retry deadline or the verdict of the gate.
pub background-SameGate :
    (c : SyncCoordinator) (next : Convergence) (now_ms grace_ms : ℤ)
    → SameGate c (set_convergence c next now_ms)
      × SameGate c (schedule_convergence c now_ms grace_ms)
      × SameGate c (backoff_convergence c now_ms).0
unfolding set_convergence schedule_convergence backoff_convergence
background-SameGate c next now_ms grace_ms = (
  same_gate c _ refl refl refl refl refl refl,
  same_gate c _ refl refl refl refl refl refl,
  same_gate c _ refl refl refl refl refl refl,
)

-- A background failure at a time that leaves room for a minute puts the next background run off by at
-- least one and at most sixty seconds: it is not ready before the deadline returned, and ready from
-- then on.
pub backoff_convergence_holds :
    (c : SyncCoordinator) (now_ms later : ℤ)
    → InRange now_ms
    → let (c', attempt, deadline) = backoff_convergence c now_ms in
      (now_ms +ℤ pos 1000 ≤ℤ deadline)
      × (deadline ≤ℤ now_ms +ℤ pos 60000)
      × ((convergence_retry_ready c' later ≡ true) ↔ (deadline ≤ℤ later))
unfolding backoff_convergence convergence_retry_ready
backoff_convergence_holds c now_ms later h =
    let attempt = u32_saturating_succ c.convergence_attempt in
    let (lo, hi) = retry_delay_ms_range attempt now_ms in
    let d = retry_delay_ms attempt now_ms in
    rw (deadline_exact attempt now_ms h) (
      omega (arith, +ℤ_parts now_ms (pos d), +ℤ_parts now_ms (pos 1000)),
      omega (arith, +ℤ_parts now_ms (pos d), +ℤ_parts now_ms (pos 60000)),
      (λ t. ground arith, λ t. ground arith),
    )
