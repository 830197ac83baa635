-- ===== src/Sync.antt =====
-- crates/privchat-sdk/src/sync_coordinator.rs: the sync lifecycle state and its retry gate. A method
-- that mutates the coordinator returns the new record. Times are `i64` milliseconds, integers here;
-- attempts are `u32` and the generation `u64`, natural numbers with their saturation and wrap.
pub mod Delay
pub mod Gate
pub mod Trace
pub mod HotLoop
pub mod Background
use privchat_sdk.Base.{
  ltb, leb, ◌==◌, if◌then◌else◌, ℕ, ◌+◌, ◌-◌, ◌*◌, ◌/◌, ◌^◌, min, max, String, Bool, true, false,
  not, ◌&&◌, ◌||◌, Option, none, some,
}
use privchat_sdk.Base.Int.{ℤ, pos, pos_part, ltb_ℤ, leb_ℤ, rem_euclid}
use privchat_sdk.Base.Word.{u32_saturating_succ, u64_wrapping_succ, saturating_add, wrapping_sub}

pub data Readiness : Type 0 where
  disconnected authenticated syncing_critical ready critical_failed : Readiness

pub data CriticalFailureCode : Type 0 where
  network server_unavailable protocol storage unknown : CriticalFailureCode

pub data Convergence : Type 0 where
  idle scanning repairing backing_off converged : Convergence

pub data SyncPhase : Type 0 where
  idle syncing synced retrying failed_terminal : SyncPhase

unfoldable pub as_legacy_phase : Readiness → SyncPhase
as_legacy_phase disconnected = SyncPhase.idle
as_legacy_phase authenticated = SyncPhase.idle
as_legacy_phase syncing_critical = syncing
as_legacy_phase ready = synced
as_legacy_phase critical_failed = failed_terminal

pub data SyncRunKind : Type 0 where
  bootstrap resume : SyncRunKind

pub record SyncStateSnapshot : Type 0 where
  pub readiness : Readiness
  pub failure : Option CriticalFailureCode
  pub retryable : Bool
  pub convergence : Convergence
  pub run_kind : Option SyncRunKind
  pub attempt : ℕ  -- u32
  pub message : Option String
  pub updated_at_ms : ℤ

unfoldable pub default_snapshot : SyncStateSnapshot
default_snapshot = record {
  readiness = disconnected;
  failure = none;
  retryable = true;
  convergence = Convergence.idle;
  run_kind = none;
  attempt = 0;
  message = none;
  updated_at_ms = pos 0;
}

abbrev failure_number : CriticalFailureCode → ℕ
failure_number network = 1
failure_number server_unavailable = 2
failure_number protocol = 3
failure_number storage = 4
failure_number unknown = 0

abbrev map_option : {A B : Type 0} → (A → B) → Option A → Option B
map_option f none = none
map_option f (some a) = some (f a)

-- The numeric projection of the typed failure.
unfoldable pub error_code : SyncStateSnapshot → Option ℕ
error_code s = map_option failure_number s.failure

pub record SyncCoordinator : Type 0 where
  pub snapshot : SyncStateSnapshot
  pub open snapshot use {readiness, failure, retryable, convergence, run_kind, attempt}
  pub next_retry_at_ms : Option ℤ
  pub convergence_attempt : ℕ  -- u32
  pub convergence_next_retry_at_ms : Option ℤ
  pub generation : ℕ  -- u64

pub data SyncBeginRejection : Type 0 where
  already_running terminal : SyncBeginRejection
  backoff : ℤ → SyncBeginRejection

unfoldable pub new : SyncCoordinator
unfolding default_snapshot
new = record {
  snapshot = default_snapshot;
  next_retry_at_ms = none;
  convergence_attempt = 0;
  convergence_next_retry_at_ms = none;
  generation = 0;
}

-- `now_ms >= deadline`, and true where no deadline is set.
abbrev pub deadline_passed : Option ℤ → ℤ → Bool
deadline_passed none now_ms = true
deadline_passed (some deadline) now_ms = leb_ℤ deadline now_ms

unfoldable pub convergence_retry_ready : SyncCoordinator → ℤ → Bool
convergence_retry_ready c now_ms = deadline_passed c.convergence_next_retry_at_ms now_ms

abbrev pub sync_retry_base_ms : ℕ
sync_retry_base_ms = 1000

abbrev pub sync_retry_max_ms : ℕ
sync_retry_max_ms = 60000

-- `1 << shift` at most 64, so no product here leaves the `i64` range.
unfoldable pub retry_base_ms : ℕ → ℕ
retry_base_ms attempt = min (sync_retry_base_ms * 2 ^ min (attempt - 1) 6) sync_retry_max_ms

-- `base + jitter` with `jitter = now.rem_euclid(2 * span) - span`, clamped; `span` is at most `base`, so
-- the sum is taken first and the difference of natural numbers is exact.
unfoldable pub jittered : ℕ → ℤ → ℕ
jittered base now_ms =
    let span = max (base / 4) 1 in
    min (max (base + rem_euclid now_ms (span * 2) - span) sync_retry_base_ms) sync_retry_max_ms

unfoldable pub retry_delay_ms : ℕ → ℤ → ℕ
retry_delay_ms attempt now_ms = jittered (retry_base_ms attempt) now_ms

abbrev is_syncing_critical : Readiness → Bool
is_syncing_critical syncing_critical = true
is_syncing_critical _ = false

abbrev pub is_critical_failed : Readiness → Bool
is_critical_failed critical_failed = true
is_critical_failed _ = false

abbrev is_authenticated : Readiness → Bool
is_authenticated authenticated = true
is_authenticated _ = false

abbrev is_backing_off : Convergence → Bool
is_backing_off backing_off = true
is_backing_off _ = false

abbrev is_set : Option ℤ → Bool
is_set none = false
is_set (some t) = true

open_run : SyncCoordinator → SyncRunKind → ℤ → SyncCoordinator
open_run c kind now_ms = record c {
  next_retry_at_ms = none;
  snapshot = record {
    readiness = syncing_critical;
    failure = none;
    retryable = true;
    convergence = c.convergence;
    run_kind = some kind;
    attempt = c.attempt;
    message = none;
    updated_at_ms = now_ms;
  };
}

-- `deadline - now_ms` of the rejection wraps in 64 bits.
begin_deadline :
    Option ℤ → SyncCoordinator → SyncRunKind → ℤ → SyncCoordinator × Option SyncBeginRejection
unfolding open_run
begin_deadline none c kind now_ms = (open_run c kind now_ms, none)
begin_deadline (some deadline) c kind now_ms =
    if ltb_ℤ now_ms deadline
    then (c, some (backoff (wrapping_sub deadline now_ms)))
    else (open_run c kind now_ms, none)

-- `none` is `Ok(())`.
unfoldable pub begin :
    SyncCoordinator → SyncRunKind → ℤ → SyncCoordinator × Option SyncBeginRejection
unfolding begin_deadline
begin c kind now_ms =
    if is_syncing_critical c.readiness
    then (c, some already_running)
    else if is_critical_failed c.readiness && not c.retryable
    then (c, some terminal)
    else begin_deadline c.next_retry_at_ms c kind now_ms

unfoldable pub complete : SyncCoordinator → SyncRunKind → ℤ → SyncCoordinator
complete c kind now_ms = record c {
  next_retry_at_ms = none;
  snapshot = record {
    readiness = ready;
    failure = none;
    retryable = true;
    convergence = c.convergence;
    run_kind = some kind;
    attempt = 0;
    message = none;
    updated_at_ms = now_ms;
  };
}

unfoldable pub set_convergence : SyncCoordinator → Convergence → ℤ → SyncCoordinator
set_convergence c next now_ms = record c {
  convergence_attempt = if is_backing_off next then c.convergence_attempt else 0;
  convergence_next_retry_at_ms =
      if is_backing_off next then c.convergence_next_retry_at_ms else none;
  snapshot = record (c.snapshot) { convergence = next; updated_at_ms = now_ms };
}

unfoldable pub schedule_convergence : SyncCoordinator → ℤ → ℤ → SyncCoordinator
schedule_convergence c now_ms grace_ms = record c {
  convergence_attempt = 0;
  convergence_next_retry_at_ms = some (saturating_add now_ms (pos (pos_part grace_ms)));
  snapshot = record (c.snapshot) { convergence = scanning; updated_at_ms = now_ms };
}

-- The pair returned is the attempt and its deadline.
unfoldable pub backoff_convergence : SyncCoordinator → ℤ → SyncCoordinator × ℕ × ℤ
backoff_convergence c now_ms =
    let attempt = u32_saturating_succ c.convergence_attempt in
    let deadline = saturating_add now_ms (pos (retry_delay_ms attempt now_ms)) in
    (
      record c {
        convergence_attempt = attempt;
        convergence_next_retry_at_ms = some deadline;
        snapshot = record (c.snapshot) { convergence = backing_off; updated_at_ms = now_ms };
      },
      attempt,
      deadline,
    )

unfoldable pub classify_failure : ℕ → CriticalFailureCode
classify_failure code =
    if code == 0
    then unknown
    else if leb 500 code && ltb code 600
    then server_unavailable
    else if leb 400 code && ltb code 500
    then protocol
    else network

unfoldable pub fail : SyncCoordinator → SyncRunKind → Bool → Option ℕ → String → ℤ → SyncCoordinator
unfolding classify_failure
fail c kind is_terminal code text now_ms =
    let attempt = if is_terminal then c.attempt else u32_saturating_succ c.attempt in
    record c {
      next_retry_at_ms =
          if is_terminal
          then none
          else some (saturating_add now_ms (pos (retry_delay_ms attempt now_ms)));
      snapshot = record {
        readiness = if is_terminal then critical_failed else authenticated;
        failure = map_option classify_failure code;
        retryable = not is_terminal;
        convergence = c.convergence;
        run_kind = some kind;
        attempt = attempt;
        message = some text;
        updated_at_ms = now_ms;
      };
    }

unfoldable pub note_network_available : SyncCoordinator → SyncCoordinator
note_network_available c = record c {
  next_retry_at_ms =
      if is_authenticated c.readiness || is_set c.next_retry_at_ms
      then none
      else c.next_retry_at_ms;
  convergence_attempt = 0;
  convergence_next_retry_at_ms = none;
  snapshot = record (c.snapshot) {
    convergence = if is_backing_off c.convergence then scanning else c.convergence;
  };
}

unfoldable pub abandon : SyncCoordinator → ℤ → SyncCoordinator
unfolding default_snapshot
abandon c now_ms = record c {
  next_retry_at_ms = none;
  convergence_attempt = 0;
  convergence_next_retry_at_ms = none;
  snapshot = record default_snapshot { updated_at_ms = now_ms };
}

unfoldable pub note_explicit_request : SyncCoordinator → SyncCoordinator
note_explicit_request c = record c {
  next_retry_at_ms =
      if not (is_critical_failed c.readiness) || c.retryable then none else c.next_retry_at_ms;
}

unfoldable pub reset : SyncCoordinator → ℤ → SyncCoordinator
unfolding default_snapshot
reset c now_ms = record c {
  generation = u64_wrapping_succ c.generation;
  next_retry_at_ms = none;
  convergence_attempt = 0;
  convergence_next_retry_at_ms = none;
  snapshot = record default_snapshot { updated_at_ms = now_ms };
}
