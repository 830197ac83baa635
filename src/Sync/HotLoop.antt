-- ===== src/Sync/HotLoop.antt =====
-- Triggers that call `begin` again and again while every run fails at once: the case for which
-- crates/privchat-sdk/src/sync_coordinator.rs keeps one retry deadline behind one gate. The loop is
-- that of its test `a_hot_trigger_source_cannot_spin_the_coordinator`, over any times.
use privchat_sdk.Base.{
  Option-cases, All, ℕ, zero, suc, ◌+◌, ◌≤◌, ◌<◌, ◌≡◌, refl, ◌≢◌, ◌⊎◌, inl, inr, false, none, some,
  List, [], ◌∷◌, arith,
}
use privchat_sdk.Base.Int.{ℤ, pos, int_laws, ◌+ℤ◌, ◌≤ℤ◌}
use privchat_sdk.Base.Word.{u32_saturating_succ}
use privchat_sdk.Sync.{
  syncing_critical, critical_failed, resume, SyncCoordinator, new, retry_delay_ms, begin, fail,
}
use privchat_sdk.Sync.Delay.{least_delay, retry_delay_ms_window, InRange, deadline_exact}
use privchat_sdk.Sync.Gate.{begin_admits, begin_effect}

-- One trigger: a run that is admitted fails at once, and is counted.
unfoldable pub trigger : SyncCoordinator → ℤ → SyncCoordinator × ℕ
trigger c now_ms = elim ((begin c resume now_ms).1) [
  | none ↦ (fail (begin c resume now_ms).0 resume false (some 9) "transport" now_ms, 1)
  | some r ↦ (c, 0)
]

unfoldable pub hot_loop : SyncCoordinator → List ℤ → ℕ
hot_loop c [] = 0
hot_loop c (now_ms ∷ times) = (trigger c now_ms).1 + hot_loop (trigger c now_ms).0 times

-- The least time that so many further failures take, after so many attempts.
unfoldable pub backoff_floor : ℕ → ℕ → ℕ
backoff_floor attempt zero = 0
backoff_floor attempt (suc n) =
    least_delay (u32_saturating_succ attempt) + backoff_floor (u32_saturating_succ attempt) n

-- Neither in a run nor failed for good.
abbrev Waits : SyncCoordinator → Type 0
Waits c = (c.readiness ≢ syncing_critical) × (c.readiness ≢ critical_failed)

-- What a trigger does to a waiting coordinator: it is refused before the deadline, or it runs, and the
-- next deadline is a delay of the next attempt away.
trigger_cases :
    (c : SyncCoordinator) (now_ms : ℤ)
    → Waits c
    → InRange now_ms
    → (trigger c now_ms ≡ (c, 0))
      ⊎ (((trigger c now_ms).1 ≡ 1)
          × ((t : ℤ) → c.next_retry_at_ms ≡ some t → t ≤ℤ now_ms)
          × Waits (trigger c now_ms).0
          × ((trigger c now_ms).0.attempt ≡ u32_saturating_succ c.attempt)
          × ((trigger c now_ms).0.next_retry_at_ms
              ≡ some (now_ms +ℤ pos (retry_delay_ms (u32_saturating_succ c.attempt) now_ms))))
unfolding trigger fail
trigger_cases c now_ms w h = elim (Option-cases (begin c resume now_ms).1) [
  | inl ran ↦
      let (_, effect) = begin_effect c resume now_ms in
      let (_, _, _, _, same, _, _) = effect ran in
      inr (
        rw (ran, trigger) refl,
        ((begin_admits c resume now_ms).0 ran).due,
        rw (ran, trigger) (λ e. cc, λ e. cc),
        rw (ran, trigger) (rw same refl),
        rw (ran, trigger) (rw (same, deadline_exact (u32_saturating_succ c.attempt) now_ms h) refl),
      )
  | inr (r, refused) ↦ inl (rw (refused, trigger) refl)
]

-- The times of the triggers, up to a last one.
abbrev pub UpTo : ℤ → List ℤ → Type 0
UpTo last = All (λ now_ms. InRange now_ms × (now_ms ≤ℤ last))

-- No run before `start`: because of the deadline, or because no trigger comes earlier.
abbrev StartsAt : SyncCoordinator → ℤ → List ℤ → Type 0
StartsAt c start times = (c.next_retry_at_ms ≡ some start) ⊎ All (λ now_ms. start ≤ℤ now_ms) times

StartsAt-head :
    (c : SyncCoordinator) (start now_ms : ℤ) (times : List ℤ)
    → StartsAt c start (now_ms ∷ times)
    → ((t : ℤ) → c.next_retry_at_ms ≡ some t → t ≤ℤ now_ms)
    → start ≤ℤ now_ms
StartsAt-head c start now_ms times (inl d) due = due start d
StartsAt-head c start now_ms times (inr a) due = a.0

StartsAt-tail :
    (c : SyncCoordinator) (start now_ms : ℤ) (times : List ℤ)
    → StartsAt c start (now_ms ∷ times)
    → StartsAt c start times
StartsAt-tail c start now_ms times (inl d) = inl d
StartsAt-tail c start now_ms times (inr a) = inr a.1

-- From then on, so many runs take at least so long.
hot_loop_from :
    (c : SyncCoordinator) (times : List ℤ) (last start : ℤ) (n : ℕ)
    → Waits c
    → StartsAt c start times
    → UpTo last times
    → hot_loop c times ≡ suc n
    → start +ℤ pos (backoff_floor c.attempt n) ≤ℤ last
unfolding hot_loop backoff_floor
hot_loop_from c [] last start n w d u e = ground arith
hot_loop_from c (now_ms ∷ times) last start zero w d u e =
    let d' = StartsAt-tail c start now_ms times d in
    elim (trigger_cases c now_ms w u.0.0) [
      | inl same ↦ hot_loop_from c times last start zero w d' u.1 (omega (arith, rw same at e))
      | inr (one, due, _, _, _) ↦ omega (int_laws, StartsAt-head c start now_ms times d due, u.0.1)
    ]
hot_loop_from c (now_ms ∷ times) last start (suc m) w d u e =
    let d' = StartsAt-tail c start now_ms times d in
    elim (trigger_cases c now_ms w u.0.0) [
      | inl same ↦ hot_loop_from c times last start (suc m) w d' u.1 (omega (arith, rw same at e))
      | inr (one, due, w', a, next) ↦
          let rest =
            hot_loop_from (trigger c now_ms).0 times last _ m w' (inl next) u.1
              (omega (arith, one)) in
          let rest' = rw a at rest in
          let (low, _) = retry_delay_ms_window (u32_saturating_succ c.attempt) now_ms in
          omega (int_laws, StartsAt-head c start now_ms times d due, rest', low)
    ]

-- A fresh coordinator that is triggered at times from `first` to `last`, in any order, that leave
-- room for a minute in 64 bits, and whose runs all fail at once makes n + 1 runs only if these are
-- at least the n least delays apart.
pub hot_loop_bound :
    (times : List ℤ) (first last : ℤ) (n : ℕ)
    → UpTo last times
    → All (λ now_ms. first ≤ℤ now_ms) times
    → hot_loop new times ≡ suc n
    → first +ℤ pos (backoff_floor 0 n) ≤ℤ last
unfolding new
hot_loop_bound times first last n u v e =
    hot_loop_from new times last first n (λ e. cc, λ e. cc) (inr v) u e

backoff_floor_six : (n : ℕ) → 47500 ≤ backoff_floor 0 (suc (suc (suc (suc (suc (suc n))))))
unfolding backoff_floor least_delay
backoff_floor_six n = omega arith

hot_loop_small :
    (n : ℕ) (first : ℤ) → first +ℤ pos (backoff_floor 0 n) ≤ℤ first +ℤ pos 30000 → n < 6
hot_loop_small (suc (suc (suc (suc (suc (suc n)))))) first h =
    absurd (omega (int_laws, backoff_floor_six n))
hot_loop_small n first h = omega arith

-- A fresh coordinator that is triggered any number of times within thirty seconds, at times that
-- leave room for a minute in 64 bits, and whose runs all fail at once, makes at most six runs.
pub hot_loop_thirty :
    (times : List ℤ) (first : ℤ)
    → UpTo (first +ℤ pos 30000) times
    → All (λ now_ms. first ≤ℤ now_ms) times
    → hot_loop new times ≤ 6
hot_loop_thirty times first u v = go (hot_loop new times) refl
  where
    go : (n : ℕ) → hot_loop new times ≡ n → n ≤ 6
    go zero e = omega arith
    go (suc n) e = hot_loop_small n first (hot_loop_bound times first _ n u v e)
