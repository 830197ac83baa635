-- ===== src/Examples/SyncRuns.antt =====
-- The coordinator of crates/privchat-sdk/src/sync_coordinator.rs on concrete calls and times.
use privchat_sdk.Base.{All, suc, ◌≤◌, ◌≡◌, refl, ◌↔◌, true, false, some, List, [], ◌∷◌, arith}
use privchat_sdk.Base.Int.{ℤ, pos, ◌+ℤ◌, ◌≤ℤ◌, rem_euclid}
use privchat_sdk.Base.Word.{saturating_add}
use privchat_sdk.Sync.{
  bootstrap, resume, SyncCoordinator, default_snapshot, new, retry_base_ms, jittered,
  retry_delay_ms, begin, fail,
}
use privchat_sdk.Sync.Gate.{IsOpen, IsAdmitted, begin_admits}
use privchat_sdk.Sync.Trace.{
  Call, begins, fails, notes_network, Inv, run, new-Inv, run-Inv, admissions, single_flight,
}
use privchat_sdk.Sync.HotLoop.{trigger, hot_loop, UpTo, hot_loop_thirty}

abbrev triggers : List Call
triggers =
    begins resume (pos 0) ∷ begins bootstrap (pos 5) ∷ notes_network ∷ begins resume (pos 7) ∷ []

single_flight_example : admissions new triggers ≤ 1
single_flight_example = single_flight new triggers (refl, (refl, (refl, (refl, tt))))

run-Inv_example : Inv (run new (fails resume true (some 401) "denied" (pos 9) ∷ triggers))
run-Inv_example = run-Inv new (fails resume true (some 401) "denied" (pos 9) ∷ triggers) new-Inv

abbrev failed_once : SyncCoordinator
failed_once = fail new resume false (some 503) "busy" (pos 1000)

begin_admits_example : IsAdmitted failed_once resume (pos 1200) ↔ IsOpen failed_once (pos 1200)
begin_admits_example = begin_admits failed_once resume (pos 1200)

abbrev times : List ℤ
times = pos 0 ∷ pos 500 ∷ pos 20000 ∷ pos 30000 ∷ []

times_last : UpTo (pos 0 +ℤ pos 30000) times
unfolding ◌+ℤ◌
times_last = (
  ((omega arith, omega arith), omega arith),
  (
    ((omega arith, omega arith), omega arith),
    (((omega arith, omega arith), omega arith), (((omega arith, omega arith), omega arith), tt)),
  ),
)

times_first : All (λ now_ms. pos 0 ≤ℤ now_ms) times
times_first = (omega arith, (omega arith, (omega arith, (omega arith, tt))))

hot_loop_thirty_example : hot_loop new times ≤ 6
hot_loop_thirty_example = hot_loop_thirty times (pos 0) times_last times_first

three_runs : hot_loop new times ≡ suc 2
unfolding hot_loop trigger begin fail new default_snapshot saturating_add retry_delay_ms
    retry_base_ms jittered rem_euclid ◌+ℤ◌
three_runs = refl
