-- ===== src/Media/Registry/Cancel.antt =====
-- What cancellation and the end of a session in crates/privchat-sdk/src/media_download.rs leave behind: the
-- flags of the old tasks, their cleanups, and the states that they still emit.
use privchat_sdk.Base.{
  ◌==◌, Option-cases, length, All, ℕ, ◌+◌, ◌<◌, ◌≡◌, refl, ap, inl, inr, Bool, true, false, Option,
  none, some, List, [], ◌∷◌, map, arith, ℕ_discrete,
}
use privchat_sdk.Base.Word.{u64_mod}
use privchat_sdk.Media.{MediaDownloadState, idle, downloading, MediaTaskKey}
use privchat_sdk.Media.Registry.{
  Signal, spawn, notify_one, notify_waiters, abort, state_changed, HandleEntry, DownloadManager,
  Entries, get, set_flag, state_or_idle, get_state, track, submit, start_with_ticket, pause_entry,
  pause, resume_entry, resume, cancel_entry, cancel, cancel_flags, cancel_signals,
  cancel_all_scoped, set_state, emit, is_task, remove_if_current,
}
use privchat_sdk.Media.Registry.Entries.{All-get}
use privchat_sdk.Media.Registry.Sound.{IsSound, flag_here}
use privchat_sdk.Media.Registry.Tasks.{
  Operation, submitting, starting, pausing, resuming, cancelling, cancelling_all, emitting, ending,
  perform, perform_all, perform-IsSound, perform-next, perform_all-IsSound,
}

flag_kept :
    (id other : ℕ) (flags : ℕ → Bool) → flags other ≡ true → set_flag id true flags other ≡ true
unfolding set_flag
flag_kept id other flags on = ground arith

cancel_flags-kept :
    (es : Entries) (flags : ℕ → Bool) (id : ℕ) → flags id ≡ true → cancel_flags es flags id ≡ true
unfolding cancel_flags
cancel_flags-kept [] flags id on = on
cancel_flags-kept (e ∷ es) flags id on =
    cancel_flags-kept es (set_flag e.1.task_id true flags) id (flag_kept e.1.task_id id flags on)

cancel_flags-set :
    (es : Entries) (flags : ℕ → Bool) → All (λ e. cancel_flags es flags e.1.task_id ≡ true) es
unfolding cancel_flags
cancel_flags-set [] flags = tt
cancel_flags-set (e ∷ es) flags = (
  cancel_flags-kept es (set_flag e.1.task_id true flags) e.1.task_id
      (flag_here e.1.task_id true flags),
  cancel_flags-set es (set_flag e.1.task_id true flags),
)

track-kept :
    (k : MediaTaskKey) (s : MediaDownloadState) (id : ℕ) (m : DownloadManager)
    → id < m.next_task_id
    → m.cancel_flag id ≡ true
    → (track k s m).cancel_flag id ≡ true
unfolding track set_flag
track-kept k s id m below on = ground arith

entry-kept :
    (o : Option HandleEntry) (k : MediaTaskKey) (m : DownloadManager) (id : ℕ)
    → m.cancel_flag id ≡ true
    → ((pause_entry o m).cancel_flag id ≡ true)
      × ((resume_entry o m).0.cancel_flag id ≡ true)
      × ((cancel_entry o k m).0.cancel_flag id ≡ true)
unfolding pause_entry resume_entry cancel_entry
entry-kept none k m id on = (on, on, on)
entry-kept (some h) k m id on = (on, ground arith, flag_kept h.task_id id m.cancel_flag on)

perform-kept :
    (o : Operation) (m : DownloadManager) (id : ℕ)
    → IsSound m
    → m.cancel_flag id ≡ true
    → (perform o m).cancel_flag id ≡ true
unfolding perform submit start_with_ticket pause resume cancel cancel_all_scoped emit set_state
    remove_if_current
perform-kept (submitting k priority) m id sound on =
    let kept = track-kept k idle id m (sound.past id on) on in ground arith
perform-kept (starting k) m id sound on =
    let kept = track-kept k (downloading 0 none) id m (sound.past id on) on in ground arith
perform-kept (pausing k) m id sound on = (entry-kept (get k m.entries) k m id on).0
perform-kept (resuming k) m id sound on = (entry-kept (get k m.entries) k m id on).1
perform-kept (cancelling k) m id sound on = (entry-kept (get k m.entries) k m id on).2
perform-kept cancelling_all m id sound on = cancel_flags-kept m.entries m.cancel_flag id on
perform-kept (emitting k s) m id sound on = on
perform-kept (ending k other) m id sound on = ground arith

perform_all-kept :
    (os : List Operation) (m : DownloadManager) (id : ℕ)
    → IsSound m
    → m.next_task_id + length os < u64_mod
    → m.cancel_flag id ≡ true
    → (perform_all os m).cancel_flag id ≡ true
unfolding perform_all
perform_all-kept [] m id sound below on = on
perform_all-kept (o ∷ os) m id sound below on =
    let first : m.next_task_id + 1 < u64_mod = omega arith in
    perform_all-kept os (perform o m) id (perform-IsSound o m first sound)
      (omega (arith, perform-next o m first)) (perform-kept o m id sound on)

cancelled_untracked :
    (k : MediaTaskKey) (id : ℕ) (m : DownloadManager)
    → IsSound m
    → m.cancel_flag id ≡ true
    → is_task (get k m.entries) id ≡ false
unfolding is_task
cancelled_untracked k id m sound on = elim (Option-cases (get k m.entries)) [
  | inl e ↦ rw e refl
  | inr (h, e) ↦
      let off = All-get (λ f. m.cancel_flag f.task_id ≡ false) k m.entries h sound.live e in
      rw e (apart h off)
]
  where
    apart : (h : HandleEntry) → m.cancel_flag h.task_id ≡ false → (h.task_id == id) ≡ false
    apart h off = elim (ℕ_discrete h.task_id id) [
      | yes same ↦ absurd (let q : m.cancel_flag id ≡ false = rw same at off in cc)
      | no other ↦ ground arith
    ]

-- A task that is cancelled in a sound registry stays cancelled whatever follows, no entry is ever its
-- own again, and its cleanup, whenever it runs, changes nothing.
pub cancelled_is_inert :
    (os : List Operation) (m : DownloadManager) (id : ℕ) (k : MediaTaskKey)
    → IsSound m
    → m.next_task_id + length os < u64_mod
    → m.cancel_flag id ≡ true
    → ((perform_all os m).cancel_flag id ≡ true)
      × (is_task (get k (perform_all os m).entries) id ≡ false)
      × (remove_if_current k id (perform_all os m) ≡ perform_all os m)
unfolding remove_if_current
cancelled_is_inert os m id k sound below on =
    let kept = perform_all-kept os m id sound below on in
    let untracked =
      cancelled_untracked k id (perform_all os m) (perform_all-IsSound os m sound below) kept in
    (kept, untracked, rw untracked refl)

unfoldable pub aborted : List Signal → List ℕ
aborted [] = []
aborted (abort id ∷ ss) = id ∷ aborted ss
aborted (spawn id ∷ ss) = aborted ss
aborted (notify_one id ∷ ss) = aborted ss
aborted (notify_waiters id ∷ ss) = aborted ss
aborted (state_changed id s ∷ ss) = aborted ss

cancel_signals-aborted : (es : Entries) → aborted (cancel_signals es) ≡ map (λ e. e.1.task_id) es
unfolding aborted cancel_signals
cancel_signals-aborted [] = refl
cancel_signals-aborted (e ∷ es) = ap (λ ids. e.1.task_id ∷ ids) (cancel_signals-aborted es)

-- The end of a session cancels and aborts exactly the tasks that are tracked, and leaves no entry: every
-- key reads as idle.
pub cancel_all_scoped-empties :
    (m : DownloadManager) (k : MediaTaskKey)
    → All (λ e. (cancel_all_scoped m).0.cancel_flag e.1.task_id ≡ true) m.entries
      × (aborted (cancel_all_scoped m).1 ≡ map (λ e. e.1.task_id) m.entries)
      × (get_state k (cancel_all_scoped m).0 ≡ idle)
unfolding cancel_all_scoped get_state state_or_idle get
cancel_all_scoped-empties m k =
    (cancel_flags-set m.entries m.cancel_flag, cancel_signals-aborted m.entries, refl)
