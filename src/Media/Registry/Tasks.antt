-- ===== src/Media/Registry/Tasks.antt =====
-- The tasks behind the entries of crates/privchat-sdk/src/media_download.rs, through any sequence of calls
-- and any end of tasks, stale ones included.
use privchat_sdk.Base.{
  leb, Bool-cases, Option-cases, length, All, ℕ, ◌+◌, ◌≤◌, ◌<◌, ◌≡◌, refl, inl, inr, Bool, true,
  false, Option, none, some, List, [], ◌∷◌, arith, ℕ_discrete,
}
use privchat_sdk.Base.Word.{u64_mod}
use privchat_sdk.Media.{
  DownloadPriority, visible, background, MediaDownloadState, idle, downloading, MediaTaskKey,
}
use privchat_sdk.Media.Registry.{
  HandleEntry, DownloadManager, Entries, max_tracked_downloads, get, contains_key, set_flag, track,
  refuses, submit, start_with_ticket, pause_entry, pause, resume_entry, resume, cancel_entry,
  cancel, cancel_flags, cancel_all_scoped, set_state, emit, is_task, remove_if_current,
}
use privchat_sdk.Media.Registry.Sound.{
  IsSound, track-IsSound, remove_entry-IsSound, put_state-IsSound, cancel-IsSound,
}

pub data Operation : Type 0 where
  submitting : MediaTaskKey → DownloadPriority → Operation
  starting : MediaTaskKey → Operation
  pausing : MediaTaskKey → Operation
  resuming : MediaTaskKey → Operation
  cancelling : MediaTaskKey → Operation
  cancelling_all : Operation
  emitting : MediaTaskKey → MediaDownloadState → Operation
  ending : MediaTaskKey → ℕ → Operation

unfoldable pub perform : Operation → DownloadManager → DownloadManager
perform (submitting k priority) m = (submit k priority m).0
perform (starting k) m = (start_with_ticket k m).0
perform (pausing k) m = (pause k m).0
perform (resuming k) m = (resume k m).0
perform (cancelling k) m = (cancel k m).0
perform cancelling_all m = (cancel_all_scoped m).0
perform (emitting k s) m = (emit k s m).0
perform (ending k id) m = remove_if_current k id m

unfoldable pub perform_all : List Operation → DownloadManager → DownloadManager
unfolding perform
perform_all [] m = m
perform_all (o ∷ os) m = perform_all os (perform o m)

has_room :
    (priority : DownloadPriority) (tracked : ℕ)
    → refuses priority tracked ≡ false
    → tracked < max_tracked_downloads
unfolding refuses
has_room visible tracked h = ground arith
has_room background tracked h = ground arith

submit-IsSound :
    (k : MediaTaskKey) (priority : DownloadPriority) (m : DownloadManager)
    → m.next_task_id + 1 < u64_mod
    → IsSound m
    → IsSound (submit k priority m).0
unfolding submit
submit-IsSound k priority m below sound = elim (Bool-cases (contains_key k m.entries)) [
  | inl taken ↦ rw taken sound
  | inr fresh ↦ elim (Bool-cases (refuses priority (length m.entries))) [
    | inl full ↦ rw (fresh, full) sound
    | inr room ↦
        rw (fresh, room)
          (track-IsSound k idle m sound fresh (has_room priority (length m.entries) room) below)
  ]
]

start-IsSound :
    (k : MediaTaskKey) (m : DownloadManager)
    → m.next_task_id + 1 < u64_mod
    → IsSound m
    → IsSound (start_with_ticket k m).0
unfolding start_with_ticket
start-IsSound k m below sound = elim (Bool-cases (contains_key k m.entries)) [
  | inl taken ↦ rw taken sound
  | inr fresh ↦ elim (Bool-cases (leb max_tracked_downloads (length m.entries))) [
    | inl full ↦ rw (fresh, full) sound
    | inr room ↦
        rw (fresh, room) (track-IsSound k (downloading 0 none) m sound fresh (ground arith) below)
  ]
]

flags-IsSound :
    (flags : ℕ → Bool) (m : DownloadManager) → IsSound m → IsSound (record m { pause_flag = flags })
flags-IsSound flags m sound = record {
  keys = sound.keys;
  tasks = sound.tasks;
  created = sound.created;
  live = sound.live;
  past = sound.past;
  bounded = sound.bounded;
}

pause-IsSound : (k : MediaTaskKey) (m : DownloadManager) → IsSound m → IsSound (pause k m).0
unfolding pause pause_entry
pause-IsSound k m sound = elim (Option-cases (get k m.entries)) [
  | inl e ↦ rw e sound
  | inr (h, e) ↦ rw e (flags-IsSound _ m sound)
]

resume-IsSound : (k : MediaTaskKey) (m : DownloadManager) → IsSound m → IsSound (resume k m).0
unfolding resume resume_entry
resume-IsSound k m sound = elim (Option-cases (get k m.entries)) [
  | inl e ↦ rw e sound
  | inr (h, e) ↦ elim (Bool-cases (m.pause_flag h.task_id)) [
    | inl was ↦ rw (e, was) (flags-IsSound _ m sound)
    | inr not_paused ↦ rw (e, not_paused) sound
  ]
]

cancel_step-IsSound : (k : MediaTaskKey) (m : DownloadManager) → IsSound m → IsSound (cancel k m).0
unfolding cancel cancel_entry
cancel_step-IsSound k m sound = elim (Option-cases (get k m.entries)) [
  | inl e ↦ rw e sound
  | inr (h, e) ↦ rw e (cancel-IsSound k h m sound e)
]

end-IsSound :
    (k : MediaTaskKey) (id : ℕ) (m : DownloadManager)
    → IsSound m
    → IsSound (remove_if_current k id m)
unfolding remove_if_current
end-IsSound k id m sound = elim (Bool-cases (is_task (get k m.entries) id)) [
  | inl current ↦ rw current (remove_entry-IsSound k m sound)
  | inr stale ↦ rw stale sound
]

cancel_flags-past :
    (n : ℕ) (es : Entries) (flags : ℕ → Bool)
    → All (λ e. e.1.task_id < n) es
    → ((id : ℕ) → flags id ≡ true → id < n)
    → (id : ℕ) → cancel_flags es flags id ≡ true
    → id < n
unfolding cancel_flags set_flag
cancel_flags-past n [] flags h past id on = past id on
cancel_flags-past n (e ∷ es) flags h past id on =
    cancel_flags-past n es (set_flag e.1.task_id true flags) h.1
      (λ other set. flag_below other (h.0) (past other) set) id on
  where
    flag_below :
        (other : ℕ)
        → e.1.task_id < n
        → (flags other ≡ true → other < n)
        → set_flag e.1.task_id true flags other ≡ true
        → other < n
    flag_below other below was set = elim (ℕ_discrete other e.1.task_id) [
      | yes same ↦ omega (arith, same, below)
      | no differ ↦ was (ground arith)
    ]

pub perform-IsSound :
    (o : Operation) (m : DownloadManager)
    → m.next_task_id + 1 < u64_mod
    → IsSound m
    → IsSound (perform o m)
unfolding perform cancel_all_scoped emit set_state
perform-IsSound (submitting k priority) m below sound = submit-IsSound k priority m below sound
perform-IsSound (starting k) m below sound = start-IsSound k m below sound
perform-IsSound (pausing k) m below sound = pause-IsSound k m sound
perform-IsSound (resuming k) m below sound = resume-IsSound k m sound
perform-IsSound (cancelling k) m below sound = cancel_step-IsSound k m sound
perform-IsSound cancelling_all m below sound = record {
  keys = tt;
  tasks = tt;
  created = tt;
  live = tt;
  past = cancel_flags-past m.next_task_id m.entries m.cancel_flag sound.created sound.past;
  bounded = omega arith;
}
perform-IsSound (emitting k s) m below sound = put_state-IsSound k s m sound
perform-IsSound (ending k id) m below sound = end-IsSound k id m sound

entry-next :
    (o : Option HandleEntry) (k : MediaTaskKey) (m : DownloadManager)
    → ((pause_entry o m).next_task_id ≡ m.next_task_id)
      × ((resume_entry o m).0.next_task_id ≡ m.next_task_id)
      × ((cancel_entry o k m).0.next_task_id ≡ m.next_task_id)
unfolding pause_entry resume_entry cancel_entry
entry-next none k m = (refl, refl, refl)
entry-next (some h) k m = (refl, ground arith, refl)

pub perform-next :
    (o : Operation) (m : DownloadManager)
    → m.next_task_id + 1 < u64_mod
    → (perform o m).next_task_id ≤ m.next_task_id + 1
unfolding perform submit start_with_ticket track pause pause_entry resume resume_entry cancel
    cancel_entry cancel_all_scoped emit set_state remove_if_current
perform-next (submitting k priority) m below = ground arith
perform-next (starting k) m below = ground arith
perform-next (pausing k) m below = omega (arith, (entry-next (get k m.entries) k m).0)
perform-next (resuming k) m below = omega (arith, (entry-next (get k m.entries) k m).1)
perform-next (cancelling k) m below = omega (arith, (entry-next (get k m.entries) k m).2)
perform-next cancelling_all m below = omega arith
perform-next (emitting k s) m below = omega arith
perform-next (ending k id) m below = ground arith

-- From a sound registry, any sequence of calls and ends of tasks leads to a sound one, unless the task
-- ids would reach 2^64: one entry for each key and each task, no entry of a cancelled task, and at most
-- 512 entries.
pub perform_all-IsSound :
    (os : List Operation) (m : DownloadManager)
    → IsSound m
    → m.next_task_id + length os < u64_mod
    → IsSound (perform_all os m)
unfolding perform_all
perform_all-IsSound [] m sound below = sound
perform_all-IsSound (o ∷ os) m sound below =
    let first : m.next_task_id + 1 < u64_mod = omega arith in
    perform_all-IsSound os (perform o m) (perform-IsSound o m first sound)
      (omega (arith, perform-next o m first))
