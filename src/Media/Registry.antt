-- ===== src/Media/Registry.antt =====
-- The registry of downloads in crates/privchat-sdk/src/media_download.rs: the tracked entries, and every
-- operation of `DownloadManager` with the signals that it sends to tasks and subscribers. The flags
-- that an entry shares with its task stand in the manager, by the task's id.
pub mod Entries
pub mod Sound
pub mod Tasks
pub mod Cancel
pub mod Restart
use privchat_sdk.Base.{
  leb, ◌==◌, if◌then◌else◌, length, keep_if, ℕ, String, Bool, true, false, not, ◌||◌, Option, none,
  some, List, [], ◌∷◌,
}
use privchat_sdk.Base.Word.{u64_wrapping_succ}
use privchat_sdk.Media.{
  DownloadPriority, visible, background, MediaDownloadState, idle, downloading, MediaTaskKey,
  key_eq,
}

pub record HandleEntry : Type 0 where
  pub task_id : ℕ
  pub state : MediaDownloadState

-- `HashMap<MediaTaskKey, HandleEntry>`, in no particular order.
abbrev pub Entries : Type 0
Entries = List (MediaTaskKey × HandleEntry)

pub record DownloadManager : Type 0 where
  pub entries : Entries
  pub next_task_id : ℕ
  pub pause_flag : ℕ → Bool
  pub cancel_flag : ℕ → Bool

-- What an operation tells the runtime, a task and the subscribers.
pub data Signal : Type 0 where
  spawn : ℕ → Signal
  notify_one : ℕ → Signal
  notify_waiters : ℕ → Signal
  abort : ℕ → Signal
  state_changed : ℕ → MediaDownloadState → Signal

abbrev pub max_tracked_downloads : ℕ
max_tracked_downloads = 512

abbrev pub max_background_tracked_downloads : ℕ
max_background_tracked_downloads = 480

unfoldable pub get : MediaTaskKey → Entries → Option HandleEntry
get k [] = none
get k (e ∷ es) = if key_eq k e.0 then some e.1 else get k es

unfoldable pub remove_entry : MediaTaskKey → Entries → Entries
remove_entry k es = keep_if (λ e. not (key_eq k e.0)) es

unfoldable pub insert_entry : MediaTaskKey → HandleEntry → Entries → Entries
unfolding remove_entry
insert_entry k h es = (k, h) ∷ remove_entry k es

unfoldable pub contains_key : MediaTaskKey → Entries → Bool
contains_key k [] = false
contains_key k (e ∷ es) = key_eq k e.0 || contains_key k es

unfoldable pub set_flag : ℕ → Bool → (ℕ → Bool) → ℕ → Bool
set_flag id value flags other = if other == id then value else flags other

unfoldable pub new : DownloadManager
new = record { entries = []; next_task_id = 1; pause_flag = λ id. false; cancel_flag = λ id. false }

unfoldable pub state_or_idle : Option HandleEntry → MediaDownloadState
state_or_idle none = idle
state_or_idle (some h) = h.state

unfoldable pub get_state : MediaTaskKey → DownloadManager → MediaDownloadState
unfolding state_or_idle
get_state k m = state_or_idle (get k m.entries)

-- A new task and its entry, under the next id.
unfoldable pub track : MediaTaskKey → MediaDownloadState → DownloadManager → DownloadManager
unfolding insert_entry set_flag
track k initial m = record {
  entries = insert_entry k (record { task_id = m.next_task_id; state = initial }) m.entries;
  next_task_id = u64_wrapping_succ m.next_task_id;
  pause_flag = set_flag m.next_task_id false m.pause_flag;
  cancel_flag = set_flag m.next_task_id false m.cancel_flag;
}

unfoldable pub refuses : DownloadPriority → ℕ → Bool
refuses visible tracked = leb max_tracked_downloads tracked
refuses background tracked =
    leb max_tracked_downloads tracked || leb max_background_tracked_downloads tracked

unfoldable pub submit :
    MediaTaskKey → DownloadPriority → DownloadManager → DownloadManager × List Signal × Bool
unfolding track refuses contains_key
submit k priority m =
    if contains_key k m.entries || refuses priority (length m.entries)
    then (m, [], false)
    else (track k idle m, spawn m.next_task_id ∷ [], true)

-- `start_with_ticket`, with the error that it returns.
unfoldable pub start_with_ticket :
    MediaTaskKey → DownloadManager → DownloadManager × List Signal × Option String
unfolding track contains_key
start_with_ticket k m =
    if contains_key k m.entries
    then (m, [], none)
    else if leb max_tracked_downloads (length m.entries)
    then (m, [], some "receiver download queue is full")
    else (
      track k (downloading 0 none) m,
      spawn m.next_task_id ∷ state_changed k.message_id (downloading 0 none) ∷ [],
      none,
    )

unfoldable pub pause_entry : Option HandleEntry → DownloadManager → DownloadManager
pause_entry none m = m
pause_entry (some h) m = record m { pause_flag = set_flag h.task_id true m.pause_flag }

unfoldable pub pause : MediaTaskKey → DownloadManager → DownloadManager × List Signal
unfolding pause_entry
pause k m = (pause_entry (get k m.entries) m, [])

unfoldable pub resume_entry : Option HandleEntry → DownloadManager → DownloadManager × List Signal
resume_entry none m = (m, [])
resume_entry (some h) m =
    if m.pause_flag h.task_id
    then (
      record m { pause_flag = set_flag h.task_id false m.pause_flag },
      notify_one h.task_id ∷ [],
    )
    else (m, [])

unfoldable pub resume : MediaTaskKey → DownloadManager → DownloadManager × List Signal
unfolding resume_entry
resume k m = resume_entry (get k m.entries) m

unfoldable pub cancel_entry :
    Option HandleEntry → MediaTaskKey → DownloadManager → DownloadManager × List Signal
cancel_entry none k m = (m, [])
cancel_entry (some h) k m = (
  record m {
    entries = remove_entry k m.entries;
    cancel_flag = set_flag h.task_id true m.cancel_flag;
  },
  notify_one h.task_id ∷ abort h.task_id ∷ state_changed k.message_id idle ∷ [],
)

unfoldable pub cancel : MediaTaskKey → DownloadManager → DownloadManager × List Signal
unfolding cancel_entry
cancel k m = cancel_entry (get k m.entries) k m

unfoldable pub cancel_flags : Entries → (ℕ → Bool) → ℕ → Bool
cancel_flags [] flags = flags
cancel_flags (e ∷ es) flags = cancel_flags es (set_flag e.1.task_id true flags)

unfoldable pub cancel_signals : Entries → List Signal
cancel_signals [] = []
cancel_signals (e ∷ es) = notify_waiters e.1.task_id ∷ abort e.1.task_id ∷ cancel_signals es

unfoldable pub cancel_all_scoped : DownloadManager → DownloadManager × List Signal
unfolding cancel_flags cancel_signals
cancel_all_scoped m = (
  record m { entries = []; cancel_flag = cancel_flags m.entries m.cancel_flag },
  cancel_signals m.entries,
)

unfoldable pub put_state : MediaTaskKey → MediaDownloadState → Entries → Entries
put_state k s [] = []
put_state k s (e ∷ es) =
    if key_eq k e.0 then (e.0, record (e.1) { state = s }) ∷ es else e ∷ put_state k s es

unfoldable pub set_state : MediaTaskKey → MediaDownloadState → DownloadManager → DownloadManager
unfolding put_state
set_state k s m = record m { entries = put_state k s m.entries }

unfoldable pub emit :
    MediaTaskKey → MediaDownloadState → DownloadManager → DownloadManager × List Signal
unfolding set_state
emit k s m = (set_state k s m, state_changed k.message_id s ∷ [])

unfoldable pub is_task : Option HandleEntry → ℕ → Bool
is_task none id = false
is_task (some h) id = h.task_id == id

unfoldable pub remove_if_current : MediaTaskKey → ℕ → DownloadManager → DownloadManager
unfolding is_task
remove_if_current k id m =
    if is_task (get k m.entries) id then record m { entries = remove_entry k m.entries } else m
