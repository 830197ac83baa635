-- ===== src/Media/Registry/Restart.antt =====
-- How the calls of crates/privchat-sdk/src/media_download.rs for one key leave the other keys alone, and
-- what a download that is cancelled and started again meets of its predecessor.
use privchat_sdk.Base.{
  leb, ◌∙◌, ℕ, Bool, Option-cases, Bool-cases, length, ◌<◌, ◌≡◌, refl, sym, ap, subst, ◌≢◌, inl,
  inr, false, Option, none, some, [], ◌∷◌, arith,
}
use privchat_sdk.Media.{MediaDownloadState, idle, downloading, MediaTaskKey, key_eq, key_eq_refl}
use privchat_sdk.Media.Registry.{
  HandleEntry, DownloadManager, Entries, max_tracked_downloads, get, remove_entry, insert_entry,
  contains_key, state_or_idle, get_state, track, set_flag, submit, start_with_ticket, pause_entry,
  pause, resume_entry, resume, cancel_entry, cancel, put_state, set_state, emit, is_task,
  remove_if_current,
}
use privchat_sdk.Media.Registry.Entries.{
  key_eq-false, get-remove_entry_other, contains_key-remove_entry, length-remove_entry_found,
  get-put_state_other, All-get,
}
use privchat_sdk.Media.Registry.Sound.{IsSound, removed_task}
use privchat_sdk.Media.Registry.Tasks.{
  Operation, submitting, starting, pausing, resuming, cancelling, cancelling_all, emitting, ending,
  perform,
}

-- The key that an operation is about, and none where it is about all.
unfoldable pub key_of : Operation → Option MediaTaskKey
key_of (submitting k priority) = some k
key_of (starting k) = some k
key_of (pausing k) = some k
key_of (resuming k) = some k
key_of (cancelling k) = some k
key_of cancelling_all = none
key_of (emitting k s) = some k
key_of (ending k id) = some k

get-track_other :
    (k l : MediaTaskKey) (s : MediaDownloadState) (m : DownloadManager)
    → key_eq k l ≡ false
    → get k (track l s m).entries ≡ get k m.entries
unfolding track insert_entry get
get-track_other k l s m n = rw n (get-remove_entry_other k l m.entries n)

get-entry_other :
    (k l : MediaTaskKey) (o : Option HandleEntry) (m : DownloadManager)
    → key_eq k l ≡ false
    → (get k (pause_entry o m).entries ≡ get k m.entries)
      × (get k (resume_entry o m).0.entries ≡ get k m.entries)
      × (get k (cancel_entry o l m).0.entries ≡ get k m.entries)
unfolding pause_entry resume_entry cancel_entry
get-entry_other k l none m n = (refl, refl, refl)
get-entry_other k l (some h) m n = (refl, ground arith, get-remove_entry_other k l m.entries n)

apart : (x k l : MediaTaskKey) → some x ≡ some l → k ≢ l → key_eq k x ≡ false
apart x k l e n =
    let same : x ≡ l = cc in subst (λ y. key_eq k y ≡ false) (sym same) (key_eq-false k l n)

entries-frame :
    (o : Operation) (k l : MediaTaskKey) (m : DownloadManager)
    → key_of o ≡ some l
    → k ≢ l
    → get k (perform o m).entries ≡ get k m.entries
unfolding key_of perform submit start_with_ticket pause resume cancel emit set_state
    remove_if_current
entries-frame (submitting x priority) k l m e n =
    let other = get-track_other k x idle m (apart x k l e n) in ground arith
entries-frame (starting x) k l m e n =
    let other = get-track_other k x (downloading 0 none) m (apart x k l e n) in ground arith
entries-frame (pausing x) k l m e n = (get-entry_other k x (get x m.entries) m (apart x k l e n)).0
entries-frame (resuming x) k l m e n = (get-entry_other k x (get x m.entries) m (apart x k l e n)).1
entries-frame (cancelling x) k l m e n =
    (get-entry_other k x (get x m.entries) m (apart x k l e n)).2
entries-frame cancelling_all k l m e n = cc
entries-frame (emitting x s) k l m e n = get-put_state_other k x s m.entries (apart x k l e n)
entries-frame (ending x id) k l m e n =
    let other = get-remove_entry_other k x m.entries (apart x k l e n) in ground arith

-- The entry of a key with the two flags that it shares with its task, as the source keeps them.
with_flags : DownloadManager → Option HandleEntry → Option (HandleEntry × Bool × Bool)
with_flags m none = none
with_flags m (some h) = some (h, m.pause_flag h.task_id, m.cancel_flag h.task_id)

unfoldable pub handle : MediaTaskKey → DownloadManager → Option (HandleEntry × Bool × Bool)
unfolding with_flags
handle k m = with_flags m (get k m.entries)

track-flags :
    (l : MediaTaskKey) (s : MediaDownloadState) (m : DownloadManager) (id : ℕ)
    → id < m.next_task_id
    → ((track l s m).pause_flag id ≡ m.pause_flag id)
      × ((track l s m).cancel_flag id ≡ m.cancel_flag id)
unfolding track set_flag
track-flags l s m id below = (ground arith, ground arith)

entry-flags :
    (o : Option HandleEntry) (l : MediaTaskKey) (m : DownloadManager) (id : ℕ)
    → ((h : HandleEntry) → o ≡ some h → id ≢ h.task_id)
    → ((pause_entry o m).pause_flag id ≡ m.pause_flag id)
      × ((pause_entry o m).cancel_flag id ≡ m.cancel_flag id)
      × ((resume_entry o m).0.pause_flag id ≡ m.pause_flag id)
      × ((resume_entry o m).0.cancel_flag id ≡ m.cancel_flag id)
      × ((cancel_entry o l m).0.pause_flag id ≡ m.pause_flag id)
      × ((cancel_entry o l m).0.cancel_flag id ≡ m.cancel_flag id)
unfolding pause_entry resume_entry cancel_entry set_flag
entry-flags none l m id other = (refl, refl, refl, refl, refl, refl)
entry-flags (some h) l m id other =
    let n = other h refl in (ground arith, refl, ground arith, ground arith, refl, ground arith)

-- An operation on one key leaves the flags of every task but that key's own and the next one.
flags-frame :
    (o : Operation) (l : MediaTaskKey) (m : DownloadManager) (id : ℕ)
    → key_of o ≡ some l
    → id < m.next_task_id
    → ((h : HandleEntry) → get l m.entries ≡ some h → id ≢ h.task_id)
    → ((perform o m).pause_flag id ≡ m.pause_flag id)
      × ((perform o m).cancel_flag id ≡ m.cancel_flag id)
unfolding key_of perform submit start_with_ticket pause resume cancel emit set_state
    remove_if_current
flags-frame (submitting x priority) l m id e below other =
    let (p, c) = track-flags x idle m id below in (ground arith, ground arith)
flags-frame (starting x) l m id e below other =
    let (p, c) = track-flags x (downloading 0 none) m id below in (ground arith, ground arith)
flags-frame (pausing x) l m id e below other =
    let same : x ≡ l = cc in
    let f = entry-flags (get x m.entries) x m id (rw same other) in (f.0, f.1)
flags-frame (resuming x) l m id e below other =
    let same : x ≡ l = cc in
    let f = entry-flags (get x m.entries) x m id (rw same other) in (f.2, f.3)
flags-frame (cancelling x) l m id e below other =
    let same : x ≡ l = cc in
    let f = entry-flags (get x m.entries) x m id (rw same other) in (f.4, f.5)
flags-frame cancelling_all l m id e below other = cc
flags-frame (emitting x s) l m id e below other = (refl, refl)
flags-frame (ending x other_id) l m id e below other = (ground arith, ground arith)

-- Two keys of a sound registry have two tasks.
tasks-apart :
    (k l : MediaTaskKey) (m : DownloadManager) (h other : HandleEntry)
    → IsSound m
    → k ≢ l
    → get k m.entries ≡ some h
    → get l m.entries ≡ some other
    → h.task_id ≢ other.task_id
tasks-apart k l m h other sound n mine its =
    let left = removed_task l m.entries other sound.tasks its in
    let still = get-remove_entry_other k l m.entries (key_eq-false k l n) ∙ mine in
    All-get (λ f. f.task_id ≢ other.task_id) k (remove_entry l m.entries) h left still

-- In a sound registry an operation on one key leaves every other key alone, the downloads of other accounts,
-- of other sessions and of other messages, and the thumbnail beside the payload: the entry, if there is
-- one, with its task and its state, and whether that task is paused and whether it is cancelled.
pub perform-frame :
    (o : Operation) (k l : MediaTaskKey) (m : DownloadManager)
    → IsSound m
    → key_of o ≡ some l
    → k ≢ l
    → handle k (perform o m) ≡ handle k m
unfolding handle with_flags
perform-frame o k l m sound e n =
    let entries = entries-frame o k l m e n in
    elim (Option-cases (get k m.entries)) [
      | inl absent ↦ rw (entries, absent) refl
      | inr (h, mine) ↦
          let below = All-get (λ f. f.task_id < m.next_task_id) k m.entries h sound.created mine in
          let (p, c) =
            flags-frame o l m h.task_id e below
              (λ other its. tasks-apart k l m h other sound n mine its) in
          rw (entries, mine, p, c) refl
    ]

get-put_state :
    (k : MediaTaskKey) (s : MediaDownloadState) (h : HandleEntry) (es : Entries)
    → get k es ≡ some h
    → get k (put_state k s es) ≡ some (record h { state = s })
unfolding get put_state
get-put_state k s h [] e = cc
get-put_state k s h (x ∷ es) e = elim (Bool-cases (key_eq k x.0)) [
  | inl here ↦
      let q : some x.1 ≡ some h = rw here at e in
      let r : x.1 ≡ h = cc in
      let at_state : HandleEntry → Option HandleEntry = λ y. some (record y { state = s }) in
      rw (here, here) (ap at_state r)
  | inr there ↦ rw (there, there) (get-put_state k s h es (rw there at e))
]

-- The registry after a tracked download is cancelled and started again.
unfoldable pub restarted : MediaTaskKey → DownloadManager → DownloadManager
restarted k m = (start_with_ticket k (cancel k m).0).0

cancel-found :
    (k : MediaTaskKey) (m : DownloadManager) (h : HandleEntry)
    → get k m.entries ≡ some h
    → ((cancel k m).0.entries ≡ remove_entry k m.entries)
      × ((cancel k m).0.next_task_id ≡ m.next_task_id)
unfolding cancel cancel_entry
cancel-found k m h e = (rw e refl, rw e refl)

get-started :
    (k : MediaTaskKey) (m : DownloadManager)
    → contains_key k m.entries ≡ false
    → length m.entries < max_tracked_downloads
    → get k (start_with_ticket k m).0.entries
      ≡ some (record { task_id = m.next_task_id; state = downloading 0 none })
unfolding start_with_ticket track insert_entry get
get-started k m fresh room =
    let r = key_eq_refl k in
    let accepted : leb max_tracked_downloads (length m.entries) ≡ false = ground arith in
    rw (fresh, accepted, r) refl

get-restarted :
    (k : MediaTaskKey) (m : DownloadManager) (h : HandleEntry)
    → IsSound m
    → get k m.entries ≡ some h
    → get k (restarted k m).entries
      ≡ some (record { task_id = m.next_task_id; state = downloading 0 none })
unfolding restarted
get-restarted k m h sound e =
    let (left, next) = cancel-found k m h e in
    let gone : contains_key k (cancel k m).0.entries ≡ false =
      rw left (contains_key-remove_entry k m.entries) in
    let room : length (cancel k m).0.entries < max_tracked_downloads =
      rw left (omega (arith, length-remove_entry_found k m.entries h e, sound.bounded)) in
    rw next at (get-started k (cancel k m).0 gone room)

-- Where a download that a sound registry tracks is cancelled and started again, the late cleanup of the
-- old task leaves the new entry alone, but a late state of the old task is shown as the new one's.
pub restart_shows_late_state :
    (k : MediaTaskKey) (m : DownloadManager) (h : HandleEntry) (late : MediaDownloadState)
    → IsSound m
    → get k m.entries ≡ some h
    → (get_state k (restarted k m) ≡ downloading 0 none)
      × (remove_if_current k h.task_id (restarted k m) ≡ restarted k m)
      × (get_state k (emit k late (restarted k m)).0 ≡ late)
unfolding get_state state_or_idle remove_if_current is_task emit set_state
restart_shows_late_state k m h late sound e =
    let new_entry = get-restarted k m h sound e in
    let below = All-get (λ f. f.task_id < m.next_task_id) k m.entries h sound.created e in
    let shown = get-put_state k late _ (restarted k m).entries new_entry in
    (rw new_entry refl, rw new_entry (ground arith), rw shown refl)
