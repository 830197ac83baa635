-- ===== src/Media/Registry/Sound.antt =====
-- What makes the registry of crates/privchat-sdk/src/media_download.rs sound, and that tracking, changing
-- and removing entries keep it.
use privchat_sdk.Base.{
  Bool-cases, length, keep_if, All, ℕ, ◌+◌, ◌≤◌, ◌<◌, ◌≡◌, sym, subst, ◌∙◌, ◌≢◌, inl, inr, Bool,
  true, false, none, some, [], ◌∷◌, arith, ℕ_discrete,
}
use privchat_sdk.Base.Word.{u64_mod, u64_wrapping_succ}
use privchat_sdk.Media.{MediaDownloadState, MediaTaskKey, key_eq}
use privchat_sdk.Media.Registry.{
  HandleEntry, DownloadManager, Entries, max_tracked_downloads, get, remove_entry, insert_entry,
  contains_key, set_flag, track, put_state,
}
use privchat_sdk.Media.Registry.Entries.{
  key-cases, key_eq_same, key_eq_sym, get-remove_entry, get-remove_entry_other, contains_key-get,
  remove_none, length-remove_entry, All-remove_entry, All-put_state, length-put_state,
  get-put_state_other, All-get,
}

abbrev pub DistinctKeys : Entries → Type 0
DistinctKeys [] = Unit
DistinctKeys (e ∷ es) = (get e.0 es ≡ none) × DistinctKeys es

abbrev pub DistinctTasks : Entries → Type 0
DistinctTasks [] = Unit
DistinctTasks (e ∷ es) = All (λ f. f.1.task_id ≢ e.1.task_id) es × DistinctTasks es

-- A registry in order: one entry for each key and for each task, of a task that was created and is not
-- cancelled, and no more than 512 of them.
pub record IsSound (m : DownloadManager) : Type 0 where
  pub keys : DistinctKeys m.entries
  pub tasks : DistinctTasks m.entries
  pub created : All (λ e. e.1.task_id < m.next_task_id) m.entries
  pub live : All (λ e. m.cancel_flag e.1.task_id ≡ false) m.entries
  pub past : (id : ℕ) → m.cancel_flag id ≡ true → id < m.next_task_id
  pub bounded : length m.entries ≤ max_tracked_downloads

get-remove_entry-none :
    (k l : MediaTaskKey) (es : Entries) → get k es ≡ none → get k (remove_entry l es) ≡ none
get-remove_entry-none k l es h = elim (key-cases k l) [
  | inl same ↦ rw same (get-remove_entry l es)
  | inr other ↦ rw (get-remove_entry_other k l es other) h
]

keys-remove_entry :
    (k : MediaTaskKey) (es : Entries) → DistinctKeys es → DistinctKeys (remove_entry k es)
unfolding remove_entry keep_if
keys-remove_entry k [] h = tt
keys-remove_entry k (e ∷ es) h = elim (Bool-cases (key_eq k e.0)) [
  | inl here ↦ rw here (keys-remove_entry k es h.1)
  | inr there ↦ rw there (get-remove_entry-none e.0 k es h.0, keys-remove_entry k es h.1)
]

tasks-remove_entry :
    (k : MediaTaskKey) (es : Entries) → DistinctTasks es → DistinctTasks (remove_entry k es)
unfolding remove_entry keep_if
tasks-remove_entry k [] h = tt
tasks-remove_entry k (e ∷ es) h = elim (Bool-cases (key_eq k e.0)) [
  | inl here ↦ rw here (tasks-remove_entry k es h.1)
  | inr there ↦ rw there (All-remove_entry _ k es h.0, tasks-remove_entry k es h.1)
]

keys-put_state :
    (k : MediaTaskKey) (s : MediaDownloadState) (es : Entries)
    → DistinctKeys es
    → DistinctKeys (put_state k s es)
unfolding put_state
keys-put_state k s [] h = tt
keys-put_state k s (e ∷ es) h = elim (key-cases k e.0) [
  | inl same ↦ rw (key_eq_same k e.0 same) h
  | inr there ↦
      rw there
        (get-put_state_other e.0 k s es (key_eq_sym k e.0 there) ∙ h.0, keys-put_state k s es h.1)
]

tasks-put_state :
    (k : MediaTaskKey) (s : MediaDownloadState) (es : Entries)
    → DistinctTasks es
    → DistinctTasks (put_state k s es)
unfolding put_state
tasks-put_state k s [] h = tt
tasks-put_state k s (e ∷ es) h = elim (Bool-cases (key_eq k e.0)) [
  | inl here ↦ rw here h
  | inr there ↦ rw there (All-put_state _ (λ l f t n. n) k s es h.0, tasks-put_state k s es h.1)
]

-- Once the entry of a key is removed, no entry has its task.
pub removed_task :
    (k : MediaTaskKey) (es : Entries) (h : HandleEntry)
    → DistinctTasks es
    → get k es ≡ some h
    → All (λ e. e.1.task_id ≢ h.task_id) (remove_entry k es)
unfolding get remove_entry keep_if
removed_task k [] h d e = cc
removed_task k (x ∷ es) h d e = elim (Bool-cases (key_eq k x.0)) [
  | inl here ↦
      let q : some x.1 ≡ some h = rw here at e in
      let r : x.1 ≡ h = cc in
      rw here (
        subst (λ y. All (λ f. f.1.task_id ≢ y.task_id) (remove_entry k es)) r
          (All-remove_entry _ k es d.0))
  | inr there ↦
      let found : get k es ≡ some h = rw there at e in
      let apart = All-get (λ f. f.task_id ≢ x.1.task_id) k es h d.0 found in
      rw there (λ same. apart (sym same), removed_task k es h d.1 found)
]

-- A flag of another task is as it was.
live-set_flag :
    (id : ℕ) (value : Bool) (flags : ℕ → Bool) (es : Entries)
    → All (λ e. e.1.task_id ≢ id) es
    → All (λ e. flags e.1.task_id ≡ false) es
    → All (λ e. set_flag id value flags e.1.task_id ≡ false) es
unfolding set_flag
live-set_flag id value flags [] n h = tt
live-set_flag id value flags (e ∷ es) n h =
    (ground (arith, n.0, h.0), live-set_flag id value flags es n.1 h.1)

-- What is below a number stays below the next one, and apart from it.
created_suc :
    (n : ℕ) (es : Entries)
    → All (λ e. e.1.task_id < n) es
    → All (λ e. e.1.task_id < n + 1) es × All (λ e. e.1.task_id ≢ n) es
created_suc n [] h = (tt, tt)
created_suc n (e ∷ es) h =
    let (below, apart) = created_suc n es h.1 in
    ((omega (arith, h.0), below), (λ same. absurd (omega (arith, same, h.0)), apart))

pub flag_here : (id : ℕ) (value : Bool) (flags : ℕ → Bool) → set_flag id value flags id ≡ value
unfolding set_flag
flag_here id value flags = ground arith

-- A flag that is set was not unset.
pub flag_unset :
    (id other : ℕ) (flags : ℕ → Bool) → set_flag id false flags other ≡ true → flags other ≡ true
unfolding set_flag
flag_unset id other flags h = ground arith

pub track-IsSound :
    (k : MediaTaskKey) (s : MediaDownloadState) (m : DownloadManager)
    → IsSound m
    → contains_key k m.entries ≡ false
    → length m.entries < max_tracked_downloads
    → m.next_task_id + 1 < u64_mod
    → IsSound (track k s m)
unfolding track insert_entry
track-IsSound k s m sound fresh room below =
    let absent = contains_key-get k m.entries fresh in
    let kept = remove_none k m.entries absent in
    let next : u64_wrapping_succ m.next_task_id ≡ m.next_task_id + 1 = omega arith in
    let (bound, apart) = created_suc m.next_task_id m.entries sound.created in
    rw (kept, next)
      (record {
        keys = (absent, sound.keys);
        tasks = (apart, sound.tasks);
        created = (omega arith, bound);
        live = (
          flag_here m.next_task_id false m.cancel_flag,
          live-set_flag m.next_task_id false m.cancel_flag m.entries apart sound.live,
        );
        past =
            λ id on. omega (arith, sound.past id (flag_unset m.next_task_id id m.cancel_flag on));
        bounded = omega arith;
      })

-- The entries change and keep what makes a registry sound.
pub remove_entry-IsSound :
    (k : MediaTaskKey) (m : DownloadManager)
    → IsSound m
    → IsSound (record m { entries = remove_entry k m.entries })
remove_entry-IsSound k m sound = record {
  keys = keys-remove_entry k m.entries sound.keys;
  tasks = tasks-remove_entry k m.entries sound.tasks;
  created = All-remove_entry _ k m.entries sound.created;
  live = All-remove_entry _ k m.entries sound.live;
  past = sound.past;
  bounded = omega (arith, length-remove_entry k m.entries, sound.bounded);
}

pub put_state-IsSound :
    (k : MediaTaskKey) (s : MediaDownloadState) (m : DownloadManager)
    → IsSound m
    → IsSound (record m { entries = put_state k s m.entries })
put_state-IsSound k s m sound = record {
  keys = keys-put_state k s m.entries sound.keys;
  tasks = tasks-put_state k s m.entries sound.tasks;
  created = All-put_state _ (λ l h t below. below) k s m.entries sound.created;
  live = All-put_state _ (λ l h t off. off) k s m.entries sound.live;
  past = sound.past;
  bounded = omega (arith, length-put_state k s m.entries, sound.bounded);
}

pub cancel-IsSound :
    (k : MediaTaskKey) (h : HandleEntry) (m : DownloadManager)
    → IsSound m
    → get k m.entries ≡ some h
    → IsSound (record m {
      entries = remove_entry k m.entries;
      cancel_flag = set_flag h.task_id true m.cancel_flag;
    })
unfolding set_flag
cancel-IsSound k h m sound found =
    let r = remove_entry-IsSound k m sound in
    record {
      keys = r.keys;
      tasks = r.tasks;
      created = r.created;
      live =
          live-set_flag h.task_id true m.cancel_flag (remove_entry k m.entries)
            (removed_task k m.entries h sound.tasks found) r.live;
      past = λ id on. elim (ℕ_discrete id h.task_id) [
        | yes same ↦
            rw same (All-get (λ f. f.task_id < m.next_task_id) k m.entries h sound.created found)
        | no other ↦ sound.past id (ground arith)
      ];
      bounded = r.bounded;
    }
