-- ===== src/Repair.antt =====
-- What follows a failed resume in crates/privchat-sdk/src/lib.rs: the escalations of `handle_resume_failure`, and
-- the entity families of `execute_resume_sync`. The store's keys are data; what the server and the store
-- answer is a script, and what a synchronisation changes elsewhere is not modelled. Of the events the
-- numbers and texts of an error are left out.
pub mod Marks
pub mod Families
use privchat_sdk.Base.{
  ◌==◌, if◌then◌else◌, keep_if, ℕ, ◌⊎◌, inl, inr, Bool, true, false, not, ◌&&◌, Option, none, some,
  List, [], ◌∷◌, ◌++◌,
}
use privchat_sdk.Base.Int.{ℤ, eqb_ℤ}
use privchat_sdk.Base.Text.{Text, text_eq, contains_text}
use privchat_sdk.Errors.{Error, auth, ErrorCodes}
use privchat_sdk.Errors.Resume.{
  ResumeFailureClass, ResumeFailureTarget, global, entity_type, channel, ResumeEscalationScope,
  retry, channel_scoped_resync, entity_scoped_resync, full_rebuild, resume_escalation_scope,
  classify_resume_error,
}

pub data RepairKey : Type 0 where
  channel_key : ℕ → ℤ → RepairKey
  entity_key : Text → RepairKey
  full_rebuild_key : RepairKey

pub data Event : Type 0 where
  channel_failed : ℕ → ℤ → ResumeFailureClass → ResumeEscalationScope → Event
  escalated : ResumeFailureClass → ResumeEscalationScope → ResumeFailureTarget → Event
  channel_applied : ℕ → ℤ → ℕ → Event
  entities_applied : Text → ℕ → Event
  sync_failed : ResumeFailureClass → ResumeEscalationScope → Event

pub data ResumeFailureHandling : Type 0 where
  go_on : ResumeFailureHandling  -- `Continue`
  give_up : ResumeFailureHandling  -- `Abort`

pub record Script : Type 0 where
  pub kv_put : RepairKey → Option Error
  pub kv_delete : RepairKey → Option Error  -- the one that ends a repair
  pub kv_clear : RepairKey → Option Error  -- the `kv_delete` of `clear_resume_repair_key`
  pub set_bootstrap_completed : Option Error
  pub sync_channel : ℕ → ℤ → ℕ ⊎ Error
  pub sync_entities : Text → ℕ ⊎ Error  -- the first call for a family
  pub resync_entities : Text → ℕ ⊎ Error  -- the call of its repair

pub record Resume : Type 0 where
  pub marks : List RepairKey
  pub has_current_uid : Bool
  pub bootstrap_completed : Bool
  pub stored_bootstrap : Bool
  pub pending_events : List Event

unfoldable pub push : Event → Resume → Resume
push e r = record r { pending_events = r.pending_events ++ (e ∷ []) }

unfoldable pub key_eq : RepairKey → RepairKey → Bool
key_eq (channel_key a b) (channel_key c d) = a == c && eqb_ℤ b d
key_eq (entity_key a) (entity_key b) = text_eq a b
key_eq full_rebuild_key full_rebuild_key = true
key_eq _ _ = false

unfoldable pub without : RepairKey → List RepairKey → List RepairKey
unfolding key_eq
without k marks = keep_if (λ m. not (key_eq k m)) marks

-- `is_unsupported_entity_error`, with the words of the server's message.
abbrev unsupported_words : Text
unsupported_words =
    19981 ∷ 25903 ∷ 25345 ∷ 30340 ∷ b' ' ∷ b'e' ∷ b'n' ∷ b't' ∷ b'i' ∷ b't' ∷ b'y' ∷ b'_' ∷ b't'
    ∷ b'y' ∷ b'p' ∷ b'e' ∷ []

unfoldable pub is_unsupported_entity_error : Error → Bool
is_unsupported_entity_error (auth message) = contains_text message unsupported_words
is_unsupported_entity_error e = false

-- What `?` does with the result of a call of the store.
unfoldable pub after_store :
    Option Error → Resume → (Resume → Resume × Option Error) → Resume × Option Error
after_store none r next = next r
after_store (some e) r next = (r, some e)

unfoldable pub put_mark : RepairKey → Resume → Resume
unfolding without
put_mark k r = record r { marks = k ∷ without k r.marks }

unfoldable pub delete_mark : RepairKey → Resume → Resume
unfolding without
delete_mark k r = record r { marks = without k r.marks }

-- `clear_resume_repair_key`, which lets a failing delete pass.
unfoldable pub clear_resume_repair_key : Option Error → RepairKey → Resume → Resume
unfolding delete_mark
clear_resume_repair_key none k r = delete_mark k r
clear_resume_repair_key (some e) k r = r

module _ (script : Script) where
  -- The end of a scoped repair. A synchronisation that succeeds clears the mark itself; then the mark is
  -- deleted again and the event is queued, or the error is returned.
  unfoldable pub after_sync : RepairKey → (ℕ → Event) → ℕ ⊎ Error → Resume → Resume × Option Error
  unfolding after_store delete_mark push clear_resume_repair_key
  after_sync k event (inl applied) r =
      after_store (script.kv_delete k) (clear_resume_repair_key (script.kv_clear k) k r)
        (λ r'. (push (event applied) (delete_mark k r'), none))
  after_sync k event (inr e) r = (r, some e)

  unfoldable pub execute_channel_scoped_resync : ℕ → ℤ → Resume → Resume × Option Error
  unfolding after_store put_mark after_sync
  execute_channel_scoped_resync id kind r =
      after_store (script.kv_put (channel_key id kind)) r (λ r'.
        after_sync (channel_key id kind) (channel_applied id kind) (script.sync_channel id kind)
          (put_mark (channel_key id kind) r'))

  unfoldable pub execute_entity_scoped_resync : Text → Resume → Resume × Option Error
  unfolding after_store put_mark after_sync
  execute_entity_scoped_resync name r = after_store (script.kv_put (entity_key name)) r (λ r'.
      after_sync (entity_key name) (entities_applied name) (script.resync_entities name)
        (put_mark (entity_key name) r'))

  unfoldable pub execute_full_rebuild_required : Resume → Resume × Option Error
  unfolding after_store put_mark
  execute_full_rebuild_required r = after_store (script.kv_put full_rebuild_key) r (λ r'.
      let marked = record (put_mark full_rebuild_key r') { bootstrap_completed = false } in
      if r.has_current_uid
      then after_store script.set_bootstrap_completed marked
          (λ r''. (record r'' { stored_bootstrap = false }, none))
      else (marked, none))

  unfoldable pub after_channel :
      ResumeFailureClass
      → ResumeEscalationScope
      → Resume × Option Error
      → Resume × ResumeFailureHandling
  unfolding push
  after_channel class scope (r, none) = (r, go_on)
  after_channel class scope (r, some e) = (push (sync_failed class scope) r, go_on)

  unfoldable pub after_entity :
      ResumeFailureClass
      → ResumeEscalationScope
      → Resume × Option Error
      → Resume × ResumeFailureHandling
  unfolding push
  after_entity class scope (r, none) = (r, go_on)
  after_entity class scope (r, some e) = (push (sync_failed class scope) r, give_up)

  unfoldable pub gave_up :
      ResumeFailureClass → ResumeEscalationScope → Resume → Resume × ResumeFailureHandling
  unfolding push
  gave_up class scope r = (push (sync_failed class scope) r, give_up)

  unfoldable pub escalate :
      ResumeEscalationScope
      → ResumeFailureTarget
      → ResumeFailureClass
      → Resume
      → Resume × ResumeFailureHandling
  unfolding after_channel after_entity gave_up
  escalate channel_scoped_resync (channel id kind) class r =
      after_channel class channel_scoped_resync (execute_channel_scoped_resync id kind r)
  escalate channel_scoped_resync (entity_type name) class r = (r, go_on)
  escalate channel_scoped_resync global class r = (r, go_on)
  escalate entity_scoped_resync (entity_type name) class r =
      after_entity class entity_scoped_resync (execute_entity_scoped_resync name r)
  escalate entity_scoped_resync (channel id kind) class r = gave_up class entity_scoped_resync r
  escalate entity_scoped_resync global class r = gave_up class entity_scoped_resync r
  escalate retry target class r = gave_up class retry r
  escalate full_rebuild target class r =
      gave_up class full_rebuild (execute_full_rebuild_required r).0

  unfoldable pub announce :
      ResumeFailureTarget → ResumeFailureClass → ResumeEscalationScope → Resume → Resume
  unfolding push
  announce (channel id kind) class scope r =
      push (escalated class scope (channel id kind)) (push (channel_failed id kind class scope) r)
  announce (entity_type name) class scope r = push (escalated class scope (entity_type name)) r
  announce global class scope r = push (escalated class scope global) r

  unfoldable pub handle_resume_failure :
      ErrorCodes → ResumeFailureTarget → Error → Resume → Resume × ResumeFailureHandling
  unfolding escalate announce
  handle_resume_failure codes target e r =
      let class = classify_resume_error codes e in
      let scope = resume_escalation_scope class target in
      escalate scope target class (announce target class scope r)

  unfoldable pub after_handling :
      Error
      → (Resume → Resume × Option Error)
      → Resume × ResumeFailureHandling
      → Resume × Option Error
  after_handling e rest (r, go_on) = rest r
  after_handling e rest (r, give_up) = (r, some e)

  -- The entity families of `execute_resume_sync`.
  unfoldable pub after_family :
      ErrorCodes
      → Text
      → ℕ ⊎ Error
      → Resume
      → (Resume → Resume × Option Error)
      → Resume × Option Error
  unfolding handle_resume_failure after_handling is_unsupported_entity_error clear_resume_repair_key
  after_family codes name (inl applied) r rest =
      rest (clear_resume_repair_key (script.kv_clear (entity_key name)) (entity_key name) r)
  after_family codes name (inr e) r rest =
      if is_unsupported_entity_error e
      then rest r
      else after_handling e rest (handle_resume_failure codes (entity_type name) e r)

  unfoldable pub sync_families : ErrorCodes → List Text → Resume → Resume × Option Error
  unfolding after_family
  sync_families codes [] r = (r, none)
  sync_families codes (name ∷ names) r =
      after_family codes name (script.sync_entities name) r (sync_families codes names)
