-- ===== src/Examples/RepairRuns.antt =====
-- A failed resume of crates/privchat-sdk/src/lib.rs on concrete answers.
use privchat_sdk.Base.{if◌then◌else◌, All, refl, inl, inr, true, none, [], ◌∷◌}
use privchat_sdk.Base.Int.{pos}
use privchat_sdk.Base.Text.{Text, text_eq}
use privchat_sdk.Errors.{Error, serialization}
use privchat_sdk.Errors.Resume.{resume_escalation_scope, classify_resume_error}
use privchat_sdk.Repair.{
  channel_key, entity_key, Script, Resume, is_unsupported_entity_error, after_store, after_sync,
  execute_channel_scoped_resync, execute_entity_scoped_resync, after_entity, escalate, announce,
  handle_resume_failure, after_handling, after_family, sync_families,
}
use privchat_sdk.Repair.Marks.{Repaired, scoped_resync-Marked}
use privchat_sdk.Repair.Families.{Fate, sync_families-Fate}
use privchat_sdk.Examples.ConnectionRuns.{codes}

abbrev friends : Text
friends = b'f' ∷ b'r' ∷ []

abbrev groups : Text
groups = b'g' ∷ b'r' ∷ []

abbrev protocol_error : Error
protocol_error = serialization []

-- The second family cannot be decoded, and its repair succeeds; the channel's does not.
abbrev script : Script
script = record {
  kv_put = λ k. none;
  kv_delete = λ k. none;
  kv_clear = λ k. none;
  set_bootstrap_completed = none;
  sync_channel = λ id kind. inr protocol_error;
  sync_entities = λ name. if text_eq name groups then inr protocol_error else inl 4;
  resync_entities = λ name. inl 7;
}

abbrev resume : Resume
resume = record {
  marks = [];
  has_current_uid = true;
  bootstrap_completed = true;
  stored_bootstrap = true;
  pending_events = [];
}

scoped_resync-Marked_example :
    Repaired script
      (channel_key 5 (pos 1))
      (script.sync_channel 5 (pos 1))
      resume
      (execute_channel_scoped_resync script 5 (pos 1) resume)
    × Repaired script
        (entity_key groups)
        (script.resync_entities groups)
        resume
        (execute_entity_scoped_resync script groups resume)
scoped_resync-Marked_example = scoped_resync-Marked script 5 (pos 1) groups resume

sync_families-Fate_example : All (Fate script codes) (friends ∷ groups ∷ [])
unfolding sync_families after_family handle_resume_failure escalate announce after_handling
    resume_escalation_scope classify_resume_error after_entity execute_entity_scoped_resync
    after_store after_sync text_eq is_unsupported_entity_error
sync_families-Fate_example = sync_families-Fate script codes (friends ∷ groups ∷ []) resume refl
