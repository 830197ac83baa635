-- ===== src/Repair/Families.antt =====
-- When the entity families of `execute_resume_sync` in crates/privchat-sdk/src/lib.rs count as synchronised.
use privchat_sdk.Base.{
  Bool-cases, All, ℕ, ◌≡◌, refl, ◌⊎◌, inl, inr, true, Option, none, some, List, [], ◌∷◌,
}
use privchat_sdk.Base.Text.{Text}
use privchat_sdk.Errors.{Error, ErrorCodes}
use privchat_sdk.Errors.Resume.{
  ResumeFailureClass, retryable_temporary_error, channel_resync_required, entity_resync_required,
  full_rebuild_required, fatal_protocol_error, entity_type, ResumeEscalationScope,
  resume_escalation_scope, classify_resume_error,
}
use privchat_sdk.Repair.{
  entity_key, entities_applied, ResumeFailureHandling, go_on, give_up, Script, Resume,
  is_unsupported_entity_error, after_store, put_mark, after_sync, execute_entity_scoped_resync,
  after_entity, gave_up, escalate, handle_resume_failure, after_handling, after_family,
  sync_families,
}

module _ (script : Script) (codes : ErrorCodes) where
  -- What became of a family in a run without an error: it was synchronised, or the server does not support
  -- it, or its repair synchronised it, or its error asked for the repair of a channel.
  pub data Fate (name : Text) : Type 0 where
    synchronised : (applied : ℕ) → script.sync_entities name ≡ inl applied → Fate name
    unsupported :
        (e : Error)
        → script.sync_entities name ≡ inr e
        → is_unsupported_entity_error e ≡ true
        → Fate name
    repaired : (applied : ℕ) → script.resync_entities name ≡ inl applied → Fate name
    skipped :
        (e : Error)
        → script.sync_entities name ≡ inr e
        → classify_resume_error codes e ≡ channel_resync_required
        → Fate name

  repaired_by :
      (name : Text) (put : Option Error) (answer : ℕ ⊎ Error) (r : Resume)
      → (after_store put r (λ r'.
          after_sync script
            (entity_key name)
            (entities_applied name)
            answer
            (put_mark (entity_key name) r'))).1
        ≡ none
      → (applied : ℕ) × (answer ≡ inl applied)
  unfolding after_store after_sync
  repaired_by name (some e) answer r h = cc
  repaired_by name none (inl applied) r h = (applied, refl)
  repaired_by name none (inr e) r h = cc

  entity-goes :
      (class : ResumeFailureClass) (scope : ResumeEscalationScope) (x : Resume × Option Error)
      → (after_entity script class scope x).1 ≡ go_on
      → x.1 ≡ none
  unfolding after_entity
  entity-goes class scope (r, none) h = refl
  entity-goes class scope (r, some e) h = cc

  handled :
      (name : Text) (e : Error) (class : ResumeFailureClass) (r : Resume)
      → script.sync_entities name ≡ inr e
      → classify_resume_error codes e ≡ class
      → (escalate script
          (resume_escalation_scope class (entity_type name))
          (entity_type name)
          class
          r).1
        ≡ go_on
      → Fate name
  unfolding escalate resume_escalation_scope gave_up execute_entity_scoped_resync
  handled name e retryable_temporary_error r said c h = cc
  handled name e channel_resync_required r said c h = skipped e said c
  handled name e entity_resync_required r said c h =
      let (applied, ok) =
        repaired_by name (script.kv_put (entity_key name)) (script.resync_entities name) r
          (entity-goes _ _ _ h) in
      repaired applied ok
  handled name e full_rebuild_required r said c h = cc
  handled name e fatal_protocol_error r said c h =
      let (applied, ok) =
        repaired_by name (script.kv_put (entity_key name)) (script.resync_entities name) r
          (entity-goes _ _ _ h) in
      repaired applied ok

  continued :
      (e : Error) (rest : Resume → Resume × Option Error) (x : Resume × ResumeFailureHandling)
      → (after_handling script e rest x).1 ≡ none
      → (x.1 ≡ go_on) × ((r : Resume) × ((rest r).1 ≡ none))
  unfolding after_handling
  continued e rest (r, go_on) h = (refl, (r, h))
  continued e rest (r, give_up) h = cc

  family-Fate :
      (name : Text) (answer : ℕ ⊎ Error) (r : Resume) (rest : Resume → Resume × Option Error)
      → script.sync_entities name ≡ answer
      → (after_family script codes name answer r rest).1 ≡ none
      → Fate name × ((r' : Resume) × ((rest r').1 ≡ none))
  unfolding after_family handle_resume_failure
  family-Fate name (inl applied) r rest said h = (synchronised applied said, (_, h))
  family-Fate name (inr e) r rest said h = elim (Bool-cases (is_unsupported_entity_error e)) [
    | inl rare ↦ (unsupported e said rare, (r, rw rare at h))
    | inr other ↦
        let (goes, next) =
          continued e rest (handle_resume_failure script codes (entity_type name) e r)
            (rw other at h) in
        (handled name e (classify_resume_error codes e) _ said refl goes, next)
  ]

  -- A run over the entity families that returns without an error has accounted for every one of them: each
  -- was synchronised, at once or by its repair, or is not supported by the server, or was skipped because
  -- its error asked for the repair of a channel.
  pub sync_families-Fate :
      (names : List Text) (r : Resume)
      → (sync_families script codes names r).1 ≡ none
      → All Fate names
  unfolding sync_families
  sync_families-Fate [] r h = tt
  sync_families-Fate (name ∷ names) r h =
      let (fate, (r', next)) =
        family-Fate name (script.sync_entities name) r (sync_families script codes names) refl h in
      (fate, sync_families-Fate names r' next)
