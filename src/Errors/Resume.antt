-- ===== src/Errors/Resume.antt =====
-- What a failed resume leads to, in crates/privchat-sdk/src/lib.rs: the class of an error, of an `Auth` or
-- `InvalidState` error by its text, and the resync or rebuild that a class asks for.
use privchat_sdk.Base.{
  if◌then◌else◌, ℕ, ◌≡◌, refl, ◌≢◌, Bool, true, false, ◌||◌, List, [], ◌∷◌, map, arith,
}
use privchat_sdk.Base.Int.{ℤ}
use privchat_sdk.Base.Text.{Text, to_ascii_lowercase, contains_text}
use privchat_sdk.Errors.{
  Error, transport, upload_session_gone, auth_expired, serialization, storage,
  missing_local_message_id, not_connected, auth, request_unanswered, actor_closed, sdk_shutdown,
  invalid_state, server, attachment_source_missing, session_not_ready, ErrorCodes, code,
  is_retryable_server_code, is_retryable,
}

pub data ResumeFailureClass : Type 0 where
  retryable_temporary_error : ResumeFailureClass
  channel_resync_required : ResumeFailureClass
  entity_resync_required : ResumeFailureClass
  full_rebuild_required : ResumeFailureClass
  fatal_protocol_error : ResumeFailureClass

unfoldable pub class_code : ResumeFailureClass → ℕ
unfolding code
class_code retryable_temporary_error = code 4 1
class_code channel_resync_required = code 4 2
class_code entity_resync_required = code 4 3
class_code full_rebuild_required = code 4 4
class_code fatal_protocol_error = code 4 5

pub data ResumeFailureTarget : Type 0 where
  global : ResumeFailureTarget
  entity_type : Text → ResumeFailureTarget
  channel : ℕ → ℤ → ResumeFailureTarget

pub data ResumeEscalationScope : Type 0 where
  retry : ResumeEscalationScope
  channel_scoped_resync : ResumeEscalationScope
  entity_scoped_resync : ResumeEscalationScope
  full_rebuild : ResumeEscalationScope

unfoldable pub resume_escalation_scope :
    ResumeFailureClass → ResumeFailureTarget → ResumeEscalationScope
resume_escalation_scope retryable_temporary_error target = retry
resume_escalation_scope channel_resync_required target = channel_scoped_resync
resume_escalation_scope entity_resync_required target = entity_scoped_resync
resume_escalation_scope full_rebuild_required target = full_rebuild
resume_escalation_scope fatal_protocol_error (channel id kind) = channel_scoped_resync
resume_escalation_scope fatal_protocol_error (entity_type name) = entity_scoped_resync
resume_escalation_scope fatal_protocol_error global = full_rebuild

-- `to_ascii_lowercase`, and whether one of several texts occurs.
abbrev lowered : Text → Text
lowered = map to_ascii_lowercase

any_of : Text → List Text → Bool
unfolding contains_text
any_of s [] = false
any_of s (p ∷ ps) = contains_text s p || any_of s ps

abbrev channel_codes : List Text
channel_codes =
    (b'c' ∷ b'o' ∷ b'd' ∷ b'e' ∷ b'=' ∷ b'2' ∷ b'0' ∷ b'9' ∷ b'0' ∷ b'0' ∷ [])
    ∷ (b's' ∷ b'y' ∷ b'n' ∷ b'c' ∷ b'c' ∷ b'h' ∷ b'a' ∷ b'n' ∷ b'n' ∷ b'e' ∷ b'l' ∷ b'r' ∷ b'e'
        ∷ b's' ∷ b'y' ∷ b'n' ∷ b'c' ∷ b'r' ∷ b'e' ∷ b'q' ∷ b'u' ∷ b'i' ∷ b'r' ∷ b'e' ∷ b'd' ∷ [])
    ∷ (b'c' ∷ b'h' ∷ b'a' ∷ b'n' ∷ b'n' ∷ b'e' ∷ b'l' ∷ b' ' ∷ b's' ∷ b'c' ∷ b'o' ∷ b'p' ∷ b'e'
        ∷ b'd' ∷ b' ' ∷ b'r' ∷ b'e' ∷ b's' ∷ b'y' ∷ b'n' ∷ b'c' ∷ b' ' ∷ b'r' ∷ b'e' ∷ b'q' ∷ b'u'
        ∷ b'i' ∷ b'r' ∷ b'e' ∷ b'd' ∷ [])
    ∷ []

abbrev entity_codes : List Text
entity_codes =
    (b'c' ∷ b'o' ∷ b'd' ∷ b'e' ∷ b'=' ∷ b'2' ∷ b'0' ∷ b'9' ∷ b'0' ∷ b'1' ∷ [])
    ∷ (b's' ∷ b'y' ∷ b'n' ∷ b'c' ∷ b'e' ∷ b'n' ∷ b't' ∷ b'i' ∷ b't' ∷ b'y' ∷ b'r' ∷ b'e' ∷ b's'
        ∷ b'y' ∷ b'n' ∷ b'c' ∷ b'r' ∷ b'e' ∷ b'q' ∷ b'u' ∷ b'i' ∷ b'r' ∷ b'e' ∷ b'd' ∷ [])
    ∷ (b'e' ∷ b'n' ∷ b't' ∷ b'i' ∷ b't' ∷ b'y' ∷ b' ' ∷ b's' ∷ b'c' ∷ b'o' ∷ b'p' ∷ b'e' ∷ b'd'
        ∷ b' ' ∷ b'r' ∷ b'e' ∷ b's' ∷ b'y' ∷ b'n' ∷ b'c' ∷ b' ' ∷ b'r' ∷ b'e' ∷ b'q' ∷ b'u' ∷ b'i'
        ∷ b'r' ∷ b'e' ∷ b'd' ∷ [])
    ∷ []

abbrev rebuild_codes : List Text
rebuild_codes =
    (b'c' ∷ b'o' ∷ b'd' ∷ b'e' ∷ b'=' ∷ b'2' ∷ b'0' ∷ b'9' ∷ b'0' ∷ b'2' ∷ [])
    ∷ (b's' ∷ b'y' ∷ b'n' ∷ b'c' ∷ b'f' ∷ b'u' ∷ b'l' ∷ b'l' ∷ b'r' ∷ b'e' ∷ b'b' ∷ b'u' ∷ b'i'
        ∷ b'l' ∷ b'd' ∷ b'r' ∷ b'e' ∷ b'q' ∷ b'u' ∷ b'i' ∷ b'r' ∷ b'e' ∷ b'd' ∷ [])
    ∷ (b'f' ∷ b'u' ∷ b'l' ∷ b'l' ∷ b' ' ∷ b'r' ∷ b'e' ∷ b'b' ∷ b'u' ∷ b'i' ∷ b'l' ∷ b'd' ∷ b' '
        ∷ b'r' ∷ b'e' ∷ b'q' ∷ b'u' ∷ b'i' ∷ b'r' ∷ b'e' ∷ b'd' ∷ [])
    ∷ []

abbrev channel_words : List Text
channel_words =
    (b'p' ∷ b't' ∷ b's' ∷ b' ' ∷ b't' ∷ b'o' ∷ b'o' ∷ b' ' ∷ b'o' ∷ b'l' ∷ b'd' ∷ [])
    ∷ (b'g' ∷ b'a' ∷ b'p' ∷ [])
    ∷ (b'c' ∷ b'h' ∷ b'a' ∷ b'n' ∷ b'n' ∷ b'e' ∷ b'l' ∷ b' ' ∷ b'r' ∷ b'e' ∷ b's' ∷ b'y' ∷ b'n'
        ∷ b'c' ∷ [])
    ∷ (b'm' ∷ b'e' ∷ b's' ∷ b's' ∷ b'a' ∷ b'g' ∷ b'e' ∷ b' ' ∷ b'h' ∷ b'i' ∷ b's' ∷ b't' ∷ b'o'
        ∷ b'r' ∷ b'y' ∷ b' ' ∷ b'w' ∷ b'i' ∷ b'n' ∷ b'd' ∷ b'o' ∷ b'w' ∷ [])
    ∷ (b'l' ∷ b'a' ∷ b's' ∷ b't' ∷ b'_' ∷ b'p' ∷ b't' ∷ b's' ∷ [])
    ∷ []

abbrev entity_words : List Text
entity_words =
    (b'e' ∷ b'n' ∷ b't' ∷ b'i' ∷ b't' ∷ b'y' ∷ b' ' ∷ b'r' ∷ b'e' ∷ b's' ∷ b'y' ∷ b'n' ∷ b'c' ∷ [])
    ∷ (b's' ∷ b'i' ∷ b'n' ∷ b'c' ∷ b'e' ∷ b'_' ∷ b'v' ∷ b'e' ∷ b'r' ∷ b's' ∷ b'i' ∷ b'o' ∷ b'n'
        ∷ [])
    ∷ (b'v' ∷ b'e' ∷ b'r' ∷ b's' ∷ b'i' ∷ b'o' ∷ b'n' ∷ b' ' ∷ b't' ∷ b'o' ∷ b'o' ∷ b' ' ∷ b'o'
        ∷ b'l' ∷ b'd' ∷ [])
    ∷ []

abbrev rebuild_words : List Text
rebuild_words =
    (b'r' ∷ b'e' ∷ b's' ∷ b'u' ∷ b'm' ∷ b'e' ∷ b' ' ∷ b't' ∷ b'o' ∷ b'k' ∷ b'e' ∷ b'n' ∷ b' ' ∷ b'i'
      ∷ b'n' ∷ b'v' ∷ b'a' ∷ b'l' ∷ b'i' ∷ b'd' ∷ [])
    ∷ (b's' ∷ b'e' ∷ b's' ∷ b's' ∷ b'i' ∷ b'o' ∷ b'n' ∷ b' ' ∷ b'n' ∷ b'o' ∷ b't' ∷ b' ' ∷ b'f'
        ∷ b'o' ∷ b'u' ∷ b'n' ∷ b'd' ∷ [])
    ∷ (b'i' ∷ b'n' ∷ b'v' ∷ b'a' ∷ b'l' ∷ b'i' ∷ b'd' ∷ b' ' ∷ b't' ∷ b'o' ∷ b'k' ∷ b'e' ∷ b'n'
        ∷ [])
    ∷ (b'f' ∷ b'u' ∷ b'l' ∷ b'l' ∷ b' ' ∷ b'r' ∷ b'e' ∷ b'b' ∷ b'u' ∷ b'i' ∷ b'l' ∷ b'd' ∷ [])
    ∷ (b'b' ∷ b'o' ∷ b'o' ∷ b't' ∷ b's' ∷ b't' ∷ b'r' ∷ b'a' ∷ b'p' ∷ [])
    ∷ (b's' ∷ b'e' ∷ b's' ∷ b's' ∷ b'i' ∷ b'o' ∷ b'n' ∷ b'_' ∷ b'r' ∷ b'e' ∷ b'a' ∷ b'd' ∷ b'y'
        ∷ b' ' ∷ b'r' ∷ b'e' ∷ b'j' ∷ b'e' ∷ b'c' ∷ b't' ∷ b'e' ∷ b'd' ∷ [])
    ∷ []

abbrev protocol_words : List Text
protocol_words =
    (b'd' ∷ b'e' ∷ b'c' ∷ b'o' ∷ b'd' ∷ b'e' ∷ [])
    ∷ (b's' ∷ b'c' ∷ b'h' ∷ b'e' ∷ b'm' ∷ b'a' ∷ [])
    ∷ []

abbrev state_rebuild_words : List Text
state_rebuild_words =
    (b's' ∷ b'e' ∷ b's' ∷ b's' ∷ b'i' ∷ b'o' ∷ b'n' ∷ b'_' ∷ b'r' ∷ b'e' ∷ b'a' ∷ b'd' ∷ b'y' ∷ b' '
      ∷ b'r' ∷ b'e' ∷ b'j' ∷ b'e' ∷ b'c' ∷ b't' ∷ b'e' ∷ b'd' ∷ [])
    ∷ (b'r' ∷ b'e' ∷ b'q' ∷ b'u' ∷ b'i' ∷ b'r' ∷ b'e' ∷ b's' ∷ b' ' ∷ b'a' ∷ b'u' ∷ b't' ∷ b'h'
        ∷ b'e' ∷ b'n' ∷ b't' ∷ b'i' ∷ b'c' ∷ b'a' ∷ b't' ∷ b'e' ∷ b'd' ∷ [])
    ∷ []

abbrev state_entity_words : List Text
state_entity_words =
    (b'p' ∷ b'a' ∷ b'g' ∷ b'i' ∷ b'n' ∷ b'g' ∷ b' ' ∷ b's' ∷ b't' ∷ b'a' ∷ b'l' ∷ b'l' ∷ b'e' ∷ b'd'
      ∷ [])
    ∷ (b's' ∷ b'i' ∷ b'n' ∷ b'c' ∷ b'e' ∷ b'_' ∷ b'v' ∷ b'e' ∷ b'r' ∷ b's' ∷ b'i' ∷ b'o' ∷ b'n'
        ∷ [])
    ∷ (b'e' ∷ b'n' ∷ b't' ∷ b'i' ∷ b't' ∷ b'y' ∷ b' ' ∷ b'r' ∷ b'e' ∷ b's' ∷ b'y' ∷ b'n' ∷ b'c'
        ∷ [])
    ∷ []

abbrev state_channel_words : List Text
state_channel_words =
    (b'm' ∷ b'a' ∷ b'x' ∷ b' ' ∷ b'p' ∷ b'a' ∷ b'g' ∷ b'i' ∷ b'n' ∷ b'g' ∷ b' ' ∷ b'i' ∷ b't' ∷ b'e'
      ∷ b'r' ∷ b'a' ∷ b't' ∷ b'i' ∷ b'o' ∷ b'n' ∷ b's' ∷ [])
    ∷ (b'l' ∷ b'a' ∷ b's' ∷ b't' ∷ b'_' ∷ b'p' ∷ b't' ∷ b's' ∷ [])
    ∷ (b'g' ∷ b'a' ∷ b'p' ∷ [])
    ∷ (b'c' ∷ b'h' ∷ b'a' ∷ b'n' ∷ b'n' ∷ b'e' ∷ b'l' ∷ b' ' ∷ b'r' ∷ b'e' ∷ b's' ∷ b'y' ∷ b'n'
        ∷ b'c' ∷ [])
    ∷ []

unfoldable pub classify_resume_message : Text → ResumeFailureClass → ResumeFailureClass
unfolding any_of
classify_resume_message message default =
    let text = lowered message in
    if any_of text channel_codes
    then channel_resync_required
    else if any_of text entity_codes
    then entity_resync_required
    else if any_of text rebuild_codes
    then full_rebuild_required
    else if any_of text channel_words
    then channel_resync_required
    else if any_of text entity_words
    then entity_resync_required
    else if any_of text rebuild_words
    then full_rebuild_required
    else if any_of text protocol_words
    then fatal_protocol_error
    else default

classify_invalid_state : Text → ResumeFailureClass
unfolding any_of
classify_invalid_state message =
    let text = lowered message in
    if any_of text state_rebuild_words
    then full_rebuild_required
    else if any_of text state_entity_words
    then entity_resync_required
    else if any_of text state_channel_words
    then channel_resync_required
    else fatal_protocol_error

unfoldable pub classify_resume_error : ErrorCodes → Error → ResumeFailureClass
unfolding classify_resume_message classify_invalid_state
classify_resume_error codes (transport message) = retryable_temporary_error
classify_resume_error codes upload_session_gone = retryable_temporary_error
classify_resume_error codes (request_unanswered context) = retryable_temporary_error
classify_resume_error codes not_connected = retryable_temporary_error
classify_resume_error codes actor_closed = retryable_temporary_error
classify_resume_error codes auth_expired = full_rebuild_required
classify_resume_error codes (serialization message) = fatal_protocol_error
classify_resume_error codes (storage message) = full_rebuild_required
classify_resume_error codes (missing_local_message_id id) = full_rebuild_required
classify_resume_error codes (auth message) = classify_resume_message message full_rebuild_required
classify_resume_error codes sdk_shutdown = retryable_temporary_error
classify_resume_error codes (attachment_source_missing id) = fatal_protocol_error
classify_resume_error codes (session_not_ready state) = retryable_temporary_error
classify_resume_error codes (invalid_state message) = classify_invalid_state message
classify_resume_error codes (server number message) =
    if is_retryable_server_code codes number
    then retryable_temporary_error
    else fatal_protocol_error

-- An error that leaves queued work in its queue only asks for a retry of a resume that fails with it,
-- whatever it was about.
pub retryable-resume :
    (codes : ErrorCodes) (e : Error) (target : ResumeFailureTarget)
    → is_retryable codes e ≡ true
    → resume_escalation_scope (classify_resume_error codes e) target ≡ retry
unfolding is_retryable classify_resume_error resume_escalation_scope
retryable-resume codes (transport message) target h = refl
retryable-resume codes upload_session_gone target h = refl
retryable-resume codes auth_expired target h = cc
retryable-resume codes (serialization message) target h = cc
retryable-resume codes (storage message) target h = cc
retryable-resume codes (missing_local_message_id id) target h = cc
retryable-resume codes not_connected target h = refl
retryable-resume codes (auth message) target h = cc
retryable-resume codes (request_unanswered context) target h = refl
retryable-resume codes actor_closed target h = cc
retryable-resume codes sdk_shutdown target h = cc
retryable-resume codes (invalid_state message) target h = cc
retryable-resume codes (attachment_source_missing id) target h = cc
retryable-resume codes (session_not_ready state) target h = cc
retryable-resume codes (server number message) target h = rw h refl

classify_resume_message-not_retry :
    (message : Text) (default : ResumeFailureClass)
    → default ≢ retryable_temporary_error
    → classify_resume_message message default ≢ retryable_temporary_error
unfolding classify_resume_message
classify_resume_message-not_retry message default h e = ground arith

escalates :
    (class : ResumeFailureClass) (target : ResumeFailureTarget)
    → class ≢ retryable_temporary_error
    → resume_escalation_scope class target ≢ retry
unfolding resume_escalation_scope
escalates retryable_temporary_error target h e = h refl
escalates channel_resync_required target h e = cc
escalates entity_resync_required target h e = cc
escalates full_rebuild_required target h e = cc
escalates fatal_protocol_error global h e = cc
escalates fatal_protocol_error (entity_type name) h e = cc
escalates fatal_protocol_error (channel id kind) h e = cc

-- A resume that fails with an authentication or an invalid-state error is never just retried, whatever
-- the text of the error and whatever failed: it resyncs a channel or an entity, or rebuilds.
pub auth_resume-escalates :
    (codes : ErrorCodes) (message : Text) (target : ResumeFailureTarget)
    → (resume_escalation_scope (classify_resume_error codes (auth message)) target ≢ retry)
      × (resume_escalation_scope (classify_resume_error codes (invalid_state message)) target
          ≢ retry)
unfolding classify_resume_error classify_invalid_state
auth_resume-escalates codes message target = (
  escalates _ target (classify_resume_message-not_retry message full_rebuild_required (λ e. cc)),
  escalates _ target (λ e. ground arith),
)
