-- ===== src/Errors.antt =====
-- The `Error` of crates/privchat-sdk/src/lib.rs, the codes of crates/privchat-sdk/src/error_codes.rs, and
-- which errors leave queued work in its queue. The numbers of `privchat_protocol::ErrorCode` are a parameter.
pub mod Auth
pub mod Resume
use privchat_sdk.Base.{
  ◌==◌, ℕ, ◌+◌, ◌*◌, ◌/◌, ◌%◌, ◌^◌, ◌≤◌, ◌<◌, ◌≡◌, ◌≢◌, Bool, true, false, ◌||◌, arith,
}
use privchat_sdk.Base.Text.{Text}

pub data Error : Type 0 where
  transport : Text → Error
  upload_session_gone : Error
  auth_expired : Error
  serialization : Text → Error
  storage : Text → Error
  missing_local_message_id : ℕ → Error
  not_connected : Error
  auth : Text → Error
  request_unanswered : Text → Error
  actor_closed : Error
  sdk_shutdown : Error
  invalid_state : Text → Error
  server : ℕ → Text → Error  -- u32
  attachment_source_missing : ℕ → Error
  session_not_ready : Text → Error

-- The numbers of the protocol crate that the source names.
pub record ErrorCodes : Type 0 where
  pub system_busy : ℕ
  pub service_unavailable : ℕ
  pub timeout : ℕ
  pub maintenance : ℕ
  pub database_error : ℕ
  pub cache_error : ℕ
  pub network_error : ℕ
  pub rate_limit_exceeded : ℕ
  pub concurrent_limit_exceeded : ℕ
  pub invalid_token : ℕ
  pub decoding_error : ℕ
  pub session_not_found : ℕ
  pub operation_not_allowed : ℕ
  pub attachment_source_missing_code : ℕ
  pub session_not_ready_code : ℕ

-- `error_codes::code`: the domain in the top byte of a `u32`.
unfoldable pub code : ℕ → ℕ → ℕ
code domain detail = domain * 2 ^ 24 + detail % 2 ^ 24

unfoldable pub sdk_code : Error → ℕ
unfolding code
sdk_code (transport message) = code 1 1
sdk_code upload_session_gone = code 1 1
sdk_code auth_expired = code 3 1
sdk_code (request_unanswered context) = code 1 1
sdk_code (serialization message) = code 7 1
sdk_code (storage message) = code 2 1
sdk_code (missing_local_message_id id) = code 2 1
sdk_code not_connected = code 1 2
sdk_code (auth message) = code 3 1
sdk_code actor_closed = code 6 1
sdk_code sdk_shutdown = code 8 1
sdk_code (invalid_state message) = code 5 1
sdk_code (attachment_source_missing id) = code 5 2
sdk_code (session_not_ready state) = code 5 3
sdk_code (server number message) = number

module _ (codes : ErrorCodes) where
  unfoldable pub protocol_code : Error → ℕ
  protocol_code (transport message) = codes.network_error
  protocol_code upload_session_gone = codes.network_error
  protocol_code auth_expired = codes.invalid_token
  protocol_code (request_unanswered context) = codes.network_error
  protocol_code (serialization message) = codes.decoding_error
  protocol_code (storage message) = codes.database_error
  protocol_code (missing_local_message_id id) = codes.database_error
  protocol_code not_connected = codes.session_not_found
  protocol_code (auth message) = codes.invalid_token
  protocol_code actor_closed = codes.system_busy
  protocol_code sdk_shutdown = codes.service_unavailable
  protocol_code (invalid_state message) = codes.operation_not_allowed
  protocol_code (attachment_source_missing id) = codes.attachment_source_missing_code
  protocol_code (session_not_ready state) = codes.session_not_ready_code
  protocol_code (server number message) = number

  unfoldable pub is_retryable_server_code : ℕ → Bool
  is_retryable_server_code x =
      x == codes.system_busy
      || x == codes.service_unavailable
      || x == codes.timeout
      || x == codes.maintenance
      || x == codes.database_error
      || x == codes.cache_error
      || x == codes.network_error
      || x == codes.rate_limit_exceeded
      || x == codes.concurrent_limit_exceeded

  unfoldable pub is_retryable : Error → Bool
  unfolding is_retryable_server_code
  is_retryable not_connected = true
  is_retryable (transport message) = true
  is_retryable (request_unanswered context) = true
  is_retryable upload_session_gone = true
  is_retryable auth_expired = false
  is_retryable (server number message) = is_retryable_server_code number
  is_retryable (serialization message) = false
  is_retryable (storage message) = false
  is_retryable (missing_local_message_id id) = false
  is_retryable (auth message) = false
  is_retryable actor_closed = false
  is_retryable sdk_shutdown = false
  is_retryable (invalid_state message) = false
  is_retryable (attachment_source_missing id) = false
  is_retryable (session_not_ready state) = false

abbrev pub is_server : Error → Bool
is_server (server number message) = true
is_server _ = false

sdk_code-range :
    (e : Error) → is_server e ≡ false → (2 ^ 24 ≤ sdk_code e) × (sdk_code e < 9 * 2 ^ 24)
unfolding sdk_code code
sdk_code-range (transport message) h = (omega arith, omega arith)
sdk_code-range upload_session_gone h = (omega arith, omega arith)
sdk_code-range auth_expired h = (omega arith, omega arith)
sdk_code-range (serialization message) h = (omega arith, omega arith)
sdk_code-range (storage message) h = (omega arith, omega arith)
sdk_code-range (missing_local_message_id id) h = (omega arith, omega arith)
sdk_code-range not_connected h = (omega arith, omega arith)
sdk_code-range (auth message) h = (omega arith, omega arith)
sdk_code-range (request_unanswered context) h = (omega arith, omega arith)
sdk_code-range actor_closed h = (omega arith, omega arith)
sdk_code-range sdk_shutdown h = (omega arith, omega arith)
sdk_code-range (invalid_state message) h = (omega arith, omega arith)
sdk_code-range (attachment_source_missing id) h = (omega arith, omega arith)
sdk_code-range (session_not_ready state) h = (omega arith, omega arith)
sdk_code-range (server number message) h = absurd (ground arith)

-- The code of an error of the SDK's own names its domain in the top byte, one from 1 to 8, and fits 32
-- bits; so it is the code of no error that a server sent with a number below 2 ^ 24.
pub sdk_code-apart :
    (e : Error) (number : ℕ) (message : Text)
    → is_server e ≡ false
    → number < 2 ^ 24
    → (0 < sdk_code e / 2 ^ 24)
      × (sdk_code e / 2 ^ 24 ≤ 8)
      × (sdk_code e < 2 ^ 32)
      × (sdk_code e ≢ sdk_code (server number message))
unfolding sdk_code
sdk_code-apart e number message h k =
    let (low, high) = sdk_code-range e h in
    (omega arith, omega arith, omega arith, λ same. omega arith)
