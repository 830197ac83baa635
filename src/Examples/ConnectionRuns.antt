-- ===== src/Examples/ConnectionRuns.antt =====
-- The connection, the errors and the anti-entropy pages of crates/privchat-sdk/src/lib.rs on concrete inputs.
use privchat_sdk.Base.{
  ◌⊎◌, ℕ, ◌+◌, ◌≡◌, true, false, Option, none, some, List, [], ◌∷◌, ◌++◌, arith,
}
use privchat_sdk.Base.Int.{pos}
use privchat_sdk.Base.Text.{Text, decimal}
use privchat_sdk.Errors.{Error, auth, request_unanswered, ErrorCodes}
use privchat_sdk.Errors.Auth.{classify_auth_error_code, auth_kind, auth_error_code, bracketed_code}
use privchat_sdk.Connection.{
  new_state, authenticated, AuthenticateRetryOperation, reconnect_op, authenticate_op, State,
  trigger_forced_logout, disconnect, execute_authenticate_with_retry,
}
use privchat_sdk.Connection.Liveness.{
  Background, tick, probed, deadline, hinted, inbound_ended, react_all, IsOffline, stays-IsOffline,
}
use privchat_sdk.Connection.Retry.{logged, longest, Settles, execute-Settles}
use privchat_sdk.AntiEntropy.{AntiEntropyObservation, plan_anti_entropy_page}
use privchat_sdk.AntiEntropy.Page.{IsPage, stale_keys, plan_anti_entropy_page-IsPage}
use privchat_sdk.AntiEntropy.Scan.{scan, scan-all}

abbrev pub online : State
online = record {
  session_state = new_state;
  has_transport = false;
  has_current_uid = true;
  should_auto_reconnect = true;
  reconnect_attempt = 5;
  next_reconnect_at = none;
  network_online = true;
  auth_terminal_fired = false;
  inbound_epoch = 3;
}

abbrev noise : List Background
noise =
    tick 15000
    ∷ probed 15001 false
    ∷ deadline
    ∷ hinted 15002 false
    ∷ hinted 15003 true
    ∷ inbound_ended 15004 3
    ∷ []

stays-IsOffline_example :
    IsOffline (λ s. s) (react_all (λ s. s) noise (disconnect true online))
    × ((online.auth_terminal_fired ≡ true)
        ⊎ IsOffline (λ s. s) (react_all (λ s. s) noise (trigger_forced_logout true online)))
stays-IsOffline_example = stays-IsOffline (λ s. s) true noise online

abbrev up : State
up = record online { session_state = authenticated; has_transport = true }

-- A driver whose requests stay unanswered, and which counts them.
abbrev silent : ℕ → AuthenticateRetryOperation → ℕ × Option Error
silent n reconnect_op = (n, none)
silent n authenticate_op = (n + 1, some (request_unanswered []))

execute-Settles_example :
    Settles silent
      (longest silent false)
      (execute_authenticate_with_retry (logged silent) false (0, []))
execute-Settles_example = execute-Settles silent false 0

abbrev expired : Text
expired = b'e' ∷ b'x' ∷ b'p' ∷ []

bracketed_code_example :
    (auth_error_code (auth (91 ∷ decimal 10002 ++ (93 ∷ expired))) ≡ some 10002)
    × (auth_kind (auth (91 ∷ decimal 10002 ++ (93 ∷ expired)))
        ≡ some (classify_auth_error_code 10002))
bracketed_code_example = bracketed_code 10002 expired (omega arith)

abbrev pub codes : ErrorCodes
codes = record {
  system_busy = 1;
  service_unavailable = 2;
  timeout = 3;
  maintenance = 4;
  database_error = 5;
  cache_error = 6;
  network_error = 7;
  rate_limit_exceeded = 8;
  concurrent_limit_exceeded = 9;
  invalid_token = 10001;
  decoding_error = 11;
  session_not_found = 10006;
  operation_not_allowed = 12;
  attachment_source_missing_code = 13;
  session_not_ready_code = 14;
}

abbrev channels : List AntiEntropyObservation
channels =
    record { key = (1, pos 1); local_pts = 5; server_pts = some 9 }
    ∷ record { key = (2, pos 1); local_pts = 5; server_pts = none }
    ∷ record { key = (3, pos 1); local_pts = 5; server_pts = some 6 }
    ∷ []

plan_anti_entropy_page-IsPage_example :
    (taken left : List AntiEntropyObservation) × (channels ≡ taken ++ left)
    × IsPage 1 (plan_anti_entropy_page channels 1) taken left
plan_anti_entropy_page-IsPage_example = plan_anti_entropy_page-IsPage channels 1

scan-all_example : scan 3 1 channels ≡ stale_keys channels
scan-all_example = scan-all 3 1 channels (omega arith) (omega arith)
