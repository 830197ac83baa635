-- ===== src/Examples/FlowRuns.antt =====
-- The loop and the plan of an upload, and the retry driver, of crates/privchat-sdk/src/lib.rs on concrete
-- answers.
use privchat_sdk.Sync
use privchat_sdk.Base.{
  ltb, leb, ◌==◌, ◌&&◌, Bool-cases, if◌then◌else◌, ℕ, zero, suc, ◌+◌, ◌≡◌, refl, ◌⊎◌, inl, inr,
  Bool, true, false, none, some, List, [], ◌∷◌, ◌++◌, map, arith,
}
use privchat_sdk.Base.Int.{pos}
use privchat_sdk.Base.Text.{Text, decimal}
use privchat_sdk.Upload.Gaps.{Gap, Range}
use privchat_sdk.Upload.Gaps.Coverage.{in_range, covers, Tidy}
use privchat_sdk.Upload.Transfer.{gap_of}
use privchat_sdk.Upload.Verdict.{ChunkVerdict, ok, retry_chunk}
use privchat_sdk.Upload.Chunks.{UploadStatusOutcome, status, Remote, upload_in_chunks}
use privchat_sdk.Upload.Chunks.Ends.{IsHonest}
use privchat_sdk.Upload.Chunks.Returns.{Settled, upload_in_chunks-Settled}
use privchat_sdk.Upload.Plan.{
  claim_hit, session, SealedPayload, AttachmentUploadIo, plan_attachment_upload,
}
use privchat_sdk.Upload.Plan.Order.{logged, Orderly}
use privchat_sdk.Upload.Plan.Chunked.{plan_attachment_upload-Orderly}
use privchat_sdk.Errors.{Error, upload_session_gone, auth, server}
use privchat_sdk.Errors.Auth.{bracketed_code, is_auth_terminal-codes}
use privchat_sdk.Connection.{State}
use privchat_sdk.Connection.Driver.{Script, Actor, retry_driver}
use privchat_sdk.Connection.Driver.Outcome.{Outcome, retry_driver-Outcome}
use privchat_sdk.Connection.Driver.Command.{connect_command, Answered, connect_command-Answered}
use privchat_sdk.Connection.Driver.Spin.{drive, refused_login-spins}
use privchat_sdk.Examples.ConnectionRuns.{online}
use privchat_sdk.Examples.UploadRuns.{rates}

-- A server that misses the three bytes of a file until it gets them. The first answer to a chunk is lost, so
-- that it is sent and confirmed again; the world is how often a chunk came.
abbrev answer_status : ℕ → ℕ × (UploadStatusOutcome ⊎ Error)
answer_status zero = (0, inl (status ((0, 3) ∷ []) false))
answer_status (suc w) = (suc w, inl (status [] true))

abbrev answer_chunk : ℕ → Gap → ℕ × ChunkVerdict × ℕ
answer_chunk zero chunk =
    if chunk.offset == 0 && leb 3 chunk.len then (1, retry_chunk, 5) else (0, retry_chunk, 5)
answer_chunk (suc w) chunk = (suc (suc w), ok, 5)

abbrev remote : Remote ℕ Bool
remote = record {
  fetch_upload_status = answer_status;
  put_chunk = answer_chunk;
  complete_upload = λ w. (w, inl true);
  read_piece = λ w chunk. none;
  emit_upload_progress = λ w p. w;
  sleep = λ w ms. w;
  count_body_upload = λ w. w;
}

abbrev misses : ℕ → ℕ → Bool
misses zero x = ltb x 3
misses (suc w) x = false

kept : (w : ℕ) (chunk : Gap) (x : ℕ) → misses (answer_chunk w chunk).0 x ≡ true → misses w x ≡ true
kept zero chunk x h = elim (Bool-cases (chunk.offset == 0 && leb 3 chunk.len)) [
  | inl whole ↦ absurd (let q : false ≡ true = rw whole at h in cc)
  | inr part ↦ rw part at h
]
kept (suc w) chunk x h = absurd (let q = h in cc)

confirmed :
    (w : ℕ) (chunk : Gap) (x : ℕ)
    → (answer_chunk w chunk).1 ≡ ok
    → in_range chunk.offset chunk.len x ≡ true
    → misses (answer_chunk w chunk).0 x ≡ false
confirmed zero chunk x said inside = elim (Bool-cases (chunk.offset == 0 && leb 3 chunk.len)) [
  | inl whole ↦ absurd (let q : retry_chunk ≡ ok = rw whole at said in cc)
  | inr part ↦ absurd (let q : retry_chunk ≡ ok = rw part at said in cc)
]
confirmed (suc w) chunk x said inside = refl

asked : (w x : ℕ) → misses (answer_status w).0 x ≡ true → misses w x ≡ true
asked zero x h = h
asked (suc w) x h = h

reports :
    (w w' : ℕ) (missing : List Range) (completed : Bool)
    → answer_status w ≡ (w', inl (status missing completed))
    → Tidy 0 3 (map gap_of missing) × ((x : ℕ) → covers (map gap_of missing) x ≡ misses w' x)
unfolding covers
reports zero w' missing completed e =
    let m : (0, 3) ∷ [] ≡ missing = cc in
    let v : 0 ≡ w' = cc in
    rw⁻¹ (m, v) ((omega arith, omega arith, omega arith, tt), λ x. ground arith)
reports (suc w) w' missing completed e =
    let m : [] ≡ missing = cc in let v : suc w ≡ w' = cc in rw⁻¹ (m, v) (tt, λ x. refl)

remote-IsHonest : IsHonest remote rates 3 misses
remote-IsHonest = record {
  shown = λ w p x h. h;
  slept = λ w ms x h. h;
  kept = kept;
  confirmed = confirmed;
  asked = asked;
  reports = reports;
}

upload_in_chunks-Settled_example :
    Settled remote rates 3 misses remote-IsHonest 0 (upload_in_chunks remote rates 12 3 65536 0)
upload_in_chunks-Settled_example =
    upload_in_chunks-Settled remote rates 3 misses remote-IsHonest 12 65536 0 (omega arith)
      (omega arith)

-- A server that announces a hit, misses the claim, and loses the session once.
abbrev upload_io : AttachmentUploadIo ℕ Bool
upload_io = record {
  on_upload_finished = λ w. w;
  prepare = λ w digest size. (w, inl (record { token = []; already_exists = true }));
  claim = λ w token digest. (w, inr (server 404 []));
  upload = λ w token sealed. (w, inl true);
  chunked_threshold = some 1;
  prepare_chunked = λ w digest size force. (
    w,
    inl (
        if force
        then session
            (record { upload_url = []; upload_token = []; base_unit = 65536; expires_at = pos 9 })
        else claim_hit []),
  );
  upload_chunked = λ w s sealed. (w, inr upload_session_gone);
}

abbrev sealed_payload : SealedPayload
sealed_payload = record { blob = 1 ∷ 2 ∷ 3 ∷ []; cek_b64 = []; sha256 = 5 ∷ [] }

plan_attachment_upload-Orderly_example :
    Orderly 404 upload_io sealed_payload
      (plan_attachment_upload 404 (logged upload_io) sealed_payload (0, []))
plan_attachment_upload-Orderly_example =
    plan_attachment_upload-Orderly 404 upload_io sealed_payload 0

abbrev wanting : State
wanting = record online { next_reconnect_at = some 1 }

abbrev actor : Actor
actor = record {
  state = wanting;
  sync_coordinator = Sync.new;
  bootstrap_completed = false;
  connect_count = 0;
  authenticate_count = 0;
}

-- The access token has expired; the network is up.
abbrev expired_token : Script
expired_token = record {
  connects = λ n. none;
  authenticates = λ n. some (auth (91 ∷ decimal 10002 ++ (93 ∷ [])));
  snapshot = some true;
  closes = true;
  now = 50;
  jitter = λ ms. ms;
}

retry_driver-Outcome_example : Outcome (retry_driver expired_token actor).state
retry_driver-Outcome_example =
    retry_driver-Outcome expired_token actor (record { wanted = refl; due = refl })

abbrev revoked : Text
revoked = 91 ∷ decimal 10003 ++ (93 ∷ [])

abbrev revoked_login : Script
revoked_login = record expired_token { authenticates = λ n. some (auth revoked) }

abbrev logged_out : Actor
logged_out = record actor { state = record wanting { auth_terminal_fired = true } }

refused_login-spins_example :
    ((drive 3 revoked_login logged_out).state.next_reconnect_at ≡ some 50)
    × ((drive 3 revoked_login logged_out).state.reconnect_attempt ≡ 0)
    × ((drive 3 revoked_login logged_out).state.should_auto_reconnect ≡ true)
    × ((drive 3 revoked_login logged_out).authenticate_count ≡ 0 + 3)
refused_login-spins_example =
    refused_login-spins 2 revoked_login revoked logged_out
      (record {
        up = λ n. refl;
        stored = (true, refl);
        refused = λ n. refl;
        terminal =
            (is_auth_terminal-codes revoked).1
              (10003, (bracketed_code 10003 [] (omega arith)).0, inr (omega arith, omega arith));
      })
      (record { wanted = refl; fired = refl; has_user = refl })

connect_command-Answered_example : Answered (connect_command expired_token false actor)
connect_command-Answered_example = connect_command-Answered expired_token false actor
