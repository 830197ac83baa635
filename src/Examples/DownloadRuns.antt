-- ===== src/Examples/DownloadRuns.antt =====
-- Downloads of crates/privchat-sdk/src/media_download.rs over concrete attempts.
use privchat_sdk.Base.{ℕ, zero, suc, ◌≡◌, refl, true, false, none, some, [], ◌∷◌}
use privchat_sdk.Base.Int.{pos}
use privchat_sdk.Media.Attachment.{Crypto, Bytes, drop, decrypt_downloaded_attachment_bytes}
use privchat_sdk.Media.Download.{
  wake_resumed, chunk, closed, broken, Turn, wake_states, woken_cancelled, showing, stop,
  after_read, body,
}
use privchat_sdk.Media.Download.Run.{
  Reply, send_error, response, Disk, Io, ResolvedFileDownload, part_len, total_of, fail_download,
  opened_part, finalize, after_body, receive, with_reply, with_final, run_download,
}
use privchat_sdk.Media.Download.Stream.{received_read, received, ends_read, ends}
use privchat_sdk.Media.Download.Resume.{
  IsGood, expected_from, Serves, IsPart, IsFinal, attempts, attempts-IsGood,
}
use privchat_sdk.Media.Download.Finish.{Finishes, run_download-done}
use privchat_sdk.Media.Download.Stuck.{succeeds, attempts-stuck}
use privchat_sdk.Examples.ConnectionRuns.{codes}

abbrev file : Bytes
file = 1 ∷ 2 ∷ 3 ∷ []

-- No cipher: the ticket is of version 0.
abbrev no_crypto : Crypto
no_crypto = record {
  encrypt = λ key nonce text. none;
  decrypt = λ key nonce text. none;
  encode_base64 = λ bytes. bytes;
  decode_base64 = λ text. none;
}

abbrev ticket : ResolvedFileDownload
ticket = record { encryption_version = pos 0; cek = none }

abbrev two_bytes : Turn
two_bytes = record {
  cancel_seen = false;
  wakes = wake_resumed ∷ [];
  read = chunk (1 ∷ 2 ∷ []) true none;
}

abbrev last_byte : Turn
last_byte = record { cancel_seen = false; wakes = []; read = chunk (3 ∷ []) false none }

abbrev over : Turn
over = record { cancel_seen = false; wakes = []; read = closed }

abbrev cut_off : Turn
cut_off = record { cancel_seen = false; wakes = []; read = broken }

-- The server loses the connection after two bytes, and sends the last one when asked for it.
abbrev serve : ℕ → Reply
serve zero = response 200 (some 3) (two_bytes ∷ cut_off ∷ [])
serve (suc zero) = send_error
serve (suc (suc zero)) = response 206 (some 1) (last_byte ∷ over ∷ [])
serve (suc (suc (suc n))) = send_error

serve-Serves : Serves file serve
unfolding Serves expected_from received received_read ends ends_read drop
serve-Serves zero status content_length turns e ok =
    let s : 200 ≡ status = cc in
    let t : two_bytes ∷ cut_off ∷ [] ≡ turns = cc in rw⁻¹ (s, t) (3 ∷ [], refl, λ h. cc)
serve-Serves (suc zero) status content_length turns e ok = cc
serve-Serves (suc (suc zero)) status content_length turns e ok =
    let s : 206 ≡ status = cc in
    let t : last_byte ∷ over ∷ [] ≡ turns = cc in rw⁻¹ (s, t) ([], refl, λ h. refl)
serve-Serves (suc (suc (suc n))) status content_length turns e ok = cc

abbrev io : Io
io = record {
  open_ok = true;
  sync_ok = true;
  rename_ok = true;
  read_ok = true;
  write_ok = true;
  copy_ok = true;
}

abbrev empty : Disk
empty = record { part = none; final = none; sealed_copy = none }

abbrev half : Disk
half = record { part = some (1 ∷ 2 ∷ []); final = none; sealed_copy = none }

attempts-IsGood_example :
    IsGood no_crypto ticket file
      (attempts codes 1 no_crypto ticket [] file ((serve, io) ∷ (serve, io) ∷ []) empty)
unfolding IsPart IsFinal
attempts-IsGood_example =
    attempts-IsGood codes 1 no_crypto ticket [] file ((serve, io) ∷ (serve, io) ∷ []) empty
      (serve-Serves, (serve-Serves, tt)) (record { good_part = tt; good_final = tt })

-- The two attempts end with the file.
two_attempts :
    (attempts codes 1 no_crypto ticket [] file ((serve, io) ∷ []) empty).part ≡ some (1 ∷ 2 ∷ [])
unfolding attempts run_download with_final with_reply part_len opened_part receive body after_read
    after_body finalize fail_download showing stop woken_cancelled wake_states total_of
two_attempts = refl

run_download-done_example :
    Finishes codes 1 no_crypto ticket [] file file
      (run_download codes 1 serve no_crypto ticket [] io half)
unfolding IsPart part_len received ends ends_read received_read decrypt_downloaded_attachment_bytes
    woken_cancelled
run_download-done_example =
    run_download-done codes 1 no_crypto ticket [] file serve io half 206 (some 1)
      (last_byte ∷ over ∷ []) file serve-Serves (3 ∷ [], refl) refl refl refl
      (
        record { not_cancelled = refl; not_woken = refl; written = λ bytes due n e. cc },
        (record { not_cancelled = refl; not_woken = refl; written = λ bytes due n e. cc }, tt),
      )
      refl (record { opens = refl; syncs = refl; renames = refl; reads = refl; writes = refl }) refl

abbrev unsynced : Io
unsynced = record io { sync_ok = false }

abbrev refusing : ℕ → Reply
refusing n = response 416 (some 7) (over ∷ [])

attempts-stuck_example :
    let after = (run_download codes 1 serve no_crypto ticket [] unsynced half).0 in
    (after.part ≡ some file)
    × (after.final ≡ none)
    × (attempts codes 1 no_crypto ticket [] file
          ((refusing, io) ∷ ((λ n. send_error), io) ∷ [])
          after
        ≡ after)
unfolding IsPart part_len received ends ends_read received_read woken_cancelled succeeds
attempts-stuck_example =
    attempts-stuck codes 1 no_crypto ticket [] file serve unsynced half 206 (some 1)
      (last_byte ∷ over ∷ []) ((refusing, io) ∷ ((λ n. send_error), io) ∷ []) serve-Serves
      (3 ∷ [], refl) refl refl refl
      (
        record { not_cancelled = refl; not_woken = refl; written = λ bytes due n e. cc },
        (record { not_cancelled = refl; not_woken = refl; written = λ bytes due n e. cc }, tt),
      )
      refl refl refl (refl, (refl, tt))
