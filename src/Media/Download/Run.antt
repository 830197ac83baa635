-- ===== src/Media/Download/Run.antt =====
-- The frame of `run_download` in crates/privchat-sdk/src/media_download.rs: the request, the start of the
-- `.part` file, and what is made of it when the body has ended.
use privchat_sdk.Base.{
  leb, ◌==◌, if◌then◌else◌, length, ℕ, String, ◌⊎◌, inl, inr, Bool, not, ◌&&◌, Option, none, some,
  List, [], ◌∷◌, ◌++◌,
}
use privchat_sdk.Base.Int.{ℤ, pos, eqb_ℤ}
use privchat_sdk.Base.Text.{Text}
use privchat_sdk.Base.Word.{u64_add}
use privchat_sdk.Media.{MediaDownloadState, downloading, done, failed}
use privchat_sdk.Media.Attachment.{
  AttachmentError, Crypto, Bytes, decrypt_downloaded_attachment_bytes,
}
use privchat_sdk.Errors.{ErrorCodes, code}
use privchat_sdk.Media.Download.{BodyEnd, cancelled, body_failed, finished, interrupted, Turn, body}

pub data Reply : Type 0 where
  send_error : Reply
  response : ℕ → Option ℕ → List Turn → Reply  -- status, `content_length()`, body

-- The files of one attachment: the `.part` file, the final file, and the sealed copy with its key.
pub record Disk : Type 0 where
  pub part : Option Bytes
  pub final : Option Bytes
  pub sealed_copy : Option (Bytes × Text)

-- Whether each file operation succeeds.
pub record Io : Type 0 where
  pub open_ok : Bool
  pub sync_ok : Bool
  pub rename_ok : Bool
  pub read_ok : Bool
  pub write_ok : Bool
  pub copy_ok : Bool

pub record ResolvedFileDownload : Type 0 where
  pub encryption_version : ℤ
  pub cek : Option Text

unfoldable pub part_len : Option Bytes → ℕ
part_len none = 0
part_len (some part) = length part

-- `resp.content_length().map(|len| len + offset)`.
unfoldable pub total_of : Option ℕ → ℕ → Option ℕ
total_of none offset = none
total_of (some len) offset = some (u64_add len offset)

-- `StatusCode::is_success`.
abbrev pub is_success : ℕ → Bool
is_success status = leb 200 status && leb status 299

unfoldable pub fail_download : ℕ → String → Disk → Disk × List MediaDownloadState
fail_download code message d = (d, failed code message ∷ [])

unfoldable pub opened_part : Bool → Option Bytes → Bytes
opened_part got_range none = []
opened_part got_range (some part) = if got_range then part else []

module _ (codes : ErrorCodes) (internal_error : ℕ) where
  unfoldable pub finish_encrypted :
      Bytes ⊎ AttachmentError
      → Option Text
      → Text
      → Io
      → Bytes
      → Disk
      → Disk × List MediaDownloadState
  unfolding fail_download
  finish_encrypted (inr e) cek path io blob d =
      fail_download internal_error "decrypt attachment" (record d { part = none })
  finish_encrypted (inl plaintext) cek path io blob d =
      if io.write_ok
      then (
        record { part = none; final = some plaintext; sealed_copy = keep_copy cek },
        done path ∷ [],
      )
      else fail_download internal_error "write decrypted" d
    where
      keep_copy : Option Text → Option (Bytes × Text)
      keep_copy none = d.sealed_copy
      keep_copy (some key) = if io.copy_ok then some (blob, key) else none

  unfoldable pub finalize :
      Crypto → ResolvedFileDownload → Text → Io → Bytes → Disk → Disk × List MediaDownloadState
  unfolding fail_download finish_encrypted
  finalize c ticket path io blob d =
      if eqb_ℤ ticket.encryption_version (pos 0)
      then if io.rename_ok
        then (record d { part = none; final = some blob }, done path ∷ [])
        else fail_download internal_error "rename" d
      else if io.read_ok
      then finish_encrypted
          (decrypt_downloaded_attachment_bytes c ticket.encryption_version ticket.cek blob)
          ticket.cek path io blob d
      else fail_download internal_error "read part for decrypt" d

  unfoldable pub after_body :
      BodyEnd
      → Crypto
      → ResolvedFileDownload
      → Text
      → Io
      → Bytes
      → Disk
      → Disk × List MediaDownloadState
  unfolding fail_download finalize
  after_body cancelled c ticket path io blob d = (d, [])
  after_body interrupted c ticket path io blob d = (d, [])
  after_body (body_failed code message) c ticket path io blob d = fail_download code message d
  after_body finished c ticket path io blob d =
      if io.sync_ok then finalize c ticket path io blob d else fail_download internal_error "sync" d

  unfoldable pub receive :
      Crypto
      → ResolvedFileDownload
      → Text
      → Io
      → ℕ
      → Option ℕ
      → List Turn
      → Bytes
      → Disk
      → Disk × List MediaDownloadState
  unfolding body after_body
  receive c ticket path io offset total turns part d =
      let run = body codes internal_error total turns part offset in
      let rest = after_body run.end c ticket path io run.part (record d { part = some run.part }) in
      (rest.0, downloading offset total ∷ run.shown ++ rest.1)

  unfoldable pub with_reply :
      Reply → Crypto → ResolvedFileDownload → Text → Io → Disk → Disk × List MediaDownloadState
  unfolding fail_download part_len opened_part receive
  with_reply send_error c ticket path io d = fail_download codes.network_error "send" d
  with_reply (response status content_length turns) c ticket path io d =
      let got_range = status == 206 in
      let offset = if got_range then part_len d.part else 0 in
      let total = total_of content_length offset in
      if not (is_success status)
      then fail_download codes.network_error "status" d
      else if not io.open_ok
      then fail_download internal_error "open part" d
      else receive c ticket path io offset total turns (opened_part got_range d.part) d

  unfoldable pub with_final :
      Option Bytes
      → (ℕ → Reply)
      → Crypto
      → ResolvedFileDownload
      → Text
      → Io
      → Disk
      → Disk × List MediaDownloadState
  unfolding part_len with_reply
  with_final (some file) serve c ticket path io d = (d, done path ∷ [])
  with_final none serve c ticket path io d = with_reply (serve (part_len d.part)) c ticket path io d

  -- `serve` answers a request for the bytes from an offset on, and for all of them where it is 0.
  unfoldable pub run_download :
      (ℕ → Reply)
      → Crypto
      → ResolvedFileDownload
      → Text
      → Io
      → Disk
      → Disk × List MediaDownloadState
  unfolding with_final
  run_download serve c ticket path io d = with_final d.final serve c ticket path io d
