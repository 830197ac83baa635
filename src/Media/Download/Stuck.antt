-- ===== src/Media/Download/Stuck.antt =====
-- When no attempt of `run_download` in crates/privchat-sdk/src/media_download.rs ever finishes a download: the
-- `.part` file is whole, and a start of it alone would be gone on with.
use privchat_sdk.Base.{
  ◌==◌, if◌then◌else◌, length, All, ℕ, ◌≡◌, refl, ap, ◌∙◌, Bool, true, false, not, Option, none,
  some, List, [], ◌∷◌, ◌++◌,
}
use privchat_sdk.Base.Text.{Text}
use privchat_sdk.Media.Attachment.{Crypto, Bytes}
use privchat_sdk.Errors.{ErrorCodes, code}
use privchat_sdk.Media.Download.{BodyEnd, cancelled, body_failed, finished, interrupted, Turn, body}
use privchat_sdk.Media.Download.Run.{
  Reply, send_error, response, Disk, Io, ResolvedFileDownload, part_len, total_of, is_success,
  fail_download, after_body, receive, with_reply, with_final, run_download,
}
use privchat_sdk.Media.Download.Stream.{received, ends}
use privchat_sdk.Media.Download.Resume.{Serves, IsPart, joined, written_file, attempts}
use privchat_sdk.Media.Download.Finish.{IsCalm, body-finishes}

-- Whether a reply is a success.
unfoldable pub succeeds : Reply → Bool
succeeds send_error = false
succeeds (response status content_length turns) = is_success status

module _ (codes : ErrorCodes) (internal_error : ℕ) (c : Crypto) (ticket : ResolvedFileDownload)
    (path : Text) (file : Bytes) where
  -- A server that does not answer a request for what lies behind the last byte with success: it refuses
  -- the range with any status, headers and body, or cannot be reached.
  abbrev pub RefusesEnd : (ℕ → Reply) → Type 0
  RefusesEnd serve = succeeds (serve (length file)) ≡ false

  with_reply-fails :
      (reply : Reply) (io : Io) (d : Disk)
      → succeeds reply ≡ false
      → (with_reply codes internal_error reply c ticket path io d).0 ≡ d
  unfolding succeeds with_reply fail_download
  with_reply-fails send_error io d e = refl
  with_reply-fails (response status content_length turns) io d e = rw e refl

  with_final-fails :
      (final part : Option Bytes) (serve : ℕ → Reply) (io : Io) (d : Disk)
      → RefusesEnd serve
      → final ≡ none
      → d.part ≡ some file
      → (with_final codes internal_error final serve c ticket path io d).0 ≡ d
  unfolding with_final part_len
  with_final-fails none part serve io d refuses fresh all =
      let asked : part_len d.part ≡ length file = rw all refl in
      with_reply-fails (serve (part_len d.part)) io d (rw asked refuses)
  with_final-fails (some text) part serve io d refuses fresh all = cc

  never_finishes :
      (later : List ((ℕ → Reply) × Io)) (d : Disk)
      → All (λ a. RefusesEnd a.0) later
      → d.final ≡ none
      → d.part ≡ some file
      → attempts codes internal_error c ticket path file later d ≡ d
  unfolding attempts run_download
  never_finishes [] d refuses fresh all = refl
  never_finishes (a ∷ later) d (r, refuses) fresh all =
      let same = with_final-fails d.final d.part a.0 a.1 d r fresh all in
      rw same (never_finishes later d refuses fresh all)

  -- What an attempt leaves that receives the rest of the file and fails to sync it.
  abbrev Whole : Disk → Disk → Type 0
  Whole before d = d ≡ record before { part = some file }

  after_body-Whole :
      (end : BodyEnd) (io : Io) (blob : Bytes) (before : Disk)
      → end ≡ finished
      → io.sync_ok ≡ false
      → blob ≡ file
      → Whole before
          (after_body codes internal_error end c ticket path io blob
            (record before { part = some blob })).0
  unfolding after_body fail_download
  after_body-Whole cancelled io blob before e lost all = cc
  after_body-Whole interrupted io blob before e lost all = cc
  after_body-Whole (body_failed code message) io blob before e lost all = cc
  after_body-Whole finished io blob before e lost all = rw (lost, all) refl

  receive-Whole :
      (part rest : Bytes) (io : Io) (offset : ℕ) (total : Option ℕ) (turns : List Turn) (d : Disk)
      → io.sync_ok ≡ false
      → All IsCalm turns
      → ends turns ≡ true
      → part ++ (received turns ++ rest) ≡ file
      → rest ≡ []
      → Whole d (receive codes internal_error c ticket path io offset total turns part d).0
  unfolding receive
  receive-Whole part rest io offset total turns d lost calm complete all none_left =
      let end = body-finishes codes internal_error total turns part offset calm complete in
      let (written, whole) =
        written_file codes internal_error c ticket path file part rest offset total turns all
          (λ e. none_left) in
      let run = body codes internal_error total turns part offset in
      after_body-Whole run.end io run.part d end lost (whole end)

  without_final :
      (final : Option Bytes) (serve : ℕ → Reply) (io : Io) (d : Disk)
      → final ≡ none
      → Whole d (with_reply codes internal_error (serve (part_len d.part)) c ticket path io d).0
      → Whole d (with_final codes internal_error final serve c ticket path io d).0
  unfolding with_final
  without_final none serve io d e h = h
  without_final (some text) serve io d e h = cc

  -- An attempt that finds a start of the file, is answered in full by a server that sends what it is asked
  -- for, meets no cancellation and opens the `.part` file, but fails to sync it, leaves the `.part` file whole
  -- and no final file. From then on no attempt changes the disk, whatever the file operations do, as long
  -- as no server answers a request for what lies behind the last byte with success: the download never
  -- finishes.
  pub attempts-stuck :
      (serve : ℕ → Reply) (io : Io) (d : Disk) (status : ℕ) (content_length : Option ℕ)
      (turns : List Turn) (later : List ((ℕ → Reply) × Io))
      → Serves file serve
      → IsPart file d.part
      → d.final ≡ none
      → serve (part_len d.part) ≡ response status content_length turns
      → is_success status ≡ true
      → All IsCalm turns
      → ends turns ≡ true
      → io.open_ok ≡ true
      → io.sync_ok ≡ false
      → All (λ a. RefusesEnd a.0) later
      → let after = (run_download codes internal_error serve c ticket path io d).0 in
        (after.part ≡ some file)
        × (after.final ≡ none)
        × (attempts codes internal_error c ticket path file later after ≡ after)
  unfolding run_download with_reply Serves
  attempts-stuck serve io d status content_length turns later serves start fresh answer fine calm
        complete opens lost refuses =
      let (rest, sent, whole) = serves (part_len d.part) status content_length turns answer fine in
      let bad : not (is_success status) ≡ false = rw fine refl in
      let shut : not io.open_ok ≡ false = rw opens refl in
      let all =
        joined codes internal_error c ticket path file d.part (status == 206) turns rest start
          sent in
      let got =
        receive-Whole _ rest io (if status == 206 then part_len d.part else 0)
          (total_of content_length (if status == 206 then part_len d.part else 0)) turns d lost calm
          complete all (whole complete) in
      let left = without_final d.final serve io d fresh (rw (answer, bad, shut) got) in
      let part = ap (λ (x : Disk). x.part) left in
      let final = ap (λ (x : Disk). x.final) left ∙ fresh in
      (part, final, never_finishes later _ refuses final part)
