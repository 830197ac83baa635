-- ===== src/Media/Download/Finish.antt =====
-- When an attempt of `run_download` in crates/privchat-sdk/src/media_download.rs finishes the file.
use privchat_sdk.Base.{
  ◌==◌, if◌then◌else◌, if_elim, last?, last-append, All, ℕ, ◌≡◌, refl, ap, ◌≢◌, ◌⊎◌, inl, inr, Bool,
  true, false, not, Option, none, some, List, [], ◌∷◌, ◌++◌,
}
use privchat_sdk.Base.Int.{pos, eqb_ℤ}
use privchat_sdk.Base.Text.{Text}
use privchat_sdk.Media.{MediaDownloadState, downloading, done}
use privchat_sdk.Media.Attachment.{
  AttachmentError, Crypto, Bytes, decrypt_downloaded_attachment_bytes,
}
use privchat_sdk.Errors.{ErrorCodes, code}
use privchat_sdk.Media.Download.{
  Read, chunk, closed, broken, BodyEnd, cancelled, body_failed, finished, interrupted, Turn,
  BodyRun, woken_cancelled, showing, stop, after_read, body,
}
use privchat_sdk.Media.Download.Run.{
  Reply, response, Disk, Io, ResolvedFileDownload, part_len, total_of, is_success, finish_encrypted,
  finalize, after_body, receive, with_reply, with_final, run_download,
}
use privchat_sdk.Media.Download.Stream.{received, ends_read, ends}
use privchat_sdk.Media.Download.Resume.{Serves, IsPart, joined, written_file}

-- A turn that nothing stops.
pub record IsCalm (t : Turn) : Type 0 where
  pub not_cancelled : t.cancel_seen ≡ false
  pub not_woken : woken_cancelled t.wakes ≡ false
  pub written : (bytes : Bytes) (due : Bool) (n : ℕ) → t.read ≢ chunk bytes due (some n)

-- Every file operation succeeds.
pub record AllOk (io : Io) : Type 0 where
  pub opens : io.open_ok ≡ true
  pub syncs : io.sync_ok ≡ true
  pub renames : io.rename_ok ≡ true
  pub reads : io.read_ok ≡ true
  pub writes : io.write_ok ≡ true

module _ (codes : ErrorCodes) (internal_error : ℕ) where
  read-finishes :
      (r : Read) (part : Bytes) (offset : ℕ) (total : Option ℕ) (rest : Bytes → ℕ → BodyRun)
      (later : Bool)
      → ((bytes : Bytes) (due : Bool) (n : ℕ) → r ≢ chunk bytes due (some n))
      → ends_read r later ≡ true
      → (later ≡ true → (p : Bytes) (o : ℕ) → (rest p o).end ≡ finished)
      → (after_read codes internal_error r part offset total rest).end ≡ finished
  unfolding after_read ends_read showing stop
  read-finishes (chunk bytes due none) part offset total rest later calm e go = go e _ _
  read-finishes (chunk bytes due (some n)) part offset total rest later calm e go =
      absurd (calm bytes due n refl)
  read-finishes closed part offset total rest later calm e go = refl
  read-finishes broken part offset total rest later calm e go = cc

  pub body-finishes :
      (total : Option ℕ) (ts : List Turn) (part : Bytes) (offset : ℕ)
      → All IsCalm ts
      → ends ts ≡ true
      → (body codes internal_error total ts part offset).end ≡ finished
  unfolding body ends showing
  body-finishes total [] part offset calm e = cc
  body-finishes total (t ∷ ts) part offset (calm, calms) e =
      rw (calm.not_cancelled, calm.not_woken)
        (read-finishes t.read part offset total (body codes internal_error total ts) (ends ts)
          calm.written e (λ more p o. body-finishes total ts p o calms more))

  module _ (c : Crypto) (ticket : ResolvedFileDownload) (path : Text) (file : Bytes) where
    abbrev Done : Bytes → Disk × List MediaDownloadState → Type 0
    Done plaintext r = (r.0.final ≡ some plaintext) × (r.0.part ≡ none) × (r.1 ≡ done path ∷ [])

    abbrev pub Finishes : Bytes → Disk × List MediaDownloadState → Type 0
    Finishes plaintext r =
        (r.0.final ≡ some plaintext) × (r.0.part ≡ none) × (last? r.1 ≡ some (done path))

    plain_opens :
        (blob plaintext : Bytes)
        → eqb_ℤ ticket.encryption_version (pos 0) ≡ true
        → decrypt_downloaded_attachment_bytes c ticket.encryption_version ticket.cek blob
          ≡ inl plaintext
        → blob ≡ plaintext
    unfolding decrypt_downloaded_attachment_bytes
    plain_opens blob plaintext plain opens =
        let same : inl blob ≡ inl plaintext = rw plain at opens in cc

    encrypted-Done :
        (o : Bytes ⊎ AttachmentError) (io : Io) (blob plaintext : Bytes) (d : Disk)
        → io.write_ok ≡ true
        → o ≡ inl plaintext
        → Done plaintext (finish_encrypted codes internal_error o ticket.cek path io blob d)
    unfolding finish_encrypted
    encrypted-Done (inr e) io blob plaintext d ok opens = cc
    encrypted-Done (inl text) io blob plaintext d ok opens =
        let same : text ≡ plaintext = cc in rw (ok, same) (refl, refl, refl)

    finalize-Done :
        (io : Io) (blob plaintext : Bytes) (d : Disk)
        → AllOk io
        → decrypt_downloaded_attachment_bytes c ticket.encryption_version ticket.cek blob
          ≡ inl plaintext
        → Done plaintext (finalize codes internal_error c ticket path io blob d)
    unfolding finalize
    finalize-Done io blob plaintext d ok opens =
        if_elim (Done plaintext) (eqb_ℤ ticket.encryption_version (pos 0))
          (λ plain.
            if_elim (Done plaintext) io.rename_ok
              (λ renamed. (ap some (plain_opens blob plaintext plain opens), refl, refl))
              (λ lost. absurd (let r = ok.renames in cc)))
          (λ versioned.
            if_elim (Done plaintext) io.read_ok
              (λ read. encrypted-Done _ io blob plaintext d ok.writes opens)
              (λ lost. absurd (let r = ok.reads in cc)))

    after_body-Done :
        (end : BodyEnd) (io : Io) (blob plaintext : Bytes) (d : Disk)
        → AllOk io
        → end ≡ finished
        → decrypt_downloaded_attachment_bytes c ticket.encryption_version ticket.cek blob
          ≡ inl plaintext
        → Done plaintext (after_body codes internal_error end c ticket path io blob d)
    unfolding after_body
    after_body-Done cancelled io blob plaintext d ok e opens = cc
    after_body-Done interrupted io blob plaintext d ok e opens = cc
    after_body-Done (body_failed code message) io blob plaintext d ok e opens = cc
    after_body-Done finished io blob plaintext d ok e opens =
        if_elim (Done plaintext) io.sync_ok (λ synced. finalize-Done io blob plaintext d ok opens)
          (λ lost. absurd (let r = ok.syncs in cc))

    receive-done :
        (part rest plaintext : Bytes) (io : Io) (offset : ℕ) (total : Option ℕ) (turns : List Turn)
        (d : Disk)
        → AllOk io
        → All IsCalm turns
        → ends turns ≡ true
        → part ++ (received turns ++ rest) ≡ file
        → rest ≡ []
        → decrypt_downloaded_attachment_bytes c ticket.encryption_version ticket.cek file
          ≡ inl plaintext
        → Finishes plaintext
            (receive codes internal_error c ticket path io offset total turns part d)
    unfolding receive
    receive-done part rest plaintext io offset total turns d ok calm complete all none_left opens =
        let end = body-finishes total turns part offset calm complete in
        let (written, whole) =
          written_file codes internal_error c ticket path file part rest offset total turns all
            (λ e. none_left) in
        let run = body codes internal_error total turns part offset in
        let left = record d { part = some run.part } in
        let (final, gone, shown) =
          after_body-Done run.end io run.part plaintext left ok end (rw (whole end) opens) in
        (final, gone, rw shown (last-append (downloading offset total ∷ run.shown) (done path)))

    without_final :
        (final : Option Bytes) (serve : ℕ → Reply) (io : Io) (d : Disk) (plaintext : Bytes)
        → final ≡ none
        → Finishes plaintext
            (with_reply codes internal_error (serve (part_len d.part)) c ticket path io d)
        → Finishes plaintext (with_final codes internal_error final serve c ticket path io d)
    unfolding with_final
    without_final none serve io d plaintext e h = h
    without_final (some text) serve io d plaintext e h = cc

    -- An attempt that finds a start of the file, is answered in full by a server that sends what it is
    -- asked for, and meets no cancellation and no failing file operation, ends with the file decrypted in
    -- place, the `.part` file gone, and the download shown as done last.
    pub run_download-done :
        (serve : ℕ → Reply) (io : Io) (d : Disk) (status : ℕ) (content_length : Option ℕ)
        (turns : List Turn) (plaintext : Bytes)
        → Serves file serve
        → IsPart file d.part
        → d.final ≡ none
        → serve (part_len d.part) ≡ response status content_length turns
        → is_success status ≡ true
        → All IsCalm turns
        → ends turns ≡ true
        → AllOk io
        → decrypt_downloaded_attachment_bytes c ticket.encryption_version ticket.cek file
          ≡ inl plaintext
        → Finishes plaintext (run_download codes internal_error serve c ticket path io d)
    unfolding run_download with_final with_reply Serves
    run_download-done serve io d status content_length turns plaintext serves start fresh answer
          fine calm complete ok opens =
        let (rest, sent, whole) =
          serves (part_len d.part) status content_length turns answer fine in
        let bad : not (is_success status) ≡ false = rw fine refl in
        let shut : not io.open_ok ≡ false = rw ok.opens refl in
        let all =
          joined codes internal_error c ticket path file d.part (status == 206) turns rest start
            sent in
        let done_now =
          receive-done _ rest plaintext io (if status == 206 then part_len d.part else 0)
            (total_of content_length (if status == 206 then part_len d.part else 0)) turns d ok calm
            complete all (whole complete) opens in
        without_final d.final serve io d plaintext fresh (rw (answer, bad, shut) done_now)
