-- ===== src/Media/Download/Resume.antt =====
-- Downloads over any number of attempts: what `run_download` of crates/privchat-sdk/src/media_download.rs leaves
-- on the disk from one attempt to the next.
use mathlib.Core.List.{append_assoc, append-nil}
use privchat_sdk.Base.{
  ◌==◌, if◌then◌else◌, if_elim, length, All, ℕ, ◌≡◌, refl, sym, ap, ◌∙◌, ◌⊎◌, inl, inr, Bool, true,
  false, not, Option, none, some, List, [], ◌∷◌, ◌++◌,
}
use privchat_sdk.Base.Int.{pos, eqb_ℤ}
use privchat_sdk.Base.Text.{Text}
use privchat_sdk.Media.{MediaDownloadState}
use privchat_sdk.Media.Attachment.{
  AttachmentError, Crypto, Bytes, drop, decrypt_downloaded_attachment_bytes,
}
use privchat_sdk.Errors.{ErrorCodes, code}
use privchat_sdk.Media.Download.{BodyEnd, cancelled, body_failed, finished, interrupted, Turn, body}
use privchat_sdk.Media.Download.Run.{
  Reply, send_error, response, Disk, Io, ResolvedFileDownload, part_len, is_success, fail_download,
  opened_part, finish_encrypted, finalize, after_body, receive, with_reply, with_final,
  run_download,
}
use privchat_sdk.Media.Download.Stream.{Starts, received, ends, body-Writes}
use privchat_sdk.Media.Attachment.RoundTrip.{drop-append}

-- What the bytes of a reply start at: the offset asked for, or the beginning.
unfoldable pub expected_from : Bool → ℕ → Bytes → Bytes
expected_from got_range offset file = if got_range then drop offset file else file

-- A server that sends a start of what was asked for, and a body that ends without an error only when all
-- of it was sent.
unfoldable pub Serves : Bytes → (ℕ → Reply) → Type 0
unfolding expected_from
Serves file serve =
    (offset status : ℕ) (content_length : Option ℕ) (turns : List Turn)
    → serve offset ≡ response status content_length turns
    → is_success status ≡ true
    → (rest : Bytes) × (received turns ++ rest ≡ expected_from (status == 206) offset file)
      × (ends turns ≡ true → rest ≡ [])

-- The `.part` file holds a start of the file.
unfoldable pub IsPart : Bytes → Option Bytes → Type 0
IsPart file none = Unit
IsPart file (some part) = Starts part file

-- The final file, if there is one, is what the ticket makes of the whole file.
unfoldable pub IsFinal : Crypto → ResolvedFileDownload → Bytes → Option Bytes → Type 0
IsFinal c ticket file none = Unit
IsFinal c ticket file (some plaintext) =
    decrypt_downloaded_attachment_bytes c ticket.encryption_version ticket.cek file ≡ inl plaintext

pub record IsGood (c : Crypto) (ticket : ResolvedFileDownload) (file : Bytes) (d : Disk)
    : Type 0 where
  pub good_part : IsPart file d.part
  pub good_final : IsFinal c ticket file d.final

module _ (codes : ErrorCodes) (internal_error : ℕ) (c : Crypto) (ticket : ResolvedFileDownload)
    (path : Text) (file : Bytes) where
  abbrev Good : Disk × List MediaDownloadState → Type 0
  Good r = IsGood c ticket file r.0

  encrypted-IsGood :
      (o : Bytes ⊎ AttachmentError) (io : Io) (blob : Bytes) (d : Disk)
      → decrypt_downloaded_attachment_bytes c ticket.encryption_version ticket.cek blob ≡ o
      → blob ≡ file
      → IsGood c ticket file d
      → IsGood c ticket file (finish_encrypted codes internal_error o ticket.cek path io blob d).0
  unfolding finish_encrypted fail_download IsPart IsFinal
  encrypted-IsGood (inr e) io blob d opens whole good = record {
    good_part = tt;
    good_final = good.good_final;
  }
  encrypted-IsGood (inl plaintext) io blob d opens whole good =
      if_elim Good io.write_ok (λ ok. record { good_part = tt; good_final = rw whole at opens })
        (λ lost. good)

  finalize-IsGood :
      (io : Io) (blob : Bytes) (d : Disk)
      → blob ≡ file
      → IsGood c ticket file d
      → IsGood c ticket file (finalize codes internal_error c ticket path io blob d).0
  unfolding finalize fail_download IsPart IsFinal decrypt_downloaded_attachment_bytes
  finalize-IsGood io blob d whole good =
      if_elim Good (eqb_ℤ ticket.encryption_version (pos 0))
        (λ plain.
          if_elim Good io.rename_ok
            (λ ok. record { good_part = tt; good_final = rw (plain, whole) refl }) (λ lost. good))
        (λ versioned.
          if_elim Good io.read_ok
            (λ ok.
              encrypted-IsGood
                (decrypt_downloaded_attachment_bytes c ticket.encryption_version ticket.cek blob) io
                blob d refl whole good)
            (λ lost. good))

  after_body-IsGood :
      (end : BodyEnd) (io : Io) (blob : Bytes) (d : Disk)
      → (end ≡ finished → blob ≡ file)
      → IsGood c ticket file d
      → IsGood c ticket file (after_body codes internal_error end c ticket path io blob d).0
  unfolding after_body fail_download
  after_body-IsGood cancelled io blob d whole good = good
  after_body-IsGood interrupted io blob d whole good = good
  after_body-IsGood (body_failed code message) io blob d whole good = good
  after_body-IsGood finished io blob d whole good =
      if_elim Good io.sync_ok (λ ok. finalize-IsGood io blob d (whole refl) good) (λ lost. good)

  -- The `.part` file that an answered request goes on with, and what the reply adds to it.
  pub joined :
      (start : Option Bytes) (got_range : Bool) (turns : List Turn) (rest : Bytes)
      → IsPart file start
      → received turns ++ rest ≡ expected_from got_range (part_len start) file
      → opened_part got_range start ++ (received turns ++ rest) ≡ file
  unfolding IsPart expected_from part_len opened_part drop
  joined none true turns rest good sent = sent
  joined none false turns rest good sent = sent
  joined (some part) false turns rest good sent = sent
  joined (some part) true turns rest (later, good) sent =
      let left : drop (length part) file ≡ later = rw good at (drop-append part later) in
      rw (sent, left) good

  nothing_left : (p a b : Bytes) → a ≡ [] → b ≡ [] → p ++ (a ++ b) ≡ file → p ≡ file
  nothing_left p a b none_a none_b h =
      let bare : p ++ ([] ++ []) ≡ file = rw (none_a, none_b) at h in sym (append-nil p) ∙ bare

  -- What the loop wrote goes on to the file, and is the file where the loop finishes.
  pub written_file :
      (part rest : Bytes) (offset : ℕ) (total : Option ℕ) (turns : List Turn)
      → part ++ (received turns ++ rest) ≡ file
      → (ends turns ≡ true → rest ≡ [])
      → Starts (body codes internal_error total turns part offset).part file
        × ((body codes internal_error total turns part offset).end ≡ finished
            → (body codes internal_error total turns part offset).part ≡ file)
  written_file part rest offset total turns all complete =
      let w = body-Writes codes internal_error total turns part offset in
      let run = body codes internal_error total turns part offset in
      let written : run.part ++ (w.rest ++ rest) ≡ file =
        sym (append_assoc run.part w.rest rest)
        ∙ ap (λ t. t ++ rest) w.starts
        ∙ append_assoc part (received turns) rest
        ∙ all in
      (
        (w.rest ++ rest, written),
        λ e.
            let (no_rest, ended) = w.whole e in
            nothing_left run.part w.rest rest no_rest (complete ended) written,
      )

  receive-IsGood :
      (part rest : Bytes) (io : Io) (offset : ℕ) (total : Option ℕ) (turns : List Turn) (d : Disk)
      → IsGood c ticket file d
      → part ++ (received turns ++ rest) ≡ file
      → (ends turns ≡ true → rest ≡ [])
      → IsGood c ticket file
          (receive codes internal_error c ticket path io offset total turns part d).0
  unfolding receive IsPart
  receive-IsGood part rest io offset total turns d good all complete =
      let (written, whole) = written_file part rest offset total turns all complete in
      let run = body codes internal_error total turns part offset in
      after_body-IsGood run.end io run.part (record d { part = some run.part }) whole
        (record { good_part = written; good_final = good.good_final })

  not-false : (b : Bool) → not b ≡ false → b ≡ true
  not-false true h = refl
  not-false false h = cc

  with_reply-IsGood :
      (reply : Reply) (serve : ℕ → Reply) (io : Io) (d : Disk)
      → Serves file serve
      → serve (part_len d.part) ≡ reply
      → IsGood c ticket file d
      → IsGood c ticket file (with_reply codes internal_error reply c ticket path io d).0
  unfolding with_reply fail_download Serves
  with_reply-IsGood send_error serve io d serves e good = good
  with_reply-IsGood (response status content_length turns) serve io d serves e good =
      if_elim Good (not (is_success status)) (λ bad. good)
        (λ fine.
          if_elim Good (not io.open_ok) (λ lost. good)
            (λ ok.
              let ok_status : is_success status ≡ true = not-false (is_success status) fine in
              let (rest, sent, complete) =
                serves (part_len d.part) status content_length turns e ok_status in
              receive-IsGood _ rest io _ _ turns d good
                (joined d.part (status == 206) turns rest good.good_part sent) complete))

  with_final-IsGood :
      (final : Option Bytes) (serve : ℕ → Reply) (io : Io) (d : Disk)
      → Serves file serve
      → IsGood c ticket file d
      → IsGood c ticket file (with_final codes internal_error final serve c ticket path io d).0
  unfolding with_final
  with_final-IsGood none serve io d serves good =
      with_reply-IsGood (serve (part_len d.part)) serve io d serves refl good
  with_final-IsGood (some plaintext) serve io d serves good = good

  -- An attempt: how the server answers then, and how the file operations go.
  unfoldable pub attempts : List ((ℕ → Reply) × Io) → Disk → Disk
  attempts [] d = d
  attempts (a ∷ later) d =
      attempts later (run_download codes internal_error a.0 c ticket path a.1 d).0

  -- Over any number of attempts, each paused, cancelled, cut off or failing anywhere, at a server that
  -- sends what it is asked for, the `.part` file is always a start of the file, and a final file is what the
  -- ticket makes of the whole of it.
  pub attempts-IsGood :
      (later : List ((ℕ → Reply) × Io)) (d : Disk)
      → All (λ a. Serves file a.0) later
      → IsGood c ticket file d
      → IsGood c ticket file (attempts later d)
  unfolding attempts run_download
  attempts-IsGood [] d serves good = good
  attempts-IsGood (a ∷ later) d serves good =
      attempts-IsGood later (run_download codes internal_error a.0 c ticket path a.1 d).0 serves.1
        (with_final-IsGood d.final a.0 a.1 d serves.0 good)
