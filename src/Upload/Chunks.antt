-- ===== src/Upload/Chunks.antt =====
-- The loop of a resumable upload, `upload_in_chunks` of crates/privchat-sdk/src/lib.rs. The server, the clock,
-- the subscribers and the file are a world that the calls change. A word stands for the message of an
-- error.
pub mod Ends
pub mod Returns
use privchat_sdk.Base.{
  ltb, if◌then◌else◌, is_empty, ℕ, zero, suc, ◌+◌, ◌⊎◌, inl, inr, Bool, ◌&&◌, Option, none, some,
  List, [], ◌∷◌,
}
use privchat_sdk.Base.Text.{Text}
use privchat_sdk.Errors.{Error, transport, upload_session_gone}
use privchat_sdk.Upload.Sizer.{UploadPlan, UploadProgress, Rates, for_base_unit}
use privchat_sdk.Upload.Gaps.{Gap, Range}
use privchat_sdk.Upload.Transfer.{
  ResumableUpload, from_missing, resync_missing, progress, next_chunk, on_chunk_ok, on_chunk_failed,
  resync,
}
use privchat_sdk.Upload.Verdict.{
  ChunkVerdict, ok, retry_chunk, start_over, fatal, chunk_retries, retry_delay,
}

-- `UploadStatusOutcome`, less the received ranges, which nothing reads.
pub data UploadStatusOutcome : Type 0 where
  status : List Range → Bool → UploadStatusOutcome
  session_gone : UploadStatusOutcome

-- What the loop asks of the world: the ranges that the server misses; the verdict on a chunk and the
-- nanoseconds that it took; the result of `complete_upload`; whether the piece of a chunk can be read; the
-- progress shown, the milliseconds slept, and a completed body counted.
pub record Remote (World Info : Type 0) : Type 0 where
  pub fetch_upload_status : World → World × (UploadStatusOutcome ⊎ Error)
  pub put_chunk : World → Gap → World × ChunkVerdict × ℕ
  pub complete_upload : World → World × (Info ⊎ Error)
  pub read_piece : World → Gap → Option Error
  pub emit_upload_progress : World → UploadProgress → World
  pub sleep : World → ℕ → World
  pub count_body_upload : World → World

abbrev pub no_progress : Text
no_progress = b'n' ∷ b'o' ∷ b' ' ∷ b'p' ∷ b'r' ∷ b'o' ∷ b'g' ∷ b'r' ∷ b'e' ∷ b's' ∷ b's' ∷ []

abbrev pub out_of_step : Text
out_of_step = b's' ∷ b't' ∷ b'e' ∷ b'p' ∷ []

abbrev pub refused_for_good : Text
refused_for_good = b'f' ∷ b'a' ∷ b't' ∷ b'a' ∷ b'l' ∷ []

module _ {World Info : Type 0} (remote : Remote World Info) (rates : Rates) where
  -- The world after the loop, and the error that ends the upload, if one does.
  abbrev pub Left : Type 0
  Left = World × Option Error

  -- The loop with what is left of its fuel.
  abbrev pub Rest : Type 0
  Rest = World → ResumableUpload rates → ℕ → Option Left

  unfoldable pub after_status :
      World × (UploadStatusOutcome ⊎ Error) → ResumableUpload rates → ℕ → Rest → Option Left
  after_status (w, inr e) u failures rest = some (w, some e)
  after_status (w, inl session_gone) u failures rest = some (w, some upload_session_gone)
  after_status (w, inl (status missing completed)) u failures rest =
      let u' = resync_missing rates u missing in
      let next = rest (remote.emit_upload_progress w (progress rates u')) u' failures in
      if completed && is_empty missing then some (w, none) else next

  unfoldable pub after_verdict :
      ChunkVerdict → World → ℕ → Gap → ResumableUpload rates → ℕ → Rest → Option Left
  unfolding after_status
  after_verdict ok w elapsed chunk u failures rest =
      let u' = on_chunk_ok rates u chunk elapsed in
      rest (remote.emit_upload_progress w (progress rates u')) u' 0
  after_verdict retry_chunk w elapsed chunk u failures rest =
      let again =
        rest (remote.sleep w (retry_delay (failures + 1))) (on_chunk_failed rates u)
          (failures + 1) in
      if ltb chunk_retries (failures + 1) then some (w, some (transport no_progress)) else again
  after_verdict ChunkVerdict.resync w elapsed chunk u failures rest =
      let again = after_status (remote.fetch_upload_status w) u (failures + 1) rest in
      if ltb chunk_retries (failures + 1) then some (w, some (transport out_of_step)) else again
  after_verdict start_over w elapsed chunk u failures rest = some (w, some upload_session_gone)
  after_verdict fatal w elapsed chunk u failures rest = some (w, some (transport refused_for_good))

  unfoldable pub after_piece :
      Option Error → World → Gap → ResumableUpload rates → ℕ → Rest → Option Left
  unfolding after_verdict
  after_piece (some e) w chunk u failures rest = some (w, some e)
  after_piece none w chunk u failures rest =
      let (w', verdict, elapsed) = remote.put_chunk w chunk in
      after_verdict verdict w' elapsed chunk u failures rest

  unfoldable pub after_next : Option Gap → World → ResumableUpload rates → ℕ → Rest → Option Left
  unfolding after_piece
  after_next none w u failures rest = some (w, none)
  after_next (some chunk) w u failures rest =
      after_piece (remote.read_piece w chunk) w chunk u failures rest

  -- The `while let` loop on fuel; none where the fuel runs out.
  unfoldable pub chunk_loop : ℕ → Rest
  unfolding after_next
  chunk_loop zero w u failures = none
  chunk_loop (suc fuel) w u failures =
      after_next (next_chunk rates u) w u failures (chunk_loop fuel)

  unfoldable pub counted : World × (Info ⊎ Error) → World × (Info ⊎ Error)
  counted (w, inl info) = (remote.count_body_upload w, inl info)
  counted (w, inr e) = (w, inr e)

  unfoldable pub after_loop : Option Left → Option (World × (Info ⊎ Error))
  unfolding counted
  after_loop none = none
  after_loop (some (w, some e)) = some (w, inr e)
  after_loop (some (w, none)) = some (counted (remote.complete_upload w))

  unfoldable pub after_first :
      ℕ → ℕ → UploadPlan → World × (UploadStatusOutcome ⊎ Error) → Option (World × (Info ⊎ Error))
  unfolding after_loop
  after_first fuel total plan (w, inr e) = some (w, inr e)
  after_first fuel total plan (w, inl session_gone) = some (w, inr upload_session_gone)
  after_first fuel total plan (w, inl (status missing completed)) =
      let u = from_missing rates total plan missing in
      let w' = remote.emit_upload_progress w (progress rates u) in
      if completed then some (remote.complete_upload w) else after_loop (chunk_loop fuel w' u 0)

  unfoldable pub upload_in_chunks : ℕ → ℕ → ℕ → World → Option (World × (Info ⊎ Error))
  unfolding after_first
  upload_in_chunks fuel total base_unit w =
      after_first fuel total (for_base_unit base_unit) (remote.fetch_upload_status w)
