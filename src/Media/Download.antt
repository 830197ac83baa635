-- ===== src/Media/Download.antt =====
-- The body of one download, the loop of `run_download` in crates/privchat-sdk/src/media_download.rs. What the
-- flags say at each turn, the chunks, and the results of writing them are inputs. Of an error's message
-- only the words that name the step are kept.
pub mod Run
pub mod Stream
pub mod Resume
pub mod Finish
pub mod Stuck
use privchat_sdk.Base.{
  if◌then◌else◌, length, ℕ, String, Bool, true, false, Option, none, some, List, [], ◌∷◌, ◌++◌,
}
use privchat_sdk.Base.Word.{u64_add}
use privchat_sdk.Media.{MediaDownloadState, downloading, paused}
use privchat_sdk.Media.Attachment.{Bytes, take}
use privchat_sdk.Errors.{ErrorCodes}

-- One pass of the pause loop: the notification comes, and what the flags say then.
pub data Wake : Type 0 where
  wake_cancelled : Wake
  wake_paused : Wake
  wake_resumed : Wake

-- What `resp.chunk()` gives: bytes with whether a progress event is due and, if writing them fails, how
-- many were written; or the end; or an error.
pub data Read : Type 0 where
  chunk : Bytes → Bool → Option ℕ → Read
  closed : Read
  broken : Read

pub record Turn : Type 0 where
  pub cancel_seen : Bool
  pub wakes : List Wake
  pub read : Read

-- How the loop ends; `interrupted` where the process or the task ends between two turns.
pub data BodyEnd : Type 0 where
  cancelled : BodyEnd
  body_failed : ℕ → String → BodyEnd
  finished : BodyEnd
  interrupted : BodyEnd

pub record BodyRun : Type 0 where
  pub part : Bytes
  pub shown : List MediaDownloadState
  pub end : BodyEnd

unfoldable pub wake_states : ℕ → Option ℕ → List Wake → List MediaDownloadState
wake_states offset total [] = []
wake_states offset total (wake_cancelled ∷ ws) = paused offset total ∷ []
wake_states offset total (wake_paused ∷ ws) = paused offset total ∷ wake_states offset total ws
wake_states offset total (wake_resumed ∷ ws) =
    paused offset total ∷ downloading offset total ∷ wake_states offset total ws

unfoldable pub woken_cancelled : List Wake → Bool
woken_cancelled [] = false
woken_cancelled (wake_cancelled ∷ ws) = true
woken_cancelled (wake_paused ∷ ws) = woken_cancelled ws
woken_cancelled (wake_resumed ∷ ws) = woken_cancelled ws

unfoldable pub showing : List MediaDownloadState → BodyRun → BodyRun
showing ss r = record r { shown = ss ++ r.shown }

unfoldable pub stop : Bytes → BodyEnd → BodyRun
stop part end = record { part = part; shown = []; end = end }

module _ (codes : ErrorCodes) (internal_error : ℕ) where
  unfoldable pub after_read : Read → Bytes → ℕ → Option ℕ → (Bytes → ℕ → BodyRun) → BodyRun
  unfolding showing stop take
  after_read (chunk bytes due none) part offset total rest =
      let offset' = u64_add offset (length bytes) in
      showing (if due then downloading offset' total ∷ [] else []) (rest (part ++ bytes) offset')
  after_read (chunk bytes due (some n)) part offset total rest =
      stop (part ++ take n bytes) (body_failed internal_error "write")
  after_read closed part offset total rest = stop part finished
  after_read broken part offset total rest = stop part (body_failed codes.network_error "chunk")

  unfoldable pub body : Option ℕ → List Turn → Bytes → ℕ → BodyRun
  unfolding after_read showing stop wake_states woken_cancelled
  body total [] part offset = stop part interrupted
  body total (t ∷ ts) part offset =
      let rest = after_read t.read part offset total (body total ts) in
      if t.cancel_seen
      then stop part cancelled
      else showing (wake_states offset total t.wakes)
          (if woken_cancelled t.wakes then stop part cancelled else rest)
