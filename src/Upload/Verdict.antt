-- ===== src/Upload/Verdict.antt =====
-- What a response to a chunk leads to, in crates/privchat-sdk/src/resumable_upload.rs: the verdict on a
-- code and an HTTP status, and how long a retry waits.
use privchat_sdk.Base.{
  leb, ◌==◌, if◌then◌else◌, ℕ, zero, suc, ◌*◌, ◌^◌, ◌≤◌, ◌<◌, min, ◌≡◌, refl, ◌↔◌, Bool, true,
  false, ◌&&◌, ◌||◌, Option, none, some, arith,
}

pub data ChunkVerdict : Type 0 where
  ok : ChunkVerdict
  retry_chunk : ChunkVerdict
  resync : ChunkVerdict
  start_over : ChunkVerdict
  fatal : ChunkVerdict

fallback : Bool → ChunkVerdict
fallback is_server_error = if is_server_error then retry_chunk else fatal

verdict_of : ℕ → Bool → ChunkVerdict
unfolding fallback
verdict_of c is_server_error =
    if c == 0 || c == 20614
    then ok
    else if c == 20611 || c == 20612
    then retry_chunk
    else if c == 20610 || c == 20615
    then resync
    else if c == 20613
    then start_over
    else fallback is_server_error

unfoldable pub chunk_verdict : Option ℕ → Bool → ChunkVerdict
unfolding verdict_of fallback
chunk_verdict none is_server_error = fallback is_server_error
chunk_verdict (some c) is_server_error = verdict_of c is_server_error

unfoldable pub verdict_for_code : ℕ → ChunkVerdict
unfolding chunk_verdict
verdict_for_code c = chunk_verdict (some c) false

-- `CHUNK_RETRIES`, after the first attempt.
abbrev pub chunk_retries : ℕ
chunk_retries = 2

-- In milliseconds.
unfoldable pub retry_delay : ℕ → ℕ
retry_delay attempt = 300 * 2 ^ min attempt 4

-- The codes that settle the matter whatever the HTTP status.
abbrev pub settled : Option ℕ → Bool
settled none = false
settled (some c) = c == 0 || (leb 20610 c && leb c 20615)

-- A response ends the upload for good exactly if its status is no server error and its code, if it has
-- one, is neither 0 nor one of 20610 to 20615; with a server error such a response asks for a retry.
pub chunk_verdict-fatal :
    (code : Option ℕ) (is_server_error : Bool)
    → ((chunk_verdict code is_server_error ≡ fatal)
        ↔ ((is_server_error ≡ false) × (settled code ≡ false)))
      × (settled code ≡ false → chunk_verdict code true ≡ retry_chunk)
unfolding chunk_verdict verdict_of fallback
chunk_verdict-fatal none e = ((λ h. ground arith, λ h. ground arith), λ h. refl)
chunk_verdict-fatal (some c) e = ((λ h. ground arith, λ h. ground arith), λ h. ground arith)

-- Up to its fifth retry a chunk waits twice as long as before, and it never waits above 4800
-- milliseconds.
pub retry_delay-range :
    (attempt : ℕ)
    → (attempt < 4 → retry_delay (suc attempt) ≡ 2 * retry_delay attempt)
      × (300 ≤ retry_delay attempt)
      × (retry_delay attempt ≤ 4800)
unfolding retry_delay
retry_delay-range zero = (λ h. refl, omega arith, omega arith)
retry_delay-range (suc zero) = (λ h. refl, omega arith, omega arith)
retry_delay-range (suc (suc zero)) = (λ h. refl, omega arith, omega arith)
retry_delay-range (suc (suc (suc zero))) = (λ h. refl, omega arith, omega arith)
retry_delay-range (suc (suc (suc (suc n)))) =
    let last : min (suc (suc (suc (suc n)))) 4 ≡ 4 = omega arith in
    rw last (λ h. absurd (omega arith), omega arith, omega arith)
