-- ===== src/Upload/Plan.antt =====
-- In which order an attachment is prepared, claimed and sent: `plan_attachment_upload` and
-- `plan_chunked_upload` of crates/privchat-sdk/src/lib.rs. The trait `AttachmentUploadIo` is the parameter, over
-- a world that its calls change; the number of `ErrorCode::ResourceNotFound` is one too.
pub mod Order
pub mod Chunked
use privchat_sdk.Base.{
  ltb, ◌==◌, if◌then◌else◌, length, ℕ, ◌⊎◌, inl, inr, Bool, true, false, Option, none, some, List,
  [], ◌∷◌,
}
use privchat_sdk.Base.Text.{Text}
use privchat_sdk.Base.Int.{ℤ}
use privchat_sdk.Errors.{Error, transport, upload_session_gone, server}

pub record SealedPayload : Type 0 where
  pub blob : List ℕ
  pub cek_b64 : Text
  pub sha256 : Text

pub record UploadToken : Type 0 where
  pub token : Text
  pub already_exists : Bool

pub record ChunkedSession : Type 0 where
  pub upload_url : Text
  pub upload_token : Text
  pub base_unit : ℕ  -- u32
  pub expires_at : ℤ  -- i64

pub data ChunkedPrepared : Type 0 where
  claim_hit : Text → ChunkedPrepared
  session : ChunkedSession → ChunkedPrepared

pub record AttachmentUploadIo (World Info : Type 0) : Type 0 where
  pub on_upload_finished : World → World
  pub prepare : World → Option Text → ℕ → World × (UploadToken ⊎ Error)
  pub claim : World → Text → Text → World × (Info ⊎ Error)
  pub upload : World → UploadToken → SealedPayload → World × (Info ⊎ Error)
  pub chunked_threshold : Option ℕ
  pub prepare_chunked : World → Text → ℕ → Bool → World × (ChunkedPrepared ⊎ Error)
  pub upload_chunked : World → ChunkedSession → SealedPayload → World × (Info ⊎ Error)

unfoldable pub claim_miss_should_reupload : ℕ → Error → Bool
claim_miss_should_reupload resource_not_found (server number message) = number == resource_not_found
claim_miss_should_reupload resource_not_found e = false

unfoldable pub is_session_gone : Error → Bool
is_session_gone upload_session_gone = true
is_session_gone e = false

module _ {World Info : Type 0} (resource_not_found : ℕ) (io : AttachmentUploadIo World Info)
    (payload : SealedPayload) where
  -- The information and the token that it was got with, or an error.
  abbrev pub Outcome : Type 0
  Outcome = World × ((Info × Text) ⊎ Error)

  unfoldable pub finish : Text → World × (Info ⊎ Error) → Outcome
  finish token (w, inl info) = (io.on_upload_finished w, inl (info, token))
  finish token (w, inr e) = (w, inr e)

  unfoldable pub send_again : World × (UploadToken ⊎ Error) → Outcome
  unfolding finish
  send_again (w, inr e) = (w, inr e)
  send_again (w, inl t) = finish t.token (io.upload w t payload)

  unfoldable pub after_claim : Text → World × (Info ⊎ Error) → Outcome
  unfolding send_again
  after_claim token (w, inl info) = (io.on_upload_finished w, inl (info, token))
  after_claim token (w, inr e) =
      if claim_miss_should_reupload resource_not_found e
      then send_again (io.prepare w none (length payload.blob))
      else (w, inr e)

  unfoldable pub after_prepare : World × (UploadToken ⊎ Error) → Outcome
  unfolding finish after_claim
  after_prepare (w, inr e) = (w, inr e)
  after_prepare (w, inl t) =
      if t.already_exists
      then after_claim t.token (io.claim w t.token payload.sha256)
      else finish t.token (io.upload w t payload)

  unfoldable pub after_gone : World × (ChunkedPrepared ⊎ Error) → Outcome
  unfolding finish
  after_gone (w, inr e) = (w, inr e)
  after_gone (w, inl (claim_hit token)) = finish token (io.claim w token payload.sha256)
  after_gone (w, inl (session again)) =
      finish again.upload_token (io.upload_chunked w again payload)

  unfoldable pub after_chunked : Text → World × (Info ⊎ Error) → Outcome
  unfolding after_gone
  after_chunked token (w, inl info) = (io.on_upload_finished w, inl (info, token))
  after_chunked token (w, inr e) =
      if is_session_gone e
      then after_gone
          (io.prepare_chunked (io.on_upload_finished w) payload.sha256 (length payload.blob) false)
      else (w, inr e)

  unfoldable pub send_chunked : ChunkedSession → World → Outcome
  unfolding after_chunked
  send_chunked s w = after_chunked s.upload_token (io.upload_chunked w s payload)

  unfoldable pub after_forced : World × (ChunkedPrepared ⊎ Error) → Outcome
  unfolding send_chunked
  after_forced (w, inr e) = (w, inr e)
  after_forced (w, inl (claim_hit token)) = (w, inr (transport (b'h' ∷ b'i' ∷ b't' ∷ [])))
  after_forced (w, inl (session s)) = send_chunked s w

  unfoldable pub after_chunked_claim : Text → World × (Info ⊎ Error) → Outcome
  unfolding after_forced
  after_chunked_claim token (w, inl info) = (io.on_upload_finished w, inl (info, token))
  after_chunked_claim token (w, inr e) =
      if claim_miss_should_reupload resource_not_found e
      then after_forced (io.prepare_chunked w payload.sha256 (length payload.blob) true)
      else (w, inr e)

  unfoldable pub after_prepare_chunked : World × (ChunkedPrepared ⊎ Error) → Outcome
  unfolding after_chunked_claim send_chunked
  after_prepare_chunked (w, inr e) = (w, inr e)
  after_prepare_chunked (w, inl (claim_hit token)) =
      after_chunked_claim token (io.claim w token payload.sha256)
  after_prepare_chunked (w, inl (session s)) = send_chunked s w

  unfoldable pub plan_chunked_upload : World → Outcome
  unfolding after_prepare_chunked
  plan_chunked_upload w =
      after_prepare_chunked (io.prepare_chunked w payload.sha256 (length payload.blob) false)

  unfoldable pub plan_whole : World → Outcome
  unfolding after_prepare
  plan_whole w = after_prepare (io.prepare w (some payload.sha256) (length payload.blob))

  unfoldable pub by_threshold : Option ℕ → World → Outcome
  unfolding plan_whole plan_chunked_upload
  by_threshold none w = plan_whole w
  by_threshold (some threshold) w =
      if ltb threshold (length payload.blob) then plan_chunked_upload w else plan_whole w

  unfoldable pub plan_attachment_upload : World → Outcome
  unfolding by_threshold
  plan_attachment_upload w = by_threshold io.chunked_threshold w
