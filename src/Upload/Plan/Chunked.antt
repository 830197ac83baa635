-- ===== src/Upload/Plan/Chunked.antt =====
-- The calls of `plan_chunked_upload` of crates/privchat-sdk/src/lib.rs, and of the whole plan.
use privchat_sdk.Base.{
  ltb, if_elim, length, ℕ, refl, ◌⊎◌, inl, inr, Bool, true, false, Option, none, some, List, [],
  ◌∷◌, ◌++◌,
}
use privchat_sdk.Base.Text.{Text}
use privchat_sdk.Errors.{Error}
use privchat_sdk.Upload.Plan.{
  ChunkedPrepared, claim_hit, session, SealedPayload, ChunkedSession, AttachmentUploadIo,
  claim_miss_should_reupload, is_session_gone, after_gone, after_chunked, send_chunked,
  after_forced, after_chunked_claim, after_prepare_chunked, plan_chunked_upload, plan_whole,
  by_threshold, plan_attachment_upload,
}
use privchat_sdk.Upload.Plan.Order.{
  Call, finished_call, claim_call, prepare_chunked_call, upload_chunked_call, IsOrderly, logged,
  no_second_hit, bodies, is_ok, failing, settled, Orderly, finish-Orderly, after_prepare-Orderly,
}

module _ {World Info : Type 0} (resource_not_found : ℕ) (io : AttachmentUploadIo World Info)
    (payload : SealedPayload) where
  -- The calls up to the first session: at once, or forced after a claim that missed.
  abbrev prepared : Bool → List Call
  prepared false = prepare_chunked_call payload.sha256 false ∷ []
  prepared true =
      prepare_chunked_call payload.sha256 false
      ∷ claim_call payload.sha256
      ∷ prepare_chunked_call payload.sha256 true
      ∷ []

  abbrev sent_chunks : Bool → List Call
  sent_chunks forced = prepared forced ++ (upload_chunked_call payload ∷ [])

  -- The calls up to the second session, after the first one was lost.
  abbrev anew : Bool → List Call
  anew forced =
      (sent_chunks forced ++ (finished_call ∷ []))
      ++ (prepare_chunked_call payload.sha256 false ∷ [])

  after_gone-Orderly :
      (forced : Bool) (w : World) (r : ChunkedPrepared ⊎ Error)
      → Orderly resource_not_found io payload
          (after_gone resource_not_found (logged io) payload ((w, anew forced), r))
  unfolding after_gone logged is_ok no_second_hit bodies
  after_gone-Orderly false w (inr e) =
      failing payload _ (refl, (refl, (tt, (refl, tt)))) refl refl refl
  after_gone-Orderly true w (inr e) =
      failing payload _ (refl, (refl, (refl, (refl, (tt, (refl, tt)))))) refl refl refl
  after_gone-Orderly false w (inl (claim_hit token)) =
      let answer = io.claim w token payload.sha256 in
      finish-Orderly resource_not_found io payload token answer.0
        (anew false ++ (claim_call payload.sha256 ∷ [])) answer.1
        (failing payload _ (refl, (refl, (tt, (refl, (refl, tt))))) refl refl refl)
        (settled payload _ (refl, (refl, (tt, (refl, (refl, (tt, tt)))))) refl refl refl refl)
  after_gone-Orderly true w (inl (claim_hit token)) =
      let answer = io.claim w token payload.sha256 in
      finish-Orderly resource_not_found io payload token answer.0
        (anew true ++ (claim_call payload.sha256 ∷ [])) answer.1
        (failing payload _ (refl, (refl, (refl, (refl, (tt, (refl, (refl, tt))))))) refl refl refl)
        (settled payload _ (refl, (refl, (refl, (refl, (tt, (refl, (refl, (tt, tt)))))))) refl refl
          refl refl)
  after_gone-Orderly false w (inl (session again)) =
      let answer = io.upload_chunked w again payload in
      finish-Orderly resource_not_found io payload again.upload_token answer.0
        (anew false ++ (upload_chunked_call payload ∷ [])) answer.1
        (failing payload _ (refl, (refl, (tt, (refl, (refl, tt))))) refl refl refl)
        (settled payload _ (refl, (refl, (tt, (refl, (refl, (tt, tt)))))) refl refl refl refl)
  after_gone-Orderly true w (inl (session again)) =
      let answer = io.upload_chunked w again payload in
      finish-Orderly resource_not_found io payload again.upload_token answer.0
        (anew true ++ (upload_chunked_call payload ∷ [])) answer.1
        (failing payload _ (refl, (refl, (refl, (refl, (tt, (refl, (refl, tt))))))) refl refl refl)
        (settled payload _ (refl, (refl, (refl, (refl, (tt, (refl, (refl, (tt, tt)))))))) refl refl
          refl refl)

  sent-fails : (forced : Bool) → IsOrderly payload (sent_chunks forced) false
  unfolding no_second_hit bodies
  sent-fails false = failing payload _ (refl, (refl, tt)) refl refl refl
  sent-fails true = failing payload _ (refl, (refl, (refl, (refl, tt)))) refl refl refl

  sent-settles :
      (forced : Bool) → IsOrderly payload (sent_chunks forced ++ (finished_call ∷ [])) true
  unfolding no_second_hit bodies
  sent-settles false = settled payload _ (refl, (refl, (tt, tt))) refl refl refl refl
  sent-settles true = settled payload _ (refl, (refl, (refl, (refl, (tt, tt))))) refl refl refl refl

  after_chunked-Orderly :
      (forced : Bool) (token : Text) (w : World) (r : Info ⊎ Error)
      → Orderly resource_not_found io payload
          (after_chunked resource_not_found (logged io) payload token ((w, sent_chunks forced), r))
  unfolding after_chunked logged is_ok
  after_chunked-Orderly forced token w (inl info) = sent-settles forced
  after_chunked-Orderly forced token w (inr e) =
      if_elim (Orderly resource_not_found io payload) (is_session_gone e)
        (λ gone.
          let answer =
            io.prepare_chunked (io.on_upload_finished w) payload.sha256 (length payload.blob)
              false in
          after_gone-Orderly forced answer.0 answer.1)
        (λ other. sent-fails forced)

  send_chunked-Orderly :
      (forced : Bool) (s : ChunkedSession) (w : World)
      → Orderly resource_not_found io payload
          (send_chunked resource_not_found (logged io) payload s (w, prepared forced))
  unfolding send_chunked logged
  send_chunked-Orderly forced s w =
      let answer = io.upload_chunked w s payload in
      after_chunked-Orderly forced s.upload_token answer.0 answer.1

  after_forced-Orderly :
      (w : World) (r : ChunkedPrepared ⊎ Error)
      → Orderly resource_not_found io payload
          (after_forced resource_not_found (logged io) payload ((w, prepared true), r))
  unfolding after_forced is_ok no_second_hit bodies
  after_forced-Orderly w (inr e) = failing payload _ (refl, (refl, (refl, tt))) refl refl refl
  after_forced-Orderly w (inl (claim_hit token)) =
      failing payload _ (refl, (refl, (refl, tt))) refl refl refl
  after_forced-Orderly w (inl (session s)) = send_chunked-Orderly true s w

  after_chunked_claim-Orderly :
      (token : Text) (w : World) (r : Info ⊎ Error)
      → Orderly resource_not_found io payload (
          after_chunked_claim resource_not_found
            (logged io)
            payload
            token
            ((w, prepared false ++ (claim_call payload.sha256 ∷ [])), r))
  unfolding after_chunked_claim logged is_ok no_second_hit bodies
  after_chunked_claim-Orderly token w (inl info) =
      settled payload _ (refl, (refl, (tt, tt))) refl refl refl refl
  after_chunked_claim-Orderly token w (inr e) =
      if_elim (Orderly resource_not_found io payload)
        (claim_miss_should_reupload resource_not_found e)
        (λ miss.
          let answer = io.prepare_chunked w payload.sha256 (length payload.blob) true in
          after_forced-Orderly answer.0 answer.1)
        (λ other. failing payload _ (refl, (refl, tt)) refl refl refl)

  after_prepare_chunked-Orderly :
      (w : World) (r : ChunkedPrepared ⊎ Error)
      → Orderly resource_not_found io payload
          (after_prepare_chunked resource_not_found (logged io) payload ((w, prepared false), r))
  unfolding after_prepare_chunked logged is_ok no_second_hit bodies
  after_prepare_chunked-Orderly w (inr e) = failing payload _ (refl, tt) refl refl refl
  after_prepare_chunked-Orderly w (inl (claim_hit token)) =
      let answer = io.claim w token payload.sha256 in
      after_chunked_claim-Orderly token answer.0 answer.1
  after_prepare_chunked-Orderly w (inl (session s)) = send_chunked-Orderly false s w

  by_threshold-Orderly :
      (threshold : Option ℕ) (w : World)
      → Orderly resource_not_found io payload
          (by_threshold resource_not_found (logged io) payload threshold (w, []))
  unfolding by_threshold plan_whole plan_chunked_upload logged
  by_threshold-Orderly none w =
      let answer = io.prepare w (some payload.sha256) (length payload.blob) in
      after_prepare-Orderly resource_not_found io payload answer.0 answer.1
  by_threshold-Orderly (some threshold) w =
      if_elim (Orderly resource_not_found io payload) (ltb threshold (length payload.blob))
        (λ large.
          let answer = io.prepare_chunked w payload.sha256 (length payload.blob) false in
          after_prepare_chunked-Orderly answer.0 answer.1)
        (λ small.
          let answer = io.prepare w (some payload.sha256) (length payload.blob) in
          after_prepare-Orderly resource_not_found io payload answer.0 answer.1)

  -- Whatever the server answers, the plan for an attachment makes at most eight calls, all about the one
  -- sealed payload, whose body it sends at most twice; after a claim it never lets the server answer with
  -- another hit before chunks are sent; and where it ends well, its last call drops the session.
  pub plan_attachment_upload-Orderly :
      (w : World)
      → Orderly resource_not_found io payload
          (plan_attachment_upload resource_not_found (logged io) payload (w, []))
  unfolding plan_attachment_upload logged
  plan_attachment_upload-Orderly w = by_threshold-Orderly io.chunked_threshold w
