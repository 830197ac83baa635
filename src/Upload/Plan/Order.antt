-- ===== src/Upload/Plan/Order.antt =====
-- What `plan_attachment_upload` of crates/privchat-sdk/src/lib.rs asks of the server for one attachment: which
-- calls, in which order, and with what.
use privchat_sdk.Base.{
  leb, leb→le, if_elim, length, last?, All, ℕ, suc, ◌≤◌, ◌≡◌, refl, ◌⊎◌, inl, inr, Bool, true,
  false, not, ◌&&◌, ◌||◌, Option, none, some, List, [], ◌∷◌, ◌++◌,
}
use privchat_sdk.Base.Text.{Text}
use privchat_sdk.Errors.{Error}
use privchat_sdk.Upload.Plan.{
  SealedPayload, UploadToken, AttachmentUploadIo, claim_miss_should_reupload, finish, send_again,
  after_claim, after_prepare,
}

pub data Call : Type 0 where
  finished_call : Call
  prepare_call : Option Text → Call
  claim_call : Text → Call
  upload_call : SealedPayload → Call
  prepare_chunked_call : Text → Bool → Call
  upload_chunked_call : SealedPayload → Call

module _ {World Info : Type 0} where
  -- The interface that also writes down what it is asked to do.
  unfoldable pub logged :
      AttachmentUploadIo World Info → AttachmentUploadIo (World × List Call) Info
  logged io = record {
    on_upload_finished = λ w. (io.on_upload_finished w.0, w.1 ++ (finished_call ∷ []));
    prepare = λ w digest size.
        let (w', r) = io.prepare w.0 digest size in ((w', w.1 ++ (prepare_call digest ∷ [])), r);
    claim = λ w token digest.
        let (w', r) = io.claim w.0 token digest in ((w', w.1 ++ (claim_call digest ∷ [])), r);
    upload = λ w token payload.
        let (w', r) = io.upload w.0 token payload in ((w', w.1 ++ (upload_call payload ∷ [])), r);
    chunked_threshold = io.chunked_threshold;
    prepare_chunked = λ w digest size force.
        let (w', r) = io.prepare_chunked w.0 digest size force in
        ((w', w.1 ++ (prepare_chunked_call digest force ∷ [])), r);
    upload_chunked = λ w s payload.
        let (w', r) = io.upload_chunked w.0 s payload in
        ((w', w.1 ++ (upload_chunked_call payload ∷ [])), r);
  }

-- Every call is about the one sealed payload.
abbrev pub Carries : SealedPayload → Call → Type 0
Carries payload finished_call = Unit
Carries payload (prepare_call none) = Unit
Carries payload (prepare_call (some digest)) = digest ≡ payload.sha256
Carries payload (claim_call digest) = digest ≡ payload.sha256
Carries payload (upload_call sent) = sent ≡ payload
Carries payload (prepare_chunked_call digest force) = digest ≡ payload.sha256
Carries payload (upload_chunked_call sent) = sent ≡ payload

is_none : Option Text → Bool
is_none none = true
is_none (some digest) = false

-- After a claim, and until chunks are sent, a preparation does not let the server answer with a claim
-- again: it has no digest, or forces the upload.
unfoldable pub no_second_hit : Bool → List Call → Bool
unfolding is_none
no_second_hit claimed [] = true
no_second_hit claimed (finished_call ∷ later) = no_second_hit claimed later
no_second_hit claimed (prepare_call digest ∷ later) =
    (not claimed || is_none digest) && no_second_hit claimed later
no_second_hit claimed (claim_call digest ∷ later) = no_second_hit true later
no_second_hit claimed (upload_call sent ∷ later) = no_second_hit claimed later
no_second_hit claimed (prepare_chunked_call digest force ∷ later) =
    (not claimed || force) && no_second_hit claimed later
no_second_hit claimed (upload_chunked_call sent ∷ later) = no_second_hit false later

-- How often the body of the attachment is sent.
unfoldable pub bodies : List Call → ℕ
bodies [] = 0
bodies (finished_call ∷ later) = bodies later
bodies (prepare_call digest ∷ later) = bodies later
bodies (claim_call digest ∷ later) = bodies later
bodies (upload_call sent ∷ later) = suc (bodies later)
bodies (prepare_chunked_call digest force ∷ later) = bodies later
bodies (upload_chunked_call sent ∷ later) = suc (bodies later)

-- A log of calls, and whether they ended well.
pub record IsOrderly (payload : SealedPayload) (log : List Call) (well : Bool) : Type 0 where
  pub carries : All (Carries payload) log
  pub moves_on : no_second_hit false log ≡ true
  pub bounded : length log ≤ 8
  pub sent_twice : bodies log ≤ 2
  pub closes : well ≡ true → last? log ≡ some finished_call

unfoldable pub is_ok {ℓ κ} : {A : Type ℓ} {B : Type κ} → A ⊎ B → Bool
is_ok (inl a) = true
is_ok (inr b) = false

pub failing :
    (payload : SealedPayload) (log : List Call)
    → All (Carries payload) log
    → no_second_hit false log ≡ true
    → leb (length log) 8 ≡ true
    → leb (bodies log) 2 ≡ true
    → IsOrderly payload log false
failing payload log carries moves short few = record {
  carries = carries;
  moves_on = moves;
  bounded = leb→le (length log) 8 short;
  sent_twice = leb→le (bodies log) 2 few;
  closes = λ e. cc;
}

pub settled :
    (payload : SealedPayload) (log : List Call)
    → All (Carries payload) log
    → no_second_hit false log ≡ true
    → leb (length log) 8 ≡ true
    → leb (bodies log) 2 ≡ true
    → last? log ≡ some finished_call
    → IsOrderly payload log true
settled payload log carries moves short few last = record {
  carries = carries;
  moves_on = moves;
  bounded = leb→le (length log) 8 short;
  sent_twice = leb→le (bodies log) 2 few;
  closes = λ e. last;
}

module _ {World Info : Type 0} (resource_not_found : ℕ) (io : AttachmentUploadIo World Info)
    (payload : SealedPayload) where
  abbrev pub Orderly : (World × List Call) × ((Info × Text) ⊎ Error) → Type 0
  Orderly r = IsOrderly payload r.0.1 (is_ok r.1)

  -- Where the last call of a log is the one that sends or claims.
  pub finish-Orderly :
      (token : Text) (w : World) (log : List Call) (r : Info ⊎ Error)
      → IsOrderly payload log false
      → IsOrderly payload (log ++ (finished_call ∷ [])) true
      → Orderly (finish resource_not_found (logged io) payload token ((w, log), r))
  unfolding finish logged is_ok
  finish-Orderly token w log (inl info) failing fine = fine
  finish-Orderly token w log (inr e) failing fine = failing

  send_again-Orderly :
      (w : World) (log : List Call) (r : UploadToken ⊎ Error)
      → IsOrderly payload log false
      → IsOrderly payload (log ++ (upload_call payload ∷ [])) false
      → IsOrderly payload ((log ++ (upload_call payload ∷ [])) ++ (finished_call ∷ [])) true
      → Orderly (send_again resource_not_found (logged io) payload ((w, log), r))
  unfolding send_again is_ok logged
  send_again-Orderly w log (inr e) a b c = a
  send_again-Orderly w log (inl t) a b c =
      let answer = io.upload w t payload in
      finish-Orderly t.token answer.0 (log ++ (upload_call payload ∷ [])) answer.1 b c

  -- A claim comes after the first preparation.
  abbrev pub asked : List Call
  asked = prepare_call (some payload.sha256) ∷ []

  abbrev claimed : List Call
  claimed = prepare_call (some payload.sha256) ∷ claim_call payload.sha256 ∷ []

  after_claim-Orderly :
      (token : Text) (w : World) (r : Info ⊎ Error)
      → Orderly (after_claim resource_not_found (logged io) payload token ((w, claimed), r))
  unfolding after_claim logged is_ok no_second_hit bodies is_none
  after_claim-Orderly token w (inl info) =
      settled payload _ (refl, (refl, (tt, tt))) refl refl refl refl
  after_claim-Orderly token w (inr e) =
      if_elim Orderly (claim_miss_should_reupload resource_not_found e)
        (λ miss.
          let answer = io.prepare w none (length payload.blob) in
          send_again-Orderly answer.0 (claimed ++ (prepare_call none ∷ [])) answer.1
            (failing payload _ (refl, (refl, (tt, tt))) refl refl refl)
            (failing payload _ (refl, (refl, (tt, (refl, tt)))) refl refl refl)
            (settled payload _ (refl, (refl, (tt, (refl, (tt, tt))))) refl refl refl refl))
        (λ other. failing payload _ (refl, (refl, tt)) refl refl refl)

  pub after_prepare-Orderly :
      (w : World) (r : UploadToken ⊎ Error)
      → Orderly (after_prepare resource_not_found (logged io) payload ((w, asked), r))
  unfolding after_prepare logged is_ok no_second_hit bodies is_none
  after_prepare-Orderly w (inr e) = failing payload _ (refl, tt) refl refl refl
  after_prepare-Orderly w (inl t) =
      if_elim Orderly t.already_exists
        (λ hit.
          let answer = io.claim w t.token payload.sha256 in
          after_claim-Orderly t.token answer.0 answer.1)
        (λ fresh.
          let answer = io.upload w t payload in
          finish-Orderly t.token answer.0 (asked ++ (upload_call payload ∷ [])) answer.1
            (failing payload _ (refl, (refl, tt)) refl refl refl)
            (settled payload _ (refl, (refl, (tt, tt))) refl refl refl refl))
