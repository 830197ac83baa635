-- ===== src/Upload/Session.antt =====
-- The record of an upload session in crates/privchat-sdk/src/resumable_upload.rs: which upload may go
-- on with it, and the extension that keeps the records of two messages apart. Reading and writing the
-- file is not modelled.
use privchat_sdk.Base.{
  leb, ◌==◌, if◌then◌else◌, ℕ, ◌≡◌, refl, ◌↔◌, Bool, not, ◌&&◌, ◌||◌, [], ◌∷◌, ◌++◌, map, arith,
}
use privchat_sdk.Base.Int.{ℤ, ◌<ℤ◌, leb_ℤ}
use privchat_sdk.Base.Text.{Text, text_eq, text_eq_sound, text_eq_refl, to_ascii_lowercase}
use privchat_sdk.Upload.Sizer.{UploadPlan}

pub record UploadPlanRecord : Type 0 where
  pub base_unit : ℕ
  pub initial_request_size : ℕ
  pub max_request_size : ℕ
  pub session_threshold : ℕ
  pub max_parallel_parts : ℕ

unfoldable pub record_of_plan : UploadPlan → UploadPlanRecord
record_of_plan p = record {
  base_unit = p.base_unit;
  initial_request_size = p.initial_request_size;
  max_request_size = p.max_request_size;
  session_threshold = p.session_threshold;
  max_parallel_parts = p.max_parallel_parts;
}

unfoldable pub plan_of_record : UploadPlanRecord → UploadPlan
plan_of_record p = record {
  base_unit = p.base_unit;
  initial_request_size = p.initial_request_size;
  max_request_size = p.max_request_size;
  session_threshold = p.session_threshold;
  max_parallel_parts = p.max_parallel_parts;
}

pub record UploadSessionRecord : Type 0 where
  pub token : Text
  pub expires_at : ℤ  -- i64, Unix seconds
  pub upload_url : Text
  pub plan : UploadPlanRecord
  pub sealed_sha256 : Text
  pub sealed_size : ℕ
  pub user_id : ℕ
  pub local_message_id : Text
  pub server_identity : Text

pub data ReuseVerdict : Type 0 where
  reusable : ReuseVerdict
  expired : ReuseVerdict
  different_user : ReuseVerdict
  different_server : ReuseVerdict
  different_payload : ReuseVerdict
  different_message : ReuseVerdict

unfoldable pub eq_ignore_ascii_case : Text → Text → Bool
eq_ignore_ascii_case s t = text_eq (map to_ascii_lowercase s) (map to_ascii_lowercase t)

unfoldable pub reusable_for : UploadSessionRecord → ℤ → ℕ → Text → Text → ℕ → Text → ReuseVerdict
unfolding eq_ignore_ascii_case
reusable_for r now_secs user_id server_identity sealed_sha256 sealed_size local_message_id =
    if not (text_eq r.local_message_id local_message_id)
    then different_message
    else if leb_ℤ r.expires_at now_secs
    then expired
    else if not (r.user_id == user_id)
    then different_user
    else if not (text_eq r.server_identity server_identity)
    then different_server
    else if not (eq_ignore_ascii_case r.sealed_sha256 sealed_sha256)
        || not (r.sealed_size == sealed_size)
    then different_payload
    else reusable

abbrev is_ascii_alphanumeric : ℕ → Bool
is_ascii_alphanumeric c =
    (leb 48 c && leb c 57) || (leb 65 c && leb c 90) || (leb 97 c && leb c 122)

abbrev safe_char : ℕ → ℕ
safe_char c = if is_ascii_alphanumeric c then c else 95

-- What `path_for` gives `with_extension`: the message's id, made safe, and `.upload-session.json`.
unfoldable pub path_extension : Text → Text
path_extension local_message_id =
    map safe_char local_message_id
    ++ (b'.' ∷ b'u' ∷ b'p' ∷ b'l' ∷ b'o' ∷ b'a' ∷ b'd' ∷ b'-' ∷ b's' ∷ b'e' ∷ b's' ∷ b's' ∷ b'i'
        ∷ b'o' ∷ b'n' ∷ b'.' ∷ b'j' ∷ b's' ∷ b'o' ∷ b'n' ∷ [])

-- A session fits an upload.
pub record IsResumable (r : UploadSessionRecord) (now_secs : ℤ) (user_id : ℕ)
    (server_identity : Text) (sealed_sha256 : Text) (sealed_size : ℕ) (local_message_id : Text)
    : Type 0 where
  pub same_message : r.local_message_id ≡ local_message_id
  pub alive : now_secs <ℤ r.expires_at
  pub same_user : r.user_id ≡ user_id
  pub same_server : r.server_identity ≡ server_identity
  pub same_digest : map to_ascii_lowercase r.sealed_sha256 ≡ map to_ascii_lowercase sealed_sha256
  pub same_size : r.sealed_size ≡ sealed_size

-- A session record is reusable exactly if it has not expired, and message, user, server, ciphertext
-- digest (up to ASCII case) and size are those of the upload.
pub reusable_for-IsResumable :
    (r : UploadSessionRecord) (now_secs : ℤ) (user_id : ℕ) (server_identity sealed_sha256 : Text)
    (sealed_size : ℕ) (local_message_id : Text)
    → (reusable_for r now_secs user_id server_identity sealed_sha256 sealed_size local_message_id
        ≡ reusable)
      ↔ IsResumable r now_secs user_id server_identity sealed_sha256 sealed_size local_message_id
unfolding reusable_for eq_ignore_ascii_case
reusable_for-IsResumable r now user server digest size message = (
  λ h. record {
    same_message = text_eq_sound r.local_message_id message (ground arith);
    alive = ground arith;
    same_user = ground arith;
    same_server = text_eq_sound r.server_identity server (ground arith);
    same_digest = text_eq_sound _ _ (ground arith);
    same_size = ground arith;
  },
  λ f.
      let m = text_eq_refl message in
      let s = text_eq_refl server in
      let d = text_eq_refl (map to_ascii_lowercase digest) in
      rw (f.same_message, f.same_user, f.same_server, f.same_size, f.same_digest, m, s, d)
        (ground (arith, f.alive)),
)

-- A plan comes back from its record unchanged, and a record from its plan.
pub plan-round_trip :
    (p : UploadPlan) (r : UploadPlanRecord)
    → (plan_of_record (record_of_plan p) ≡ p) × (record_of_plan (plan_of_record r) ≡ r)
unfolding plan_of_record record_of_plan
plan-round_trip p r = (refl, refl)
