-- ===== src/Media.antt =====
-- The media downloads of crates/privchat-sdk/src/media_download.rs: the kinds and keys of the tasks, and
-- the states that a download shows.
pub mod Attachment
pub mod Sealed
pub mod Registry
pub mod Download
use privchat_sdk.Base.{◌==◌, ℕ, String, ◌≡◌, refl, Bool, true, false, ◌&&◌, Option, arith}
use privchat_sdk.Base.Text.{Text, text_eq, text_eq_sound, text_eq_refl}

pub data MediaKind : Type 0 where
  payload : MediaKind
  thumbnail : MediaKind

pub data DownloadPriority : Type 0 where
  visible : DownloadPriority
  background : DownloadPriority

pub record MediaTaskKey : Type 0 where
  pub owner_uid : Text
  pub session_epoch : ℕ
  pub message_id : ℕ
  pub media_kind : MediaKind

pub data MediaDownloadState : Type 0 where
  idle : MediaDownloadState
  downloading : ℕ → Option ℕ → MediaDownloadState
  paused : ℕ → Option ℕ → MediaDownloadState
  done : Text → MediaDownloadState
  failed : ℕ → String → MediaDownloadState

unfoldable pub kind_eq : MediaKind → MediaKind → Bool
kind_eq payload payload = true
kind_eq thumbnail thumbnail = true
kind_eq payload thumbnail = false
kind_eq thumbnail payload = false

-- `==` of two keys.
unfoldable pub key_eq : MediaTaskKey → MediaTaskKey → Bool
unfolding kind_eq
key_eq k l =
    text_eq k.owner_uid l.owner_uid
    && k.session_epoch == l.session_epoch
    && k.message_id == l.message_id
    && kind_eq k.media_kind l.media_kind

kind_eq_sound : (k l : MediaKind) → kind_eq k l ≡ true → k ≡ l
unfolding kind_eq
kind_eq_sound payload payload h = refl
kind_eq_sound thumbnail thumbnail h = refl
kind_eq_sound payload thumbnail h = cc
kind_eq_sound thumbnail payload h = cc

kind_eq_refl : (k : MediaKind) → kind_eq k k ≡ true
unfolding kind_eq
kind_eq_refl payload = refl
kind_eq_refl thumbnail = refl

pub key_eq_refl : (k : MediaTaskKey) → key_eq k k ≡ true
unfolding key_eq
key_eq_refl k = ground (arith, text_eq_refl k.owner_uid, kind_eq_refl k.media_kind)

pub key_eq_sound : (k l : MediaTaskKey) → key_eq k l ≡ true → k ≡ l
unfolding key_eq
key_eq_sound k l h =
    let o = text_eq_sound k.owner_uid l.owner_uid (ground arith) in
    let e : k.session_epoch ≡ l.session_epoch = ground arith in
    let m : k.message_id ≡ l.message_id = ground arith in
    let d = kind_eq_sound k.media_kind l.media_kind (ground arith) in
    λ i. record { owner_uid = o i; session_epoch = e i; message_id = m i; media_kind = d i }
