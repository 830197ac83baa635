-- ===== src/Examples/MediaRuns.antt =====
-- The downloads of crates/privchat-sdk/src/media_download.rs, the sealed copies and the encryption of
-- attachments on concrete inputs.
use privchat_sdk.Base.{
  keep_if, ℕ, zero, suc, ◌≡◌, refl, ap, inl, true, false, none, some, List, [], ◌∷◌, ◌++◌, arith,
}
use privchat_sdk.Base.Int.{pos}
use privchat_sdk.Base.Text.{Text, text_eq}
use privchat_sdk.Media.{payload, background, downloading, done, MediaTaskKey, kind_eq, key_eq}
use privchat_sdk.Media.Registry.{
  HandleEntry, DownloadManager, get, remove_entry, insert_entry, contains_key, set_flag, new,
  get_state, track, start_with_ticket, cancel_entry, cancel, emit, is_task, remove_if_current,
}
use privchat_sdk.Media.Registry.Sound.{IsSound}
use privchat_sdk.Media.Registry.Tasks.{
  Operation, submitting, starting, pausing, cancelling, ending, perform, perform_all,
  perform-IsSound, perform_all-IsSound,
}
use privchat_sdk.Media.Registry.Cancel.{cancelled_is_inert}
use privchat_sdk.Media.Registry.Restart.{
  key_of, handle, perform-frame, restarted, restart_shows_late_state,
}
use privchat_sdk.Media.Attachment.{
  Crypto, Bytes, take, drop, encrypt_attachment, opened, decrypt_with, decrypt_attachment,
  decrypt_downloaded_attachment_bytes,
}
use privchat_sdk.Media.Attachment.RoundTrip.{Opens, encrypt-decrypt}
use privchat_sdk.Media.Sealed.{
  Cache, CacheIo, Sealed, cached, seal_for_upload, store, or_store, seal_once, write_sealed_cache,
}
use privchat_sdk.Media.Sealed.Reuse.{IsSeal, seal_once-again, forwarded_as_it_came}

abbrev alice : MediaTaskKey
alice = record { owner_uid = 97 ∷ []; session_epoch = 1; message_id = 5; media_kind = payload }

abbrev later_alice : MediaTaskKey
later_alice = record {
  owner_uid = 97 ∷ [];
  session_epoch = 2;
  message_id = 5;
  media_kind = payload;
}

new-IsSound : IsSound new
unfolding new
new-IsSound = record {
  keys = tt;
  tasks = tt;
  created = tt;
  live = tt;
  past = λ id on. cc;
  bounded = omega arith;
}

abbrev calls : List Operation
calls =
    starting alice
    ∷ submitting later_alice background
    ∷ pausing alice
    ∷ cancelling alice
    ∷ starting alice
    ∷ ending alice 1
    ∷ []

perform_all-IsSound_example : IsSound (perform_all calls new)
unfolding new
perform_all-IsSound_example = perform_all-IsSound calls new new-IsSound (omega arith)

abbrev started : DownloadManager
started = perform (starting alice) new

started-IsSound : IsSound started
unfolding new
started-IsSound = perform-IsSound (starting alice) new (omega arith) new-IsSound

abbrev stopped : DownloadManager
stopped = perform (cancelling alice) started

stopped-IsSound : IsSound stopped
unfolding new perform start_with_ticket track contains_key cancel cancel_entry get insert_entry
    set_flag remove_entry keep_if key_eq kind_eq text_eq
stopped-IsSound = perform-IsSound (cancelling alice) started (omega arith) started-IsSound

cancelled_is_inert_example :
    ((perform_all calls stopped).cancel_flag 1 ≡ true)
    × (is_task (get alice (perform_all calls stopped).entries) 1 ≡ false)
    × (remove_if_current alice 1 (perform_all calls stopped) ≡ perform_all calls stopped)
unfolding new perform start_with_ticket track contains_key cancel cancel_entry get insert_entry
    set_flag remove_entry keep_if key_eq kind_eq text_eq
cancelled_is_inert_example =
    cancelled_is_inert calls stopped 1 alice stopped-IsSound (omega arith) refl

abbrev both : DownloadManager
both = perform (starting later_alice) started

perform-frame_example : handle later_alice (perform (pausing alice) both) ≡ handle later_alice both
unfolding key_of perform start_with_ticket new
perform-frame_example =
    perform-frame (pausing alice) later_alice alice both
      (perform-IsSound (starting later_alice) started (omega arith) started-IsSound) refl
      (λ e. omega (arith, ap (λ k. k.session_epoch) e))

abbrev first_entry : HandleEntry
first_entry = record { task_id = 1; state = downloading 0 none }

restart_shows_late_state_example :
    (get_state alice (restarted alice started) ≡ downloading 0 none)
    × (remove_if_current alice 1 (restarted alice started) ≡ restarted alice started)
    × (get_state alice (emit alice (done []) (restarted alice started)).0 ≡ done [])
unfolding new perform start_with_ticket track contains_key cancel cancel_entry get insert_entry
    set_flag remove_entry keep_if key_eq kind_eq text_eq
restart_shows_late_state_example =
    restart_shows_late_state alice started first_entry (done []) started-IsSound refl

-- A cipher that puts a tag of zeros before the text.
zeros : ℕ → Bytes
zeros zero = []
zeros (suc n) = 0 ∷ zeros n

abbrev crypto : Crypto
crypto = record {
  encrypt = λ key nonce text. some (zeros 16 ++ text);
  decrypt = λ key nonce text. some (drop 16 text);
  encode_base64 = λ bytes. bytes;
  decode_base64 = λ text. some text;
}

abbrev plain : Bytes
plain = 7 ∷ 8 ∷ []

opens : Opens crypto (zeros 32) (zeros 12) plain (zeros 16 ++ plain)
unfolding zeros drop
opens = record {
  key_size = refl;
  nonce_size = refl;
  encrypts = refl;
  tagged = omega arith;
  decrypts = refl;
  decodes = refl;
  named = refl;
}

encrypt-decrypt_example :
    (blob : Bytes) × (key : Text) × (encrypt_attachment crypto (zeros 32) (zeros 12) plain
      ≡ inl (blob, key))
    × (decrypt_downloaded_attachment_bytes crypto (pos 1) (some key) blob ≡ inl plain)
encrypt-decrypt_example =
    encrypt-decrypt crypto (zeros 32) (zeros 12) plain (zeros 16 ++ plain) opens

abbrev all_ok : CacheIo
all_ok = record { remove_ok = true; blob_ok = true; meta_ok = true }

abbrev no_cache : Cache
no_cache = record { blob = none; meta = none }

abbrev seal_of_plain : Sealed
seal_of_plain = (zeros 12 ++ (zeros 16 ++ plain), zeros 32, zeros 12 ++ (zeros 16 ++ plain))

seal_once-again_example :
    IsSeal crypto (λ bytes. bytes) seal_of_plain plain
    × (seal_once crypto
          (λ bytes. bytes)
          all_ok
          (zeros 32)
          (7 ∷ [])
          plain
          (seal_once crypto (λ bytes. bytes) all_ok (zeros 32) (zeros 12) plain no_cache).0
        ≡ (
          (seal_once crypto (λ bytes. bytes) all_ok (zeros 32) (zeros 12) plain no_cache).0,
          inl seal_of_plain,
        ))
unfolding seal_once cached or_store store seal_for_upload encrypt_attachment
seal_once-again_example =
    seal_once-again crypto (λ bytes. bytes) all_ok all_ok (zeros 32) (zeros 12) plain
      (zeros 16 ++ plain) (zeros 32) (7 ∷ []) no_cache seal_of_plain opens refl

forwarded_as_it_came_example :
    seal_once crypto
      (λ bytes. bytes)
      all_ok
      (zeros 32)
      (7 ∷ [])
      plain
      (write_sealed_cache crypto (λ bytes. bytes) all_ok seal_of_plain.0 (zeros 32) no_cache)
    ≡ (
      write_sealed_cache crypto (λ bytes. bytes) all_ok seal_of_plain.0 (zeros 32) no_cache,
      inl seal_of_plain,
    )
unfolding decrypt_attachment decrypt_with opened zeros take drop
forwarded_as_it_came_example =
    forwarded_as_it_came crypto (λ bytes. bytes) all_ok all_ok seal_of_plain.0 plain (zeros 32)
      (7 ∷ []) (zeros 32) no_cache refl refl refl
