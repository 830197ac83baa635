-- ===== src/Media/Sealed.antt =====
-- The sealed copy of an attachment beside its file: `seal_once` of crates/privchat-sdk/src/lib.rs, and
-- `write_sealed_cache` of crates/privchat-sdk/src/media_download.rs. SHA-256 is a parameter, and so are the key
-- and the nonce of a new seal.
pub mod Reuse
use privchat_sdk.Base.{
  if◌then◌else◌, is_empty, ◌⊎◌, inl, inr, Bool, false, not, ◌&&◌, Option, none, some, [], ◌∷◌,
}
use privchat_sdk.Base.Text.{Text, text_eq}
use privchat_sdk.Media.Attachment.{
  AttachmentError, Crypto, Bytes, encrypt_attachment, decrypt_attachment,
}
use privchat_sdk.Errors.{Error, serialization, storage}

pub record SealedCacheMeta : Type 0 where
  pub cek : Text
  pub sha256 : Text

-- The two files: the blob, and the record that says it is whole.
pub record Cache : Type 0 where
  pub blob : Option Bytes
  pub meta : Option SealedCacheMeta

-- Whether the old record goes, the new blob is in place, and the new record is.
pub record CacheIo : Type 0 where
  pub remove_ok : Bool
  pub blob_ok : Bool
  pub meta_ok : Bool

-- The blob, its key, and its digest.
abbrev pub Sealed : Type 0
Sealed = Bytes × Text × Text

unfoldable pub meta_left : CacheIo → Cache → Option SealedCacheMeta
meta_left io cache = if io.remove_ok then none else cache.meta

module _ (c : Crypto) (sha256_hex : Bytes → Text) where
  unfoldable pub decodes_to : Bytes ⊎ AttachmentError → Bytes → Bool
  decodes_to (inl decoded) plaintext = text_eq decoded plaintext
  decodes_to (inr e) plaintext = false

  unfoldable pub fits : Bytes → SealedCacheMeta → Bytes → Bool
  unfolding decodes_to
  fits blob meta plaintext =
      not (is_empty blob)
      && text_eq (sha256_hex blob) meta.sha256
      && decodes_to (decrypt_attachment c blob meta.cek) plaintext

  -- What the cache holds for a plaintext.
  unfoldable pub cached : Option Bytes → Option SealedCacheMeta → Bytes → Option Sealed
  unfolding fits
  cached none meta plaintext = none
  cached (some blob) none plaintext = none
  cached (some blob) (some meta) plaintext =
      if fits blob meta plaintext then some (blob, meta.cek, meta.sha256) else none

  unfoldable pub sealed_error : AttachmentError → Error
  sealed_error e = serialization (b's' ∷ b'e' ∷ b'a' ∷ b'l' ∷ [])

  unfoldable pub seal_for_upload : Bytes → Bytes → Bytes → Sealed ⊎ Error
  unfolding sealed_error
  seal_for_upload cek nonce plaintext = with_digest (encrypt_attachment c cek nonce plaintext)
    where
      with_digest : (Bytes × Text) ⊎ AttachmentError → Sealed ⊎ Error
      with_digest (inr e) = inr (sealed_error e)
      with_digest (inl (blob, key)) = inl (blob, key, sha256_hex blob)

  unfoldable pub store : CacheIo → Cache → Sealed ⊎ Error → Cache × (Sealed ⊎ Error)
  unfolding meta_left
  store io cache (inr e) = (cache, inr e)
  store io cache (inl (blob, key, digest)) =
      if not io.blob_ok
      then (
        record { blob = cache.blob; meta = meta_left io cache },
        inr (storage (b'b' ∷ b'l' ∷ b'o' ∷ b'b' ∷ [])),
      )
      else if not io.meta_ok
      then (
        record { blob = some blob; meta = meta_left io cache },
        inr (storage (b'm' ∷ b'e' ∷ b't' ∷ b'a' ∷ [])),
      )
      else (
        record { blob = some blob; meta = some (record { cek = key; sha256 = digest }) },
        inl (blob, key, digest),
      )

  unfoldable pub or_store :
      Option Sealed → CacheIo → Bytes → Bytes → Bytes → Cache → Cache × (Sealed ⊎ Error)
  unfolding seal_for_upload store
  or_store (some s) io cek nonce plaintext cache = (cache, inl s)
  or_store none io cek nonce plaintext cache = store io cache (seal_for_upload cek nonce plaintext)

  unfoldable pub seal_once : CacheIo → Bytes → Bytes → Bytes → Cache → Cache × (Sealed ⊎ Error)
  unfolding cached or_store
  seal_once io cek nonce plaintext cache =
      or_store (cached cache.blob cache.meta plaintext) io cek nonce plaintext cache

  unfoldable pub write_sealed_cache : CacheIo → Bytes → Text → Cache → Cache
  unfolding meta_left
  write_sealed_cache io blob cek cache =
      if not io.blob_ok
      then record { blob = cache.blob; meta = meta_left io cache }
      else if not io.meta_ok
      then record { blob = none; meta = meta_left io cache }
      else record { blob = some blob; meta = some (record { cek = cek; sha256 = sha256_hex blob }) }

unfoldable pub drop_sealed_cache : Cache → Cache
drop_sealed_cache cache = record { blob = none; meta = none }
