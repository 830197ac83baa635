-- ===== src/Media/Attachment.antt =====
-- The encryption of attachments in crates/privchat-sdk/src/attachment_crypto.rs. The AES-GCM cipher and the
-- base64 code are parameters, and so are the random key and nonce.
pub mod RoundTrip
use privchat_sdk.Base.{
  ltb, ◌==◌, if◌then◌else◌, length, is_empty, ℕ, zero, suc, ◌+◌, ◌⊎◌, inl, inr, not, Option, none,
  some, List, [], ◌∷◌, ◌++◌,
}
use privchat_sdk.Base.Int.{ℤ, pos, eqb_ℤ}
use privchat_sdk.Base.Text.{Text}

abbrev pub Bytes : Type 0
Bytes = List ℕ

abbrev pub nonce_len : ℕ
nonce_len = 12

abbrev pub tag_len : ℕ
tag_len = 16

abbrev pub cek_len : ℕ
cek_len = 32

abbrev pub min_blob_len : ℕ
min_blob_len = nonce_len + tag_len

-- The libraries `aes_gcm` (key, nonce, text) and `base64`.
pub record Crypto : Type 0 where
  pub encrypt : Bytes → Bytes → Bytes → Option Bytes
  pub decrypt : Bytes → Bytes → Bytes → Option Bytes
  pub encode_base64 : Bytes → Text
  pub decode_base64 : Text → Option Bytes

pub data AttachmentError : Type 0 where
  encrypt_failed : AttachmentError
  blob_too_short : ℕ → AttachmentError
  cek_not_base64 : AttachmentError
  cek_length : ℕ → AttachmentError
  auth_failed : AttachmentError
  cek_missing : AttachmentError
  unsupported_version : ℤ → AttachmentError

-- `split_at`.
unfoldable pub take : ℕ → Bytes → Bytes
take zero xs = []
take (suc n) [] = []
take (suc n) (x ∷ xs) = x ∷ take n xs

unfoldable pub drop : ℕ → Bytes → Bytes
drop zero xs = xs
drop (suc n) [] = []
drop (suc n) (x ∷ xs) = drop n xs

module _ (c : Crypto) where
  unfoldable pub sealed : Bytes → Bytes → Option Bytes → (Bytes × Text) ⊎ AttachmentError
  sealed cek nonce none = inr encrypt_failed
  sealed cek nonce (some text) = inl (nonce ++ text, c.encode_base64 cek)

  unfoldable pub encrypt_attachment : Bytes → Bytes → Bytes → (Bytes × Text) ⊎ AttachmentError
  unfolding sealed
  encrypt_attachment cek nonce plaintext = sealed cek nonce (c.encrypt cek nonce plaintext)

  unfoldable pub opened : Option Bytes → Bytes ⊎ AttachmentError
  opened none = inr auth_failed
  opened (some plaintext) = inl plaintext

  unfoldable pub decrypt_with : Bytes → Option Bytes → Bytes ⊎ AttachmentError
  unfolding opened take drop
  decrypt_with blob none = inr cek_not_base64
  decrypt_with blob (some cek) =
      if not (length cek == cek_len)
      then inr (cek_length (length cek))
      else opened (c.decrypt cek (take nonce_len blob) (drop nonce_len blob))

  unfoldable pub decrypt_attachment : Bytes → Text → Bytes ⊎ AttachmentError
  unfolding decrypt_with
  decrypt_attachment blob cek_b64 =
      if ltb (length blob) min_blob_len
      then inr (blob_too_short (length blob))
      else decrypt_with blob (c.decode_base64 cek_b64)

  unfoldable pub decrypt_v1 : Option Text → Bytes → Bytes ⊎ AttachmentError
  unfolding decrypt_attachment
  decrypt_v1 none blob = inr cek_missing
  decrypt_v1 (some cek) blob = if is_empty cek then inr cek_missing else decrypt_attachment blob cek

  unfoldable pub decrypt_downloaded_attachment_bytes :
      ℤ → Option Text → Bytes → Bytes ⊎ AttachmentError
  unfolding decrypt_v1
  decrypt_downloaded_attachment_bytes version cek blob =
      if eqb_ℤ version (pos 0)
      then inl blob
      else if eqb_ℤ version (pos 1)
      then decrypt_v1 cek blob
      else inr (unsupported_version version)
