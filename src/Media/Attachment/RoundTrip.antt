-- ===== src/Media/Attachment/RoundTrip.antt =====
-- That an attachment sealed by crates/privchat-sdk/src/attachment_crypto.rs opens again.
use privchat_sdk.Base.{
  ltb, ◌==◌, length, is_empty, length-append, ◌≤◌, ◌≡◌, refl, ap, inl, false, not, some, [], ◌∷◌,
  ◌++◌, arith,
}
use privchat_sdk.Base.Int.{pos}
use privchat_sdk.Base.Text.{Text}
use privchat_sdk.Media.Attachment.{
  Crypto, Bytes, nonce_len, tag_len, cek_len, min_blob_len, take, drop, sealed, encrypt_attachment,
  opened, decrypt_with, decrypt_attachment, decrypt_v1, decrypt_downloaded_attachment_bytes,
}

take-append : (xs ys : Bytes) → take (length xs) (xs ++ ys) ≡ xs
unfolding take
take-append [] ys = refl
take-append (x ∷ xs) ys = ap (λ t. x ∷ t) (take-append xs ys)

pub drop-append : (xs ys : Bytes) → drop (length xs) (xs ++ ys) ≡ ys
unfolding drop
drop-append [] ys = refl
drop-append (x ∷ xs) ys = drop-append xs ys

-- A key and a nonce of the sizes that the source draws, the text that the cipher makes of a plaintext
-- with them, at least a tag long, and the two libraries' inverses at these.
pub record Opens (c : Crypto) (cek nonce plaintext text : Bytes) : Type 0 where
  pub key_size : length cek ≡ cek_len
  pub nonce_size : length nonce ≡ nonce_len
  pub encrypts : c.encrypt cek nonce plaintext ≡ some text
  pub tagged : tag_len ≤ length text
  pub decrypts : c.decrypt cek nonce text ≡ some plaintext
  pub decodes : c.decode_base64 (c.encode_base64 cek) ≡ some cek
  pub named : is_empty (c.encode_base64 cek) ≡ false

pub sealed_can_be_opened :
    (c : Crypto) (cek nonce plaintext text : Bytes)
    → Opens c cek nonce plaintext text
    → (blob : Bytes) × (key : Text) × (encrypt_attachment c cek nonce plaintext ≡ inl (blob, key))
      × (decrypt_attachment c blob key ≡ inl plaintext)
      × (is_empty key ≡ false)
unfolding encrypt_attachment sealed decrypt_attachment decrypt_with opened
sealed_can_be_opened c cek nonce plaintext text o =
    let head : take nonce_len (nonce ++ text) ≡ nonce =
      rw o.nonce_size at (take-append nonce text) in
    let tail : drop nonce_len (nonce ++ text) ≡ text =
      rw o.nonce_size at (drop-append nonce text) in
    let long : ltb (length (nonce ++ text)) min_blob_len ≡ false =
      ground (arith, length-append nonce text, o.nonce_size, o.tagged) in
    let size : not (length cek == cek_len) ≡ false = ground (arith, o.key_size) in
    (
      nonce ++ text,
      c.encode_base64 cek,
      rw o.encrypts refl,
      rw (long, o.decodes, size, head, tail, o.decrypts) refl,
      o.named,
    )

-- What `encrypt_attachment` makes of a plaintext opens to it as a download of version 1 with the key that
-- comes with it, if the cipher and base64 invert themselves at this key, nonce and plaintext.
pub encrypt-decrypt :
    (c : Crypto) (cek nonce plaintext text : Bytes)
    → Opens c cek nonce plaintext text
    → (blob : Bytes) × (key : Text) × (encrypt_attachment c cek nonce plaintext ≡ inl (blob, key))
      × (decrypt_downloaded_attachment_bytes c (pos 1) (some key) blob ≡ inl plaintext)
unfolding decrypt_downloaded_attachment_bytes decrypt_v1
encrypt-decrypt c cek nonce plaintext text o =
    let (blob, key, made, opens, named) = sealed_can_be_opened c cek nonce plaintext text o in
    (blob, key, made, rw named opens)
