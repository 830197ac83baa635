-- ===== src/Media/Sealed/Reuse.antt =====
-- That a seal is made once for each attachment: what `seal_once` of crates/privchat-sdk/src/lib.rs finds in the
-- cache, in any state that a failure left it in.
use privchat_sdk.Base.{
  Bool-cases, if_elim, is_empty, ◌≡◌, refl, sym, ap, subst, ◌∙◌, ◌⊎◌, inl, inr, true, false, not,
  Option, none, some, [], ◌∷◌, arith,
}
use privchat_sdk.Base.Text.{Text, text_eq, text_eq_sound, text_eq_refl}
use privchat_sdk.Media.Attachment.{AttachmentError, Crypto, Bytes, decrypt_attachment}
use privchat_sdk.Media.Attachment.RoundTrip.{Opens, sealed_can_be_opened}
use privchat_sdk.Errors.{Error}
use privchat_sdk.Media.Sealed.{
  SealedCacheMeta, Cache, CacheIo, Sealed, decodes_to, fits, cached, seal_for_upload, store,
  or_store, seal_once, write_sealed_cache,
}

module _ (c : Crypto) (sha256_hex : Bytes → Text) where
  -- A seal that an upload may use for a plaintext: its digest is that of its blob, and its key opens it.
  pub record IsSeal (s : Sealed) (plaintext : Bytes) : Type 0 where
    pub digest : s.2 ≡ sha256_hex s.0
    pub opens : decrypt_attachment c s.0 s.1 ≡ inl plaintext

  decodes_to-opens :
      (o : Bytes ⊎ AttachmentError) (plaintext : Bytes)
      → decodes_to c sha256_hex o plaintext ≡ true
      → o ≡ inl plaintext
  unfolding decodes_to
  decodes_to-opens (inl decoded) plaintext h = ap inl (text_eq_sound decoded plaintext h)
  decodes_to-opens (inr e) plaintext h = cc

  fits-IsSeal :
      (blob : Bytes) (meta : SealedCacheMeta) (plaintext : Bytes)
      → fits c sha256_hex blob meta plaintext ≡ true
      → IsSeal (blob, meta.cek, meta.sha256) plaintext
  unfolding fits
  fits-IsSeal blob meta plaintext h = record {
    digest = sym (text_eq_sound (sha256_hex blob) meta.sha256 (ground arith));
    opens = decodes_to-opens (decrypt_attachment c blob meta.cek) plaintext (ground arith);
  }

  cached-IsSeal :
      (blob : Option Bytes) (meta : Option SealedCacheMeta) (plaintext : Bytes) (s : Sealed)
      → cached c sha256_hex blob meta plaintext ≡ some s
      → IsSeal s plaintext
  unfolding cached
  cached-IsSeal none meta plaintext s e = cc
  cached-IsSeal (some blob) none plaintext s e = cc
  cached-IsSeal (some blob) (some meta) plaintext s e =
      elim (Bool-cases (fits c sha256_hex blob meta plaintext)) [
        | inl ok ↦
            let found : some (blob, meta.cek, meta.sha256) ≡ some s = rw ok at e in
            let same : (blob, meta.cek, meta.sha256) ≡ s = cc in
            subst (λ x. IsSeal x plaintext) same (fits-IsSeal blob meta plaintext ok)
        | inr other ↦ absurd (let q : none ≡ some s = rw other at e in cc)
      ]

  not_empty :
      (blob plaintext : Bytes) (key : Text)
      → decrypt_attachment c blob key ≡ inl plaintext
      → is_empty blob ≡ false
  unfolding decrypt_attachment
  not_empty [] plaintext key h = cc
  not_empty (b ∷ blob) plaintext key h = refl

  cached-hit :
      (blob plaintext : Bytes) (key digest : Text)
      → IsSeal (blob, key, digest) plaintext
      → cached c sha256_hex (some blob) (some (record { cek = key; sha256 = digest })) plaintext
        ≡ some (blob, key, digest)
  unfolding cached fits decodes_to
  cached-hit blob plaintext key digest s =
      let full = not_empty blob plaintext key s.opens in
      let same : text_eq (sha256_hex blob) digest ≡ true =
        subst (λ d. text_eq (sha256_hex blob) d ≡ true) (sym s.digest)
          (text_eq_refl (sha256_hex blob)) in
      rw (full, same, s.opens, text_eq_refl plaintext) refl

  seal_for_upload-IsSeal :
      (cek nonce plaintext text : Bytes)
      → Opens c cek nonce plaintext text
      → (s : Sealed) × (seal_for_upload c sha256_hex cek nonce plaintext ≡ inl s)
        × IsSeal s plaintext
  unfolding seal_for_upload
  seal_for_upload-IsSeal cek nonce plaintext text o =
      let (blob, key, made, opens, _) = sealed_can_be_opened c cek nonce plaintext text o in
      ((blob, key, sha256_hex blob), rw made refl, record { digest = refl; opens = opens })

  -- An error, or this seal and a cache that gives it back.
  abbrev Keeps : Sealed → Bytes → Cache × (Sealed ⊎ Error) → Type 0
  Keeps s plaintext r =
      (t : Sealed)
      → r.1 ≡ inl t
      → (t ≡ s) × (cached c sha256_hex r.0.blob r.0.meta plaintext ≡ some s)

  store-Keeps :
      (io : CacheIo) (cache : Cache) (s : Sealed) (plaintext : Bytes)
      → IsSeal s plaintext
      → Keeps s plaintext (store c sha256_hex io cache (inl s))
  unfolding store
  store-Keeps io cache (blob, key, digest) plaintext good =
      if_elim (Keeps (blob, key, digest) plaintext) (not io.blob_ok) (λ lost t e. cc)
        (λ placed.
          if_elim (Keeps (blob, key, digest) plaintext) (not io.meta_ok) (λ lost t e. cc)
            (λ marked t e. (cc, cached-hit blob plaintext key digest good)))

  again :
      (found : Option Sealed) (io io' : CacheIo) (cek nonce plaintext text cek' nonce' : Bytes)
      (cache : Cache) (s : Sealed)
      → cached c sha256_hex cache.blob cache.meta plaintext ≡ found
      → Opens c cek nonce plaintext text
      → (or_store c sha256_hex found io cek nonce plaintext cache).1 ≡ inl s
      → IsSeal s plaintext
        × (cached c sha256_hex
              (or_store c sha256_hex found io cek nonce plaintext cache).0.blob
              (or_store c sha256_hex found io cek nonce plaintext cache).0.meta
              plaintext
            ≡ some s)
  unfolding or_store
  again (some t) io io' cek nonce plaintext text cek' nonce' cache s e o h =
      let same : t ≡ s = cc in
      let held : cached c sha256_hex cache.blob cache.meta plaintext ≡ some s = e ∙ ap some same in
      (cached-IsSeal cache.blob cache.meta plaintext s held, held)
  again none io io' cek nonce plaintext text cek' nonce' cache s e o h =
      let (t, made, good) = seal_for_upload-IsSeal cek nonce plaintext text o in
      let stored : (store c sha256_hex io cache (inl t)).1 ≡ inl s = rw made at h in
      let (same, held) = store-Keeps io cache t plaintext good s stored in
      rw (made, same) (good, held)

  -- A second seal of the same plaintext gives back the first and changes nothing, whatever the cache held
  -- before, and whatever key and nonce are drawn then: a retry sends the bytes that were announced. The
  -- seal opens to the plaintext with its key and has its digest.
  pub seal_once-again :
      (io io' : CacheIo) (cek nonce plaintext text cek' nonce' : Bytes) (cache : Cache) (s : Sealed)
      → Opens c cek nonce plaintext text
      → (seal_once c sha256_hex io cek nonce plaintext cache).1 ≡ inl s
      → IsSeal s plaintext
        × (seal_once c sha256_hex io' cek' nonce' plaintext
              (seal_once c sha256_hex io cek nonce plaintext cache).0
            ≡ ((seal_once c sha256_hex io cek nonce plaintext cache).0, inl s))
  unfolding seal_once
  seal_once-again io io' cek nonce plaintext text cek' nonce' cache s o e =
      let (good, held) =
        again (cached c sha256_hex cache.blob cache.meta plaintext) io io' cek nonce plaintext text
          cek' nonce' cache s refl o e in
      (good, rw held refl)

  -- The copy that a download leaves is one that a later seal of the same plaintext gives back: what is
  -- forwarded is sent as it came, whatever key and nonce are drawn.
  pub forwarded_as_it_came :
      (io io' : CacheIo) (blob plaintext cek' nonce' : Bytes) (cek : Text) (cache : Cache)
      → io.blob_ok ≡ true
      → io.meta_ok ≡ true
      → decrypt_attachment c blob cek ≡ inl plaintext
      → seal_once c sha256_hex io' cek' nonce' plaintext
          (write_sealed_cache c sha256_hex io blob cek cache)
        ≡ (write_sealed_cache c sha256_hex io blob cek cache, inl (blob, cek, sha256_hex blob))
  unfolding seal_once write_sealed_cache or_store
  forwarded_as_it_came io io' blob plaintext cek' nonce' cek cache placed marked opens =
      let hit =
        cached-hit blob plaintext cek (sha256_hex blob) (record { digest = refl; opens = opens }) in
      let a : not io.blob_ok ≡ false = rw placed refl in
      let b : not io.meta_ok ≡ false = rw marked refl in rw (a, b, hit) refl
