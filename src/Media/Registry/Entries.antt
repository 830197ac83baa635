-- ===== src/Media/Registry/Entries.antt =====
-- The table of the tracked entries of crates/privchat-sdk/src/media_download.rs: what is read after every
-- change, and what holds of all entries.
use privchat_sdk.Base.{
  Bool-cases, length, keep_if, length-keep_if, All, All-keep_if, ◌≤◌, ◌<◌, ◌≡◌, refl, ap, subst,
  ◌≢◌, ◌⊎◌, inl, inr, true, false, not, none, some, [], ◌∷◌, arith,
}
use privchat_sdk.Media.{MediaDownloadState, MediaTaskKey, key_eq, key_eq_refl, key_eq_sound}
use privchat_sdk.Media.Registry.{HandleEntry, Entries, get, remove_entry, contains_key, put_state}

-- Two keys are the same or `key_eq` tells them apart.
pub key-cases : (k l : MediaTaskKey) → (k ≡ l) ⊎ (key_eq k l ≡ false)
key-cases k l = elim (Bool-cases (key_eq k l)) [ inl e ↦ inl (key_eq_sound k l e) | inr e ↦ inr e ]

pub key_eq_same : (k l : MediaTaskKey) → k ≡ l → key_eq k l ≡ true
key_eq_same k l e = subst (λ x. key_eq k x ≡ true) e (key_eq_refl k)

pub key_eq-false : (k l : MediaTaskKey) → k ≢ l → key_eq k l ≡ false
key_eq-false k l n = elim (key-cases k l) [ inl e ↦ absurd (n e) | inr e ↦ e ]

pub key_eq_sym : (k l : MediaTaskKey) → key_eq k l ≡ false → key_eq l k ≡ false
key_eq_sym k l h = elim (key-cases l k) [
  | inl e ↦ absurd (let r = key_eq_refl k in let s : key_eq k k ≡ false = rw e at h in cc)
  | inr e ↦ e
]

pub get-remove_entry : (k : MediaTaskKey) (es : Entries) → get k (remove_entry k es) ≡ none
unfolding get remove_entry keep_if
get-remove_entry k [] = refl
get-remove_entry k (e ∷ es) = ground (arith, get-remove_entry k es)

pub get-remove_entry_other :
    (k l : MediaTaskKey) (es : Entries) → key_eq k l ≡ false → get k (remove_entry l es) ≡ get k es
unfolding get remove_entry keep_if
get-remove_entry_other k l [] n = refl
get-remove_entry_other k l (e ∷ es) n = elim (key-cases l e.0) [
  | inl same ↦
      let o : key_eq k e.0 ≡ false = rw same at n in
      let q = key_eq_same l e.0 same in rw (q, o) (get-remove_entry_other k l es n)
  | inr other ↦ rw other (ground (arith, get-remove_entry_other k l es n))
]

pub contains_key-get :
    (k : MediaTaskKey) (es : Entries) → contains_key k es ≡ false → get k es ≡ none
unfolding get contains_key
contains_key-get k [] h = refl
contains_key-get k (e ∷ es) h = ground (arith, contains_key-get k es)

pub get-contains_key :
    (k : MediaTaskKey) (es : Entries)
    → contains_key k es ≡ true
    → (h : HandleEntry) × (get k es ≡ some h)
unfolding get contains_key
get-contains_key k [] h = cc
get-contains_key k (e ∷ es) h = elim (Bool-cases (key_eq k e.0)) [
  | inl same ↦ (e.1, rw same refl)
  | inr other ↦ rw other (get-contains_key k es (rw other at h))
]

pub remove_none : (k : MediaTaskKey) (es : Entries) → get k es ≡ none → remove_entry k es ≡ es
unfolding get remove_entry keep_if
remove_none k [] h = refl
remove_none k (e ∷ es) h = elim (Bool-cases (key_eq k e.0)) [
  | inl same ↦ absurd (let q : some e.1 ≡ none = rw same at h in cc)
  | inr other ↦ rw other (ap (λ t. e ∷ t) (remove_none k es (rw other at h)))
]

pub length-remove_entry : (k : MediaTaskKey) (es : Entries) → length (remove_entry k es) ≤ length es
unfolding remove_entry
length-remove_entry k es = length-keep_if (λ e. not (key_eq k e.0)) es

pub contains_key-remove_entry :
    (k : MediaTaskKey) (es : Entries) → contains_key k (remove_entry k es) ≡ false
unfolding remove_entry keep_if contains_key
contains_key-remove_entry k [] = refl
contains_key-remove_entry k (e ∷ es) = ground (arith, contains_key-remove_entry k es)

-- Taking out an entry that is there leaves fewer.
pub length-remove_entry_found :
    (k : MediaTaskKey) (es : Entries) (h : HandleEntry)
    → get k es ≡ some h
    → length (remove_entry k es) < length es
unfolding get remove_entry keep_if
length-remove_entry_found k [] h e = cc
length-remove_entry_found k (x ∷ es) h e = elim (Bool-cases (key_eq k x.0)) [
  | inl here ↦ rw here (omega (arith, length-remove_entry k es))
  | inr there ↦ rw there (omega (arith, length-remove_entry_found k es h (rw there at e)))
]

pub All-remove_entry {κ} :
    (P : MediaTaskKey × HandleEntry → Type κ) (k : MediaTaskKey) (es : Entries)
    → All P es
    → All P (remove_entry k es)
unfolding remove_entry
All-remove_entry P k es h = All-keep_if P (λ e. not (key_eq k e.0)) es h

pub All-put_state {κ} :
    (P : MediaTaskKey × HandleEntry → Type κ)
    (same : (k : MediaTaskKey) (h : HandleEntry) (s : MediaDownloadState)
      → P (k, h)
      → P (k, record h { state = s }))
    (k : MediaTaskKey) (s : MediaDownloadState) (es : Entries)
    → All P es
    → All P (put_state k s es)
unfolding put_state
All-put_state P same k s [] h = tt
All-put_state P same k s (e ∷ es) h = elim (Bool-cases (key_eq k e.0)) [
  | inl here ↦ rw here (same e.0 e.1 s h.0, h.1)
  | inr there ↦ rw there (h.0, All-put_state P same k s es h.1)
]

pub length-put_state :
    (k : MediaTaskKey) (s : MediaDownloadState) (es : Entries)
    → length (put_state k s es) ≡ length es
unfolding put_state
length-put_state k s [] = refl
length-put_state k s (e ∷ es) = ground (arith, length-put_state k s es)

pub get-put_state_other :
    (k l : MediaTaskKey) (s : MediaDownloadState) (es : Entries)
    → key_eq k l ≡ false
    → get k (put_state l s es) ≡ get k es
unfolding get put_state
get-put_state_other k l s [] n = refl
get-put_state_other k l s (e ∷ es) n = elim (key-cases l e.0) [
  | inl same ↦
      let o : key_eq k e.0 ≡ false = rw same at n in
      let q = key_eq_same l e.0 same in rw (q, o) refl
  | inr other ↦ rw other (ground (arith, get-put_state_other k l s es n))
]

-- What holds of all entries holds of the one that is read.
pub All-get {κ} :
    (P : HandleEntry → Type κ) (k : MediaTaskKey) (es : Entries) (h : HandleEntry)
    → All (λ e. P e.1) es
    → get k es ≡ some h
    → P h
unfolding get
All-get P k [] h all e = cc
All-get P k (x ∷ es) h all e = elim (Bool-cases (key_eq k x.0)) [
  | inl here ↦ let q : some x.1 ≡ some h = rw here at e in let r : x.1 ≡ h = cc in subst P r all.0
  | inr there ↦ All-get P k es h all.1 (rw there at e)
]
