-- ===== src/Media/Download/Stream.antt =====
-- What the loop of `run_download` in crates/privchat-sdk/src/media_download.rs writes to the `.part` file of
-- the bytes that the server sends.
use mathlib.Core.List.{append_assoc}
use privchat_sdk.Base.{
  Bool-cases, length, ℕ, zero, suc, ◌≡◌, refl, sym, ap, ◌∙◌, ◌≢◌, inl, inr, Bool, true, false,
  Option, none, some, List, [], ◌∷◌, ◌++◌,
}
use privchat_sdk.Base.Word.{u64_add}
use privchat_sdk.Media.{MediaDownloadState}
use privchat_sdk.Media.Attachment.{Bytes, take, drop}
use privchat_sdk.Errors.{ErrorCodes}
use privchat_sdk.Media.Download.{
  Read, chunk, closed, broken, BodyEnd, cancelled, finished, interrupted, Turn, BodyRun,
  woken_cancelled, showing, stop, after_read, body,
}

-- A list of bytes starts another.
abbrev pub Starts : Bytes → Bytes → Type 0
Starts p whole = (rest : Bytes) × (p ++ rest ≡ whole)

unfoldable pub received_read : Read → Bytes → Bytes
received_read (chunk bytes due written) rest = bytes ++ rest
received_read closed rest = []
received_read broken rest = []

-- The bytes of a body, up to its end or an error.
unfoldable pub received : List Turn → Bytes
unfolding received_read
received [] = []
received (t ∷ ts) = received_read t.read (received ts)

unfoldable pub ends_read : Read → Bool → Bool
ends_read (chunk bytes due written) rest = rest
ends_read closed rest = true
ends_read broken rest = false

-- A body comes to its end.
unfoldable pub ends : List Turn → Bool
unfolding ends_read
ends [] = false
ends (t ∷ ts) = ends_read t.read (ends ts)

take-drop : (n : ℕ) (xs : Bytes) → take n xs ++ drop n xs ≡ xs
unfolding take drop
take-drop zero xs = refl
take-drop (suc n) [] = refl
take-drop (suc n) (x ∷ xs) = ap (λ t. x ∷ t) (take-drop n xs)

cut :
    (part : Bytes) (n : ℕ) (bytes later : Bytes)
    → (part ++ take n bytes) ++ (drop n bytes ++ later) ≡ part ++ (bytes ++ later)
cut part n bytes later =
    append_assoc part (take n bytes) (drop n bytes ++ later)
    ∙ ap (λ t. part ++ t)
        (sym (append_assoc (take n bytes) (drop n bytes) later)
          ∙ ap (λ t. t ++ later) (take-drop n bytes))

-- A run of the loop has written a start of what is expected, and all of it if it came to the end.
pub record Writes (r : BodyRun) (expected : Bytes) (complete : Bool) : Type 0 where
  pub rest : Bytes
  pub starts : r.part ++ rest ≡ expected
  pub whole : r.end ≡ finished → (rest ≡ []) × (complete ≡ true)

stop-Writes :
    (part extra : Bytes) (end : BodyEnd) (complete : Bool)
    → end ≢ finished
    → Writes (stop part end) (part ++ extra) complete
unfolding stop
stop-Writes part extra end complete n = record {
  rest = extra;
  starts = refl;
  whole = λ e. absurd (n e);
}

showing-Writes :
    (ss : List MediaDownloadState) (r : BodyRun) (expected : Bytes) (complete : Bool)
    → Writes r expected complete
    → Writes (showing ss r) expected complete
unfolding showing
showing-Writes ss r expected complete w = record {
  rest = w.rest;
  starts = w.starts;
  whole = w.whole;
}

module _ (codes : ErrorCodes) (internal_error : ℕ) where
  read-Writes :
      (r : Read) (ts : List Turn) (part : Bytes) (offset : ℕ) (total : Option ℕ)
      → ((p : Bytes) (o : ℕ)
          → Writes (body codes internal_error total ts p o) (p ++ received ts) (ends ts))
      → Writes
          (after_read codes internal_error r part offset total (body codes internal_error total ts))
          (part ++ received_read r (received ts))
          (ends_read r (ends ts))
  unfolding after_read received_read ends_read
  read-Writes (chunk bytes due none) ts part offset total rest =
      let next = rest (part ++ bytes) (u64_add offset (length bytes)) in
      showing-Writes _ _ _ _ (rw (append_assoc part bytes (received ts)) at next)
  read-Writes (chunk bytes due (some n)) ts part offset total rest = record {
    rest = drop n bytes ++ received ts;
    starts = cut part n bytes (received ts);
    whole = λ e. cc;
  }
  read-Writes closed ts part offset total rest = record {
    rest = [];
    starts = refl;
    whole = λ e. (refl, refl);
  }
  read-Writes broken ts part offset total rest = stop-Writes part [] _ false (λ e. cc)

  -- Whatever the flags say and wherever a write fails, the `.part` file goes on from where it was with a
  -- start of the bytes received, and with all of them if the loop finishes.
  pub body-Writes :
      (total : Option ℕ) (ts : List Turn) (part : Bytes) (offset : ℕ)
      → Writes (body codes internal_error total ts part offset) (part ++ received ts) (ends ts)
  unfolding body received ends
  body-Writes total [] part offset = stop-Writes part [] interrupted false (λ e. cc)
  body-Writes total (t ∷ ts) part offset =
      let rest = read-Writes t.read ts part offset total (body-Writes total ts) in
      elim (Bool-cases t.cancel_seen) [
        | inl seen ↦ rw seen (stop-Writes part _ cancelled _ (λ e. cc))
        | inr unseen ↦ elim (Bool-cases (woken_cancelled t.wakes)) [
          | inl woken ↦
              rw (unseen, woken) (showing-Writes _ _ _ _ (stop-Writes part _ cancelled _ (λ e. cc)))
          | inr awake ↦ rw (unseen, awake) (showing-Writes _ _ _ _ rest)
        ]
      ]
