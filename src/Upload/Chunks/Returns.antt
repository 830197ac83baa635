-- ===== src/Upload/Chunks/Returns.antt =====
-- The whole of `upload_in_chunks` of crates/privchat-sdk/src/lib.rs: it returns, and what it does last.
use privchat_sdk.Base.{
  if_elim, ℕ, ◌+◌, ◌*◌, ◌≤◌, ◌<◌, ◌≡◌, refl, ap, ◌∙◌, ◌⊎◌, inl, inr, Bool, true, Option, none, some,
  List, map, arith,
}
use privchat_sdk.Base.Word.{u64_mod}
use privchat_sdk.Errors.{Error, upload_session_gone}
use privchat_sdk.Upload.Sizer.{UploadPlan, Rates, for_base_unit}
use privchat_sdk.Upload.Sizer.Grid.{for_base_unit-IsPlan}
use privchat_sdk.Upload.Gaps.{Range}
use privchat_sdk.Upload.Gaps.Coverage.{covers}
use privchat_sdk.Upload.Transfer.{gap_of, outstanding, from_missing, progress}
use privchat_sdk.Upload.Transfer.Progress.{Tidy-room, from_missing-IsUpload}
use privchat_sdk.Upload.Chunks.{
  UploadStatusOutcome, status, session_gone, Remote, chunk_loop, counted, after_loop, after_first,
  upload_in_chunks,
}
use privchat_sdk.Upload.Chunks.Ends.{IsHonest, HasAll, Returns, chunk_loop-Returns}

module _ {World Info : Type 0} (remote : Remote World Info) (rates : Rates) (total : ℕ) where
  from_missing-total :
      (size : ℕ) (plan : UploadPlan) (missing : List Range)
      → (from_missing rates size plan missing).total ≡ size
  unfolding from_missing
  from_missing-total size plan missing = refl

  module _ (misses : World → ℕ → Bool) (honest : IsHonest remote rates total misses) where
    -- An error; or the completion of a loop at whose end the server misses nothing; or that of an upload
    -- that the server calls completed at once.
    abbrev pub Settled : World → Option (World × (Info ⊎ Error)) → Type 0
    Settled w₀ answer =
        ((w : World) × (e : Error) × (answer ≡ some (w, inr e)))
        ⊎ ((w : World) × HasAll remote rates total misses honest w
            × (answer ≡ some (counted remote rates (remote.complete_upload w))))
        ⊎ ((w : World) × (missing : List Range) × (remote.fetch_upload_status w₀
              ≡ (w, inl (status missing true)))
            × (answer ≡ some (remote.complete_upload w)))

    settles :
        (w₀ : World) (left : Option (World × Option Error))
        → Returns remote rates total misses honest left
        → Settled w₀ (after_loop remote rates left)
    unfolding after_loop
    settles w₀ none (w, r, e, k) = cc
    settles w₀ (some (w, some e)) h = inl (w, e, refl)
    settles w₀ (some (w, none)) (w', r, e, k) =
        let same : w' ≡ w = cc in
        let left : r ≡ none = cc in inr (inl (w, rw same at (k left), refl))

    first-Returns :
        (fuel base_unit : ℕ) (w₀ : World) (answer : World × (UploadStatusOutcome ⊎ Error))
        → remote.fetch_upload_status w₀ ≡ answer
        → total < u64_mod
        → 3 * total + 3 ≤ fuel
        → Settled w₀ (after_first remote rates fuel total (for_base_unit base_unit) answer)
    unfolding after_first
    first-Returns fuel base_unit w₀ (w, inr e) said small enough = inl (w, e, refl)
    first-Returns fuel base_unit w₀ (w, inl session_gone) said small enough =
        inl (w, upload_session_gone, refl)
    first-Returns fuel base_unit w₀ (w, inl (status missing completed)) said small enough =
        let (tidy, exact) = honest.reports w₀ w missing completed said in
        let plan = for_base_unit base_unit in
        let u = from_missing rates total plan missing in
        let (good, gaps) =
          from_missing-IsUpload rates total plan missing small (for_base_unit-IsPlan base_unit)
            tidy in
        let bound : outstanding u.gaps ≤ total =
          rw gaps (omega (arith, Tidy-room 0 total (map gap_of missing) tidy)) in
        let w' = remote.emit_upload_progress w (progress rates u) in
        let owes : (x : ℕ) → misses w' x ≡ true → covers u.gaps x ≡ true = λ x missed.
          ap (λ gs. covers gs x) gaps ∙ (exact x ∙ honest.shown w (progress rates u) x missed) in
        let ends =
          chunk_loop-Returns remote rates total misses honest fuel w' u 0 good
            (from_missing-total total plan missing) owes (omega arith)
            (omega (arith, bound, enough)) in
        if_elim (Settled w₀) completed (λ over. inr (inr (w, missing, rw over at said, refl)))
          (λ more. settles w₀ (chunk_loop remote rates fuel w' u 0) ends)

    -- An upload below 2^64 bytes returns, on fuel of three for each byte and three more, whatever fails and in
    -- whatever order, if the server never comes to miss a byte that it had, misses no byte of a chunk that it
    -- confirms, be it for the first time or again, and reports, in order and apart, exactly the bytes of the
    -- file that it misses. It returns an error, or the answer to its completion, which it asks for only once
    -- the server misses nothing or has called the upload completed at the start.
    pub upload_in_chunks-Settled :
        (fuel base_unit : ℕ) (w : World)
        → total < u64_mod
        → 3 * total + 3 ≤ fuel
        → Settled w (upload_in_chunks remote rates fuel total base_unit w)
    unfolding upload_in_chunks
    upload_in_chunks-Settled fuel base_unit w small enough =
        first-Returns fuel base_unit w (remote.fetch_upload_status w) refl small enough
