-- ===== src/Upload/Chunks/Ends.antt =====
-- Why `upload_in_chunks` of crates/privchat-sdk/src/lib.rs returns: at most two failures between two confirmed
-- chunks, and every confirmed chunk is one less to send.
use privchat_sdk.Base.{
  ltb, Bool-cases, if_elim, is_empty, sum_of, ℕ, zero, suc, ◌+◌, ◌-◌, ◌*◌, ◌≤◌, ◌<◌, ◌≡◌, refl, sym,
  ap, subst, ◌∙◌, ◌⊎◌, inl, inr, Bool, true, false, ◌&&◌, Option, none, some, List, [], ◌∷◌, map,
  arith,
}
use privchat_sdk.Errors.{Error, upload_session_gone}
use privchat_sdk.Upload.Sizer.{UploadProgress, Rates}
use privchat_sdk.Upload.Gaps.{Gap, Range}
use privchat_sdk.Upload.Gaps.Coverage.{in_range, covers, Tidy}
use privchat_sdk.Upload.Gaps.Measure.{outstanding_mono, consume-covers}
use privchat_sdk.Upload.Transfer.{
  ResumableUpload, gap_of, outstanding, consume, resync_missing, progress, next_chunk, on_chunk_ok,
  on_chunk_failed,
}
use privchat_sdk.Upload.Verdict.{
  ChunkVerdict, ok, retry_chunk, start_over, fatal, chunk_retries, retry_delay,
}
use privchat_sdk.Upload.Transfer.Progress.{
  IsUpload, next_chunk-first, on_chunk_ok-IsUpload, on_chunk_failed-IsUpload, from_missing-IsUpload,
}
use privchat_sdk.Upload.Chunks.{
  UploadStatusOutcome, status, session_gone, Remote, Rest, after_status, after_verdict, after_piece,
  after_next, chunk_loop,
}

resync_missing-IsUpload :
    (rates : Rates) (u : ResumableUpload rates) (missing : List Range)
    → IsUpload rates u
    → Tidy 0 u.total (map gap_of missing)
    → IsUpload rates (resync_missing rates u missing)
      × ((resync_missing rates u missing).gaps ≡ map gap_of missing)
unfolding resync_missing
resync_missing-IsUpload rates u missing v tidy =
    let (fresh, gaps) =
      from_missing-IsUpload rates u.total u.sizer.plan missing v.small v.size.0 tidy in
    (record { small = v.small; tidy = fresh.tidy; size = v.size; books = fresh.books }, gaps)

module _ {World Info : Type 0} (remote : Remote World Info) (rates : Rates) (total : ℕ) where
  -- A server that misses fewer bytes with time, `misses` saying which: no call makes it miss a byte that it
  -- had; after a confirmed chunk, which it may have had before, it misses none of the chunk's bytes; and the
  -- ranges that it reports, in order, apart and within the file, are the bytes that it misses.
  pub record IsHonest (misses : World → ℕ → Bool) : Type 0 where
    pub shown :
        (w : World) (p : UploadProgress) (x : ℕ)
        → misses (remote.emit_upload_progress w p) x ≡ true
        → misses w x ≡ true
    pub slept : (w : World) (ms x : ℕ) → misses (remote.sleep w ms) x ≡ true → misses w x ≡ true
    pub kept :
        (w : World) (chunk : Gap) (x : ℕ)
        → misses (remote.put_chunk w chunk).0 x ≡ true
        → misses w x ≡ true
    pub confirmed :
        (w : World) (chunk : Gap) (x : ℕ)
        → (remote.put_chunk w chunk).1 ≡ ok
        → in_range chunk.offset chunk.len x ≡ true
        → misses (remote.put_chunk w chunk).0 x ≡ false
    pub asked :
        (w : World) (x : ℕ) → misses (remote.fetch_upload_status w).0 x ≡ true → misses w x ≡ true
    pub reports :
        (w w' : World) (missing : List Range) (completed : Bool)
        → remote.fetch_upload_status w ≡ (w', inl (status missing completed))
        → Tidy 0 total (map gap_of missing)
          × ((x : ℕ) → covers (map gap_of missing) x ≡ misses w' x)

  module _ (misses : World → ℕ → Bool) (honest : IsHonest misses) where
    -- What the server misses, the client still has to send.
    abbrev Owes : World → List Gap → Type 0
    Owes w gaps = (x : ℕ) → misses w x ≡ true → covers gaps x ≡ true

    abbrev pub HasAll : World → Type 0
    HasAll w = (x : ℕ) → misses w x ≡ false

    Owes-HasAll : (w : World) → Owes w [] → HasAll w
    unfolding covers
    Owes-HasAll w owes x = elim (Bool-cases (misses w x)) [
      | inl missed ↦ absurd (let r = owes x missed in cc)
      | inr held ↦ held
    ]

    -- The loop returns, and without an error only once the server misses nothing.
    abbrev pub Returns : Option (World × Option Error) → Type 0
    Returns answer =
        (w : World) × (r : Option Error) × (answer ≡ some (w, r)) × (r ≡ none → HasAll w)

    -- The rest of the loop returns from a state that owes no more than so much, failures counted.
    abbrev Goes : ℕ → Rest remote rates → Type 0
    Goes fuel rest =
        (w : World) (u : ResumableUpload rates) (failures : ℕ)
        → IsUpload rates u
        → u.total ≡ total
        → Owes w u.gaps
        → failures ≤ chunk_retries
        → 3 * outstanding u.gaps + (3 - failures) ≤ fuel
        → Returns (rest w u failures)

    nothing :
        (missing : List Range) (completed : Bool)
        → completed && is_empty missing ≡ true
        → (w : World) → Owes w (map gap_of missing)
        → HasAll w
    nothing [] completed e w owes = Owes-HasAll w owes
    nothing (r ∷ missing) completed e w owes = absurd (ground arith)

    status-Returns :
        (fuel : ℕ) (rest : Rest remote rates) (w₀ : World) (u : ResumableUpload rates)
        (failures : ℕ) (answer : World × (UploadStatusOutcome ⊎ Error))
        → Goes fuel rest
        → remote.fetch_upload_status w₀ ≡ answer
        → IsUpload rates u
        → u.total ≡ total
        → Owes w₀ u.gaps
        → failures ≤ chunk_retries
        → 3 * outstanding u.gaps + (3 - failures) ≤ fuel
        → Returns (after_status remote rates answer u failures rest)
    unfolding after_status resync_missing
    status-Returns fuel rest w₀ u failures (w', inr e) go answer v same owes few enough =
        (w', some e, refl, λ k. cc)
    status-Returns fuel rest w₀ u failures (w', inl session_gone) go answer v same owes few enough =
        (w', some upload_session_gone, refl, λ k. cc)
    status-Returns fuel rest w₀ u failures (w', inl (status missing completed)) go answer v same
          owes few enough =
        let (tidy, exact) = honest.reports w₀ w' missing completed answer in
        let tidy' : Tidy 0 u.total (map gap_of missing) = rw same tidy in
        let (good, gaps) = resync_missing-IsUpload rates u missing v tidy' in
        let u' = resync_missing rates u missing in
        let moved : (remote.fetch_upload_status w₀).0 ≡ w' = rw answer refl in
        let still : Owes w' (map gap_of missing) = λ x missed. exact x ∙ missed in
        let owed : Owes w' u'.gaps = rw gaps still in
        let less : outstanding (map gap_of missing) ≤ outstanding u.gaps =
          outstanding_mono u.total (map gap_of missing) u.gaps tidy' v.tidy
            (λ x held. owes x (honest.asked w₀ x (rw moved (sym (exact x) ∙ held)))) in
        let bound : outstanding u'.gaps ≤ outstanding u.gaps = rw gaps less in
        if_elim Returns (completed && is_empty missing)
          (λ over. (w', none, refl, λ k. nothing missing completed over w' still))
          (λ more.
            go (remote.emit_upload_progress w' (progress rates u')) u' failures good same
              (λ x missed. owed x (honest.shown w' (progress rates u') x missed)) few
              (omega (arith, bound, enough)))

    confirmed-Owes :
        (w : World) (chunk g : Gap) (gaps : List Gap) (u : ResumableUpload rates) (elapsed : ℕ)
        → IsUpload rates u
        → Owes w u.gaps
        → (remote.put_chunk w chunk).1 ≡ ok
        → u.gaps ≡ g ∷ gaps
        → chunk.offset ≡ g.offset
        → chunk.len ≤ g.len
        → Owes (remote.put_chunk w chunk).0 (on_chunk_ok rates u chunk elapsed).gaps
    unfolding on_chunk_ok
    confirmed-Owes w chunk g gaps u elapsed v owes said e start fits x missed =
        let out : in_range chunk.offset chunk.len x ≡ false =
          elim (Bool-cases (in_range chunk.offset chunk.len x)) [
            | inl inside ↦ absurd (let held = honest.confirmed w chunk x said inside in cc)
            | inr outside ↦ outside
          ] in
        let held : covers (g ∷ gaps) x ≡ true =
          ap (λ gs. covers gs x) (sym e) ∙ owes x (honest.kept w chunk x missed) in
        ap (λ gs. covers (consume chunk gs) x) e
        ∙ consume-covers u.total chunk g gaps x v.small start fits (subst (Tidy 0 u.total) e v.tidy)
            held out

    verdict-Returns :
        (fuel : ℕ) (rest : Rest remote rates) (verdict : ChunkVerdict) (w : World) (elapsed : ℕ)
        (chunk g : Gap) (gaps : List Gap) (u : ResumableUpload rates) (failures : ℕ)
        → Goes fuel rest
        → (remote.put_chunk w chunk).1 ≡ verdict
        → IsUpload rates u
        → u.total ≡ total
        → Owes w u.gaps
        → failures ≤ chunk_retries
        → 3 * outstanding u.gaps + (3 - failures) ≤ suc fuel
        → u.gaps ≡ g ∷ gaps
        → chunk.offset ≡ g.offset
        → 0 < chunk.len
        → chunk.len ≤ g.len
        → Returns (
            after_verdict remote rates verdict
              (remote.put_chunk w chunk).0
              elapsed
              chunk
              u
              failures
              rest)
    unfolding after_verdict on_chunk_failed
    verdict-Returns fuel rest ok w elapsed chunk g gaps u failures go said v same owes few enough e
          start positive fits =
        let (good, owed, total_same) =
          on_chunk_ok-IsUpload rates u g chunk gaps elapsed v e start positive fits in
        let u' = on_chunk_ok rates u chunk elapsed in
        let after = confirmed-Owes w chunk g gaps u elapsed v owes said e start fits in
        go (remote.emit_upload_progress (remote.put_chunk w chunk).0 (progress rates u')) u' 0 good
          (total_same ∙ same)
          (λ x missed.
            after x (honest.shown (remote.put_chunk w chunk).0 (progress rates u') x missed))
          (omega arith) (omega (arith, owed, enough, positive, few))
    verdict-Returns fuel rest retry_chunk w elapsed chunk g gaps u failures go said v same owes few
          enough e start positive fits =
        if_elim Returns (ltb chunk_retries (failures + 1)) (λ spent. (_, _, refl, λ k. cc))
          (λ left.
            let few' : failures + 1 ≤ chunk_retries = ground arith in
            let after : Owes (remote.put_chunk w chunk).0 u.gaps =
              λ x missed. owes x (honest.kept w chunk x missed) in
            go (remote.sleep (remote.put_chunk w chunk).0 (retry_delay (failures + 1)))
              (on_chunk_failed rates u) (failures + 1) (on_chunk_failed-IsUpload rates u v) same
              (λ x missed.
                after x
                  (honest.slept (remote.put_chunk w chunk).0 (retry_delay (failures + 1)) x missed))
              few' (omega (arith, enough, few')))
    verdict-Returns fuel rest ChunkVerdict.resync w elapsed chunk g gaps u failures go said v same
          owes few enough e start positive fits =
        if_elim Returns (ltb chunk_retries (failures + 1)) (λ spent. (_, _, refl, λ k. cc))
          (λ left.
            let few' : failures + 1 ≤ chunk_retries = ground arith in
            let after : Owes (remote.put_chunk w chunk).0 u.gaps =
              λ x missed. owes x (honest.kept w chunk x missed) in
            status-Returns fuel rest (remote.put_chunk w chunk).0 u (failures + 1) _ go refl v same
              after few' (omega (arith, enough, few')))
    verdict-Returns fuel rest start_over w elapsed chunk g gaps u failures go said v same owes few
          enough e start positive fits =
        (_, _, refl, λ k. cc)
    verdict-Returns fuel rest fatal w elapsed chunk g gaps u failures go said v same owes few enough
          e start positive fits =
        (_, _, refl, λ k. cc)

    piece-Returns :
        (fuel : ℕ) (rest : Rest remote rates) (piece : Option Error) (w : World) (chunk g : Gap)
        (gaps : List Gap) (u : ResumableUpload rates) (failures : ℕ)
        → Goes fuel rest
        → IsUpload rates u
        → u.total ≡ total
        → Owes w u.gaps
        → failures ≤ chunk_retries
        → 3 * outstanding u.gaps + (3 - failures) ≤ suc fuel
        → u.gaps ≡ g ∷ gaps
        → chunk.offset ≡ g.offset
        → 0 < chunk.len
        → chunk.len ≤ g.len
        → Returns (after_piece remote rates piece w chunk u failures rest)
    unfolding after_piece
    piece-Returns fuel rest (some e) w chunk g gaps u failures go v same owes few enough at start
          positive fits =
        (w, some e, refl, λ k. cc)
    piece-Returns fuel rest none w chunk g gaps u failures go v same owes few enough at start
          positive fits =
        verdict-Returns fuel rest (remote.put_chunk w chunk).1 w (remote.put_chunk w chunk).2 chunk
          g gaps u failures go refl v same owes few enough at start positive fits

    next-Returns :
        (fuel : ℕ) (rest : Rest remote rates) (gaps : List Gap) (w : World)
        (u : ResumableUpload rates) (failures : ℕ)
        → Goes fuel rest
        → u.gaps ≡ gaps
        → IsUpload rates u
        → u.total ≡ total
        → Owes w u.gaps
        → failures ≤ chunk_retries
        → 3 * outstanding u.gaps + (3 - failures) ≤ suc fuel
        → Returns (after_next remote rates (next_chunk rates u) w u failures rest)
    unfolding after_next next_chunk outstanding sum_of
    next-Returns fuel rest [] w u failures go e v same owes few enough =
        let idle : next_chunk rates u ≡ none = rw e refl in
        let settled : Owes w [] = λ x missed. ap (λ gs. covers gs x) (sym e) ∙ owes x missed in
        rw (after_next, idle) (w, none, refl, λ k. Owes-HasAll w settled)
    next-Returns fuel rest (g ∷ gaps) w u failures go e v same owes few enough =
        let (chunk, found, start, positive, fits) = next_chunk-first rates u g gaps v e in
        rw (after_next, found)
          (piece-Returns fuel rest (remote.read_piece w chunk) w chunk g gaps u failures go v same
            owes few enough e start positive fits)

    -- With a server that misses fewer bytes with time, the loop returns from any state with right books, on
    -- fuel of three for each byte still to send and three more, whatever fails and in whatever order; and
    -- it returns without an error only once the server misses nothing.
    pub chunk_loop-Returns :
        (fuel : ℕ) (w : World) (u : ResumableUpload rates) (failures : ℕ)
        → IsUpload rates u
        → u.total ≡ total
        → Owes w u.gaps
        → failures ≤ chunk_retries
        → 3 * outstanding u.gaps + (3 - failures) ≤ fuel
        → Returns (chunk_loop remote rates fuel w u failures)
    unfolding chunk_loop
    chunk_loop-Returns zero w u failures v same owes few enough =
        absurd (omega (arith, few, enough))
    chunk_loop-Returns (suc fuel) w u failures v same owes few enough =
        next-Returns fuel (chunk_loop remote rates fuel) u.gaps w u failures
          (chunk_loop-Returns fuel) refl v same owes few enough
