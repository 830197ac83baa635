-- ===== src/Upload/Transfer.antt =====
-- `ResumableUpload` of crates/privchat-sdk/src/resumable_upload.rs: the state of one upload. The method
-- that a response leads to returns the new state; durations are nanoseconds.
pub mod Progress
use privchat_sdk.Base.{
  leb, ◌==◌, if◌then◌else◌, is_empty, head?, sum_of, ℕ, ◌-◌, ◌%◌, min, Bool, not, Option, none,
  List, [], ◌∷◌, map,
}
use privchat_sdk.Base.Word.{u64_mod, u64_add}
use privchat_sdk.Upload.Sizer.{
  UploadPlan, UploadProgress, Rates, ChunkSizer, new_sizer, on_success, on_failure,
}
use privchat_sdk.Upload.Gaps.{Gap, Range, gaps_from_confirmed, split_gap}

-- `sort_by_key(|g| g.offset)`.
unfoldable pub insert_gap : Gap → List Gap → List Gap
insert_gap g [] = g ∷ []
insert_gap g (h ∷ gaps) = if leb g.offset h.offset then g ∷ h ∷ gaps else h ∷ insert_gap g gaps

unfoldable pub sort_gaps : List Gap → List Gap
unfolding insert_gap
sort_gaps [] = []
sort_gaps (g ∷ gaps) = insert_gap g (sort_gaps gaps)

abbrev pub gap_of : Range → Gap
gap_of r = record { offset = r.0; len = r.1 }

-- How many bytes a list of gaps holds; the `sum` of the source wraps.
unfoldable pub outstanding : List Gap → ℕ
unfolding sum_of
outstanding = sum_of (λ (g : Gap). g.len)

unfoldable pub consume : Gap → List Gap → List Gap
consume chunk [] = []
consume chunk (first ∷ gaps) =
    if not (chunk.offset == first.offset)
    then first ∷ gaps
    else if leb first.len chunk.len
    then gaps
    else record { offset = u64_add first.offset chunk.len; len = first.len - chunk.len } ∷ gaps

module _ (rates : Rates) where
  pub record ResumableUpload : Type 0 where
    pub total : ℕ
    pub sizer : ChunkSizer rates
    pub gaps : List Gap
    pub confirmed : ℕ

  unfoldable pub new : ℕ → UploadPlan → List Range → ResumableUpload
  unfolding sum_of
  new total plan confirmed = record {
    total = total;
    sizer = new_sizer rates plan;
    gaps = gaps_from_confirmed confirmed total;
    confirmed = sum_of (λ (r : Range). r.1) confirmed % u64_mod;
  }

  unfoldable pub from_missing : ℕ → UploadPlan → List Range → ResumableUpload
  unfolding sort_gaps outstanding
  from_missing total plan missing =
      let gaps = sort_gaps (map gap_of missing) in
      record {
        total = total;
        sizer = new_sizer rates plan;
        gaps = gaps;
        confirmed = total - outstanding gaps % u64_mod;
      }

  unfoldable pub resync_missing : ResumableUpload → List Range → ResumableUpload
  unfolding from_missing
  resync_missing u missing =
      let fresh = from_missing u.total u.sizer.plan missing in
      record u { gaps = fresh.gaps; confirmed = fresh.confirmed }

  unfoldable pub progress : ResumableUpload → UploadProgress
  progress u = record { uploaded = u.confirmed; total = u.total }

  unfoldable pub is_done : ResumableUpload → Bool
  is_done u = is_empty u.gaps

  unfoldable pub next_chunk : ResumableUpload → Option Gap
  next_chunk u = elim (u.gaps) [
    | [] ↦ none
    | gap ∷ rest ↦ head? (split_gap gap u.sizer.next u.total)
  ]

  unfoldable pub on_chunk_ok : ResumableUpload → Gap → ℕ → ResumableUpload
  unfolding consume
  on_chunk_ok u chunk elapsed = record u {
    sizer = on_success rates u.sizer (chunk.len % 4294967296) elapsed;
    gaps = consume chunk u.gaps;
    confirmed = min (u64_add u.confirmed chunk.len) u.total;
  }

  unfoldable pub on_chunk_failed : ResumableUpload → ResumableUpload
  on_chunk_failed u = record u { sizer = on_failure rates u.sizer }

  unfoldable pub resync : ResumableUpload → List Range → ResumableUpload
  unfolding sum_of
  resync u confirmed = record u {
    gaps = gaps_from_confirmed confirmed u.total;
    confirmed = sum_of (λ (r : Range). r.1) confirmed % u64_mod;
  }
