-- ===== src/Upload/Gaps.antt =====
-- The byte ranges of crates/privchat-sdk/src/resumable_upload.rs: what is still missing, and the cut of
-- a missing range into requests. Offsets are `u64`, whose sums wrap.
pub mod Coverage
pub mod Pieces
pub mod Measure
use privchat_sdk.Base.{
  ltb, leb, if◌then◌else◌, ℕ, zero, suc, ◌-◌, ◌*◌, ◌/◌, min, max, ◌&&◌, List, [], ◌∷◌,
}
use privchat_sdk.Base.Word.{u64_add}

pub record Gap : Type 0 where
  pub offset : ℕ
  pub len : ℕ

abbrev pub Range : Type 0
Range = ℕ × ℕ

-- `sort_by_key(|(off, _)| off)`: a stable sort.
insert_range : Range → List Range → List Range
insert_range r [] = r ∷ []
insert_range r (q ∷ qs) = if leb r.0 q.0 then r ∷ q ∷ qs else q ∷ insert_range r qs

unfoldable pub sort_ranges : List Range → List Range
unfolding insert_range
sort_ranges [] = []
sort_ranges (r ∷ rs) = insert_range r (sort_ranges rs)

gap_between : ℕ → ℕ → List Gap → List Gap
gap_between cursor off rest =
    if ltb cursor off then record { offset = cursor; len = off - cursor } ∷ rest else rest

-- The loop over the sorted ranges, and the gap after the last of them.
gaps_from : ℕ → List Range → ℕ → List Gap
unfolding gap_between
gaps_from cursor [] total = gap_between cursor total []
gaps_from cursor ((off, len) ∷ ranges) total =
    gap_between cursor off (gaps_from (max cursor (u64_add off len)) ranges total)

unfoldable pub gaps_from_confirmed : List Range → ℕ → List Gap
unfolding gaps_from sort_ranges
gaps_from_confirmed confirmed total = gaps_from 0 (sort_ranges confirmed) total

-- How much the next request takes: the size, or what is left; whole sizes only before the end of the
-- file, unless less than one size is left.
unfoldable pub piece_len : ℕ → ℕ → ℕ → ℕ → ℕ
piece_len size total offset end =
    let len = min size (end - offset) in
    let aligned = len / max size 1 * max size 1 in
    if ltb (u64_add offset len) total && ltb 0 aligned then aligned else len

-- `while offset < end`; the source's loop does not end for a size of 0.
unfoldable pub split_from : ℕ → ℕ → ℕ → ℕ → ℕ → List Gap
unfolding piece_len
split_from zero size total offset end = []
split_from (suc fuel) size total offset end =
    let len = piece_len size total offset end in
    let rest = split_from fuel size total (u64_add offset len) end in
    if ltb offset end then record { offset = offset; len = len } ∷ rest else []

-- The fuel is the length of the gap, as each piece takes at least one byte.
unfoldable pub split_gap : Gap → ℕ → ℕ → List Gap
unfolding split_from
split_gap gap size total = split_from gap.len size total gap.offset (u64_add gap.offset gap.len)
