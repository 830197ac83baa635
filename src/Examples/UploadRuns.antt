-- ===== src/Examples/UploadRuns.antt =====
-- The upload of crates/privchat-sdk/src/resumable_upload.rs on concrete ranges. Rates are whole bytes per
-- second here.
use privchat_sdk.Base.{
  sum_of, ℕ, ◌+◌, ◌*◌, ◌/◌, ◌≤◌, max, ◌≡◌, ◌↔◌, true, not, Option, none, some, List, [], ◌∷◌, map,
  arith,
}
use privchat_sdk.Base.Int.{pos}
use privchat_sdk.Upload.Sizer.{UploadPlan, Rates, for_base_unit, new_sizer}
use privchat_sdk.Upload.Sizer.Grid.{
  succeeded, failed, for_base_unit-IsPlan, adjust_all, requests_on_grid,
}
use privchat_sdk.Upload.Gaps.{Gap, Range, gaps_from_confirmed, split_gap}
use privchat_sdk.Upload.Gaps.Coverage.{confirms, covers, gaps_exact, Tidy}
use privchat_sdk.Upload.Gaps.Pieces.{Tiles, split_gap-Tiles}
use privchat_sdk.Upload.Transfer.{
  ResumableUpload, insert_gap, sort_gaps, gap_of, outstanding, from_missing, is_done, next_chunk,
}
use privchat_sdk.Upload.Transfer.Progress.{
  IsUpload, attempts, successes, attempts-done, from_missing-IsUpload,
}
use privchat_sdk.Upload.Session.{
  reusable, UploadSessionRecord, IsResumable, record_of_plan, reusable_for,
  reusable_for-IsResumable,
}

abbrev pub rates : Rates
rates = record {
  Rate = ℕ;
  sample = λ bytes elapsed. bytes * 1000000000 / max elapsed 1000000;
  smooth = λ prev next. (prev * 7 + next * 3) / 10;
  whole = λ rate. rate;
}

abbrev plan : UploadPlan
plan = for_base_unit 65536

abbrev confirmed_ranges : List Range
confirmed_ranges = (300, 100) ∷ (0, 50) ∷ (25, 100) ∷ []

gaps_exact_example :
    covers (gaps_from_confirmed confirmed_ranges 500) 130 ≡ not (confirms confirmed_ranges 130)
gaps_exact_example =
    gaps_exact confirmed_ranges 500 130 (omega arith, (omega arith, (omega arith, tt)))
      (omega arith)

abbrev whole_file : Gap
whole_file = record { offset = 0; len = 131572 }

split_gap-Tiles_example : Tiles 65536 0 (0 + 131572) (split_gap whole_file 65536 131572)
split_gap-Tiles_example = split_gap-Tiles whole_file 65536 131572 (omega arith) (omega arith)

requests_on_grid_example :
    let size =
      (adjust_all rates
        (new_sizer rates (for_base_unit 65536))
        (succeeded 65536 10000000 ∷ failed ∷ [])).next in
    ((k : ℕ) × (size ≡ k * 65536)) × (65536 ≤ size) × (size ≤ 2097152)
requests_on_grid_example = requests_on_grid rates 65536 (succeeded 65536 10000000 ∷ failed ∷ [])

abbrev missing : List Range
missing = (0, 65536) ∷ (131072, 1000) ∷ []

missing-Tidy : Tidy 0 140000 (map gap_of missing)
missing-Tidy = (omega arith, omega arith, omega arith, (omega arith, omega arith, omega arith, tt))

-- Four bytes of which three are missing, in units of one byte.
abbrev few_missing : List Range
few_missing = (0, 2) ∷ (3, 1) ∷ []

abbrev upload : ResumableUpload rates
upload = from_missing rates 4 (for_base_unit 1) few_missing

upload-IsUpload : IsUpload rates upload
upload-IsUpload =
    (from_missing-IsUpload rates 4 (for_base_unit 1) few_missing (omega arith)
      (for_base_unit-IsPlan 1)
      (omega arith, omega arith, omega arith, (omega arith, omega arith, omega arith, tt))).0

abbrev responses : List (Option ℕ)
responses = some 5000000 ∷ none ∷ some 5000000 ∷ some 7000000 ∷ []

enough_responses : outstanding upload.gaps ≤ successes rates responses
unfolding outstanding sum_of successes from_missing sort_gaps insert_gap
enough_responses = omega arith

attempts-done_example :
    IsUpload rates (attempts rates upload responses)
    × (is_done rates (attempts rates upload responses) ≡ true)
    × (next_chunk rates (attempts rates upload responses) ≡ none)
    × ((attempts rates upload responses).confirmed ≡ upload.total)
attempts-done_example = attempts-done rates upload responses upload-IsUpload enough_responses

abbrev session : UploadSessionRecord
session = record {
  token = b't' ∷ [];
  expires_at = pos 2000;
  upload_url = b'u' ∷ [];
  plan = record_of_plan plan;
  sealed_sha256 = b'a' ∷ b'B' ∷ [];
  sealed_size = 140000;
  user_id = 5;
  local_message_id = b'm' ∷ [];
  server_identity = b's' ∷ [];
}

reusable_for-IsResumable_example :
    (reusable_for session (pos 1999) 5 (b's' ∷ []) (b'A' ∷ b'b' ∷ []) 140000 (b'm' ∷ []) ≡ reusable)
    ↔ IsResumable session (pos 1999) 5 (b's' ∷ []) (b'A' ∷ b'b' ∷ []) 140000 (b'm' ∷ [])
reusable_for-IsResumable_example =
    reusable_for-IsResumable session (pos 1999) 5 (b's' ∷ []) (b'A' ∷ b'b' ∷ []) 140000 (b'm' ∷ [])
