-- ===== src/Upload/Sizer.antt =====
-- The upload plan and the adaptive request size of crates/privchat-sdk/src/resumable_upload.rs. Rates
-- are `f64` in the source: a parameter here, with the three operations that the source uses of them.
pub mod Grid
use privchat_sdk.Base.{ltb, ◌==◌, if◌then◌else◌, ℕ, ◌*◌, ◌/◌, ◌%◌, min, max, Option, none, some}

pub record UploadPlan : Type 0 where
  pub base_unit : ℕ  -- u32
  pub initial_request_size : ℕ  -- u32
  pub max_request_size : ℕ  -- u32
  pub session_threshold : ℕ  -- u64
  pub max_parallel_parts : ℕ  -- u8

unfoldable pub for_base_unit : ℕ → UploadPlan
for_base_unit base_unit =
    let base = max base_unit 1 in
    record {
      base_unit = base;
      initial_request_size = base;
      max_request_size = max (2 * 1024 * 1024) base;
      session_threshold = base;
      max_parallel_parts = 1;
    }

pub record UploadProgress : Type 0 where
  pub uploaded : ℕ  -- u64
  pub total : ℕ  -- u64

-- `as u8` of a percentage.
unfoldable pub percent : UploadProgress → ℕ
percent p = if p.total == 0 then 100 else min p.uploaded p.total * 100 / p.total % 256

-- The floating-point arithmetic of `on_success`.
pub record Rates : Type 1 where
  pub Rate : Type 0
  -- `bytes as f64 / elapsed.as_secs_f64().max(0.001)`, the time in nanoseconds.
  pub sample : ℕ → ℕ → Rate
  -- `prev * 0.7 + sample * 0.3`.
  pub smooth : Rate → Rate → Rate
  -- `as u64`, which saturates.
  pub whole : Rate → ℕ

-- `UploadPlan::base_unit.max(1)`.
abbrev pub grid : UploadPlan → ℕ
grid plan = max plan.base_unit 1

abbrev request_limit : UploadPlan → ℕ
request_limit plan = max plan.max_request_size plan.base_unit

-- `Ord::clamp`; it panics where the bounds are crossed, which `base_unit` 0 with limit 0 alone could do.
abbrev pub clamp_between : ℕ → ℕ → ℕ → ℕ
clamp_between lo hi x = if ltb x lo then lo else if ltb hi x then hi else x

-- `ChunkSizer::clamp`. The `as u32` of the source loses nothing: the result is at most a `u32` field, or 1.
unfoldable pub clamp_to_grid : UploadPlan → ℕ → ℕ
clamp_to_grid plan want =
    let kept = clamp_between (grid plan) (request_limit plan) want in
    max (kept / grid plan * grid plan) (grid plan)

module _ (rates : Rates) where
  open rates use {Rate, sample, smooth, whole}

  pub record ChunkSizer : Type 0 where
    pub plan : UploadPlan
    pub rate : Option Rate
    pub next : ℕ  -- u32

  unfoldable pub new_sizer : UploadPlan → ChunkSizer
  new_sizer plan = record {
    plan = plan;
    rate = none;
    next = max plan.initial_request_size plan.base_unit;
  }

  blend : Option Rate → Rate → Rate
  blend none s = s
  blend (some prev) s = smooth prev s

  unfoldable pub on_success : ChunkSizer → ℕ → ℕ → ChunkSizer
  unfolding blend clamp_to_grid
  on_success c bytes elapsed =
      let rate = blend c.rate (sample bytes elapsed) in
      record c { rate = some rate; next = clamp_to_grid c.plan (min (whole rate) (bytes * 4)) }

  unfoldable pub on_failure : ChunkSizer → ChunkSizer
  unfolding clamp_to_grid
  on_failure c = record c {
    next = clamp_to_grid c.plan (max (c.next / 2) c.plan.base_unit);
    rate = none;
  }
