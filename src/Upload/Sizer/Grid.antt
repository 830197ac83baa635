-- ===== src/Upload/Sizer/Grid.antt =====
-- The request size of crates/privchat-sdk/src/resumable_upload.rs stays on the server's grid and in
-- its limits.
use native.Mathlib.Nat.{le-div_iff_mul-le, div-mul-le_self}
use privchat_sdk.Base.{
  ℕ, ◌*◌, ◌/◌, ◌≤◌, ◌<◌, max, ◌≡◌, refl, sym, subst, ◌∙◌, none, List, [], ◌∷◌, arith,
}
use privchat_sdk.Upload.Sizer.{
  UploadPlan, Rates, ChunkSizer, for_base_unit, grid, request_limit, clamp_between, clamp_to_grid,
  new_sizer, on_success, on_failure,
}

-- What the wire format and the server's plan give: `u32` sizes, and a limit that holds a unit.
pub record IsPlan (plan : UploadPlan) : Type 0 where
  pub unit_pos : 0 < plan.base_unit
  pub limit_holds : plan.base_unit ≤ plan.max_request_size
  pub start_on_grid : (k : ℕ) × (max plan.initial_request_size plan.base_unit ≡ k * plan.base_unit)
  pub start_in_limit : plan.initial_request_size ≤ plan.max_request_size

-- A request size: a positive number of whole units, within the limit.
pub record IsSize (plan : UploadPlan) (size : ℕ) : Type 0 where
  pub whole_units : (k : ℕ) × (size ≡ k * plan.base_unit)
  pub at_least : plan.base_unit ≤ size
  pub at_most : size ≤ plan.max_request_size

pub for_base_unit-IsPlan : (base_unit : ℕ) → IsPlan (for_base_unit base_unit)
unfolding for_base_unit
for_base_unit-IsPlan base_unit = record {
  unit_pos = omega arith;
  limit_holds = omega arith;
  start_on_grid = (1, omega arith);
  start_in_limit = omega arith;
}

unit-le-aligned : (x b : ℕ) → 0 < b → b ≤ x → b ≤ x / b * b
unit-le-aligned x b h k = let one : 1 ≤ x / b = (le-div_iff_mul-le h).1 (omega arith) in grind arith

aligned-IsSize :
    (plan : UploadPlan) (unit kept : ℕ)
    → unit ≡ plan.base_unit
    → 0 < unit
    → unit ≤ kept
    → kept ≤ plan.max_request_size
    → IsSize plan (max (kept / unit * unit) unit)
aligned-IsSize plan unit kept e pos_unit low high =
    let same : max (kept / unit * unit) unit ≡ kept / unit * unit =
      omega (arith, unit-le-aligned kept unit pos_unit low) in
    rw same (record {
      whole_units = (kept / unit, rw e refl);
      at_least = omega (arith, unit-le-aligned kept unit pos_unit low, e);
      at_most = omega (arith, div-mul-le_self kept unit);
    })

pub clamp_to_grid-IsSize :
    (plan : UploadPlan) (want : ℕ) → IsPlan plan → IsSize plan (clamp_to_grid plan want)
unfolding clamp_to_grid
clamp_to_grid-IsSize plan want v =
    aligned-IsSize plan (grid plan) (clamp_between (grid plan) (request_limit plan) want)
      (omega arith) (omega arith) (ground arith) (ground arith)

clamp_to_grid-le :
    (plan : UploadPlan) (want top : ℕ)
    → IsPlan plan
    → want ≤ max top plan.base_unit
    → clamp_to_grid plan want ≤ max top plan.base_unit
unfolding clamp_to_grid
clamp_to_grid-le plan want top v h =
    let kept = clamp_between (grid plan) (request_limit plan) want in
    let low : kept ≤ max top plan.base_unit = ground arith in
    omega (arith, div-mul-le_self kept (grid plan))

-- What a request reports: the bytes sent and the nanoseconds they took, or a failure.
pub data Outcome : Type 0 where
  succeeded : ℕ → ℕ → Outcome
  failed : Outcome

module _ (rates : Rates) where
  pub adjust : ChunkSizer rates → Outcome → ChunkSizer rates
  adjust c (succeeded bytes elapsed) = on_success rates c bytes elapsed
  adjust c failed = on_failure rates c

  pub adjust_all : ChunkSizer rates → List Outcome → ChunkSizer rates
  adjust_all c [] = c
  adjust_all c (o ∷ os) = adjust_all (adjust c o) os

  -- A sizer on the grid: its plan is sound, and its next request a size of it.
  abbrev pub OnPlan : ChunkSizer rates → Type 0
  OnPlan c = IsPlan c.plan × IsSize c.plan c.next

  pub new_sizer-OnPlan : (plan : UploadPlan) → IsPlan plan → OnPlan (new_sizer rates plan)
  unfolding new_sizer
  new_sizer-OnPlan plan v =
      (v, record { whole_units = v.start_on_grid; at_least = omega arith; at_most = omega arith })

  pub on_success-OnPlan :
      (c : ChunkSizer rates) (bytes elapsed : ℕ)
      → IsPlan c.plan
      → OnPlan (on_success rates c bytes elapsed)
  unfolding on_success
  on_success-OnPlan c bytes elapsed v = (v, clamp_to_grid-IsSize c.plan _ v)

  pub on_failure-OnPlan : (c : ChunkSizer rates) → IsPlan c.plan → OnPlan (on_failure rates c)
  unfolding on_failure
  on_failure-OnPlan c v = (v, clamp_to_grid-IsSize c.plan _ v)

  adjust-IsSize :
      (c : ChunkSizer rates) (o : Outcome)
      → IsPlan c.plan
      → ((adjust c o).plan ≡ c.plan) × IsSize c.plan (adjust c o).next
  unfolding adjust on_success on_failure
  adjust-IsSize c (succeeded bytes elapsed) v = (refl, clamp_to_grid-IsSize c.plan _ v)
  adjust-IsSize c failed v = (refl, clamp_to_grid-IsSize c.plan _ v)

  adjust_all-IsSize :
      (plan : UploadPlan) (c : ChunkSizer rates) (os : List Outcome)
      → c.plan ≡ plan
      → IsPlan plan
      → IsSize plan c.next
      → IsSize plan (adjust_all c os).next
  unfolding adjust_all
  adjust_all-IsSize plan c [] e v size = size
  adjust_all-IsSize plan c (o ∷ os) e v size =
      let (same, good) = adjust-IsSize c o (subst IsPlan (sym e) v) in
      adjust_all-IsSize plan (adjust c o) os (same ∙ e) v
        (subst (λ p. IsSize p (adjust c o).next) e good)

  -- Under the plan that is built from any base unit, 0 included, the first request and every request after
  -- any successes and failures, however long each took and whatever the rates, is a positive number of
  -- whole units, the unit being at least 1 byte, and at most 2 MiB or one unit, whichever is more.
  pub requests_on_grid :
      (base_unit : ℕ) (os : List Outcome)
      → let unit = max base_unit 1 in
        let size = (adjust_all (new_sizer rates (for_base_unit base_unit)) os).next in
        ((k : ℕ) × (size ≡ k * unit)) × (unit ≤ size) × (size ≤ max 2097152 unit)
  unfolding new_sizer for_base_unit
  requests_on_grid base_unit os =
      let plan = for_base_unit base_unit in
      let v = for_base_unit-IsPlan base_unit in
      let size =
        adjust_all-IsSize plan (new_sizer rates plan) os refl v (record {
          whole_units = v.start_on_grid;
          at_least = omega arith;
          at_most = omega arith;
        }) in
      (size.whole_units, size.at_least, size.at_most)

  -- Under a plan whose limits hold its unit, one success makes the next request at most four times
  -- what was sent, or one unit; one failure makes it at most half of what it was, or one unit, and
  -- forgets the rate measured.
  pub adjust_steps :
      (c : ChunkSizer rates) (bytes elapsed : ℕ)
      → IsPlan c.plan
      → ((on_success rates c bytes elapsed).next ≤ max (4 * bytes) c.plan.base_unit)
        × ((on_failure rates c).next ≤ max (c.next / 2) c.plan.base_unit)
        × ((on_failure rates c).rate ≡ none)
  unfolding on_success on_failure
  adjust_steps c bytes elapsed v = (
    clamp_to_grid-le c.plan _ (4 * bytes) v (omega arith),
    clamp_to_grid-le c.plan _ _ v (omega arith),
    refl,
  )
