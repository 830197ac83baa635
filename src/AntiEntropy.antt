-- ===== src/AntiEntropy.antt =====
-- The planning of one page of the anti-entropy scan in crates/privchat-sdk/src/lib.rs: which channels
-- to repair, and where the cursor goes.
use privchat_sdk.Base.{
  leb, ◌==◌, if◌then◌else◌, length, ℕ, ◌+◌, Bool, true, false, not, ◌&&◌, Option, none, some, List,
  [], ◌∷◌, ◌++◌,
}
use privchat_sdk.Base.Int.{ℤ}
pub mod Page
pub mod Scan

abbrev pub ChannelKey : Type 0
ChannelKey = ℕ × ℤ

pub record AntiEntropyObservation : Type 0 where
  pub key : ChannelKey
  pub local_pts : ℕ  -- u64
  pub server_pts : Option ℕ

pub record AntiEntropyPlan : Type 0 where
  pub repair : List ChannelKey
  pub consumed : ℕ
  pub last_consumed : Option ChannelKey
  pub stale_found : ℕ
  pub deferred : ℕ
  pub unknown_channels : ℕ

abbrev empty_plan : AntiEntropyPlan
empty_plan = record {
  repair = [];
  consumed = 0;
  last_consumed = none;
  stale_found = 0;
  deferred = 0;
  unknown_channels = 0;
}

abbrev consume : AntiEntropyObservation → AntiEntropyPlan → AntiEntropyPlan
consume o plan = record plan { consumed = plan.consumed + 1; last_consumed = some o.key }

visit : ℕ → AntiEntropyObservation → Option ℕ → AntiEntropyPlan → AntiEntropyPlan × Bool
visit difference_budget o none plan =
    (consume o (record plan { unknown_channels = plan.unknown_channels + 1 }), true)
visit difference_budget o (some server_pts) plan =
    if leb server_pts o.local_pts
    then (consume o plan, true)
    else let found = record plan { stale_found = plan.stale_found + 1 } in
      if leb difference_budget (length found.repair)
      then (record found { deferred = found.deferred + 1 }, false)
      else (consume o (record found { repair = found.repair ++ (o.key ∷ []) }), true)

-- The loop; the second part of `visit` says whether it goes on.
plan_from : ℕ → List AntiEntropyObservation → AntiEntropyPlan → AntiEntropyPlan
unfolding visit
plan_from difference_budget [] plan = plan
plan_from difference_budget (o ∷ os) plan =
    let (after, goes_on) = visit difference_budget o o.server_pts plan in
    let rest = plan_from difference_budget os after in if goes_on then rest else after

unfoldable pub plan_anti_entropy_page : List AntiEntropyObservation → ℕ → AntiEntropyPlan
unfolding plan_from
plan_anti_entropy_page observations difference_budget =
    plan_from difference_budget observations empty_plan

pub record AntiEntropyPage : Type 0 where
  pub page_scanned : ℕ
  pub stale_found : ℕ
  pub channels_repaired : ℕ
  pub messages_applied : ℕ
  pub deferred : ℕ
  pub unknown_channels : ℕ
  pub cycle_completed : Bool

abbrev pub idle : AntiEntropyPage
idle = record {
  page_scanned = 0;
  stale_found = 0;
  channels_repaired = 0;
  messages_applied = 0;
  deferred = 0;
  unknown_channels = 0;
  cycle_completed = false;
}

unfoldable pub is_converged : AntiEntropyPage → Bool
is_converged page = page.cycle_completed && page.deferred == 0
