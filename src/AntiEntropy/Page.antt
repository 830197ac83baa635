-- ===== src/AntiEntropy/Page.antt =====
-- What one page of the anti-entropy scan of crates/privchat-sdk/src/lib.rs consumes and repairs, and
-- what the pages of a whole scan repair.
use mathlib.Core.List.{append-nil, append_assoc}
use privchat_sdk.Base.{
  leb, if◌then◌else◌, leb→le, Bool-cases, length, length-append, ℕ, ◌+◌, ◌≤◌, max, ◌≡◌, refl, sym,
  ap, ◌∙◌, inl, inr, Bool, true, false, not, Option, none, some, List, [], ◌∷◌, ◌++◌, arith,
}
use privchat_sdk.AntiEntropy.{
  AntiEntropyObservation, AntiEntropyPlan, ChannelKey, empty_plan, visit, plan_from,
  plan_anti_entropy_page,
}

-- Whether the server is ahead of a channel, and whether it does not know it.
abbrev ahead : ℕ → Option ℕ → Bool
ahead local_pts none = false
ahead local_pts (some server_pts) = not (leb server_pts local_pts)

abbrev pub is_stale : AntiEntropyObservation → Bool
is_stale o = ahead o.local_pts o.server_pts

abbrev absent : Option ℕ → ℕ
absent none = 1
absent (some server_pts) = 0

abbrev pub only_if : Bool → ChannelKey → List ChannelKey
only_if true key = key ∷ []
only_if false key = []

-- The keys of the channels behind the server, in order; the number of those that it does not know; and
-- the key of the last of some channels.
abbrev pub stale_keys : List AntiEntropyObservation → List ChannelKey
stale_keys [] = []
stale_keys (o ∷ os) = only_if (is_stale o) o.key ++ stale_keys os

abbrev pub unknowns : List AntiEntropyObservation → ℕ
unknowns [] = 0
unknowns (o ∷ os) = absent o.server_pts + unknowns os

abbrev pub last_key : Option ChannelKey → List AntiEntropyObservation → Option ChannelKey
last_key before [] = before
last_key before (o ∷ os) = last_key (some o.key) os

-- Where a page stops: at its end, or at the first channel behind the server that is over the budget.
abbrev pub Stops : ℕ → AntiEntropyPlan → List AntiEntropyObservation → Type 0
Stops budget plan [] = plan.deferred ≡ 0
Stops budget plan (o ∷ os) =
    (plan.deferred ≡ 1) × (is_stale o ≡ true) × (budget ≤ length plan.repair)

-- A plan that goes on from an earlier one over the observations taken, and leaves the others.
record Extends (budget : ℕ) (p plan : AntiEntropyPlan) (taken left : List AntiEntropyObservation)
    : Type 0 where
  repaired : plan.repair ≡ p.repair ++ stale_keys taken
  counted : plan.consumed ≡ p.consumed + length taken
  cursor : plan.last_consumed ≡ last_key p.last_consumed taken
  unknown : plan.unknown_channels ≡ p.unknown_channels + unknowns taken
  in_budget : length plan.repair ≤ max budget (length p.repair)
  stops : Stops budget plan left
  found :
      plan.stale_found + p.deferred + length p.repair
      ≡ p.stale_found + length plan.repair + plan.deferred

abbrev Reaches : ℕ → List AntiEntropyObservation → AntiEntropyPlan → AntiEntropyPlan → Type 0
Reaches budget os p plan =
    (taken left : List AntiEntropyObservation) × (os ≡ taken ++ left)
    × Extends budget p plan taken left

-- One more observation consumed first.
consumed-Reaches :
    (budget : ℕ) (o : AntiEntropyObservation) (os : List AntiEntropyObservation)
    (p p' plan : AntiEntropyPlan)
    → p'.repair ≡ p.repair ++ only_if (is_stale o) o.key
    → p'.consumed ≡ p.consumed + 1
    → p'.last_consumed ≡ some o.key
    → p'.unknown_channels ≡ p.unknown_channels + absent o.server_pts
    → p'.deferred ≡ p.deferred
    → p'.stale_found + length p.repair ≡ p.stale_found + length p'.repair
    → length p'.repair ≤ max budget (length p.repair)
    → Reaches budget os p' plan
    → Reaches budget (o ∷ os) p plan
consumed-Reaches budget o os p p' plan rep con last unk def sta bud (taken, left, split, r) = (
  o ∷ taken,
  left,
  ap (λ rest. o ∷ rest) split,
  record {
    repaired =
        r.repaired
        ∙ ap (λ ks. ks ++ stale_keys taken) rep
        ∙ append_assoc p.repair (only_if (is_stale o) o.key) (stale_keys taken);
    counted = omega (arith, r.counted);
    cursor = r.cursor ∙ ap (λ k. last_key k taken) last;
    unknown = omega (arith, r.unknown);
    in_budget = omega (arith, r.in_budget);
    stops = r.stops;
    found = omega (arith, r.found);
  },
)

visited : ℕ → List AntiEntropyObservation → AntiEntropyPlan × Bool → AntiEntropyPlan
unfolding plan_from
visited budget os (after, goes_on) = if goes_on then plan_from budget os after else after

over_budget :
    (budget : ℕ) (o : AntiEntropyObservation) (os : List AntiEntropyObservation)
    (p : AntiEntropyPlan)
    → p.deferred ≡ 0
    → is_stale o ≡ true
    → budget ≤ length p.repair
    → Reaches budget
        (o ∷ os)
        p
        (record p { stale_found = p.stale_found + 1; deferred = p.deferred + 1 })
over_budget budget o os p h stale full = (
  [],
  o ∷ os,
  refl,
  record {
    repaired = sym (append-nil p.repair);
    counted = omega arith;
    cursor = refl;
    unknown = omega arith;
    in_budget = omega arith;
    stops = (omega arith, stale, full);
    found = omega arith;
  },
)

visited-Reaches :
    (budget : ℕ) (o : AntiEntropyObservation) (os : List AntiEntropyObservation)
    (p : AntiEntropyPlan) (pts : Option ℕ)
    → p.deferred ≡ 0
    → o.server_pts ≡ pts
    → ((p' : AntiEntropyPlan) → p'.deferred ≡ 0 → Reaches budget os p' (plan_from budget os p'))
    → Reaches budget (o ∷ os) p (visited budget os (visit budget o pts p))
unfolding visited visit plan_from
visited-Reaches budget o os p none h e rest =
    consumed-Reaches budget o os p _ _ (rw e (sym (append-nil p.repair))) refl refl (rw e refl) refl
      refl (omega arith) (rest _ h)
visited-Reaches budget o os p (some pts) h e rest = elim (Bool-cases (leb pts o.local_pts)) [
  | inl level ↦ rw level (
      consumed-Reaches budget o os p _ _ (rw (e, level) (sym (append-nil p.repair))) refl refl
        (rw e (omega arith)) refl refl (omega arith) (rest _ h))
  | inr behind ↦ elim (Bool-cases (leb budget (length p.repair))) [
    | inl full ↦
        rw (behind, full)
          (over_budget budget o os p h (rw (e, behind) refl) (leb→le budget (length p.repair) full))
    | inr room ↦
        let more : length (p.repair ++ (o.key ∷ [])) ≡ length p.repair + 1 =
          length-append p.repair (o.key ∷ []) in
        rw (behind, room)
          (consumed-Reaches budget o os p _ _ (rw (e, behind) refl) refl refl (rw e (omega arith))
            refl (omega (arith, more)) (ground (arith, more)) (rest _ h))
  ]
]

plan_from-Reaches :
    (budget : ℕ) (os : List AntiEntropyObservation) (p : AntiEntropyPlan)
    → p.deferred ≡ 0
    → Reaches budget os p (plan_from budget os p)
unfolding plan_from visited
plan_from-Reaches budget [] p h = (
  [],
  [],
  refl,
  record {
    repaired = sym (append-nil p.repair);
    counted = omega arith;
    cursor = refl;
    unknown = omega arith;
    in_budget = omega arith;
    stops = h;
    found = omega arith;
  },
)
plan_from-Reaches budget (o ∷ os) p h =
    visited-Reaches budget o os p o.server_pts h refl (λ p' h'. plan_from-Reaches budget os p' h')

-- What a page does: it consumes the channels taken and leaves the others.
pub record IsPage (budget : ℕ) (plan : AntiEntropyPlan) (taken left : List AntiEntropyObservation)
    : Type 0 where
  pub repaired : plan.repair ≡ stale_keys taken
  pub counted : plan.consumed ≡ length taken
  pub cursor : plan.last_consumed ≡ last_key none taken
  pub unknown : plan.unknown_channels ≡ unknowns taken
  pub in_budget : length plan.repair ≤ budget
  pub stops : Stops budget plan left
  pub found : plan.stale_found ≡ length plan.repair + plan.deferred

-- A page consumes a prefix of the channels observed, repairs exactly those of them that are behind the
-- server, never more than the budget, and leaves the cursor at the last. It stops early only at a channel
-- behind the server when the budget is used up, and counts that one channel as deferred.
pub plan_anti_entropy_page-IsPage :
    (os : List AntiEntropyObservation) (budget : ℕ)
    → (taken left : List AntiEntropyObservation) × (os ≡ taken ++ left)
      × IsPage budget (plan_anti_entropy_page os budget) taken left
unfolding plan_anti_entropy_page
plan_anti_entropy_page-IsPage os budget =
    let (taken, left, split, r) = plan_from-Reaches budget os empty_plan refl in
    (
      taken,
      left,
      split,
      record {
        repaired = r.repaired;
        counted = omega (arith, r.counted);
        cursor = r.cursor;
        unknown = omega (arith, r.unknown);
        in_budget = omega (arith, r.in_budget);
        stops = r.stops;
        found = omega (arith, r.found);
      },
    )
