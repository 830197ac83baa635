-- ===== src/AntiEntropy/Scan.antt =====
-- A whole anti-entropy scan of crates/privchat-sdk/src/lib.rs: pages planned one after the other, each
-- from behind the last channel that the page before consumed.
use mathlib.Core.List.{append_assoc}
use privchat_sdk.Base.{
  length, length-append, ℕ, zero, suc, ◌-◌, ◌≤◌, ◌<◌, ◌≡◌, refl, sym, ap, ◌∙◌, List, [], ◌∷◌, ◌++◌,
  arith,
}
use privchat_sdk.AntiEntropy.{
  AntiEntropyObservation, AntiEntropyPlan, ChannelKey, plan_anti_entropy_page,
}
use privchat_sdk.AntiEntropy.Page.{
  IsPage, is_stale, only_if, stale_keys, plan_anti_entropy_page-IsPage,
}

drop {ℓ} : {A : Type ℓ} → ℕ → List A → List A
drop zero xs = xs
drop (suc n) [] = []
drop (suc n) (x ∷ xs) = drop n xs

drop-append {ℓ} : {A : Type ℓ} (xs ys : List A) → drop (length xs) (xs ++ ys) ≡ ys
unfolding drop
drop-append [] ys = refl
drop-append (x ∷ xs) ys = drop-append xs ys

-- The channels that some pages repair, of the same observations.
pub scan : ℕ → ℕ → List AntiEntropyObservation → List ChannelKey
unfolding drop
scan zero budget os = []
scan (suc pages) budget os =
    let plan = plan_anti_entropy_page os budget in
    plan.repair ++ scan pages budget (drop plan.consumed os)

stale_keys-append :
    (os os' : List AntiEntropyObservation)
    → stale_keys (os ++ os') ≡ stale_keys os ++ stale_keys os'
stale_keys-append [] os' = refl
stale_keys-append (o ∷ os) os' =
    ap (λ ks. only_if (is_stale o) o.key ++ ks) (stale_keys-append os os')
    ∙ sym (append_assoc (only_if (is_stale o) o.key) (stale_keys os) (stale_keys os'))

-- A page with a budget gets on: it leaves fewer channels than it was given.
page-advances :
    (budget : ℕ) (plan : AntiEntropyPlan) (taken left : List AntiEntropyObservation)
    → 0 < budget
    → IsPage budget plan taken left
    → length left ≤ length (taken ++ left) - 1
page-advances budget plan [] [] h p = omega arith
page-advances budget plan [] (o ∷ left) h p =
    let (_, _, full) = p.stops in absurd (let none_yet = ap length p.repaired in omega arith)
page-advances budget plan (o ∷ taken) left h p = omega (arith, length-append taken left)

-- If at least one channel may be repaired per page, a scan of at least as many pages as there are
-- channels, each from behind the last channel consumed, repairs every channel observed behind the
-- server, once per observation and in order, and no other.
pub scan-all :
    (pages budget : ℕ) (os : List AntiEntropyObservation)
    → 0 < budget
    → length os ≤ pages
    → scan pages budget os ≡ stale_keys os
unfolding scan
scan-all zero budget [] h room = refl
scan-all zero budget (o ∷ os) h room = absurd (omega arith)
scan-all (suc pages) budget os h room =
    let (taken, left, split, p) = plan_anti_entropy_page-IsPage os budget in
    let fewer = page-advances budget _ taken left h p in
    let size : length os ≡ length (taken ++ left) = ap length split in
    let behind : drop (plan_anti_entropy_page os budget).consumed os ≡ left =
      ap (λ n. drop n os) p.counted ∙ ap (drop (length taken)) split ∙ drop-append taken left in
    let rest = scan-all pages budget left h (omega arith) in
    ap (λ ks. ks ++ scan pages budget (drop (plan_anti_entropy_page os budget).consumed os))
      p.repaired
    ∙ ap (λ os'. stale_keys taken ++ scan pages budget os') behind
    ∙ ap (λ ks. stale_keys taken ++ ks) rest
    ∙ sym (stale_keys-append taken left)
    ∙ ap stale_keys (sym split)
