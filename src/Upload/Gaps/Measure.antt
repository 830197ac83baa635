-- ===== src/Upload/Gaps/Measure.antt =====
-- How many bytes a list of gaps of crates/privchat-sdk/src/resumable_upload.rs holds, counted byte by byte:
-- gaps that hold fewer bytes owe fewer.
use privchat_sdk.Base.{
  leb, ◌==◌, if◌then◌else◌, Bool-cases, sum_of, ℕ, zero, suc, ◌+◌, ◌-◌, ◌≤◌, ◌<◌, min, ◌≡◌, refl,
  inl, inr, true, false, List, [], ◌∷◌, arith,
}
use privchat_sdk.Base.Word.{u64_mod, u64_add}
use privchat_sdk.Upload.Gaps.{Gap}
use privchat_sdk.Upload.Gaps.Coverage.{in_range, covers, Tidy}
use privchat_sdk.Upload.Transfer.{outstanding, consume}

bit : ℕ → ℕ → ℕ → ℕ
bit offset len x = if in_range offset len x then 1 else 0

-- How many of the gaps hold a byte.
weight : List Gap → ℕ → ℕ
weight [] x = 0
weight (g ∷ gaps) x = bit g.offset g.len x + weight gaps x

total_below : (ℕ → ℕ) → ℕ → ℕ
total_below f zero = 0
total_below f (suc n) = total_below f n + f n

total_below-zero : (n : ℕ) → total_below (weight []) n ≡ 0
unfolding total_below weight
total_below-zero zero = refl
total_below-zero (suc n) = omega (arith, total_below-zero n)

total_below-bit :
    (offset len n : ℕ) → total_below (bit offset len) n ≡ min n (offset + len) - offset
unfolding total_below bit
total_below-bit offset len zero = ground arith
total_below-bit offset len (suc n) = ground (arith, total_below-bit offset len n)

total_below-cons :
    (g : Gap) (gaps : List Gap) (n : ℕ)
    → total_below (weight (g ∷ gaps)) n
      ≡ total_below (bit g.offset g.len) n + total_below (weight gaps) n
unfolding total_below weight
total_below-cons g gaps zero = refl
total_below-cons g gaps (suc n) = omega (arith, total_below-cons g gaps n)

total_below_mono : (f h : ℕ → ℕ) (n : ℕ) → ((x : ℕ) → f x ≤ h x) → total_below f n ≤ total_below h n
unfolding total_below
total_below_mono f h zero le = omega arith
total_below_mono f h (suc n) le = omega (arith, total_below_mono f h n le, le n)

total_below-outstanding :
    (low total : ℕ) (gaps : List Gap)
    → Tidy low total gaps
    → total_below (weight gaps) total ≡ outstanding gaps
unfolding outstanding sum_of
total_below-outstanding low total [] t = total_below-zero total
total_below-outstanding low total (g ∷ gaps) (a, b, inside, rest) = omega (
  arith,
  total_below-cons g gaps total,
  total_below-bit g.offset g.len total,
  total_below-outstanding (suc (g.offset + g.len)) total gaps rest,
)

weight-covered : (gaps : List Gap) (x : ℕ) → covers gaps x ≡ true → 1 ≤ weight gaps x
unfolding covers weight bit
weight-covered [] x h = cc
weight-covered (g ∷ gaps) x h = ground (arith, weight-covered gaps x)

weight-uncovered : (gaps : List Gap) (x : ℕ) → covers gaps x ≡ false → weight gaps x ≡ 0
unfolding covers weight bit
weight-uncovered [] x h = refl
weight-uncovered (g ∷ gaps) x h = ground (arith, weight-uncovered gaps x)

weight-Tidy :
    (low total : ℕ) (gaps : List Gap) (x : ℕ)
    → Tidy low total gaps
    → (weight gaps x ≤ 1) × (x < low → weight gaps x ≡ 0)
unfolding weight bit
weight-Tidy low total [] x t = (omega arith, λ h. refl)
weight-Tidy low total (g ∷ gaps) x (a, b, inside, rest) =
    let (one, before) = weight-Tidy (suc (g.offset + g.len)) total gaps x rest in
    (ground arith, λ h. ground arith)

-- If every byte of tidy gaps is one of some other tidy gaps of the file, these hold at least as many.
pub outstanding_mono :
    (total : ℕ) (gaps others : List Gap)
    → Tidy 0 total gaps
    → Tidy 0 total others
    → ((x : ℕ) → covers gaps x ≡ true → covers others x ≡ true)
    → outstanding gaps ≤ outstanding others
outstanding_mono total gaps others t u inside = omega (
  arith,
  total_below-outstanding 0 total gaps t,
  total_below-outstanding 0 total others u,
  total_below_mono (weight gaps) (weight others) total each,
)
  where
    each : (x : ℕ) → weight gaps x ≤ weight others x
    each x = elim (Bool-cases (covers gaps x)) [
      | inl held ↦
          omega (arith, (weight-Tidy 0 total gaps x t).0, weight-covered others x (inside x held))
      | inr free ↦ omega (arith, weight-uncovered gaps x free)
    ]

-- What a confirmed chunk at the start of the first gap leaves to cover.
pub consume-covers :
    (total : ℕ) (c g : Gap) (rest : List Gap) (x : ℕ)
    → total < u64_mod
    → c.offset ≡ g.offset
    → c.len ≤ g.len
    → Tidy 0 total (g ∷ rest)
    → covers (g ∷ rest) x ≡ true
    → in_range c.offset c.len x ≡ false
    → covers (consume c (g ∷ rest)) x ≡ true
unfolding consume covers
consume-covers total c g rest x small start fits (a, b, inside, tail) held out =
    let same : (c.offset == g.offset) ≡ true = ground arith in
    elim (Bool-cases (leb g.len c.len)) [
      | inl all ↦ rw (same, all) (ground arith)
      | inr part ↦
          let exact : u64_add g.offset c.len ≡ g.offset + c.len = ground arith in
          rw (same, part, exact) (ground arith)
    ]
