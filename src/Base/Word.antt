-- ===== src/Base/Word.antt =====
-- The fixed-width arithmetic of the source: `u32` and `u64` counters, `i64` times.
use Prim.Native.Nat.{ℕ, ◌+◌, ◌%◌, min}
use mathlib.Core.Path.{◌≡◌}
use native.Mathlib.Omega.{arith}
use privchat_sdk.Base.Tests.{if◌then◌else◌}
use privchat_sdk.Base.Int.{ℤ, pos, negsuc, sub_ℕ, ◌+ℤ◌, ◌-ℤ◌, ◌≤ℤ◌, ltb_ℤ, rem_euclid}

abbrev pub u32_max : ℕ
u32_max = 4294967295

abbrev pub u64_mod : ℕ
u64_mod = 18446744073709551616

abbrev pub i64_max : ℤ
i64_max = pos 9223372036854775807

abbrev pub i64_min : ℤ
i64_min = negsuc 9223372036854775807

-- `u32::saturating_add(1)`.
abbrev pub u32_saturating_succ : ℕ → ℕ
u32_saturating_succ n = min (n + 1) u32_max

-- `u64::wrapping_add(1)`.
abbrev pub u64_wrapping_succ : ℕ → ℕ
u64_wrapping_succ n = (n + 1) % u64_mod

clamp_i64 : ℤ → ℤ
clamp_i64 s = if ltb_ℤ s i64_min then i64_min else if ltb_ℤ i64_max s then i64_max else s

-- `i64::saturating_add`.
unfoldable pub saturating_add : ℤ → ℤ → ℤ
unfolding clamp_i64
saturating_add a b = clamp_i64 (a +ℤ b)

clamp_i64-eq : (s : ℤ) → i64_min ≤ℤ s → s ≤ℤ i64_max → clamp_i64 s ≡ s
unfolding clamp_i64
clamp_i64-eq s lo hi = ground arith

-- In range, the saturating sum is the sum.
pub saturating_add-eq :
    (a b : ℤ) → i64_min ≤ℤ a +ℤ b → a +ℤ b ≤ℤ i64_max → saturating_add a b ≡ a +ℤ b
unfolding saturating_add
saturating_add-eq a b lo hi = clamp_i64-eq (a +ℤ b) lo hi

-- `a - b` in 64 bits, two's complement: the difference brought into the range by multiples of 2^64.
unfoldable pub wrapping_sub : ℤ → ℤ → ℤ
wrapping_sub a b =
    sub_ℕ (rem_euclid (a -ℤ b +ℤ pos 9223372036854775808) u64_mod) 9223372036854775808

-- `u64` addition, which wraps.
abbrev pub u64_add : ℕ → ℕ → ℕ
u64_add a b = (a + b) % u64_mod
