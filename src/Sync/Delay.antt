-- ===== src/Sync/Delay.antt =====
-- The backoff delay of crates/privchat-sdk/src/sync_coordinator.rs: its range, and its growth.
use privchat_sdk.Base.{ℕ, zero, suc, ◌+◌, ◌-◌, ◌*◌, ◌/◌, ◌≤◌, ◌<◌, min, max, ◌≡◌, refl, arith}
use privchat_sdk.Base.Int.{ℤ, pos, ◌+ℤ◌, ◌≤ℤ◌, +ℤ_parts, rem_euclid_lt}
use privchat_sdk.Base.Word.{i64_max, i64_min, saturating_add, saturating_add-eq}
use privchat_sdk.Sync.{
  sync_retry_base_ms, sync_retry_max_ms, retry_base_ms, jittered, retry_delay_ms,
}

-- The base by attempt, as the powers of two come out.
abbrev base_table : ℕ → ℕ
base_table zero = 1000
base_table (suc zero) = 1000
base_table (suc (suc zero)) = 2000
base_table (suc (suc (suc zero))) = 4000
base_table (suc (suc (suc (suc zero)))) = 8000
base_table (suc (suc (suc (suc (suc zero))))) = 16000
base_table (suc (suc (suc (suc (suc (suc zero)))))) = 32000
base_table (suc (suc (suc (suc (suc (suc (suc n))))))) = 60000

pub retry_base_ms-table : (attempt : ℕ) → retry_base_ms attempt ≡ base_table attempt
unfolding retry_base_ms
retry_base_ms-table zero = refl
retry_base_ms-table (suc zero) = refl
retry_base_ms-table (suc (suc zero)) = refl
retry_base_ms-table (suc (suc (suc zero))) = refl
retry_base_ms-table (suc (suc (suc (suc zero)))) = refl
retry_base_ms-table (suc (suc (suc (suc (suc zero))))) = refl
retry_base_ms-table (suc (suc (suc (suc (suc (suc zero)))))) = refl
retry_base_ms-table (suc (suc (suc (suc (suc (suc (suc n))))))) =
    let e : min (suc (suc (suc (suc (suc (suc (suc n)))))) - 1) 6 ≡ 6 = omega arith in rw e

abbrev least : ℕ → ℕ
least base = max (base - base / 4) sync_retry_base_ms

abbrev greatest : ℕ → ℕ
greatest base = min (base + base / 4) sync_retry_max_ms

jittered_window :
    (base : ℕ) (now_ms : ℤ)
    → sync_retry_base_ms ≤ base
    → base ≤ sync_retry_max_ms
    → (least base ≤ jittered base now_ms) × (jittered base now_ms ≤ greatest base)
unfolding jittered
jittered_window base now_ms lo hi =
    let r = rem_euclid_lt now_ms (max (base / 4) 1 * 2) (omega arith) in (omega arith, omega arith)

base_table_range :
    (attempt : ℕ)
    → (sync_retry_base_ms ≤ base_table attempt) × (base_table attempt ≤ sync_retry_max_ms)
base_table_range zero = omega arith
base_table_range (suc zero) = omega arith
base_table_range (suc (suc zero)) = omega arith
base_table_range (suc (suc (suc zero))) = omega arith
base_table_range (suc (suc (suc (suc zero)))) = omega arith
base_table_range (suc (suc (suc (suc (suc zero))))) = omega arith
base_table_range (suc (suc (suc (suc (suc (suc zero)))))) = omega arith
base_table_range (suc (suc (suc (suc (suc (suc (suc n))))))) = omega arith

-- The least and the greatest delay after so many failed attempts, over all times.
unfoldable pub least_delay : ℕ → ℕ
least_delay attempt = least (base_table attempt)

unfoldable pub greatest_delay : ℕ → ℕ
greatest_delay attempt = greatest (base_table attempt)

-- The delay after an attempt lies within a quarter of its base, which doubles from 1000 to 60000 ms,
-- and within [1000, 60000] ms, whatever the time it is derived from.
pub retry_delay_ms_window :
    (attempt : ℕ) (now_ms : ℤ)
    → (least_delay attempt ≤ retry_delay_ms attempt now_ms)
      × (retry_delay_ms attempt now_ms ≤ greatest_delay attempt)
unfolding retry_delay_ms least_delay greatest_delay
retry_delay_ms_window attempt now_ms =
    let (lo, hi) = base_table_range attempt in
    rw (retry_base_ms-table attempt) (jittered_window (base_table attempt) now_ms lo hi)

pub retry_delay_ms_range :
    (attempt : ℕ) (now_ms : ℤ)
    → (1000 ≤ retry_delay_ms attempt now_ms) × (retry_delay_ms attempt now_ms ≤ 60000)
unfolding least_delay greatest_delay
retry_delay_ms_range attempt now_ms =
    let (lo, hi) = retry_delay_ms_window attempt now_ms in (omega arith, omega arith)

greatest-lt-least :
    (attempt : ℕ) → attempt < 6 → greatest_delay (suc attempt) < least_delay (suc (suc attempt))
unfolding least_delay greatest_delay
greatest-lt-least zero h = omega arith
greatest-lt-least (suc zero) h = omega arith
greatest-lt-least (suc (suc zero)) h = omega arith
greatest-lt-least (suc (suc (suc zero))) h = omega arith
greatest-lt-least (suc (suc (suc (suc zero)))) h = omega arith
greatest-lt-least (suc (suc (suc (suc (suc zero))))) h = omega arith
greatest-lt-least (suc (suc (suc (suc (suc (suc n)))))) h = absurd (omega arith)

-- Through the first seven failures every delay is longer than every delay after one failure fewer,
-- whatever the two times.
pub retry_delay_ms_grows :
    (attempt : ℕ) (earlier later : ℤ)
    → 0 < attempt
    → attempt < 7
    → retry_delay_ms attempt earlier < retry_delay_ms (suc attempt) later
retry_delay_ms_grows zero earlier later lo hi = elim lo [ ]
retry_delay_ms_grows (suc attempt) earlier later lo hi =
    let (_, top) = retry_delay_ms_window (suc attempt) earlier in
    let (bottom, _) = retry_delay_ms_window (suc (suc attempt)) later in
    omega (arith, greatest-lt-least attempt (omega arith))

-- The `i64` times that leave room for a delay of a minute.
abbrev pub InRange : ℤ → Type 0
InRange now_ms = (i64_min ≤ℤ now_ms) × (now_ms +ℤ pos 60000 ≤ℤ i64_max)

-- At such a time the deadline is the sum, which does not saturate.
pub deadline_exact :
    (attempt : ℕ) (now_ms : ℤ)
    → InRange now_ms
    → saturating_add now_ms (pos (retry_delay_ms attempt now_ms))
      ≡ now_ms +ℤ pos (retry_delay_ms attempt now_ms)
deadline_exact attempt now_ms h =
    let d = retry_delay_ms attempt now_ms in
    let (lo, hi) = retry_delay_ms_range attempt now_ms in
    saturating_add-eq now_ms (pos d) (omega (arith, +ℤ_parts now_ms (pos d)))
      (omega (arith, +ℤ_parts now_ms (pos d), +ℤ_parts now_ms (pos 60000)))
