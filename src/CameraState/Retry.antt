-- ===== src/CameraState/Retry.antt =====
-- The retry delay (`compute_retry_delay` of src/ibvap/core/camera_state.py).
use ibvap.Common.{ℕ, ◌+◌, ◌-◌, ◌*◌, ◌≤◌, ◌<◌, ◌≡◌, refl, arith, max}
use ibvap.CameraState.Defs.{Machine, ok, Jitter, less, more, capped_delay, compute_retry_delay}

-- `random.uniform(-0.2 * delay, 0.2 * delay)` stays within a fifth of the delay.
abbrev pub WithinFifth : ℕ → Jitter → Type 0
WithinFifth delay (less n) = 5 * n ≤ delay
WithinFifth delay (more n) = 5 * n ≤ delay

-- Below 1024 retries a delay is returned, for a jitter of at most a fifth: it is at least half a
-- second and at least four fifths of the capped delay, and at most the larger of half a second and
-- six fifths of the cap; the retry is counted.
pub compute_retry_delay_bounds :
    (m : Machine) (j : Jitter)
    → m.retry_count < 1024
    → WithinFifth (capped_delay m) j
    → (m' : Machine) × (delay : ℕ) × (compute_retry_delay m j ≡ ok (m', delay))
      × (500 ≤ delay)
      × (4 * capped_delay m ≤ 5 * delay)
      × (5 * delay ≤ max 2500 (6 * m.max_delay))
      × (m'.retry_count ≡ m.retry_count + 1)
unfolding compute_retry_delay
compute_retry_delay_bounds m (less n) h w = (
  record m { retry_count = m.retry_count + 1 },
  max 500 (capped_delay m - n),
  ground arith,
  omega arith,
  omega arith,
  omega arith,
  refl,
)
compute_retry_delay_bounds m (more n) h w = (
  record m { retry_count = m.retry_count + 1 },
  max 500 (capped_delay m + n),
  ground arith,
  omega arith,
  omega arith,
  omega arith,
  refl,
)
