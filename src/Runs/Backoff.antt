-- ===== src/Runs/Backoff.antt =====
-- How long a failed run waits, in `finish_attempt_inner` of crates/scheduler-store/src/lib.rs.
use task_scheduler.Prelude.{ℕ, zero, suc, ◌+◌, ◌-◌, ◌*◌, ◌/◌, ◌%◌, ◌^◌, ◌≤◌, min, max, ◌≡◌, arith}
use task_scheduler.Domain.Settings.{u64_max}
use task_scheduler.Runs.Tables.{Run, seconds, max_time, after_seconds, after_seconds-in_range}
use task_scheduler.Runs.Finish.{backoff_base, jitter_bound, retry_at}

power-positive : (n : ℕ) → 1 ≤ 2 ^ n
power-positive zero = omega arith
power-positive (suc n) = omega (arith, power-positive n)

power-monotone : (m n : ℕ) → m ≤ n → 2 ^ m ≤ 2 ^ n
power-monotone zero n h = power-positive n
power-monotone (suc m) zero h = omega arith
power-monotone (suc m) (suc n) h = omega (arith, power-monotone m n (omega arith))

times-monotone : (k m n : ℕ) → m ≤ n → k * m ≤ k * n
times-monotone zero m n h = omega arith
times-monotone (suc k) m n h = omega (arith, times-monotone k m n h)

-- After accepted attempt n + 1, for n of at most 20 and while that is within the cap, the wait is the
-- initial one times 2 ^ n, and after no earlier attempt is it longer. The cap is a `u64`.
pub backoff_base_doubles :
    (initial cap m n : ℕ)
    → n ≤ 20
    → m ≤ suc n
    → initial * 2 ^ n ≤ cap
    → cap ≤ u64_max
    → (backoff_base initial cap (suc n) ≡ initial * 2 ^ n)
      × (backoff_base initial cap m ≤ backoff_base initial cap (suc n))
unfolding backoff_base
backoff_base_doubles initial cap m n few le below fits =
    let here : min (suc n - 1) 20 ≡ n = omega arith in
    let le_power = power-monotone (min (m - 1) 20) n (omega arith) in
    let le_product = times-monotone initial (2 ^ min (m - 1) 20) (2 ^ n) le_power in
    rw here (omega arith, omega arith)

-- With a jitter that stays within its bound and an initial backoff that is a `u64`, the time before
-- which a run is not dispatched lies past the smaller of its initial backoff and its cap, and at most
-- the cap and a fifth of it (a second at least) ahead, if that greatest time is in the range of chrono.
pub retry_at_bounds :
    (jitter : ℕ → ℕ) (r : Run) (now : ℕ)
    → ((bound : ℕ) → jitter bound ≤ bound)
    → r.initial_backoff_seconds ≤ u64_max
    → now + seconds (r.backoff_cap_seconds + max (r.backoff_cap_seconds / 5) 1) ≤ max_time
    → (now + seconds (min r.initial_backoff_seconds r.backoff_cap_seconds) ≤ retry_at jitter r now)
      × (retry_at jitter r now
          ≤ now + seconds (r.backoff_cap_seconds + max (r.backoff_cap_seconds / 5) 1))
unfolding backoff_base
retry_at_bounds jitter r now within fits range =
    let p = 2 ^ min (r.attempt_count - 1) 20 in
    let least =
      times-monotone r.initial_backoff_seconds 1 p
        (power-positive (min (r.attempt_count - 1) 20)) in
    let base = backoff_base r.initial_backoff_seconds r.backoff_cap_seconds r.attempt_count in
    let drawn = within (jitter_bound base) in
    let wait = base + jitter (jitter_bound base) in
    let whole : wait % 2 ^ 64 ≡ wait = omega arith in
    let time : after_seconds now (wait % 2 ^ 64) ≡ now + seconds wait =
      rw whole (after_seconds-in_range now wait (omega arith)) in
    (omega arith, omega arith)
