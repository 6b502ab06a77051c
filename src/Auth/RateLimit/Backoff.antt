-- ===== src/Auth/RateLimit/Backoff.antt =====
-- The wait after each failure.
use native.Mathlib.Nat.{pow-le-pow_right}
use pdai_server_panel.Common.{
  ℕ, ◌+◌, ◌-◌, ◌*◌, ◌^◌, ◌≤◌, ◌<◌, String, some, ◌≡◌, ◌↔◌, arith, lookup,
}
use pdai_server_panel.Auth.RateLimit.{
  RateLimiter, AttemptInfo, next, window, second, backoff, backoff_bits, check, check_info,
  middleware,
}

-- Up to 34 failures the shift by seconds fits in 64 bits with a sign.
backoff-small : (n : ℕ) → n ≤ 34 → backoff n ≡ 2 ^ (n - 1) * second
unfolding backoff backoff_bits
backoff-small n h =
    let small : 2 ^ (n - 1) ≤ 2 ^ 33 = pow-le-pow_right (omega arith) {j = 33} (omega (arith, h)) in
    let bound : 2 ^ (n - 1) ≤ 8589934592 = small in ground arith

-- A client that has failed between 1 and 34 times, below the limit and inside its window, is let
-- through exactly when 2^(n-1) seconds have passed since the last of its n failures.
pub middleware-backoff :
    (now : ℕ) (ip : String) (rl : RateLimiter) (info : AttemptInfo)
    → lookup ip rl.attempts ≡ some info
    → 0 < info.count
    → info.count ≤ 34
    → info.count < rl.max_attempts
    → now ≤ info.first_at + window rl
    → info.last_fail ≤ now
    → ((middleware now ip rl).1 ≡ next) ↔ (info.last_fail + 2 ^ (info.count - 1) * second ≤ now)
unfolding middleware check check_info
middleware-backoff now ip rl info found some_fail few below inside past =
    rw found (ground (arith, backoff-small info.count few))
