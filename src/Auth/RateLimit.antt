-- ===== src/Auth/RateLimit.antt =====
-- internal/auth/ratelimit.go: the counters of failures per client, and the backoff.
-- Times and durations are nanoseconds of one monotonic clock, read once in a call: `now`. A recorded
-- time is never after `now`, so `now - t` is what `time.Since` returns. The lock makes a call one step.
pub mod Lockout
pub mod Cleanup
pub mod Backoff
use pdai_server_panel.Common.{
  ℕ, suc, ◌+◌, ◌-◌, ◌*◌, ◌/◌, ◌%◌, ◌^◌, String, Bool, true, false, not, ◌&&◌, Option, none, some,
  List, [], ◌∷◌, if◌then◌else◌, ltb, leb, lookup, insert, delete,
}

pub record AttemptInfo : Type 0 where
  pub count : ℕ
  pub first_at : ℕ
  pub last_fail : ℕ

pub record RateLimiter : Type 0 where
  pub attempts : List (String × AttemptInfo)
  pub max_attempts : ℕ
  pub window_secs : ℕ

-- time.Second
abbrev pub second : ℕ
second = 1000000000

abbrev pub window : RateLimiter → ℕ
window rl = rl.window_secs * second

abbrev pub new_rate_limiter : ℕ → ℕ → RateLimiter
new_rate_limiter max secs = record { attempts = []; max_attempts = max; window_secs = secs }

-- The 64 bits of `time.Duration(math.Pow(2, count-1)) * time.Second`. Past 2^63 the conversion of
-- the float depends on the machine; the product is then 0 here, and not above 0 on the others.
unfoldable pub backoff_bits : ℕ → ℕ
backoff_bits n = (2 ^ (n - 1) * second) % 18446744073709551616

-- The duration, where it is above 0; a negative one holds nobody back.
unfoldable pub backoff : ℕ → ℕ
backoff n = if ltb (backoff_bits n) 9223372036854775808 then backoff_bits n else 0

-- The answer of `Check`: whether to go on, and the seconds to wait.
pub record Answer : Type 0 where
  pub allowed : Bool
  pub wait_seconds : ℕ

abbrev pub go_on : Answer
go_on = record { allowed = true; wait_seconds = 0 }

abbrev pub forget : String → RateLimiter → RateLimiter
forget ip rl = record rl { attempts = delete ip rl.attempts }

unfoldable pub check_info : ℕ → String → Option AttemptInfo → RateLimiter → RateLimiter × Answer
check_info now ip none rl = (rl, go_on)
check_info now ip (some info) rl =
    if ltb (window rl) (now - info.first_at)
    then (forget ip rl, go_on)
    else if leb rl.max_attempts info.count
    then (
      rl,
      record { allowed = false; wait_seconds = (window rl - (now - info.first_at)) / second },
    )
    else if ltb 0 info.count && ltb (now - info.last_fail) (backoff info.count)
    then (
      rl,
      record {
        allowed = false;
        wait_seconds = (backoff info.count - (now - info.last_fail)) / second + 1;
      },
    )
    else (rl, go_on)

unfoldable pub check : ℕ → String → RateLimiter → RateLimiter × Answer
check now ip rl = check_info now ip (lookup ip rl.attempts) rl

abbrev pub failed : ℕ → Option AttemptInfo → AttemptInfo
failed now none = record { count = 1; first_at = now; last_fail = now }
failed now (some info) = record info { count = suc info.count; last_fail = now }

unfoldable pub record_fail : ℕ → String → RateLimiter → RateLimiter
record_fail now ip rl = record rl {
  attempts = insert ip (failed now (lookup ip rl.attempts)) rl.attempts;
}

unfoldable pub record_success : String → RateLimiter → RateLimiter
record_success ip rl = forget ip rl

-- `firstAt` before the cutoff, `now` less the window
abbrev pub is_old : ℕ → RateLimiter → AttemptInfo → Bool
is_old now rl info = ltb (info.first_at + window rl) now

-- The loop over the map, which deletes from the map it ranges over.
unfoldable pub cleanup_rows : ℕ → List (String × AttemptInfo) → RateLimiter → RateLimiter
cleanup_rows now [] rl = rl
cleanup_rows now ((ip, info) ∷ rest) rl =
    cleanup_rows now rest (if is_old now rl info then forget ip rl else rl)

unfoldable pub cleanup : ℕ → RateLimiter → RateLimiter
cleanup now rl = cleanup_rows now rl.attempts rl

-- What the middleware does with a request: pass it on, or answer 429 with the seconds to wait.
pub data Outcome : Type 0 where
  next : Outcome
  too_many : ℕ → Outcome

abbrev pub outcome : Answer → Outcome
outcome a = if not a.allowed then too_many a.wait_seconds else next

unfoldable pub middleware : ℕ → String → RateLimiter → RateLimiter × Outcome
middleware now ip rl = let (rl', a) = check now ip rl in (rl', outcome a)

pub record Limiters : Type 0 where
  pub login : RateLimiter
  pub api_read : RateLimiter
  pub api_write : RateLimiter
  pub default : RateLimiter

abbrev pub new_limiters : Limiters
new_limiters = record {
  login = new_rate_limiter 5 900;
  api_read = new_rate_limiter 300 60;
  api_write = new_rate_limiter 60 60;
  default = new_rate_limiter 600 60;
}
