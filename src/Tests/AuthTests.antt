-- ===== src/Tests/AuthTests.antt =====
-- internal/auth/ratelimit.go at concrete inputs.
use pdai_server_panel.Common.{
  ℕ, ◌-◌, ◌/◌, ◌↔◌, ◌≤◌, ◌≡◌, ◌≢◌, String, some, none, List, [], ◌∷◌, refl, false, arith, eq_iff,
  lookup,
}
use pdai_server_panel.Auth.RateLimit.{
  RateLimiter, too_many, next, window, second, middleware, record_fail, record_success,
  new_limiters, check, check_info, backoff, backoff_bits,
}
use pdai_server_panel.Auth.RateLimit.Lockout.{fail_at, middleware-fail_at, middleware-other}
use pdai_server_panel.Auth.RateLimit.Backoff.{middleware-backoff}

abbrev login : RateLimiter
login = new_limiters.login

abbrev failures : List ℕ
failures = 3000000000 ∷ 6000000000 ∷ 12000000000 ∷ 24000000000 ∷ []

login_new : lookup "203.0.113.5" login.attempts ≡ none
unfolding lookup
login_new = refl

middleware-fail_at_example :
    middleware 30000000000 "203.0.113.5" (fail_at (1000000000 ∷ failures) "203.0.113.5" login) ≡ (
      fail_at (1000000000 ∷ failures) "203.0.113.5" login,
      too_many ((window login - (30000000000 - 1000000000)) / second),
    )
middleware-fail_at_example =
    middleware-fail_at 1000000000 failures "203.0.113.5" login 30000000000 login_new (omega arith)
      (omega arith)

-- Two clients have failed.
abbrev busy : RateLimiter
busy = record login {
  attempts =
      ("203.0.113.5", record { count = 2; first_at = 1000000000; last_fail = 3000000000 })
      ∷ ("198.51.100.7", record { count = 1; first_at = 5000000000; last_fail = 5000000000 })
      ∷ [];
}

-- The second failure asks for two seconds.
two_seconds : (check 4000000000 "203.0.113.5" busy).1 ≡ record { allowed = false; wait_seconds = 2 }
unfolding check check_info lookup backoff backoff_bits
two_seconds = refl

-- After 35 failures the backoff does not fit in the 64 bits, and nobody has to wait.
no_backoff : backoff 34 ≡ 8589934592000000000
unfolding backoff backoff_bits
no_backoff = refl

overflow : backoff 35 ≡ 0
unfolding backoff backoff_bits
overflow = refl

abbrev neighbour : String
neighbour = "198.51.100.7"

abbrev client : String
client = "203.0.113.5"

apart : neighbour ≢ client
apart e = ground (arith, eq_iff neighbour client)

middleware-other_example :
    ((middleware 4000000000 "203.0.113.5" (record_fail 4000000000 "198.51.100.7" busy)).1
      ≡ (middleware 4000000000 "203.0.113.5" busy).1)
    × ((middleware 4000000000 "203.0.113.5" (record_success "198.51.100.7" busy)).1
        ≡ (middleware 4000000000 "203.0.113.5" busy).1)
    × ((middleware 4000000000 "203.0.113.5" (middleware 4000000000 "198.51.100.7" busy).0).1
        ≡ (middleware 4000000000 "203.0.113.5" busy).1)
middleware-other_example =
    middleware-other 4000000000 4000000000 "203.0.113.5" "198.51.100.7" busy apart

busy_client :
    lookup "203.0.113.5" busy.attempts
    ≡ some (record { count = 2; first_at = 1000000000; last_fail = 3000000000 })
unfolding lookup
busy_client = refl

middleware-backoff_example :
    ((middleware 6000000000 "203.0.113.5" busy).1 ≡ next) ↔ (5000000000 ≤ 6000000000)
middleware-backoff_example =
    middleware-backoff 6000000000 "203.0.113.5" busy
      (record { count = 2; first_at = 1000000000; last_fail = 3000000000 }) busy_client
      (omega arith) (omega arith) (omega arith) (omega arith) (omega arith)
