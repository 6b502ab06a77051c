-- ===== src/Auth/RateLimit/Lockout.antt =====
-- A client that keeps failing, and the other clients.
use pdai_server_panel.Common.{
  ℕ, ◌+◌, ◌-◌, ◌/◌, ◌≤◌, suc, String, false, none, some, List, [], ◌∷◌, ◌≡◌, ◌≢◌, refl, arith,
  eq_iff, length, lookup, lookup-insert, lookup-delete, Option, Option-cases, inl, inr, ap,
}
use pdai_server_panel.Auth.RateLimit.{
  RateLimiter, AttemptInfo, too_many, window, second, record_fail, check, check_info, middleware,
  failed, record_success, outcome, forget,
}
use text.Mathlib.TextPositions.{eq_refl}

-- `RecordFail` at each of the times, in their order.
unfoldable pub fail_at : List ℕ → String → RateLimiter → RateLimiter
fail_at [] ip rl = rl
fail_at (t ∷ ts) ip rl = fail_at ts ip (record_fail t ip rl)

-- What a client's counter and the limits are after more failures.
record IsCounted (ip : String) (n first : ℕ) (rl rl' : RateLimiter) : Type 0 where
  last : ℕ
  counted : lookup ip rl'.attempts ≡ some (record { count = n; first_at = first; last_fail = last })
  same_max : rl'.max_attempts ≡ rl.max_attempts
  same_window : rl'.window_secs ≡ rl.window_secs

fail_at-IsCounted :
    (ts : List ℕ) (ip : String) (rl : RateLimiter) (info : AttemptInfo)
    → lookup ip rl.attempts ≡ some info
    → IsCounted ip (info.count + length ts) info.first_at rl (fail_at ts ip rl)
unfolding fail_at record_fail
fail_at-IsCounted [] ip rl info h = record {
  last = info.last_fail;
  counted = ground arith;
  same_max = refl;
  same_window = refl;
}
fail_at-IsCounted (t ∷ ts) ip rl info h =
    let c =
      fail_at-IsCounted ts ip (record_fail t ip rl)
        (record info { count = suc info.count; last_fail = t })
        (rw (lookup-insert, eq_refl ip, h) refl) in
    record {
      last = c.last;
      counted = ground (arith, c.counted);
      same_max = c.same_max;
      same_window = c.same_window;
    }

check-locked :
    (now : ℕ) (ip : String) (n first : ℕ) (rl rl' : RateLimiter)
    → IsCounted ip n first rl rl'
    → rl.max_attempts ≤ n
    → now ≤ first + window rl
    → check now ip rl'
      ≡ (rl', record { allowed = false; wait_seconds = (window rl - (now - first)) / second })
unfolding check check_info
check-locked now ip n first rl rl' c full inside =
    rw c.counted (ground (arith, c.same_max, c.same_window))

-- A client that has no counter yet and then fails at the times `t` and `ts`, as often as the
-- limiter allows or more, is answered 429 until the window that `t` opened is over, with the
-- seconds that are left of it, and the counters stay.
pub middleware-fail_at :
    (t : ℕ) (ts : List ℕ) (ip : String) (rl : RateLimiter) (now : ℕ)
    → lookup ip rl.attempts ≡ none
    → rl.max_attempts ≤ suc (length ts)
    → now ≤ t + window rl
    → middleware now ip (fail_at (t ∷ ts) ip rl)
      ≡ (fail_at (t ∷ ts) ip rl, too_many ((window rl - (now - t)) / second))
unfolding middleware fail_at record_fail
middleware-fail_at t ts ip rl now new full inside =
    let c =
      fail_at-IsCounted ts ip (record_fail t ip rl)
        (record { count = 1; first_at = t; last_fail = t })
        (rw (lookup-insert, eq_refl ip, new) refl) in
    let locked =
      check-locked now ip (1 + length ts) t (record_fail t ip rl)
        (fail_at ts ip (record_fail t ip rl)) c (omega (arith, full)) inside in
    rw locked refl

-- The answer depends on the client's counter and on the limits alone.
pub check-answer :
    (now : ℕ) (ip : String) (rl rl' : RateLimiter)
    → lookup ip rl'.attempts ≡ lookup ip rl.attempts
    → rl'.max_attempts ≡ rl.max_attempts
    → rl'.window_secs ≡ rl.window_secs
    → (check now ip rl').1 ≡ (check now ip rl).1
unfolding check check_info
check-answer now ip rl rl' same max secs = elim (Option-cases (lookup ip rl.attempts)) [
  | inl e ↦ rw (same, e) refl
  | inr (info, e) ↦ rw (same, e) (ground (arith, max, secs))
]

check_info-lookup :
    (now : ℕ) (ip other : String) (o : Option AttemptInfo) (rl : RateLimiter)
    → other ≢ ip
    → (lookup ip (check_info now other o rl).0.attempts ≡ lookup ip rl.attempts)
      × ((check_info now other o rl).0.max_attempts ≡ rl.max_attempts)
      × ((check_info now other o rl).0.window_secs ≡ rl.window_secs)
unfolding check_info
check_info-lookup now ip other none rl h = (refl, refl, refl)
check_info-lookup now ip other (some info) rl h = (
  ground (arith, lookup-delete other ip rl.attempts, eq_iff other ip, h),
  ground arith,
  ground arith,
)

-- The answer to one client does not depend on what another one does: its failures, its successes
-- and its requests.
pub middleware-other :
    (now t : ℕ) (ip other : String) (rl : RateLimiter)
    → other ≢ ip
    → ((middleware now ip (record_fail t other rl)).1 ≡ (middleware now ip rl).1)
      × ((middleware now ip (record_success other rl)).1 ≡ (middleware now ip rl).1)
      × ((middleware now ip (middleware t other rl).0).1 ≡ (middleware now ip rl).1)
unfolding middleware record_fail record_success check
middleware-other now t ip other rl h =
    let k = check_info-lookup t ip other (lookup other rl.attempts) rl h in
    (
      ap outcome (
          check-answer now ip rl (record_fail t other rl)
            (ground (
              arith,
              lookup-insert other ip (failed t (lookup other rl.attempts)) rl.attempts,
              eq_iff other ip,
              h,
            ))
            refl refl),
      ap outcome (
          check-answer now ip rl (forget other rl)
            (ground (arith, lookup-delete other ip rl.attempts, eq_iff other ip, h)) refl refl),
      ap outcome (check-answer now ip rl (check t other rl).0 k.0 k.1 k.2),
    )
