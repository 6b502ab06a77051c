-- ===== src/Auth/RateLimit/Cleanup.antt =====
-- The clean-up that runs beside the requests.
use pdai_server_panel.Common.{ℕ, String, Bool, ◌&&◌, some, List, ◌≡◌, All, any, lookup, ◌=ˢ◌}
use pdai_server_panel.Auth.RateLimit.{RateLimiter, AttemptInfo, is_old}

-- No key stands twice: each row is the one that a lookup of its key finds.
abbrev pub IsMap : List (String × AttemptInfo) → Type 0
IsMap m = All (λ r. lookup r.0 m ≡ some r.1) m

-- Some row of the client is old.
abbrev has_old : ℕ → String → RateLimiter → List (String × AttemptInfo) → Bool
has_old now ip rl = any (λ r. (r.0 =ˢ ip) && is_old now rl r.1)
