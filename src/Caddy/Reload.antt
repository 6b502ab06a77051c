-- ===== src/Caddy/Reload.antt =====
-- internal/caddy/manager.go, `RequestReload`: calls within half a second share one reload. A step is
-- what happens under the lock at once, the reload, which is taken to return, or the sending of one
-- result, which a callback does after it has released the lock; the sends of several callbacks
-- interleave in any order. The number of a caller stands for its channel, and a Boolean for the
-- error of a reload or none.
pub mod Answered
use pdai_server_panel.Common.{ℕ, zero, suc, Bool, List, [], ◌∷◌, ◌++◌}

-- No timer; a timer that can be stopped; a callback that runs, before and after its reload.
pub data Timer : Type 0 where
  idle armed firing : Timer
  reloaded : Bool → Timer

pub record ReloadAnswer : Type 0 where
  pub caller : ℕ
  pub reload_ok : Bool

-- The timer, the waiters, the results that callbacks have still to send, and those that are sent.
pub record ReloadState : Type 0 where
  pub timer : Timer
  pub waiters : List ℕ
  pub outgoing : List ReloadAnswer
  pub answers : List ReloadAnswer

-- A timer that is stopped, and none, make place for a new one.
abbrev pub next_timer : Timer → Timer
next_timer idle = armed
next_timer armed = armed
next_timer firing = firing
next_timer (reloaded b) = reloaded b

unfoldable pub request : ℕ → ReloadState → ReloadState
request w s = record s { timer = next_timer s.timer; waiters = s.waiters ++ w ∷ [] }

unfoldable pub answer_all : Bool → List ℕ → List ReloadAnswer
answer_all b [] = []
answer_all b (w ∷ ws) = record { caller = w; reload_ok = b } ∷ answer_all b ws

-- What the callback does under the lock, after its reload.
unfoldable pub take_waiters : Bool → ReloadState → ReloadState
take_waiters b s = record s {
  timer = idle;
  waiters = [];
  outgoing = s.outgoing ++ answer_all b s.waiters;
}

-- One send, `w <- err`, of the result between `before` and `later`.
unfoldable pub send :
    List ReloadAnswer → ReloadAnswer → List ReloadAnswer → ReloadState → ReloadState
send before a later s = record s { outgoing = before ++ later; answers = s.answers ++ a ∷ [] }

-- What the timer and the callbacks do.
pub data Advance : ReloadState → ReloadState → Type 0 where
  fires :
      {ws : List ℕ} {out a : List ReloadAnswer}
      → Advance
          (record { timer = armed; waiters = ws; outgoing = out; answers = a })
          (record { timer = firing; waiters = ws; outgoing = out; answers = a })
  reloads :
      {ws : List ℕ} {out a : List ReloadAnswer} (b : Bool)
      → Advance
          (record { timer = firing; waiters = ws; outgoing = out; answers = a })
          (record { timer = reloaded b; waiters = ws; outgoing = out; answers = a })
  takes :
      {ws : List ℕ} {out a : List ReloadAnswer} (b : Bool)
      → Advance
          (record { timer = reloaded b; waiters = ws; outgoing = out; answers = a })
          (take_waiters b
            (record { timer = reloaded b; waiters = ws; outgoing = out; answers = a }))
  sends :
      {t : Timer} {ws : List ℕ} {a : List ReloadAnswer} (before later : List ReloadAnswer)
      (x : ReloadAnswer)
      → Advance
          (record { timer = t; waiters = ws; outgoing = before ++ x ∷ later; answers = a })
          (send before x later
            (record { timer = t; waiters = ws; outgoing = before ++ x ∷ later; answers = a }))

abbrev pub no_reload : ReloadState
no_reload = record { timer = idle; waiters = []; outgoing = []; answers = [] }

-- `Reachable rs s`: the callers of `rs`, in this order, have led to `s`.
pub data Reachable : List ℕ → ReloadState → Type 0 where
  begins : Reachable [] no_reload
  calls :
      {rs : List ℕ} {s : ReloadState} (w : ℕ)
      → Reachable rs s
      → Reachable (rs ++ w ∷ []) (request w s)
  goes : {rs : List ℕ} {s t : ReloadState} → Reachable rs s → Advance s t → Reachable rs t
