-- ===== src/Caddy/Reload/Answered.antt =====
-- Who waits, and who is answered.
use pdai_server_panel.Common.{
  ℕ, suc, ◌+◌, ◌≤◌, ◌==◌, Bool, true, List, [], ◌∷◌, ◌++◌, ◌≡◌, refl, sym, ◌∙◌, arith,
  if◌then◌else◌, length, length-append,
}
use pdai_server_panel.Caddy.Reload.{
  Timer, idle, armed, firing, reloaded, ReloadAnswer, ReloadState, next_timer, request, answer_all,
  take_waiters, send, Advance, fires, reloads, takes, sends, Reachable, begins, calls, goes,
}

-- How often a caller stands among the calls, and among the results.
unfoldable pub times : ℕ → List ℕ → ℕ
times w [] = 0
times w (v ∷ vs) = (if v == w then 1 else 0) + times w vs

unfoldable pub results : ℕ → List ReloadAnswer → ℕ
results w [] = 0
results w (a ∷ rest) = (if a.caller == w then 1 else 0) + results w rest

times-append : (w : ℕ) (a b : List ℕ) → times w (a ++ b) ≡ times w a + times w b
unfolding times
times-append w [] b = ground arith
times-append w (v ∷ a) b = ground (arith, times-append w a b)

results-append : (w : ℕ) (a b : List ReloadAnswer) → results w (a ++ b) ≡ results w a + results w b
unfolding results
results-append w [] b = ground arith
results-append w (v ∷ a) b = ground (arith, results-append w a b)

results-answer_all : (w : ℕ) (b : Bool) (ws : List ℕ) → results w (answer_all b ws) ≡ times w ws
unfolding results answer_all times
results-answer_all w b [] = refl
results-answer_all w b (v ∷ ws) = ground (arith, results-answer_all w b ws)

-- The results that a caller has, will be sent, or waits for.
abbrev due : ℕ → ReloadState → ℕ
due w s = results w s.answers + results w s.outgoing + times w s.waiters

Advance-due : {s t : ReloadState} (w : ℕ) → Advance s t → due w t ≡ due w s
unfolding take_waiters send results times
Advance-due w fires = refl
Advance-due w (reloads b) = refl
Advance-due w (takes {ws = ws} {out = out} b) =
    ground (arith, results-append w out (answer_all b ws), results-answer_all w b ws)
Advance-due w (sends {a = a} before later x) = ground (
  arith,
  results-append w a (x ∷ []),
  results-append w before later,
  results-append w before (x ∷ later),
)

Reachable-due : {rs : List ℕ} {s : ReloadState} (w : ℕ) → Reachable rs s → due w s ≡ times w rs
unfolding request times results
Reachable-due w begins = refl
Reachable-due w (calls {rs = rs} {s = s} v r) =
    ground (arith, Reachable-due w r, times-append w s.waiters (v ∷ []), times-append w rs (v ∷ []))
Reachable-due w (goes r a) = Advance-due w a ∙ Reachable-due w r

-- Without a timer nobody waits.
abbrev IsTimed : Timer → List ℕ → Type 0
IsTimed idle ws = ws ≡ []
IsTimed armed ws = Unit
IsTimed firing ws = Unit
IsTimed (reloaded b) ws = Unit

next-IsTimed : (t : Timer) (ws : List ℕ) → IsTimed (next_timer t) ws
next-IsTimed idle ws = tt
next-IsTimed armed ws = tt
next-IsTimed firing ws = tt
next-IsTimed (reloaded b) ws = tt

Advance-IsTimed :
    {s t : ReloadState} → Advance s t → IsTimed s.timer s.waiters → IsTimed t.timer t.waiters
unfolding take_waiters send
Advance-IsTimed fires k = tt
Advance-IsTimed (reloads b) k = tt
Advance-IsTimed (takes b) k = refl
Advance-IsTimed (sends before later x) k = k

Reachable-IsTimed : {rs : List ℕ} {s : ReloadState} → Reachable rs s → IsTimed s.timer s.waiters
unfolding request
Reachable-IsTimed begins = refl
Reachable-IsTimed (calls {s = s} w r) = next-IsTimed s.timer _
Reachable-IsTimed (goes r a) = Advance-IsTimed a (Reachable-IsTimed r)

-- The steps that are left when nobody calls.
abbrev pub stage : Timer → ℕ
stage idle = 0
stage armed = 3
stage firing = 2
stage (reloaded b) = 1

abbrev pub steps_left : ReloadState → ℕ
steps_left s = stage s.timer + length s.waiters + length s.outgoing

length-answer_all : (b : Bool) (ws : List ℕ) → length (answer_all b ws) ≡ length ws
unfolding answer_all
length-answer_all b [] = refl
length-answer_all b (w ∷ ws) = ground (arith, length-answer_all b ws)

Advance-steps_left : {s t : ReloadState} → Advance s t → steps_left s ≡ suc (steps_left t)
unfolding take_waiters send
Advance-steps_left (fires {ws = ws} {out = out}) = ground arith
Advance-steps_left (reloads b) = ground arith
Advance-steps_left (takes {ws = ws} {out = out} b) =
    ground (arith, length-append out (answer_all b ws), length-answer_all b ws)
Advance-steps_left (sends {t = t} {ws = ws} before later x) =
    ground (arith, length-append before later, length-append before (x ∷ later))

-- `Runs n s t`: n steps of the timer and the callbacks lead from `s` to `t`, in any order.
pub data Runs : ℕ → ReloadState → ReloadState → Type 0 where
  rests : {s : ReloadState} → Runs 0 s s
  steps : {n : ℕ} {s t u : ReloadState} → Runs n s t → Advance t u → Runs (suc n) s u

Runs-steps_left : {n : ℕ} {s t : ReloadState} → Runs n s t → n + steps_left t ≡ steps_left s
Runs-steps_left rests = omega arith
Runs-steps_left (steps r a) = omega (arith, Runs-steps_left r, Advance-steps_left a)

Runs-Reachable :
    {rs : List ℕ} {n : ℕ} {s t : ReloadState} → Runs n s t → Reachable rs s → Reachable rs t
Runs-Reachable rests k = k
Runs-Reachable (steps r a) k = goes (Runs-Reachable r k) a

-- No step can be taken.
abbrev pub IsStuck : ReloadState → Type 0
IsStuck t = (u : ReloadState) → ¬ (Advance t u)

-- Where no step can be taken, none is left: a timer fires, a callback goes on, a result is sent.
stuck-steps_left :
    (t : Timer) (ws : List ℕ) (out a : List ReloadAnswer)
    → IsTimed t ws
    → IsStuck (record { timer = t; waiters = ws; outgoing = out; answers = a })
    → stage t + length ws + length out ≡ 0
stuck-steps_left t ws (x ∷ out) a k stuck = absurd (stuck _ (sends [] out x))
stuck-steps_left idle ws [] a k stuck = ground (arith, k)
stuck-steps_left armed ws [] a k stuck = absurd (stuck _ fires)
stuck-steps_left firing ws [] a k stuck = absurd (stuck _ (reloads true))
stuck-steps_left (reloaded b) ws [] a k stuck = absurd (stuck _ (takes b))

nobody :
    (w : ℕ) (t : Timer) (ws : List ℕ) (out a : List ReloadAnswer)
    → stage t + length ws + length out ≡ 0
    → results w a + results w out + times w ws ≡ results w a
unfolding times results
nobody w t [] [] a h = omega arith
nobody w t (v ∷ ws) out a h = absurd (ground (arith, h))
nobody w t [] (x ∷ out) a h = absurd (ground (arith, h))

-- From every state that calls and steps lead to, every run in which nobody calls again takes at most
-- `steps_left` steps, and when no step can be taken any more, each caller has been sent exactly as
-- many results as it has made calls.
pub request-IsAnswered :
    {rs : List ℕ} {s t : ReloadState} (n : ℕ)
    → Reachable rs s
    → Runs n s t
    → (n ≤ steps_left s) × (IsStuck t → (w : ℕ) → results w t.answers ≡ times w rs)
request-IsAnswered {t = t} n k r =
    let left = Runs-steps_left r in
    let kt = Runs-Reachable r k in
    (
      omega (arith, left),
      λ stuck w.
          let none_left =
            stuck-steps_left t.timer t.waiters t.outgoing t.answers (Reachable-IsTimed kt) stuck in
          sym (nobody w t.timer t.waiters t.outgoing t.answers none_left) ∙ Reachable-due w kt,
    )
