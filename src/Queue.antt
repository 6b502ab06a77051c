-- ===== src/Queue.antt =====
-- internal/queue/queue.go: tasks in goroutines, at most `workers` at a time. A call of `Enqueue`
-- reads `closed`, then looks up its handler, and then waits for a slot of `sem`: three steps, between
-- which other goroutines run. Which call gets on, and which running task ends next, is the
-- scheduler's choice, so an action names them by position. `H` is the
-- type of the handlers, whose code is the plugins'. The dial of Valkey only decides a log line.
pub mod Bounded
pub mod Drained
use pdai_server_panel.Common.{
  ℕ, zero, suc, ◌<◌, String, Bool, true, false, Option, none, some, List, [], ◌∷◌, ◌++◌, ◌≡◌,
  if◌then◌else◌, lookup, insert, length, ltb, Result, ok, err, ℤ, pos, negsuc, ◌&&◌, not, null,
  ◌=ˢ◌,
}

pub data QueueError : Type 0 where
  shut_down marshal_failed : QueueError
  no_handler : String → QueueError

-- `workers`: 10, or the first of the optional arguments if it is above 0
abbrev pub at_least_one : ℕ → ℤ → ℕ
at_least_one w (pos n) = if ltb 0 n then n else w
at_least_one w (negsuc n) = w

abbrev pub workers_of : List ℤ → ℕ
workers_of [] = 10
workers_of (n ∷ ns) = at_least_one 10 n

-- The element at a position, and the others.
abbrev pub onto : {A : Type 0} → A → Option (A × List A) → Option (A × List A)
onto x none = none
onto x (some (y, ys)) = some (y, x ∷ ys)

unfoldable pub pick : {A : Type 0} → ℕ → List A → Option (A × List A)
pick i [] = none
pick zero (x ∷ xs) = some (x, xs)
pick (suc i) (x ∷ xs) = onto x (pick i xs)

module _ (H : Type 0) where
  -- A call of a handler with its payload.
  pub record Job : Type 0 where
    pub task_type : String
    pub handler : H
    pub payload : String

  -- A call of `Enqueue`, with what json.Marshal returns for its payload.
  pub record Request : Type 0 where
    pub task_type : String
    pub payload : Option String

  -- `sem` holds as many tokens as tasks run. `admitted` are the calls of `Enqueue` that have found
  -- the queue open, `waiting` those in the `select`.
  pub record Queue : Type 0 where
    pub handlers : List (String × H)
    pub addr : String
    pub workers : ℕ
    pub running : List Job
    pub admitted : List Request
    pub waiting : List Job
    pub closed : Bool
    pub done : Bool

  unfoldable pub new : String → List ℤ → Queue
  new addr max_workers = record {
    handlers = [];
    addr = addr;
    workers = workers_of max_workers;
    running = [];
    admitted = [];
    waiting = [];
    closed = false;
    done = false;
  }

  unfoldable pub register_handler : String → H → Queue → Queue
  register_handler task_type h q = record q { handlers = insert task_type h q.handlers }

  abbrev pub job_of : String → String → Option H → Result QueueError Job
  job_of task_type json none = err (no_handler task_type)
  job_of task_type json (some h) =
      ok (record { task_type = task_type; handler = h; payload = json })

  abbrev pub marshalled : Queue → String → Option String → Result QueueError Job
  marshalled q task_type none = err marshal_failed
  marshalled q task_type (some json) = job_of task_type json (lookup task_type q.handlers)

  -- The test of `closed`; a call that does not pass it returns its error.
  unfoldable pub enqueue : Queue → String → Option String → Result QueueError Request
  enqueue q task_type payload =
      if q.closed then err shut_down else ok (record { task_type = task_type; payload = payload })

  -- From there to the `select`.
  unfoldable pub find_handler : Queue → Request → Result QueueError Job
  find_handler q r = marshalled q r.task_type r.payload

  pub data Action : Type 0 where
    registering : String → H → Action
    enqueueing : String → Option String → Action
    -- the look-up of the handler under the lock
    resolving : ℕ → Action
    -- the first case of the `select`
    acquiring : ℕ → Action
    -- its second case
    refusing : ℕ → Action
    -- the deferred release of the slot, when the handler has returned, with or without an error
    finishing : ℕ → Action
    -- the two statements of `Shutdown`
    closing signalling : Action

  abbrev pub admit : Queue → Result QueueError Request → Queue
  admit q (err e) = q
  admit q (ok r) = record q { admitted = q.admitted ++ r ∷ [] }

  abbrev pub accepted_job : Queue → Result QueueError Job → Queue
  accepted_job q (err e) = q
  accepted_job q (ok job) = record q { waiting = q.waiting ++ job ∷ [] }

  unfoldable pub resolve : Queue → Option (Request × List Request) → Option Queue
  resolve q none = none
  resolve q (some (r, rest)) = some (accepted_job (record q { admitted = rest }) (find_handler q r))

  unfoldable pub acquire : Queue → Option (Job × List Job) → Option Queue
  acquire q none = none
  acquire q (some (job, rest)) =
      if ltb (length q.running) q.workers
      then some (record q { waiting = rest; running = q.running ++ job ∷ [] })
      else none

  unfoldable pub refuse : Queue → Option (Job × List Job) → Option Queue
  refuse q none = none
  refuse q (some (job, rest)) = if q.done then some (record q { waiting = rest }) else none

  unfoldable pub release_slot : Queue → Option (Job × List Job) → Option Queue
  release_slot q none = none
  release_slot q (some (job, rest)) = some (record q { running = rest })

  -- One step of one goroutine; `none` where it cannot be taken.
  unfoldable pub step : Action → Queue → Option Queue
  step (registering task_type h) q = some (register_handler task_type h q)
  step (enqueueing task_type payload) q = some (admit q (enqueue q task_type payload))
  step (resolving i) q = resolve q (pick i q.admitted)
  step (acquiring i) q = acquire q (pick i q.waiting)
  step (refusing i) q = refuse q (pick i q.waiting)
  step (finishing i) q = release_slot q (pick i q.running)
  step closing q = some (record q { closed = true })
  step signalling q = if q.closed then some (record q { done = true }) else none

  -- The queue after some steps from where it began.
  pub data Reach (begin : Queue) : Queue → Type 0 where
    here : Reach begin begin
    after : (a : Action) (q q' : Queue) → Reach begin q → step a q ≡ some q' → Reach begin q'

  -- `Status` and `IsValkeyConfigured`
  pub record Status : Type 0 where
    pub mode : String
    pub valkey_addr : String
    pub workers : ℕ
    pub active : ℕ

  unfoldable pub status : Queue → Status
  status q = record {
    mode = "memory";
    valkey_addr = q.addr;
    workers = q.workers;
    active = length q.running;
  }

  unfoldable pub is_valkey_configured : Queue → Bool
  is_valkey_configured q = not (q.addr =ˢ "")
