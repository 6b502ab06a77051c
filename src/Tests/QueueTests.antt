-- ===== src/Tests/QueueTests.antt =====
-- internal/queue/queue.go with one worker, and handlers that are only names.
use pdai_server_panel.Common.{
  ◌+◌, ◌≤◌, String, true, false, some, none, [], ◌∷◌, ◌≡◌, ◌⊎◌, refl, pos, lookup, insert, err,
}
use pdai_server_panel.Queue.{
  Queue, Job, Request, shut_down, Reach, here, after, new, step, registering, enqueueing, resolving,
  acquiring, finishing, enqueue, find_handler, resolve, register_handler, acquire, release_slot,
  pick, status, workers_of,
}
use pdai_server_panel.Queue.Bounded.{status-active, Starts, waiting-runs}
use pdai_server_panel.Queue.Drained.{Run, stop, more, work, closed-drains}

abbrev build_job : Job String
build_job = record { task_type = "deploy:build"; handler = "builder"; payload = "{}" }

abbrev build_request : Request String
build_request = record { task_type = "deploy:build"; payload = some "{}" }

abbrev ready_queue : Queue String
ready_queue = record {
  handlers = ("deploy:build", "builder") ∷ [];
  addr = "";
  workers = 1;
  running = [];
  admitted = [];
  waiting = [];
  closed = false;
  done = false;
}

abbrev called : Queue String
called = record ready_queue { admitted = build_request ∷ [] }

abbrev asked : Queue String
asked = record ready_queue { waiting = build_job ∷ [] }

abbrev started : Queue String
started = record ready_queue { running = build_job ∷ [] }

abbrev called_again : Queue String
called_again = record started { admitted = build_request ∷ [] }

abbrev asked_again : Queue String
asked_again = record started { waiting = build_job ∷ [] }

ready_reached : Reach String (new String "" (pos 1 ∷ [])) ready_queue
unfolding new step register_handler insert
ready_reached = after (registering "deploy:build" "builder") _ _ here refl

called_reached : Reach String (new String "" (pos 1 ∷ [])) called
unfolding step enqueue
called_reached = after (enqueueing "deploy:build" (some "{}")) _ _ ready_reached refl

asked_reached : Reach String (new String "" (pos 1 ∷ [])) asked
unfolding step resolve find_handler pick lookup
asked_reached = after (resolving 0) _ _ called_reached refl

started_reached : Reach String (new String "" (pos 1 ∷ [])) started
unfolding step acquire pick
started_reached = after (acquiring 0) _ _ asked_reached refl

called_again_reached : Reach String (new String "" (pos 1 ∷ [])) called_again
unfolding step enqueue
called_again_reached = after (enqueueing "deploy:build" (some "{}")) _ _ started_reached refl

again_reached : Reach String (new String "" (pos 1 ∷ [])) asked_again
unfolding step resolve find_handler pick lookup
again_reached = after (resolving 0) _ _ called_again_reached refl

-- The only slot is taken.
second_waits : step String (acquiring 0) asked_again ≡ none
unfolding step acquire pick
second_waits = refl

status-active_example : (status String asked_again).active ≤ workers_of (pos 1 ∷ [])
status-active_example = status-active String "" (pos 1 ∷ []) asked_again again_reached

waiting-runs_example :
    Starts String asked_again build_job []
    ⊎ ((q1 : Queue String) × (step String (finishing 0) asked_again ≡ some q1)
        × Starts String q1 build_job [])
waiting-runs_example =
    waiting-runs String "" (pos 1 ∷ []) asked_again build_job [] again_reached refl

-- The queue is closed after a call has been admitted.
abbrev shut : Queue String
shut = record called_again { closed = true }

late_refused : enqueue String shut "deploy:build" (some "{}") ≡ err shut_down
unfolding enqueue
late_refused = refl

abbrev shut_asked : Queue String
shut_asked = record asked_again { closed = true }

abbrev shut_waiting : Queue String
shut_waiting = record shut_asked { running = [] }

-- The task of that call still runs.
abbrev shut_running : Queue String
shut_running = record started { closed = true }

three_moves : Run String shut 3 shut_running
unfolding step resolve find_handler acquire release_slot pick lookup
three_moves =
    more (acquiring 0) 2 shut_waiting _
      (more (finishing 0) 1 shut_asked _ (more (resolving 0) 0 _ _ stop refl) refl) refl

closed-drains_example :
    (shut_running.closed ≡ true) × (3 + work String shut_running ≤ work String shut)
closed-drains_example = closed-drains String shut 3 shut_running refl three_moves
