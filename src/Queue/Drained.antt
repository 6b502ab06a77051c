-- ===== src/Queue/Drained.antt =====
-- The queue after a shutdown.
use mathlib.Core.Path.{subst}
use pdai_server_panel.Common.{
  ℕ, ◌+◌, ◌*◌, ◌≤◌, ◌≡◌, true, some, [], ◌∷◌, arith, length, length-append, Option-cases, inl, inr,
  Result, ok, err,
}
use pdai_server_panel.Queue.{
  Queue, Action, step, pick, acquire, refuse, release_slot, enqueue, register_handler, accepted_job,
  resolve, find_handler, Job, QueueError, registering, enqueueing, resolving, acquiring, refusing,
  finishing, closing, signalling,
}
use pdai_server_panel.Queue.Bounded.{pick-length}

module _ (H : Type 0) where
  -- An admitted call has three moves left, a waiting one two, a running task one.
  abbrev pub work : Queue H → ℕ
  work q = 3 * length q.admitted + 2 * length q.waiting + length q.running

  -- The actions that serve a call or a task.
  abbrev pub moves : Action H → ℕ
  moves (resolving i) = 1
  moves (acquiring i) = 1
  moves (refusing i) = 1
  moves (finishing i) = 1
  moves (registering ty h) = 0
  moves (enqueueing ty payload) = 0
  moves closing = 0
  moves signalling = 0

  -- Steps from a queue to another, with the number of those that serve a call or a task.
  pub data Run (begin : Queue H) : ℕ → Queue H → Type 0 where
    stop : Run begin 0 begin
    more :
        (a : Action H) (n : ℕ) (q q' : Queue H)
        → Run begin n q
        → step H a q ≡ some q'
        → Run begin (n + moves a) q'

  record IsDraining (n : ℕ) (q q' : Queue H) : Type 0 where
    closed : q'.closed ≡ true
    less : n + work q' ≤ work q

  acquire-IsDraining :
      (i : ℕ) (q q' : Queue H)
      → q.closed ≡ true
      → acquire H q (pick i q.waiting) ≡ some q'
      → IsDraining 1 q q'
  unfolding acquire
  acquire-IsDraining i q q' c h = elim (Option-cases (pick i q.waiting)) [
    | inl e ↦ absurd (ground arith)
    | inr (p, e) ↦ record {
      closed = ground arith;
      less = ground (arith, pick-length i q.waiting e, length-append q.running (p.0 ∷ []));
    }
  ]

  accepted-IsDraining :
      (q q' : Queue H) (r : Result QueueError (Job H))
      → q.closed ≡ true
      → accepted_job H q r ≡ q'
      → (q'.closed ≡ true) × (work q' ≤ work q + 2)
  accepted-IsDraining q q' (err e) c h =
      subst (λ (x : Queue H). (x.closed ≡ true) × (work x ≤ work q + 2)) h (c, omega arith)
  accepted-IsDraining q q' (ok job) c h =
      subst (λ (x : Queue H). (x.closed ≡ true) × (work x ≤ work q + 2)) h
        (c, ground (arith, length-append q.waiting (job ∷ [])))

  resolve-IsDraining :
      (i : ℕ) (q q' : Queue H)
      → q.closed ≡ true
      → resolve H q (pick i q.admitted) ≡ some q'
      → IsDraining 1 q q'
  unfolding resolve
  resolve-IsDraining i q q' c h = elim (Option-cases (pick i q.admitted)) [
    | inl e ↦ absurd (ground arith)
    | inr ((r, rest), e) ↦
        let k : some (accepted_job H (record q { admitted = rest }) (find_handler H q r))
            ≡ some q' =
          rw e at h in
        let d =
          accepted-IsDraining (record q { admitted = rest }) q' (find_handler H q r) c
            (ground (arith, k)) in
        record { closed = d.0; less = ground (arith, d.1, pick-length i q.admitted e) }
  ]

  step-IsDraining :
      (a : Action H) (q q' : Queue H)
      → q.closed ≡ true
      → step H a q ≡ some q'
      → IsDraining (moves a) q q'
  unfolding step register_handler release_slot refuse enqueue
  step-IsDraining (registering ty f) q q' c h = record {
    closed = ground arith;
    less = ground arith;
  }
  step-IsDraining (enqueueing ty payload) q q' c h = record {
    closed = ground arith;
    less = ground arith;
  }
  step-IsDraining (resolving i) q q' c h = resolve-IsDraining i q q' c h
  step-IsDraining (acquiring i) q q' c h = acquire-IsDraining i q q' c h
  step-IsDraining (refusing i) q q' c h = elim (Option-cases (pick i q.waiting)) [
    | inl e ↦ absurd (ground arith)
    | inr (p, e) ↦ record {
      closed = ground arith;
      less = ground (arith, pick-length i q.waiting e);
    }
  ]
  step-IsDraining (finishing i) q q' c h = elim (Option-cases (pick i q.running)) [
    | inl e ↦ absurd (ground arith)
    | inr (p, e) ↦ record {
      closed = ground arith;
      less = ground (arith, pick-length i q.running e);
    }
  ]
  step-IsDraining closing q q' c h = record { closed = ground arith; less = ground arith }
  step-IsDraining signalling q q' c h = record { closed = ground arith; less = ground arith }

  -- Once `closed` is stored, the queue stays closed and admits no more calls: at most three moves for
  -- each call that has been admitted before, two for each that waits and one for each task that runs
  -- are left, whatever is called meanwhile. A call that was admitted may still run its task.
  pub closed-drains :
      (begin : Queue H) (n : ℕ) (q : Queue H)
      → begin.closed ≡ true
      → Run begin n q
      → (q.closed ≡ true) × (n + work q ≤ work begin)
  closed-drains begin _ _ c stop = (c, omega arith)
  closed-drains begin _ _ c (more a n q q' r h) =
      let k = closed-drains begin n q c r in
      let d = step-IsDraining a q q' k.0 h in (d.closed, omega (arith, k.1, d.less))
