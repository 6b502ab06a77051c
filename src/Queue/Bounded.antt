-- ===== src/Queue/Bounded.antt =====
-- The slots of the queue.
use mathlib.Core.Path.{subst}
use pdai_server_panel.Common.{
  ℕ, ◌≤◌, ◌<◌, ◌++◌, ◌⊎◌, String, Option, none, some, List, [], ◌∷◌, ◌≡◌, refl, arith, length,
  length-append, suc, Option-cases, Result, ok, err, inl, inr, zero, ℤ, pos, negsuc,
}
use pdai_server_panel.Queue.{
  QueueError, Queue, Job, Request, Action, Reach, here, after, step, new, pick, acquire, refuse,
  release_slot, enqueue, register_handler, accepted_job, admit, resolve, find_handler, status,
  workers_of, registering, enqueueing, resolving, acquiring, refusing, finishing, closing,
  signalling,
}

-- What is picked is one element less.
pub pick-length :
    {A : Type 0} (i : ℕ) (xs : List A) {x : A} {rest : List A}
    → pick i xs ≡ some (x, rest)
    → length xs ≡ suc (length rest)
unfolding pick
pick-length i [] h = absurd (ground arith)
pick-length zero (x ∷ xs) h = ground arith
pick-length (suc i) (x ∷ xs) h = elim (Option-cases (pick i xs)) [
  | inl e ↦ absurd (ground arith)
  | inr (p, e) ↦ let k = pick-length i xs e in ground arith
]

module _ (H : Type 0) where
  pub record IsBounded (workers : ℕ) (q : Queue H) : Type 0 where
    pub same : q.workers ≡ workers
    pub bounded : length q.running ≤ workers

  acquire-IsBounded :
      (w : ℕ) (q q' : Queue H) (o : Option (Job H × List (Job H)))
      → IsBounded w q
      → acquire H q o ≡ some q'
      → IsBounded w q'
  unfolding acquire
  acquire-IsBounded w q q' none b h = absurd (ground arith)
  acquire-IsBounded w q q' (some (job, rest)) b h = record {
    same = ground (arith, b.same);
    bounded = ground (arith, b.same, length-append q.running (job ∷ []));
  }

  refuse-IsBounded :
      (w : ℕ) (q q' : Queue H) (o : Option (Job H × List (Job H)))
      → IsBounded w q
      → refuse H q o ≡ some q'
      → IsBounded w q'
  unfolding refuse
  refuse-IsBounded w q q' none b h = absurd (ground arith)
  refuse-IsBounded w q q' (some (job, rest)) b h = record {
    same = ground (arith, b.same);
    bounded = ground (arith, b.bounded);
  }

  accepted-IsBounded :
      (w : ℕ) (q q' : Queue H) (r : Result QueueError (Job H))
      → IsBounded w q
      → accepted_job H q r ≡ q'
      → IsBounded w q'
  accepted-IsBounded w q q' (err e) b h = subst (IsBounded w) h b
  accepted-IsBounded w q q' (ok job) b h =
      subst (IsBounded w) h (record { same = b.same; bounded = b.bounded })

  admit-IsBounded :
      (w : ℕ) (q q' : Queue H) (r : Result QueueError (Request H))
      → IsBounded w q
      → admit H q r ≡ q'
      → IsBounded w q'
  admit-IsBounded w q q' (err e) b h = subst (IsBounded w) h b
  admit-IsBounded w q q' (ok r) b h =
      subst (IsBounded w) h (record { same = b.same; bounded = b.bounded })

  resolve-IsBounded :
      (w : ℕ) (q q' : Queue H) (o : Option (Request H × List (Request H)))
      → IsBounded w q
      → resolve H q o ≡ some q'
      → IsBounded w q'
  unfolding resolve
  resolve-IsBounded w q q' none b h = absurd (ground arith)
  resolve-IsBounded w q q' (some (r, rest)) b h =
      accepted-IsBounded w (record q { admitted = rest }) q' (find_handler H q r)
        (record { same = b.same; bounded = b.bounded }) (ground (arith, h))

  step-IsBounded :
      (w : ℕ) (a : Action H) (q q' : Queue H)
      → IsBounded w q
      → step H a q ≡ some q'
      → IsBounded w q'
  unfolding step register_handler release_slot
  step-IsBounded w (registering ty f) q q' b h = record {
    same = ground (arith, b.same);
    bounded = ground (arith, b.bounded);
  }
  step-IsBounded w (enqueueing ty payload) q q' b h =
      admit-IsBounded w q q' (enqueue H q ty payload) b (ground arith)
  step-IsBounded w (resolving i) q q' b h = resolve-IsBounded w q q' (pick i q.admitted) b h
  step-IsBounded w (acquiring i) q q' b h = acquire-IsBounded w q q' (pick i q.waiting) b h
  step-IsBounded w (refusing i) q q' b h = refuse-IsBounded w q q' (pick i q.waiting) b h
  step-IsBounded w (finishing i) q q' b h = elim (Option-cases (pick i q.running)) [
    | inl e ↦ absurd (ground arith)
    | inr (p, e) ↦ record {
      same = ground (arith, b.same);
      bounded = ground (arith, b.bounded, pick-length i q.running e);
    }
  ]
  step-IsBounded w closing q q' b h = record {
    same = ground (arith, b.same);
    bounded = ground (arith, b.bounded);
  }
  step-IsBounded w signalling q q' b h = record {
    same = ground (arith, b.same);
    bounded = ground (arith, b.bounded);
  }

  workers_of-positive : (ns : List ℤ) → 0 < workers_of ns
  workers_of-positive [] = omega arith
  workers_of-positive (pos n ∷ ns) = ground arith
  workers_of-positive (negsuc n ∷ ns) = omega arith

  Reach-IsBounded :
      (addr : String) (max_workers : List ℤ) (q : Queue H)
      → Reach H (new H addr max_workers) q
      → IsBounded (workers_of max_workers) q
  unfolding new
  Reach-IsBounded addr ns _ here = record { same = refl; bounded = omega arith }
  Reach-IsBounded addr ns _ (after a q q' r h) =
      step-IsBounded (workers_of ns) a q q' (Reach-IsBounded addr ns q r) h

  -- However calls and tasks are interleaved, a queue never runs more tasks than it was made for.
  pub status-active :
      (addr : String) (max_workers : List ℤ) (q : Queue H)
      → Reach H (new H addr max_workers) q
      → (status H q).active ≤ workers_of max_workers
  unfolding status
  status-active addr ns q r = (Reach-IsBounded addr ns q r).bounded

  -- The first waiting call takes a slot and its task runs.
  abbrev pub Starts : Queue H → Job H → List (Job H) → Type 0
  Starts q job rest =
      (q' : Queue H) × (step H (acquiring 0) q ≡ some q')
      × (q'.running ≡ q.running ++ job ∷ [])
      × (q'.waiting ≡ rest)

  starts :
      (q : Queue H) (job : Job H) (rest : List (Job H))
      → q.waiting ≡ job ∷ rest
      → length q.running < q.workers
      → Starts q job rest
  unfolding step acquire pick
  starts q job rest e free = (
    record q { waiting = rest; running = q.running ++ job ∷ [] },
    rw e (ground (arith, free)),
    refl,
    refl,
  )

  -- In a queue that has been made by `New`, and in which a call of `Enqueue` waits: either the first
  -- such call can take a slot at once, or a task runs, and when it has ended, the call can.
  pub waiting-runs :
      (addr : String) (max_workers : List ℤ) (q : Queue H) (job : Job H) (rest : List (Job H))
      → Reach H (new H addr max_workers) q
      → q.waiting ≡ job ∷ rest
      → Starts q job rest
        ⊎ ((q1 : Queue H) × (step H (finishing 0) q ≡ some q1) × Starts q1 job rest)
  unfolding step release_slot pick
  waiting-runs addr ns q job rest r e = go q.running refl
    where
      b : IsBounded (workers_of ns) q
      b = Reach-IsBounded addr ns q r

      go :
          (rs : List (Job H))
          → q.running ≡ rs
          → Starts q job rest
            ⊎ ((q1 : Queue H) × (step H (finishing 0) q ≡ some q1) × Starts q1 job rest)
      go [] f = inl (starts q job rest e (rw f (ground (arith, b.same, workers_of-positive ns))))
      go (y ∷ ys) f =
          let full : length (y ∷ ys) ≤ q.workers =
            subst (λ xs. length xs ≤ q.workers) f (ground (arith, b.bounded, b.same)) in
          inr (
            record q { running = ys },
            rw f refl,
            starts (record q { running = ys }) job rest e (ground (arith, full)),
          )
