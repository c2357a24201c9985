-- ===== src/Pool/Delivery.antt =====
-- What the pool promises: every accepted task is handled, in order, and a closed pool comes to rest.
use mathlib.Core.List.{append-nil}
use xkit.Prelude.{
  ℕ, ◌+◌, ◌*◌, ◌≤◌, ◌<◌, ◌≡◌, refl, sym, ap, ◌∙◌, true, false, ltb, Option, none, some, List, [],
  ◌∷◌, ◌++◌, All, length, get_elem?, set, total, total-set, total-get, arith, Bool-cases, inl, inr,
  ok, err, some_injective,
}
use xkit.Pool.{
  queue_full, Pool, Submit, submitting, reading, answered, Worker, idle, busy, exited, System,
  Event, submitted, submit_steps, worker_steps, handler_returns, safe_handle, shuts_down,
  closes_queue, send_task, work, begin_shutdown, reads, close_queue, taken_by, finished_by,
  step_submit, step, Reach,
}
use xkit.Pool.Invariant.{accepts, exits, open_while_reading}
use xkit.Pool.Workers.{Reach-Inv}

module _ {T : Type 0} where
  abbrev pub IsExited : Worker T → Type 0
  IsExited exited = Unit
  IsExited _ = ⊥

  total-exited : (ws : List (Worker T)) → All IsExited ws → total finished_by ws ≡ 0
  unfolding total
  total-exited [] h = refl
  total-exited (exited ∷ ws) h = omega (arith, total-exited ws h.1)
  total-exited (idle ∷ ws) h = absurd h.0
  total-exited (busy task ∷ ws) h = absurd h.0

  -- Where every worker has exited, and there is one, which is when the channel of `Done` closes:
  -- the tasks were taken in the order in which they were accepted, each was handled, and there were
  -- as many as calls of `Submit` that answered nil.
  pub done_delivers :
      {n size : ℕ} {s : System T}
      → Reach n size s
      → (i : ℕ) → get_elem? s.workers i ≡ some exited
      → All IsExited s.workers
      → (s.taken ≡ s.accepted)
        × (s.handled ≡ length s.accepted)
        × (total accepts s.submits ≡ s.handled)
  done_delivers {n} {size} {s} r i here all =
      let h = Reach-Inv r in
      let (shut, empty) = h.drained (omega (arith, total-get exits s.workers i exited here)) in
      let taken : s.taken ≡ s.accepted =
        sym (append-nil s.taken) ∙ ap (λ (q : List T). s.taken ++ q) (sym empty) ∙ h.fifo in
      (
        taken,
        omega (arith, h.in_hand, total-exited s.workers all, ap length taken),
        omega (arith, h.in_hand, h.answers, total-exited s.workers all, ap length taken),
      )

  -- In every reachable state the tasks that were taken and those that wait in the queue are the
  -- accepted ones, in order, and no more wait than the queue may hold.
  pub queue_is_fifo :
      {n size : ℕ} {s : System T}
      → Reach n size s
      → (s.taken ++ s.pool.queue ≡ s.accepted) × (length s.pool.queue ≤ s.pool.queue_size)
  queue_is_fifo r = ((Reach-Inv r).fifo, (Reach-Inv r).bound)

  -- `Submit` never sends on a closed channel and never waits: where a call is between its test of
  -- `closed` and its send, in a reachable state, its next step exists, whatever `Shutdown` does.
  pub submit_never_panics :
      {n size : ℕ} {s : System T}
      → Reach n size s
      → (i : ℕ) (task : T) → get_elem? s.submits i ≡ some (reading task)
      → (s.pool.queue_closed ≡ false) × ((t : System T) × (step (submit_steps i) s ≡ some t))
  unfolding step step_submit send_task
  submit_never_panics {n} {size} {s} r i task here =
      let alive = open_while_reading s (Reach-Inv r) i task here in
      (
        alive,
        elim (Bool-cases (ltb (length s.pool.queue) s.pool.queue_size)) [
          | inl room ↦ (
            record s {
              pool = record s.pool { queue = s.pool.queue ++ task ∷ [] };
              submits = set s.submits i (answered (ok tt));
              accepted = s.accepted ++ task ∷ [];
            },
            rw (here, step) (rw (alive, room) refl),
          )
          | inr full ↦ (
            record s { submits = set s.submits i (answered (err queue_full)) },
            rw (here, step) (rw (alive, full) refl),
          )
        ],
      )

  -- The steps that a worker has still to make with what it has.
  abbrev pub rounds : Worker T → ℕ
  rounds idle = 1
  rounds (busy task) = 2
  rounds exited = 0

  abbrev pub unfinished : System T → ℕ
  unfinished s = 2 * length s.pool.queue + total rounds s.workers

  -- A worker's step of which the queue and the worker are known.
  module _ (s : System T) (i : ℕ) (w w' : Worker T) (queue : List T) where
    abbrev stepped : System T
    stepped = record s {
      pool = record s.pool { queue = queue };
      workers = set s.workers i w';
      taken = s.taken ++ taken_by w';
      handled = s.handled + finished_by w;
    }

    stepped-unfinished :
        get_elem? s.workers i ≡ some w
        → 2 * length queue + rounds w' < 2 * length s.pool.queue + rounds w
        → unfinished stepped < unfinished s
    stepped-unfinished here less = omega (arith, total-set rounds s.workers i w w' here)

  work-empty : (p : Pool T) → p.queue ≡ [] → p.queue_closed ≡ true → work idle p ≡ some (exited, p)
  unfolding work
  work-empty p e shut = ground arith

  work-next :
      (p : Pool T) (task : T) (rest : List T)
      → p.queue ≡ task ∷ rest
      → work idle p ≡ some (busy task, record p { queue = rest })
  unfolding work
  work-next p task rest e = rw (e, work)

  safe_handle-busy : (p : Pool T) (task : T) → safe_handle (busy task) p ≡ some (idle, p)
  unfolding safe_handle
  safe_handle-busy p task = refl

  -- What a worker goes on by: the return of its handler, or a step of its own.
  abbrev pub next_event : ℕ → Worker T → Event T
  next_event i (busy task) = handler_returns i
  next_event i _ = worker_steps i

  -- Of a closed queue, every worker that has not exited goes on, which brings the end nearer.
  worker_progress :
      (s : System T) (i : ℕ) (w : Worker T)
      → s.pool.queue_closed ≡ true
      → get_elem? s.workers i ≡ some w
      → 0 < rounds w
      → (t : System T) × (step (next_event i w) s ≡ some t) × (unfinished t < unfinished s)
  unfolding step
  worker_progress s i idle shut here p = on_queue s.pool.queue refl
    where
      on_queue :
          (q : List T)
          → s.pool.queue ≡ q
          → (t : System T) × (step (worker_steps i) s ≡ some t) × (unfinished t < unfinished s)
      on_queue [] e = (
        stepped s i idle exited s.pool.queue,
        rw (here, step) (rw (work-empty s.pool e shut) refl),
        stepped-unfinished s i idle exited s.pool.queue here (omega arith),
      )
      on_queue (task ∷ rest) e = (
        stepped s i idle (busy task) rest,
        rw (here, step) (rw (work-next s.pool task rest e) refl),
        stepped-unfinished s i idle (busy task) rest here (omega (arith, ap length e)),
      )
  worker_progress s i (busy task) shut here p = (
    stepped s i (busy task) idle s.pool.queue,
    rw (here, step) (rw (safe_handle-busy s.pool task) refl),
    stepped-unfinished s i (busy task) idle s.pool.queue here (omega arith),
  )
  worker_progress s i exited shut here p = absurd (omega arith)

  -- With no reader, no submission adds to what is unfinished.
  module _ (s t : System T) where
    submit-unfinished :
        (i : ℕ) (c : Submit T)
        → total reads s.submits ≡ 0
        → get_elem? s.submits i ≡ some c
        → step_submit s i c ≡ some t
        → unfinished t ≤ unfinished s
    unfolding step_submit
    submit-unfinished i (submitting task) none_reads here q = ground arith
    submit-unfinished i (reading task) none_reads here q =
        absurd (omega (arith, total-get reads s.submits i (reading task) here))
    submit-unfinished i (answered r) none_reads here q = absurd (cc)

    exited_stuck : (i : ℕ) → get_elem? s.workers i ≡ some exited → step (worker_steps i) s ≡ none
    unfolding step work
    exited_stuck i e = rw (e, step) refl

    busy_waits :
        (i : ℕ) (task : T)
        → get_elem? s.workers i ≡ some (busy task)
        → step (worker_steps i) s ≡ none
    unfolding step work
    busy_waits i task e = rw (e, step) refl

    not_handling :
        (i : ℕ) (w : Worker T)
        → get_elem? s.workers i ≡ some w
        → safe_handle w s.pool ≡ none
        → step (handler_returns i) s ≡ none
    unfolding step
    not_handling i w e h = rw (e, step) (rw h refl)

    again-unfinished :
        (i : ℕ) (w : Worker T)
        → s.pool.queue_closed ≡ true
        → get_elem? s.workers i ≡ some w
        → 0 < rounds w
        → step (next_event i w) s ≡ some t
        → unfinished t ≤ unfinished s
    again-unfinished i w shut here p q =
        let (u, q', less) = worker_progress s i w shut here p in
        let same : u ≡ t = some_injective u t (sym q' ∙ q) in
        omega (arith, less, ap (λ (v : System T). unfinished v) same)

    worker-unfinished :
        (i : ℕ) (w : Worker T)
        → s.pool.queue_closed ≡ true
        → get_elem? s.workers i ≡ some w
        → step (worker_steps i) s ≡ some t
        → unfinished t ≤ unfinished s
    worker-unfinished i exited shut here q = absurd (cc (exited_stuck i here))
    worker-unfinished i idle shut here q = again-unfinished i idle shut here (omega arith) q
    worker-unfinished i (busy task) shut here q = absurd (cc (busy_waits i task here))

    handler-unfinished :
        (i : ℕ) (w : Worker T)
        → s.pool.queue_closed ≡ true
        → get_elem? s.workers i ≡ some w
        → step (handler_returns i) s ≡ some t
        → unfinished t ≤ unfinished s
    unfolding step safe_handle
    handler-unfinished i idle shut here q = absurd (cc (not_handling i idle here refl))
    handler-unfinished i exited shut here q = absurd (cc (not_handling i exited here refl))
    handler-unfinished i (busy task) shut here q =
        again-unfinished i (busy task) shut here (omega arith) q

    event-unfinished :
        (e : Event T)
        → total reads s.submits ≡ 0
        → s.pool.queue_closed ≡ true
        → step e s ≡ some t
        → unfinished t ≤ unfinished s
    unfolding step begin_shutdown close_queue
    event-unfinished (submitted task) none_reads shut q = ground arith
    event-unfinished (submit_steps i) none_reads shut q = found (get_elem? s.submits i) refl q
      where
        found :
            (f : Option (Submit T))
            → get_elem? s.submits i ≡ f
            → elim f [ none ↦ none | some c ↦ step_submit s i c ] ≡ some t
            → unfinished t ≤ unfinished s
        found none e p = absurd (cc)
        found (some c) e p = submit-unfinished i c none_reads e p
    event-unfinished (worker_steps i) none_reads shut q = found (get_elem? s.workers i) refl
      where
        found : (f : Option (Worker T)) → get_elem? s.workers i ≡ f → unfinished t ≤ unfinished s
        found none e = absurd (cc (stuck e))
          where
            stuck : get_elem? s.workers i ≡ none → step (worker_steps i) s ≡ none
            stuck e = rw (e, step) refl
        found (some w) e = worker-unfinished i w shut e q
    event-unfinished (handler_returns i) none_reads shut q = found (get_elem? s.workers i) refl
      where
        found : (f : Option (Worker T)) → get_elem? s.workers i ≡ f → unfinished t ≤ unfinished s
        found none e = absurd (cc (stuck e))
          where
            stuck : get_elem? s.workers i ≡ none → step (handler_returns i) s ≡ none
            stuck e = rw (e, step) refl
        found (some w) e = handler-unfinished i w shut e q
    event-unfinished (shuts_down b) none_reads shut q = ground arith
    event-unfinished closes_queue none_reads shut q = ground arith

  -- Shutdown ends where handlers return: once the queue is closed, in a reachable state, no step of
  -- anyone adds to what is unfinished (two steps for a task that waits, two for a worker that handles
  -- one, one for an idle worker); every worker that is idle has a step of its own, and one that handles
  -- a task goes on when its handler returns, each of which lessens what is unfinished. So after no
  -- more than that many steps, of which some are returns of handlers, all workers have exited.
  pub shutdown_ends :
      {n size : ℕ} {s : System T}
      → Reach n size s
      → (e : Event T) (t : System T) (i : ℕ) (w : Worker T) → s.pool.queue_closed ≡ true
      → step e s ≡ some t
      → get_elem? s.workers i ≡ some w
      → 0 < rounds w
      → (unfinished t ≤ unfinished s)
        × ((u : System T) × (step (next_event i w) s ≡ some u) × (unfinished u < unfinished s))
  shutdown_ends {n} {size} {s} r e t i w shut q here p = (
    event-unfinished s t e ((Reach-Inv r).no_reader shut) shut q,
    worker_progress s i w shut here p,
  )
