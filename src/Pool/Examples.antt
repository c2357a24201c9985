-- ===== src/Pool/Examples.antt =====
-- One worker, a queue of one, and two tasks of which one finds the queue full.
use xkit.Prelude.{
  ℕ, ◌≤◌, ◌<◌, ◌≡◌, refl, true, false, none, some, List, [], ◌∷◌, pos, All, length, get_elem?,
  total, inl, inr, Option-cases, err, arith,
}
use xkit.Pool.{
  reading, idle, exited, System, Event, submitted, submit_steps, worker_steps, handler_returns,
  safe_handle, shuts_down, closes_queue, step, step_submit, begin_submit, send_task, work,
  begin_shutdown, close_queue, new_pool, Reach, start, later, validate_new, invalid_queue_size,
}
use xkit.Pool.Invariant.{accepts}
use xkit.Pool.Delivery.{IsExited, done_delivers, submit_never_panics, unfinished, shutdown_ends}

-- The state after a step, where it is possible.
abbrev after : Event ℕ → System ℕ → System ℕ
after e s = elim (step e s) [ none ↦ s | some t ↦ t ]

abbrev run : List (Event ℕ) → System ℕ → System ℕ
run [] s = s
run (e ∷ es) s = run es (after e s)

after-Reach :
    {n size : ℕ} {s : System ℕ} → Reach n size s → (e : Event ℕ) → Reach n size (after e s)
after-Reach {n} {size} {s} r e = elim (Option-cases (step e s)) [
  | inl q ↦ rw (q, after) r
  | inr (t, q) ↦ rw (q, after) (later r e q)
]

run-Reach :
    {n size : ℕ} (es : List (Event ℕ)) {s : System ℕ} → Reach n size s → Reach n size (run es s)
run-Reach [] r = r
run-Reach (e ∷ es) r = run-Reach es (after-Reach r e)

no_queue : validate_new true (pos 1) (pos 0) ≡ err invalid_queue_size
unfolding validate_new
no_queue = refl

-- Task 7 has the read lock when `Shutdown` begins.
racing : System ℕ
racing = run (submitted 7 ∷ submit_steps 0 ∷ shuts_down true ∷ closes_queue ∷ []) (new_pool 1 1)

racing-Reach : Reach 1 1 racing
unfolding racing
racing-Reach = run-Reach (submitted 7 ∷ submit_steps 0 ∷ shuts_down true ∷ closes_queue ∷ []) start

racing_reads : get_elem? racing.submits 0 ≡ some (reading 7)
unfolding racing step step_submit begin_submit begin_shutdown close_queue total
racing_reads = refl

submit_never_panics_example :
    (racing.pool.queue_closed ≡ false) × ((t : System ℕ) × (step (submit_steps 0) racing ≡ some t))
submit_never_panics_example = submit_never_panics racing-Reach 0 7 racing_reads

-- The task goes in, and the queue closes with it inside.
abbrev closing_events : List (Event ℕ)
closing_events = submit_steps 0 ∷ closes_queue ∷ []

closing : System ℕ
unfolding racing
closing = run closing_events racing

closing-Reach : Reach 1 1 closing
unfolding closing
closing-Reach = run-Reach closing_events racing-Reach

closing_shut : closing.pool.queue_closed ≡ true
unfolding closing racing step step_submit begin_submit send_task begin_shutdown close_queue total
closing_shut = refl

closing_idle : get_elem? closing.workers 0 ≡ some idle
unfolding closing racing step step_submit begin_submit send_task begin_shutdown close_queue total
closing_idle = refl

abbrev late : System ℕ
late = after (submitted 8) closing

late-step : step (submitted 8) closing ≡ some late
unfolding step
late-step = refl

shutdown_ends_example :
    (unfinished late ≤ unfinished closing)
    × ((u : System ℕ) × (step (worker_steps 0) closing ≡ some u)
        × (unfinished u < unfinished closing))
shutdown_ends_example =
    shutdown_ends closing-Reach (submitted 8) late 0 idle closing_shut late-step closing_idle
      (omega arith)

-- The worker takes the task, handles it, and leaves.
abbrev draining : List (Event ℕ)
draining = worker_steps 0 ∷ handler_returns 0 ∷ worker_steps 0 ∷ []

drained : System ℕ
unfolding closing
drained = run draining closing

drained-Reach : Reach 1 1 drained
unfolding drained
drained-Reach = run-Reach draining closing-Reach

drained_worker : drained.workers ≡ exited ∷ []
unfolding drained closing racing step step_submit begin_submit send_task work safe_handle
    begin_shutdown close_queue total
drained_worker = refl

drained-IsExited : All IsExited drained.workers
drained-IsExited = rw drained_worker (tt, tt)

drained_first : get_elem? drained.workers 0 ≡ some exited
drained_first = rw drained_worker refl

done_delivers_example :
    (drained.taken ≡ drained.accepted)
    × (drained.handled ≡ length drained.accepted)
    × (total accepts drained.submits ≡ drained.handled)
done_delivers_example = done_delivers drained-Reach 0 drained_first drained-IsExited
