-- ===== src/Pool.antt =====
-- pkg/util/xpool/pool.go: the worker pool under any interleaving of its submitters, its workers and
-- the callers of `Shutdown`. A handler ends by an event of its own, when it returns or `safeHandle`
-- recovers its panic; one that never does has no such event. The parts of `System` that are not the pool's own, namely the submitters, the
-- workers, and the logs of the accepted, taken and handled tasks, are what the theorems speak of.
pub mod Invariant
pub mod Workers
pub mod Delivery
mod Examples
use xkit.Prelude.{
  ℕ, zero, suc, ◌+◌, ◌-◌, ◌<◌, ◌≡◌, Bool, true, false, not, ◌&&◌, ◌||◌, ◌==◌, leb, ltb, Option,
  none, some, List, [], ◌∷◌, ◌++◌, ℤ, pos, leb_ℤ, ltb_ℤ, length, get_elem?, set, total,
  if◌then◌else◌, Result, ok, err,
}

pub data Error : Type 0 where
  nil_context nil_handler invalid_workers invalid_queue_size pool_stopped queue_full : Error
  context_error : Error

abbrev pub max_workers : ℤ
max_workers = pos 65536

abbrev pub max_queue_size : ℤ
max_queue_size = pos 16777216

-- The tests of `New`.
unfoldable pub validate_new : Bool → ℤ → ℤ → Result Error Unit
validate_new has_handler workers queue_size =
    if not has_handler
    then err nil_handler
    else if ltb_ℤ workers (pos 1) || ltb_ℤ max_workers workers
    then err invalid_workers
    else if ltb_ℤ queue_size (pos 1) || ltb_ℤ max_queue_size queue_size
    then err invalid_queue_size
    else ok tt

-- The pool: its channel, whether that is closed, and the flag `closed`.
pub record Pool (T : Type 0) : Type 0 where
  pub queue_size : ℕ
  pub queue : List T
  pub queue_closed : Bool
  pub closed : Bool

-- A call of `Submit`: before it has the read lock, between its test of `closed` and the send, with
-- the lock held, and at its end.
pub data Submit (T : Type 0) : Type 0 where
  submitting : T → Submit T
  reading : T → Submit T
  answered : Result Error Unit → Submit T

-- A worker takes the next task, handles one, or has left its loop.
pub data Worker (T : Type 0) : Type 0 where
  idle : Worker T
  busy : T → Worker T
  exited : Worker T

pub record System (T : Type 0) : Type 0 where
  pub pool : Pool T
  pub submits : List (Submit T)
  pub workers : List (Worker T)
  pub accepted : List T
  pub taken : List T
  pub handled : ℕ

pub data Event (T : Type 0) : Type 0 where
  submitted : T → Event T
  submit_steps worker_steps handler_returns : ℕ → Event T
  shuts_down : Bool → Event T
  closes_queue : Event T

module _ {T : Type 0} where
  abbrev pub replicate : ℕ → List (Worker T)
  replicate zero = []
  replicate (suc n) = idle ∷ replicate n

  -- `New`, with arguments that passed its tests.
  abbrev pub new_pool : ℕ → ℕ → System T
  new_pool workers queue_size = record {
    pool = record { queue_size = queue_size; queue = []; queue_closed = false; closed = false };
    submits = [];
    workers = replicate workers;
    accepted = [];
    taken = [];
    handled = 0;
  }

  -- `Submit` from its read lock to its test of `closed`, which it passes or which ends it.
  unfoldable pub begin_submit : T → Pool T → Submit T
  begin_submit task p = if p.closed then answered (err pool_stopped) else reading task

  -- The `select` of `Submit`, and the end of its read lock. A send on a closed channel would panic,
  -- and gives no result here.
  unfoldable pub send_task : T → Pool T → Option (Result Error Unit × Pool T)
  send_task task p =
      if p.queue_closed
      then none
      else if ltb (length p.queue) p.queue_size
      then some (ok tt, record p { queue = p.queue ++ task ∷ [] })
      else some (err queue_full, p)

  -- The loop of a worker: its next step of its own. While it handles a task it has none: it waits for
  -- the handler, which may never return.
  unfoldable pub work : Worker T → Pool T → Option (Worker T × Pool T)
  work idle p = elim p.queue [
    | [] ↦ if p.queue_closed then some (exited, p) else none
    | task ∷ rest ↦ some (busy task, record p { queue = rest })
  ]
  work (busy task) p = none
  work exited p = none

  -- The end of `safeHandle`, when the handler returns or its panic is recovered.
  unfoldable pub safe_handle : Worker T → Pool T → Option (Worker T × Pool T)
  safe_handle (busy task) p = some (idle, p)
  safe_handle _ p = none

  -- `Shutdown` up to its swap of `closed`.
  unfoldable pub begin_shutdown : Bool → Pool T → Result Error Unit × Pool T
  begin_shutdown has_context p =
      if not has_context
      then (err nil_context, p)
      else if p.closed
      then (err pool_stopped, p)
      else (ok tt, record p { closed = true })

  -- 1 for a call of `Submit` that has the read lock.
  abbrev pub reads : Submit T → ℕ
  reads (reading task) = 1
  reads _ = 0

  -- `close(p.queue)`, under the write lock, which waits for the readers.
  unfoldable pub close_queue : List (Submit T) → Pool T → Option (Pool T)
  close_queue submits p =
      if p.closed && not p.queue_closed && total reads submits == 0
      then some (record p { queue_closed = true })
      else none

  -- What the logs add at a step of a worker.
  abbrev pub taken_by : Worker T → List T
  taken_by (busy task) = task ∷ []
  taken_by _ = []

  abbrev pub finished_by : Worker T → ℕ
  finished_by (busy task) = 1
  finished_by _ = 0

  abbrev pub after_send : System T → ℕ → T → Option (Result Error Unit × Pool T) → Option (System T)
  after_send s i task none = none
  after_send s i task (some (ok _, p)) = some (record s {
    pool = p;
    submits = set s.submits i (answered (ok tt));
    accepted = s.accepted ++ task ∷ [];
  })
  after_send s i task (some (err x, p)) =
      some (record s { pool = p; submits = set s.submits i (answered (err x)) })

  unfoldable pub step_submit : System T → ℕ → Submit T → Option (System T)
  step_submit s i (submitting task) =
      some (record s { submits = set s.submits i (begin_submit task s.pool) })
  step_submit s i (reading task) = after_send s i task (send_task task s.pool)
  step_submit s i (answered r) = none

  abbrev pub after_work : System T → ℕ → Worker T → Option (Worker T × Pool T) → Option (System T)
  after_work s i w none = none
  after_work s i w (some (w', p)) = some (record s {
    pool = p;
    workers = set s.workers i w';
    taken = s.taken ++ taken_by w';
    handled = s.handled + finished_by w;
  })

  unfoldable pub step : Event T → System T → Option (System T)
  step (submitted task) s = some (record s { submits = s.submits ++ submitting task ∷ [] })
  step (submit_steps i) s = elim (get_elem? s.submits i) [
    | none ↦ none
    | some c ↦ step_submit s i c
  ]
  step (worker_steps i) s = elim (get_elem? s.workers i) [
    | none ↦ none
    | some w ↦ after_work s i w (work w s.pool)
  ]
  step (handler_returns i) s = elim (get_elem? s.workers i) [
    | none ↦ none
    | some w ↦ after_work s i w (safe_handle w s.pool)
  ]
  step (shuts_down has_context) s = some (record s { pool = (begin_shutdown has_context s.pool).1 })
  step closes_queue s = elim (close_queue s.submits s.pool) [
    | none ↦ none
    | some p ↦ some (record s { pool = p })
  ]

-- The states that a pool of `n` workers can come to.
pub data Reach {T : Type 0} (n size : ℕ) : System T → Type 0 where
  start : Reach n size (new_pool n size)
  later : {s t : System T} → Reach n size s → (e : Event T) → step e s ≡ some t → Reach n size t
