-- ===== src/Pool/Workers.antt =====
-- The steps of the workers and of `Shutdown`, and every reachable state.
use mathlib.Core.List.{append_assoc, append-nil}
use xkit.Prelude.{
  ℕ, zero, suc, ◌+◌, ◌≡◌, refl, ap, subst, ◌∙◌, Bool, true, not, ◌&&◌, ◌==◌, ltb, Option, none,
  some, List, [], ◌∷◌, ◌++◌, length, length-append, get_elem?, set, total, total-set, if◌then◌else◌,
  arith, Result, some_injective, if-elim,
}
use xkit.Pool.{
  Error, Pool, Submit, submitting, reading, answered, Worker, idle, busy, exited, System, Event,
  submitted, submit_steps, worker_steps, handler_returns, safe_handle, shuts_down, closes_queue,
  send_task, work, begin_shutdown, reads, close_queue, taken_by, finished_by, after_send,
  step_submit, after_work, step, new_pool, replicate, Reach, start, later,
}
use xkit.Pool.Invariant.{Inv, exits, submitted-Inv, begin_submit-Inv, accept-Inv, refuse-Inv}

module _ {T : Type 0} where
  -- The invariant after a step, if there is one.
  abbrev After : Option (System T) → Type 0
  After none = Unit
  After (some s) = Inv s

  module _ (s : System T) (h : Inv s) (i : ℕ) where
    open h use {fifo, bound, answers, in_hand, no_reader, shut, drained}

    -- The state after a worker's step.
    abbrev moved : Worker T → Worker T → List T → System T
    moved w w' queue = record s {
      pool = record s.pool { queue = queue };
      workers = set s.workers i w';
      taken = s.taken ++ taken_by w';
      handled = s.handled + finished_by w;
    }

    take-Inv :
        (task : T) (rest : List T)
        → get_elem? s.workers i ≡ some idle
        → s.pool.queue ≡ task ∷ rest
        → Inv (moved idle (busy task) rest)
    take-Inv task rest here q = record {
      fifo = append_assoc s.taken (task ∷ []) rest ∙ rw (← q) fifo;
      bound = omega (arith, bound, ap length q);
      answers = answers;
      in_hand = omega (
        arith,
        in_hand,
        length-append s.taken (task ∷ []),
        total-set finished_by s.workers i idle (busy task) here,
      );
      no_reader = no_reader;
      shut = shut;
      drained = λ p.
          absurd (ground (arith, drained, q, total-set exits s.workers i idle (busy task) here));
    }

    exit-Inv :
        get_elem? s.workers i ≡ some idle
        → s.pool.queue ≡ []
        → s.pool.queue_closed ≡ true
        → Inv (moved idle exited s.pool.queue)
    exit-Inv here q c = record {
      fifo = rw (append-nil s.taken) fifo;
      bound = bound;
      answers = answers;
      in_hand = omega (
        arith,
        in_hand,
        length-append s.taken [],
        total-set finished_by s.workers i idle exited here,
      );
      no_reader = no_reader;
      shut = shut;
      drained = λ p. (c, q);
    }

    finish-Inv :
        (task : T)
        → get_elem? s.workers i ≡ some (busy task)
        → Inv (moved (busy task) idle s.pool.queue)
    finish-Inv task here = record {
      fifo = rw (append-nil s.taken) fifo;
      bound = bound;
      answers = answers;
      in_hand = omega (
        arith,
        in_hand,
        length-append s.taken [],
        total-set finished_by s.workers i (busy task) idle here,
      );
      no_reader = no_reader;
      shut = shut;
      drained = λ p. drained (omega (arith, total-set exits s.workers i (busy task) idle here));
    }

    worker-After :
        (w : Worker T) → get_elem? s.workers i ≡ some w → After (after_work s i w (work w s.pool))
    unfolding work
    worker-After idle here = on_queue s.pool.queue refl
      where
        on_queue :
            (q : List T)
            → s.pool.queue ≡ q
            → After (
                after_work s i idle (elim q [
                  | [] ↦ if s.pool.queue_closed then some (exited, s.pool) else none
                  | task ∷ rest ↦ some (busy task, record s.pool { queue = rest })
                ]))
        on_queue [] e =
            if-elim (λ r. After (after_work s i idle r)) s.pool.queue_closed _ _
              (λ c. exit-Inv here e c) (λ _. tt)
        on_queue (task ∷ rest) e = take-Inv task rest here e
    worker-After (busy task) here = tt
    worker-After exited here = tt

    handler-After :
        (w : Worker T)
        → get_elem? s.workers i ≡ some w
        → After (after_work s i w (safe_handle w s.pool))
    unfolding safe_handle
    handler-After idle here = tt
    handler-After (busy task) here = finish-Inv task here
    handler-After exited here = tt

    submit-After : (c : Submit T) → get_elem? s.submits i ≡ some c → After (step_submit s i c)
    unfolding step_submit send_task
    submit-After (submitting task) here = begin_submit-Inv s h i task here
    submit-After (reading task) here =
        if-elim (λ r. After (after_send s i task r)) s.pool.queue_closed _ _ (λ _. tt)
          (λ _.
            if-elim (λ r. After (after_send s i task r))
              (ltb (length s.pool.queue) s.pool.queue_size) _ _
              (λ room. accept-Inv s h i task here room) (λ _. refuse-Inv s h i task here _))
    submit-After (answered r) here = tt

  shutdown-Inv :
      (s : System T) (b : Bool) → Inv s → Inv (record s { pool = (begin_shutdown b s.pool).1 })
  unfolding begin_shutdown
  shutdown-Inv s b h =
      let P = λ (p : Result Error Unit × Pool T). Inv (record s { pool = p.1 }) in
      if-elim P (not b) _ _ (λ _. h)
        (λ _.
          if-elim P s.pool.closed _ _ (λ _. h)
            (λ _. record {
              fifo = h.fifo;
              bound = h.bound;
              answers = h.answers;
              in_hand = h.in_hand;
              no_reader = h.no_reader;
              shut = λ q. refl;
              drained = h.drained;
            }))

  -- The pool after `close(p.queue)`, if that can be.
  abbrev Closed : System T → Option (Pool T) → Type 0
  Closed s none = Unit
  Closed s (some p) = Inv (record s { pool = p })

  close_queue-Closed : (s : System T) → Inv s → Closed s (close_queue s.submits s.pool)
  unfolding close_queue
  close_queue-Closed s h =
      if-elim (Closed s) (s.pool.closed && not s.pool.queue_closed && total reads s.submits == 0) _
        _
        (λ c. record {
          fifo = h.fifo;
          bound = h.bound;
          answers = h.answers;
          in_hand = h.in_hand;
          no_reader = λ q. ground arith;
          shut = λ q. ground arith;
          drained = λ p. (refl, (h.drained p).1);
        })
        (λ _. tt)

  After-eq : (r : Option (System T)) (t : System T) → r ≡ some t → After r → Inv t
  After-eq none t e a = absurd (cc)
  After-eq (some s) t e a = subst Inv (some_injective s t e) a

  pub step-Inv : (e : Event T) (s t : System T) → step e s ≡ some t → Inv s → Inv t
  unfolding step
  step-Inv (submitted task) s t q h = After-eq _ t q (submitted-Inv s h task)
  step-Inv (submit_steps i) s t q h = found (get_elem? s.submits i) refl q
    where
      found :
          (f : Option (Submit T))
          → get_elem? s.submits i ≡ f
          → elim f [ none ↦ none | some c ↦ step_submit s i c ] ≡ some t
          → Inv t
      found none e p = absurd (cc)
      found (some c) e p = After-eq (step_submit s i c) t p (submit-After s h i c e)
  step-Inv (worker_steps i) s t q h = found (get_elem? s.workers i) refl q
    where
      found :
          (f : Option (Worker T))
          → get_elem? s.workers i ≡ f
          → elim f [ none ↦ none | some w ↦ after_work s i w (work w s.pool) ] ≡ some t
          → Inv t
      found none e p = absurd (cc)
      found (some w) e p = After-eq (after_work s i w (work w s.pool)) t p (worker-After s h i w e)
  step-Inv (handler_returns i) s t q h = found (get_elem? s.workers i) refl q
    where
      found :
          (f : Option (Worker T))
          → get_elem? s.workers i ≡ f
          → elim f [ none ↦ none | some w ↦ after_work s i w (safe_handle w s.pool) ] ≡ some t
          → Inv t
      found none e p = absurd (cc)
      found (some w) e p =
          After-eq (after_work s i w (safe_handle w s.pool)) t p (handler-After s h i w e)
  step-Inv (shuts_down b) s t q h = After-eq _ t q (shutdown-Inv s b h)
  step-Inv closes_queue s t q h = found (close_queue s.submits s.pool) (close_queue-Closed s h) q
    where
      found :
          (f : Option (Pool T))
          → Closed s f
          → elim f [ none ↦ none | some p ↦ some (record s { pool = p }) ] ≡ some t
          → Inv t
      found none c p = absurd (cc)
      found (some pool) c p = After-eq _ t p c

  total-replicate : (w : Worker T → ℕ) (n : ℕ) → w idle ≡ 0 → total w (replicate n) ≡ 0
  unfolding total
  total-replicate w zero z = refl
  total-replicate w (suc n) z = omega (arith, total-replicate w n z)

  new_pool-Inv : (n size : ℕ) → Inv (new_pool {T = T} n size)
  unfolding total
  new_pool-Inv n size = record {
    fifo = refl;
    bound = omega arith;
    answers = refl;
    in_hand = omega (arith, total-replicate finished_by n refl);
    no_reader = λ q. refl;
    shut = λ q. absurd (cc);
    drained = λ p. absurd (omega (arith, total-replicate exits n refl));
  }

  pub Reach-Inv : {n size : ℕ} {s : System T} → Reach n size s → Inv s
  Reach-Inv {n} {size} start = new_pool-Inv n size
  Reach-Inv (later {s} {t} r e q) = step-Inv e s t q (Reach-Inv r)
