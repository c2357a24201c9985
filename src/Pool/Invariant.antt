-- ===== src/Pool/Invariant.antt =====
-- The bookkeeping of the pool: what each submission, each task and each worker add up to.
use mathlib.Core.List.{append_assoc}
use xkit.Prelude.{
  ℕ, ◌+◌, ◌≤◌, ◌<◌, ◌≡◌, sym, ap, ◌∙◌, true, false, ltb, some, List, [], ◌∷◌, ◌++◌, length,
  length-append, get_elem?, set, total, total-append, total-set, total-get, arith, ok, err,
}
use xkit.Pool.{
  Error, Submit, submitting, reading, answered, Worker, exited, System, begin_submit, reads,
  finished_by,
}

module _ {T : Type 0} where
  -- 1 for a call of `Submit` that answered nil.
  abbrev pub accepts : Submit T → ℕ
  accepts (answered (ok _)) = 1
  accepts _ = 0

  abbrev pub exits : Worker T → ℕ
  exits exited = 1
  exits _ = 0

  pub record Inv (s : System T) : Type 0 where
    -- Tasks are taken in the order in which they were accepted, and none is lost or doubled.
    pub fifo : s.taken ++ s.pool.queue ≡ s.accepted
    pub bound : length s.pool.queue ≤ s.pool.queue_size
    pub answers : total accepts s.submits ≡ length s.accepted
    -- A task that was taken is in the hands of one worker, or handled.
    pub in_hand : s.handled + total finished_by s.workers ≡ length s.taken
    pub no_reader : s.pool.queue_closed ≡ true → total reads s.submits ≡ 0
    pub shut : s.pool.queue_closed ≡ true → s.pool.closed ≡ true
    pub drained : 0 < total exits s.workers → (s.pool.queue_closed ≡ true) × (s.pool.queue ≡ [])

  module _ (s : System T) (h : Inv s) where
    open h use {fifo, bound, answers, in_hand, no_reader, shut, drained}

    pub submitted-Inv : (task : T) → Inv (record s { submits = s.submits ++ submitting task ∷ [] })
    submitted-Inv task = record {
      fifo = fifo;
      bound = bound;
      answers = omega (arith, answers, total-append accepts s.submits (submitting task));
      in_hand = in_hand;
      no_reader = λ q. omega (arith, no_reader q, total-append reads s.submits (submitting task));
      shut = shut;
      drained = drained;
    }

    module _ (i : ℕ) (task : T) where
      -- The call takes the read lock, or finds the pool closed.
      pub begin_submit-Inv :
          get_elem? s.submits i ≡ some (submitting task)
          → Inv (record s { submits = set s.submits i (begin_submit task s.pool) })
      unfolding begin_submit
      begin_submit-Inv here =
          let c = begin_submit task s.pool in
          record {
            fifo = fifo;
            bound = bound;
            answers =
                ground (arith, answers, total-set accepts s.submits i (submitting task) c here);
            in_hand = in_hand;
            no_reader = λ q.
                ground (
                  arith,
                  no_reader q,
                  shut q,
                  total-set reads s.submits i (submitting task) c here,
                );
            shut = shut;
            drained = drained;
          }

      pub open_while_reading :
          get_elem? s.submits i ≡ some (reading task) → s.pool.queue_closed ≡ false
      open_while_reading here =
          ground (arith, no_reader, total-get reads s.submits i (reading task) here)

      pub accept-Inv :
          get_elem? s.submits i ≡ some (reading task)
          → ltb (length s.pool.queue) s.pool.queue_size ≡ true
          → Inv (record s {
            pool = record s.pool { queue = s.pool.queue ++ task ∷ [] };
            submits = set s.submits i (answered (ok tt));
            accepted = s.accepted ++ task ∷ [];
          })
      accept-Inv here room =
          let alive = open_while_reading here in
          record {
            fifo =
                sym (append_assoc s.taken s.pool.queue (task ∷ []))
                ∙ ap (λ (q : List T). q ++ task ∷ []) fifo;
            bound = ground (arith, bound, length-append s.pool.queue (task ∷ []));
            answers = omega (
              arith,
              answers,
              length-append s.accepted (task ∷ []),
              total-set accepts s.submits i (reading task) (answered (ok tt)) here,
            );
            in_hand = in_hand;
            no_reader = λ q. absurd (cc);
            shut = shut;
            drained = λ p. absurd (ground (arith, drained p, alive));
          }

      pub refuse-Inv :
          get_elem? s.submits i ≡ some (reading task)
          → (x : Error) → Inv (record s { submits = set s.submits i (answered (err x)) })
      refuse-Inv here x = record {
        fifo = fifo;
        bound = bound;
        answers =
            omega (
              arith,
              answers,
              total-set accepts s.submits i (reading task) (answered (err x)) here,
            );
        in_hand = in_hand;
        no_reader = λ q. omega (
          arith,
          no_reader q,
          total-set reads s.submits i (reading task) (answered (err x)) here,
        );
        shut = shut;
        drained = drained;
      }
