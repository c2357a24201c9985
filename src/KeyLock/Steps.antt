-- ===== src/KeyLock/Steps.antt =====
-- Every step of the system keeps the invariant.
use xkit.Prelude.{
  some_injective, if-elim, ℕ, ◌≡◌, refl, sym, subst, Bool, true, Option, none, some, List, String,
  str_eq, get_elem?, set, total, total-set, get_elem?-set, get_elem?-lt, if◌then◌else◌, arith,
  Result, ok, err,
}
use xkit.KeyLock.{
  Error, closed_error, lock_occupied, after_create, after_advance, with_entry, put_call, KeyLock,
  Phase, waiting, sent, backing_out, holding, unlocking, leaving, Leaving, unlocked, with_error,
  occupied, Call, starting, active, rechecking, ended, get_or_create, Choice, advance,
  after_release, next_call, Ctx, acquire_call, try_acquire_call, close, System, Event, acquires,
  tries, steps, closes, signals, step,
}
use xkit.KeyLock.Invariant.{
  refs_of, owns_of, Inv, IsOutside, outside_refs, outside_owns, outside_ne, append-Inv,
}
use xkit.KeyLock.Moves.{advance-Inv}
use xkit.KeyLock.Entries.{Created, get_or_create-Created}
use xkit.KeyLock.Release.{release_ref-Inv}

-- A call without an entry moves on without one.
module _ (l : KeyLock) (calls : List Call) (i : ℕ) (c c' : Call) (out : IsOutside c)
    (out' : IsOutside c') (here : get_elem? calls i ≡ some c) where
  same_total : (w : Call → ℕ) → w c ≡ 0 → w c' ≡ 0 → total w (set calls i c') ≡ total w calls
  same_total w z z' = omega (arith, total-set w calls i c c' here)

  outside-Inv :
      Inv (record { lock = l; calls = calls }) → Inv (record { lock = l; calls = set calls i c' })
  outside-Inv h = record {
    counts = record {
      refs = λ e.
          rw (same_total (refs_of e) (outside_refs c e out) (outside_refs c' e out'))
            (h.counts.refs e);
      located = λ j e b k p q. ground (
        arith,
        get_elem?-set calls i j c' (get_elem?-lt calls i _ here),
        outside_ne c' b k e p out',
        h.counts.located j e b k p,
      );
      present = h.counts.present;
      used = λ k e q.
          rw (same_total (refs_of e) (outside_refs c e out) (outside_refs c' e out'))
            (h.counts.used k e q);
      injective = h.counts.injective;
      keys = h.counts.keys;
      counted = h.counts.counted;
      limited = h.counts.limited;
    };
    owners = λ e.
        rw (same_total (owns_of e) (outside_owns c e out) (outside_owns c' e out')) (h.owners e);
  }

after_release-IsOutside : (r : Leaving) → IsOutside (after_release r)
after_release-IsOutside unlocked = tt
after_release-IsOutside (with_error x) = tt
after_release-IsOutside occupied = tt

-- The invariant after a step of call `i`, if there is one.
abbrev After : List Call → ℕ → Option (Call × KeyLock) → Type 0
After calls i none = Unit
After calls i (some (c, l)) = Inv (record { lock = l; calls = set calls i c })

module _ (ch : Choice) (l : KeyLock) (calls : List Call) (i : ℕ)
    (h : Inv (record { lock = l; calls = calls })) where
  after_create-After :
      (b : Bool) (k : String) (here : get_elem? calls i ≡ some (starting b k))
      (p : Result Error ℕ × KeyLock)
      → Created l calls i b k here h p
      → After calls i (after_create b k p)
  after_create-After b k here (err x, l') same =
      subst (λ m. Inv (record { lock = m; calls = set calls i (ended (err x)) })) (sym same)
        (outside-Inv l calls i (starting b k) (ended (err x)) tt tt here h)
  after_create-After b k here (ok e, l') made = made

  module _ (b : Bool) (k : String) (e : ℕ) where
    after_advance-After :
        (ph : Phase)
        → get_elem? calls i ≡ some (active b k e ph)
        → (r : Option (Phase × KeyLock)) → advance ch b e ph l ≡ r
        → After calls i (after_advance b k e r)
    after_advance-After ph here none q = tt
    after_advance-After ph here (some (ph', l')) q =
        advance-Inv ch l l' calls i e b k ph ph' here q h

    with_entry-After :
        (ph : Phase)
        → get_elem? calls i ≡ some (active b k e ph)
        → After calls i (with_entry ch b k e ph l)
    with_entry-After (leaving r) here =
        release_ref-Inv l calls i e b k r (after_release r) here (after_release-IsOutside r) h
    with_entry-After waiting here = after_advance-After waiting here _ refl
    with_entry-After sent here = after_advance-After sent here _ refl
    with_entry-After backing_out here = after_advance-After backing_out here _ refl
    with_entry-After holding here = after_advance-After holding here _ refl
    with_entry-After unlocking here = after_advance-After unlocking here _ refl

  next_call-After : (c : Call) → get_elem? calls i ≡ some c → After calls i (next_call ch c l)
  unfolding next_call
  next_call-After (starting b k) here =
      after_create-After b k here (get_or_create k l) (get_or_create-Created l calls i b k here h)
  next_call-After (active b k e ph) here = with_entry-After b k e ph here
  next_call-After rechecking here =
      outside-Inv l calls i rechecking
        (ended (err (if l.closed then closed_error else lock_occupied))) tt tt here h
  next_call-After (ended r) here = tt

  put_call-Inv :
      (s t : System) (r : Option (Call × KeyLock))
      → s.calls ≡ calls
      → put_call s i r ≡ some t
      → After calls i r
      → Inv t
  put_call-Inv s t none e q a = absurd (cc)
  put_call-Inv s t (some (c, l')) e q a = subst Inv (some_injective _ _ q) (rw e a)

pub acquire_call-IsOutside :
    (ctx : Ctx) (k : String) (l : KeyLock) → IsOutside (acquire_call ctx k l)
unfolding acquire_call
acquire_call-IsOutside none k l = tt
acquire_call-IsOutside (some is_over) k l =
    if-elim IsOutside (str_eq k "") _ _ (λ _. tt)
      (λ _.
        if-elim IsOutside l.closed _ _ (λ _. tt)
          (λ _. if-elim IsOutside is_over _ _ (λ _. tt) (λ _. tt)))

pub try_acquire_call-IsOutside : (k : String) (l : KeyLock) → IsOutside (try_acquire_call k l)
unfolding try_acquire_call
try_acquire_call-IsOutside k l =
    if-elim IsOutside (str_eq k "") _ _ (λ _. tt)
      (λ _. if-elim IsOutside l.closed _ _ (λ _. tt) (λ _. tt))

-- The invariant does not read whether the locker is closed.
closed-Inv :
    (l : KeyLock) (calls : List Call) (closed done : Bool)
    → Inv (record { lock = l; calls = calls })
    → Inv (record { lock = record l { closed = closed; done = done }; calls = calls })
closed-Inv l calls closed done h = record {
  counts = record {
    refs = h.counts.refs;
    located = h.counts.located;
    present = h.counts.present;
    used = h.counts.used;
    injective = h.counts.injective;
    keys = h.counts.keys;
    counted = h.counts.counted;
    limited = h.counts.limited;
  };
  owners = h.owners;
}

close-Inv :
    (l : KeyLock) (calls : List Call)
    → Inv (record { lock = l; calls = calls })
    → Inv (record { lock = (close l).1; calls = calls })
unfolding close
close-Inv l calls h =
    if-elim (λ (p : Result Error Unit × KeyLock). Inv (record { lock = p.1; calls = calls }))
      l.closed _ _ (λ _. h) (λ _. closed-Inv l calls true l.done h)

call-Inv :
    (s t : System) (i : ℕ) (c : Choice) (found : Option Call)
    → get_elem? s.calls i ≡ found
    → elim found [ none ↦ none | some call ↦ put_call s i (next_call c call s.lock) ] ≡ some t
    → Inv s
    → Inv t
call-Inv s t i c none e q h = absurd (cc)
call-Inv s t i c (some call) e q h =
    put_call-Inv c s.lock s.calls i h s t (next_call c call s.lock) refl q
      (next_call-After c s.lock s.calls i h call e)

pub step-Inv : (e : Event) (s t : System) → step e s ≡ some t → Inv s → Inv t
unfolding step
step-Inv (acquires ctx key) s t q h = subst Inv (some_injective _ _ q) (
    append-Inv s.lock s.calls (acquire_call ctx key s.lock) (acquire_call-IsOutside ctx key s.lock)
      h)
step-Inv (tries key) s t q h = subst Inv (some_injective _ _ q) (
    append-Inv s.lock s.calls (try_acquire_call key s.lock) (try_acquire_call-IsOutside key s.lock)
      h)
step-Inv (steps i c) s t q h = call-Inv s t i c (get_elem? s.calls i) refl q h
step-Inv closes s t q h = subst Inv (some_injective _ _ q) (close-Inv s.lock s.calls h)
step-Inv signals s t q h =
    if-elim (λ (r : Option System). r ≡ some t → Inv t) s.lock.closed _ _
      (λ _ p. subst Inv (some_injective _ _ p) (closed-Inv s.lock s.calls s.lock.closed true h))
      (λ _ p. absurd (cc)) q
