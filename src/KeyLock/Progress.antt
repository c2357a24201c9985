-- ===== src/KeyLock/Progress.antt =====
-- A call waits only for a call that can go on, and a closed locker hands out no lock.
use xkit.Prelude.{
  ℕ, ◌<◌, ◌≡◌, ◌⊎◌, refl, sym, subst, Bool, true, false, ◌==◌, Option, none, some, List, [], ◌∷◌,
  ◌++◌, String, ℤ, get_elem?, set, total-get, total-positive, get_elem?-set, get_elem?-lt,
  get_elem?-append, arith, Bool-cases, inl, inr, some_injective,
}
use xkit.KeyLock.{
  closed_error, KeyLock, entry_at, set_full, Phase, waiting, sent, backing_out, holding, unlocking,
  leaving, unlocked, with_error, occupied, Call, starting, active, rechecking, ended, get_or_create,
  Choice, send, see_context, see_done, take_default, select, receive, advance, after_advance,
  with_entry, next_call, acquire_call, try_acquire_call, System, Event, acquires, tries, steps,
  closes, signals, step, put_call, Reach,
}
use xkit.KeyLock.Invariant.{owns, owns_of, Inv, IsOutside, outside_ne}
use xkit.KeyLock.Steps.{acquire_call-IsOutside, try_acquire_call-IsOutside}
use xkit.KeyLock.Safety.{Reach-Inv}

-- Call `i` has a step, if the environment sends at once.
abbrev CanStep : System → ℕ → Type 0
CanStep s i = (t : System) × (step (steps i send) s ≡ some t)

step-found :
    (s : System) (i : ℕ) (call call' : Call) (l : KeyLock)
    → get_elem? s.calls i ≡ some call
    → next_call send call s.lock ≡ some (call', l)
    → CanStep s i
unfolding step
step-found s i call call' l here q =
    (record { lock = l; calls = set s.calls i call' }, rw (here, step) (rw q refl))

module _ (s : System) (h : Inv s) where
  owner_full :
      (j e : ℕ) (b : Bool) (k : String) (p : Phase)
      → get_elem? s.calls j ≡ some (active b k e p)
      → owns p ≡ true
      → (entry_at s.lock e).ch_full ≡ true
  owner_full j e b k p here own =
      ground (arith, h.owners e, total-get (owns_of e) s.calls j (active b k e p) here)

  owner_steps :
      (j e : ℕ) (b : Bool) (k : String) (p : Phase)
      → get_elem? s.calls j ≡ some (active b k e p)
      → owns p ≡ true
      → CanStep s j
  unfolding next_call advance receive
  owner_steps j e b k waiting here own = absurd (cc)
  owner_steps j e b k sent here own = step-found s j _ _ _ here refl
  owner_steps j e b k backing_out here own =
      let full = owner_full j e b k backing_out here own in
      step-found s j (active b k e backing_out) (active b k e (leaving (with_error closed_error)))
        (set_full s.lock e false) here (rw full refl)
  owner_steps j e b k holding here own = step-found s j _ _ _ here refl
  owner_steps j e b k unlocking here own =
      let full = owner_full j e b k unlocking here own in
      step-found s j (active b k e unlocking) (active b k e (leaving unlocked))
        (set_full s.lock e false) here (rw full refl)
  owner_steps j e b k (leaving r) here own = absurd (cc)

  some_owner :
      (e : ℕ)
      → (entry_at s.lock e).ch_full ≡ true
      → (j : ℕ) × (c : Call) × (get_elem? s.calls j ≡ some c) × (0 < owns_of e c)
  some_owner e full = total-positive (owns_of e) s.calls (ground (arith, h.owners e))

-- What a call of positive weight is.
owner_of :
    (e : ℕ) (c : Call)
    → 0 < owns_of e c
    → (b : Bool) × (k : String) × (p : Phase) × (c ≡ active b k e p) × (owns p ≡ true)
owner_of e (starting b k) h = absurd (omega arith)
owner_of e (active b k e' p) h = (b, k, p, ground arith, ground arith)
owner_of e rechecking h = absurd (omega arith)
owner_of e (ended r) h = absurd (omega arith)

-- No deadlock: in every reachable state a call that waits for its entry can send at once, or another
-- call owns the entry and has a step to make, whatever phase it is in.
pub no_deadlock :
    {max_keys : ℤ} {s : System}
    → Reach max_keys s
    → (i e : ℕ) (b : Bool) (k : String) → get_elem? s.calls i ≡ some (active b k e waiting)
    → CanStep s i
      ⊎ ((j : ℕ) × (a : Bool) × (k' : String) × (p : Phase) × (get_elem? s.calls j
            ≡ some (active a k' e p))
          × (owns p ≡ true)
          × CanStep s j)
unfolding next_call advance select
no_deadlock {max_keys} {s} r i e b k here = elim (Bool-cases (entry_at s.lock e).ch_full) [
  | inl full ↦
      let (j, c, at_j, weight) = some_owner s (Reach-Inv r) e full in
      let (a, k', p, c-eq, own) = owner_of e c weight in
      let at : get_elem? s.calls j ≡ some (active a k' e p) = rw (← c-eq) at_j in
      inr (j, a, k', p, at, own, owner_steps s (Reach-Inv r) j e a k' p at own)
  | inr free ↦ inl (
      step-found s i (active b k e waiting) (active b k e sent) (set_full s.lock e true) here
        (rw free refl))
]

select-ne :
    (c : Choice) (b : Bool) (e : ℕ) (l l' : KeyLock) → select c b e l ≡ some (holding, l') → ⊥
unfolding select
select-ne send b e l l' h = ground arith
select-ne see_context b e l l' h = ground arith
select-ne see_done b e l l' h = ground arith
select-ne take_default b e l l' h = ground arith

-- Under a closed locker no step of a call leads to a handle.
module _ (c : Choice) (l l' : KeyLock) (b : Bool) (k : String) (e : ℕ)
    (shut : l.closed ≡ true) where
  advance-not_holding : (a : Bool) (d : ℕ) (p : Phase) → advance c a d p l ≡ some (holding, l') → ⊥
  unfolding advance receive
  advance-not_holding a d waiting h = select-ne c a d l l' h
  advance-not_holding a d sent h = ground arith
  advance-not_holding a d backing_out h = ground arith
  advance-not_holding a d holding h = ground arith
  advance-not_holding a d unlocking h = ground arith
  advance-not_holding a d (leaving r) h = cc

  after_advance-not_holding :
      (a : Bool) (j : String) (d : ℕ) (p : Phase) (r : Option (Phase × KeyLock))
      → advance c a d p l ≡ r
      → after_advance a j d r ≡ some (active b k e holding, l')
      → ⊥
  after_advance-not_holding a j d p none q h = cc
  after_advance-not_holding a j d p (some (p', m)) q h =
      advance-not_holding a d p (ground (arith, q, h))

  with_entry-not_holding :
      (a : Bool) (j : String) (d : ℕ) (p : Phase)
      → with_entry c a j d p l ≡ some (active b k e holding, l')
      → ⊥
  with_entry-not_holding a j d (leaving unlocked) h = cc
  with_entry-not_holding a j d (leaving (with_error x)) h = cc
  with_entry-not_holding a j d (leaving occupied) h = cc
  with_entry-not_holding a j d waiting h = after_advance-not_holding a j d waiting _ refl h
  with_entry-not_holding a j d sent h = after_advance-not_holding a j d sent _ refl h
  with_entry-not_holding a j d backing_out h = after_advance-not_holding a j d backing_out _ refl h
  with_entry-not_holding a j d holding h = after_advance-not_holding a j d holding _ refl h
  with_entry-not_holding a j d unlocking h = after_advance-not_holding a j d unlocking _ refl h

  next_call-not_holding : (call : Call) → next_call c call l ≡ some (active b k e holding, l') → ⊥
  unfolding next_call get_or_create
  next_call-not_holding (starting a j) h = ground arith
  next_call-not_holding (active a j d p) h = with_entry-not_holding a j d p h
  next_call-not_holding rechecking h = cc
  next_call-not_holding (ended r) h = cc

module _ (s : System) (i : ℕ) (b : Bool) (k : String) (d : ℕ) where
  -- The handle stands at place `i` of the calls.
  abbrev HasHandle : List Call → Type 0
  HasHandle calls = get_elem? calls i ≡ some (active b k d holding)

  HasHandle-append : (c : Call) → IsOutside c → HasHandle (s.calls ++ c ∷ []) → HasHandle s.calls
  HasHandle-append c out h =
      ground (arith, get_elem?-append s.calls c i, outside_ne c b k d holding out)

  HasHandle-put_call :
      (t : System) (j : ℕ) (c : Choice) (call : Call) (r : Option (Call × KeyLock))
      → s.lock.closed ≡ true
      → get_elem? s.calls j ≡ some call
      → next_call c call s.lock ≡ r
      → put_call s j r ≡ some t
      → HasHandle t.calls
      → HasHandle s.calls
  HasHandle-put_call t j c call none shut at q p h = absurd (cc)
  HasHandle-put_call t j c call (some (call', l)) shut at q p h =
      let h' : HasHandle (set s.calls j call') =
        subst (λ (u : System). HasHandle u.calls) (sym (some_injective _ _ p)) h in
      elim (Bool-cases (j == i)) [
        | inl same ↦ absurd (
            next_call-not_holding c s.lock l b k d shut call
              (ground (arith, get_elem?-set s.calls j i call' (get_elem?-lt s.calls j call at))))
        | inr other ↦
            ground (arith, get_elem?-set s.calls j i call' (get_elem?-lt s.calls j call at))
      ]

-- Once `closed` is set, no step of the system hands out a lock: a call that holds one after the step
-- held it before.
pub closed_grants_nothing :
    (ev : Event) (s t : System) (i e : ℕ) (b : Bool) (k : String)
    → s.lock.closed ≡ true
    → step ev s ≡ some t
    → get_elem? t.calls i ≡ some (active b k e holding)
    → get_elem? s.calls i ≡ some (active b k e holding)
unfolding step
closed_grants_nothing (acquires ctx key) s t i e b k shut q h =
    HasHandle-append s i b k e (acquire_call ctx key s.lock) (acquire_call-IsOutside ctx key s.lock)
      (subst (λ (u : System). HasHandle s i b k e u.calls) (sym (some_injective _ _ q)) h)
closed_grants_nothing (tries key) s t i e b k shut q h =
    HasHandle-append s i b k e (try_acquire_call key s.lock) (try_acquire_call-IsOutside key s.lock)
      (subst (λ (u : System). HasHandle s i b k e u.calls) (sym (some_injective _ _ q)) h)
closed_grants_nothing (steps j c) s t i e b k shut q h = found (get_elem? s.calls j) refl q
  where
    found :
        (f : Option Call)
        → get_elem? s.calls j ≡ f
        → elim f [ none ↦ none | some call ↦ put_call s j (next_call c call s.lock) ] ≡ some t
        → get_elem? s.calls i ≡ some (active b k e holding)
    found none at p = absurd (cc)
    found (some call) at p =
        HasHandle-put_call s i b k e t j c call (next_call c call s.lock) shut at refl p h
closed_grants_nothing closes s t i e b k shut q h = ground arith
closed_grants_nothing signals s t i e b k shut q h = ground arith
