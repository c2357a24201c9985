-- ===== src/KeyLock/Examples.antt =====
-- Two calls of one key, step by step.
use xkit.Prelude.{
  ℕ, ◌≡◌, ◌⊎◌, refl, ap, Bool, true, false, none, some, List, [], ◌∷◌, String, ℤ, pos, get_elem?,
  All, inl, inr, Option-cases,
}
use xkit.GoMap
use xkit.KeyLock.{
  new_key_lock, Phase, waiting, holding, Call, active, send, see_context, System, Event, acquires,
  steps, closes, signals, step, Reach, start, later, get_or_create, release_ref, next_call, advance,
  select, receive, acquire_call, close,
}
use xkit.KeyLock.Invariant.{IsOutside, owns}
use xkit.KeyLock.Safety.{mutual_exclusion, entries_released}
use xkit.KeyLock.Progress.{no_deadlock, closed_grants_nothing}

-- The state after a step, where it is possible.
abbrev after : Event → System → System
after e s = elim (step e s) [ none ↦ s | some t ↦ t ]

abbrev run : List Event → System → System
run [] s = s
run (e ∷ es) s = run es (after e s)

after-Reach : {m : ℤ} {s : System} → Reach m s → (e : Event) → Reach m (after e s)
after-Reach {m} {s} r e = elim (Option-cases (step e s)) [
  | inl q ↦ rw (q, after) r
  | inr (t, q) ↦ rw (q, after) (later r e q)
]

run-Reach : {m : ℤ} (es : List Event) {s : System} → Reach m s → Reach m (run es s)
run-Reach [] r = r
run-Reach (e ∷ es) r = run-Reach es (after-Reach r e)

abbrev initial : System
initial = record { lock = new_key_lock (pos 1); calls = [] }

-- Call 0 holds "a" and call 1 waits for it.
abbrev contending : List Event
contending =
    acquires (some false) "a"
    ∷ acquires (some false) "a"
    ∷ steps 0 send
    ∷ steps 1 send
    ∷ steps 0 send
    ∷ steps 0 send
    ∷ []

contended : System
contended = run contending initial

contended-Reach : Reach (pos 1) contended
unfolding contended
contended-Reach = run-Reach contending start

contended-calls : contended.calls ≡ active true "a" 0 holding ∷ active true "a" 0 waiting ∷ []
unfolding contended step acquire_call next_call get_or_create GoMap.get GoMap.put advance select
contended-calls = refl

mutual_exclusion_example : ◌≡◌ {A = ℕ} 0 0
mutual_exclusion_example =
    mutual_exclusion contended-Reach 0 0 0 0 true true "a" holding holding
      (ap (λ (cs : List Call). get_elem? cs 0) contended-calls)
      (ap (λ (cs : List Call). get_elem? cs 0) contended-calls) refl refl

no_deadlock_example :
    ((t : System) × (step (steps 1 send) contended ≡ some t))
    ⊎ ((j : ℕ) × (a : Bool) × (k : String) × (p : Phase) × (get_elem? contended.calls j
          ≡ some (active a k 0 p))
        × (owns p ≡ true)
        × ((t : System) × (step (steps j send) contended ≡ some t)))
no_deadlock_example =
    no_deadlock contended-Reach 1 0 true "a"
      (ap (λ (cs : List Call). get_elem? cs 1) contended-calls)

-- Call 0 unlocks and call 1 gives up.
abbrev ending : List Event
ending = steps 1 see_context ∷ steps 1 send ∷ steps 0 send ∷ steps 0 send ∷ steps 0 send ∷ []

finished : System
unfolding contended
finished = run ending contended

finished-Reach : Reach (pos 1) finished
unfolding finished
finished-Reach = run-Reach ending contended-Reach

finished-IsOutside : All IsOutside finished.calls
unfolding finished contended step acquire_call next_call get_or_create release_ref GoMap.get
    GoMap.put advance select receive
finished-IsOutside = (tt, (tt, tt))

entries_released_example :
    (finished.lock.key_count ≡ pos 0) × (GoMap.get finished.lock.entries "a" ≡ none)
entries_released_example = entries_released finished-Reach "a" finished-IsOutside

-- The locker is closed while call 0 holds "a".
shutting : System
shutting = after closes contended

abbrev signalled : System
signalled = after signals shutting

signalled_holds : get_elem? signalled.calls 0 ≡ some (active true "a" 0 holding)
unfolding shutting contended step acquire_call next_call get_or_create GoMap.get GoMap.put advance
    select close
signalled_holds = refl

closed_grants_nothing_example : get_elem? shutting.calls 0 ≡ some (active true "a" 0 holding)
unfolding shutting contended step acquire_call next_call get_or_create GoMap.get GoMap.put advance
    select close
closed_grants_nothing_example =
    closed_grants_nothing signals shutting signalled 0 0 true "a" refl refl signalled_holds
