-- ===== src/KeyLock/Limit.antt =====
-- The limit on the number of keys.
use xkit.Prelude.{
  ℕ, ◌≡◌, refl, sym, ap, ◌∙◌, Bool, true, Option, none, some, String, ℤ, pos, ◌≤ℤ◌, ltb_ℤ,
  get_elem?, arith, Result, ok, err, some_injective,
}
use xkit.GoMap
use xkit.KeyLock.{
  Error, KeyLock, Phase, waiting, sent, backing_out, holding, unlocking, leaving, Call, starting,
  active, rechecking, ended, get_or_create, release_ref, Choice, send, see_context, see_done,
  take_default, select, receive, advance, after_create, after_advance, with_entry, next_call, close,
  System, Event, acquires, tries, steps, closes, signals, step, put_call, Reach, start, later,
}
use xkit.KeyLock.Safety.{Reach-Inv}

max_keys-get_or_create : (k : String) (l : KeyLock) → (get_or_create k l).1.max_keys ≡ l.max_keys
unfolding get_or_create
max_keys-get_or_create k l = ground arith

max_keys-release_ref :
    (k : String) (e : ℕ) (l : KeyLock) → (release_ref k e l).max_keys ≡ l.max_keys
unfolding release_ref
max_keys-release_ref k e l = ground arith

max_keys-receive :
    (e : ℕ) (ph ph' : Phase) (l l' : KeyLock)
    → receive e ph l ≡ some (ph', l')
    → l'.max_keys ≡ l.max_keys
unfolding receive
max_keys-receive e ph ph' l l' h = ground arith

max_keys-select :
    (c : Choice) (b : Bool) (e : ℕ) (ph : Phase) (l l' : KeyLock)
    → select c b e l ≡ some (ph, l')
    → l'.max_keys ≡ l.max_keys
unfolding select
max_keys-select send b e ph l l' h = ground arith
max_keys-select see_context b e ph l l' h = ground arith
max_keys-select see_done b e ph l l' h = ground arith
max_keys-select take_default b e ph l l' h = ground arith

max_keys-advance :
    (c : Choice) (b : Bool) (e : ℕ) (ph ph' : Phase) (l l' : KeyLock)
    → advance c b e ph l ≡ some (ph', l')
    → l'.max_keys ≡ l.max_keys
unfolding advance
max_keys-advance c b e waiting ph' l l' h = max_keys-select c b e ph' l l' h
max_keys-advance c b e sent ph' l l' h = ground arith
max_keys-advance c b e backing_out ph' l l' h = max_keys-receive e _ ph' l l' h
max_keys-advance c b e holding ph' l l' h = ground arith
max_keys-advance c b e unlocking ph' l l' h = max_keys-receive e _ ph' l l' h
max_keys-advance c b e (leaving r) ph' l l' h = absurd (cc)

-- After a step of a call, if there is one.
abbrev Keeps : KeyLock → Option (Call × KeyLock) → Type 0
Keeps l none = Unit
Keeps l (some (c, l')) = l'.max_keys ≡ l.max_keys

after_create-Keeps :
    (l : KeyLock) (b : Bool) (k : String) (p : Result Error ℕ × KeyLock)
    → p.1.max_keys ≡ l.max_keys
    → Keeps l (after_create b k p)
after_create-Keeps l b k (err x, l') h = h
after_create-Keeps l b k (ok e, l') h = h

module _ (c : Choice) (b : Bool) (k : String) (e : ℕ) (l : KeyLock) where
  after_advance-Keeps :
      (ph : Phase) (r : Option (Phase × KeyLock))
      → advance c b e ph l ≡ r
      → Keeps l (after_advance b k e r)
  after_advance-Keeps ph none h = tt
  after_advance-Keeps ph (some (ph', l')) h = max_keys-advance c b e ph ph' l l' h

  with_entry-Keeps : (ph : Phase) → Keeps l (with_entry c b k e ph l)
  with_entry-Keeps (leaving r) = max_keys-release_ref k e l
  with_entry-Keeps waiting = after_advance-Keeps waiting _ refl
  with_entry-Keeps sent = after_advance-Keeps sent _ refl
  with_entry-Keeps backing_out = after_advance-Keeps backing_out _ refl
  with_entry-Keeps holding = after_advance-Keeps holding _ refl
  with_entry-Keeps unlocking = after_advance-Keeps unlocking _ refl

next_call-Keeps : (c : Choice) (call : Call) (l : KeyLock) → Keeps l (next_call c call l)
unfolding next_call
next_call-Keeps c (starting b k) l =
    after_create-Keeps l b k (get_or_create k l) (max_keys-get_or_create k l)
next_call-Keeps c (active b k e ph) l = with_entry-Keeps c b k e l ph
next_call-Keeps c rechecking l = refl
next_call-Keeps c (ended r) l = tt

max_keys-put_call :
    (s t : System) (i : ℕ) (r : Option (Call × KeyLock))
    → put_call s i r ≡ some t
    → Keeps s.lock r
    → t.lock.max_keys ≡ s.lock.max_keys
max_keys-put_call s t i none h k = absurd (cc)
max_keys-put_call s t i (some (c, l)) h k =
    ap (λ (u : System). u.lock.max_keys) (sym (some_injective _ _ h)) ∙ k

max_keys-step : (e : Event) (s t : System) → step e s ≡ some t → t.lock.max_keys ≡ s.lock.max_keys
unfolding step close
max_keys-step (acquires ctx key) s t h = ground arith
max_keys-step (tries key) s t h = ground arith
max_keys-step (steps i c) s t h = found (get_elem? s.calls i) h
  where
    found :
        (f : Option Call)
        → elim f [ none ↦ none | some call ↦ put_call s i (next_call c call s.lock) ] ≡ some t
        → t.lock.max_keys ≡ s.lock.max_keys
    found none q = absurd (cc)
    found (some call) q =
        max_keys-put_call s t i (next_call c call s.lock) q (next_call-Keeps c call s.lock)
max_keys-step closes s t h = ground arith
max_keys-step signals s t h = ground arith

max_keys-Reach : {max_keys : ℤ} {s : System} → Reach max_keys s → s.lock.max_keys ≡ max_keys
max_keys-Reach start = refl
max_keys-Reach (later {s} {t} r e q) = max_keys-step e s t q ∙ max_keys-Reach r

-- With a positive limit, in every reachable state the count that `Len` reports is the number of keys
-- with an entry, and is never above the limit. A step changes the count and the map together.
pub key_count_bounds :
    {max_keys : ℤ} {s : System}
    → Reach max_keys s
    → ltb_ℤ (pos 0) max_keys ≡ true
    → (s.lock.key_count ≡ pos (GoMap.size s.lock.entries)) × (s.lock.key_count ≤ℤ max_keys)
key_count_bounds {max_keys} {s} r h =
    let counts = (Reach-Inv r).counts in
    let same = max_keys-Reach r in
    let limited = counts.limited (rw same h) in
    (counts.counted, rw (counts.counted) (rw same at limited))
