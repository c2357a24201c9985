-- ===== src/KeyLock/Safety.antt =====
-- What holds of every state that a locker can come to.
use xkit.Prelude.{
  ℕ, ◌≡◌, refl, Bool, true, ◌==◌, none, some, List, [], ◌∷◌, String, str_eq_iff, ℤ, pos, length,
  get_elem?, total, total-get-get, arith, Bool-cases, Option-cases, inl, inr, All,
}
use xkit.GoMap
use xkit.GoMap.{get-make}
use xkit.KeyLock.{KeyLock, new_key_lock, Phase, Call, active, System, Reach, start, later}
use xkit.KeyLock.Invariant.{refs_of, owns, owns_of, IsCounted, Inv, IsOutside, outside_refs}
use xkit.KeyLock.Steps.{step-Inv}

start-Inv : (max_keys : ℤ) → Inv (record { lock = new_key_lock max_keys; calls = [] })
unfolding total GoMap.size GoMap.get
start-Inv max_keys = record {
  counts = record {
    refs = λ e. refl;
    located = λ i e b k ph q. absurd (cc);
    present = λ k e q. absurd (cc (get-make {V = ℕ} k));
    used = λ k e q. absurd (cc (get-make {V = ℕ} k));
    injective = λ j k e q r. absurd (cc (get-make {V = ℕ} k));
    keys = tt;
    counted = refl;
    limited = λ m. ground arith;
  };
  owners = λ e. refl;
}

pub Reach-Inv : {max_keys : ℤ} {s : System} → Reach max_keys s → Inv s
Reach-Inv {max_keys} start = start-Inv max_keys
Reach-Inv (later {s} {t} r e q) = step-Inv e s t q (Reach-Inv r)

-- From its send to its receive, and so while it holds the lock and until its `Unlock` has let it
-- go, a call excludes all others of its key, in every reachable state.
pub mutual_exclusion :
    {max_keys : ℤ} {s : System}
    → Reach max_keys s
    → (i j d e : ℕ) (a b : Bool) (k : String) (p q : Phase)
    → get_elem? s.calls i ≡ some (active a k d p)
    → get_elem? s.calls j ≡ some (active b k e q)
    → owns p ≡ true
    → owns q ≡ true
    → i ≡ j
mutual_exclusion {max_keys} {s} r i j d e a b k p q at_i at_j own_i own_j =
    let inv = Reach-Inv r in
    elim (Bool-cases (i == j)) [
      | inl same ↦ ground arith
      | inr other ↦ absurd (
          ground (
            arith,
            inv.counts.located i d a k p at_i,
            inv.counts.located j e b k q at_j,
            inv.owners d,
            total-get-get (owns_of d) s.calls i j (active a k d p) (active b k e q) at_i at_j,
          ))
    ]

All-outside : (calls : List Call) (e : ℕ) → All IsOutside calls → total (refs_of e) calls ≡ 0
unfolding total
All-outside [] e h = refl
All-outside (c ∷ calls) e h = omega (arith, outside_refs c e h.0, All-outside calls e h.1)

first_found :
    (v : ℕ) (k : String) (rest : List (String × ℕ)) → GoMap.lookup k ((k, v) ∷ rest) ≡ some v
unfolding GoMap.lookup
first_found v k rest = ground (arith, str_eq_iff k k)

size-empty :
    (es : List (String × ℕ))
    → ((k : String) (e : ℕ) → GoMap.lookup k es ≡ some e → ⊥)
    → length es ≡ 0
size-empty [] h = refl
size-empty ((k, v) ∷ rest) h = absurd (h k v (first_found v k rest))

entry_used :
    (l : KeyLock) (calls : List Call) (k : String) (e : ℕ)
    → IsCounted l calls
    → All IsOutside calls
    → GoMap.get l.entries k ≡ some e
    → ⊥
entry_used l calls k e counts out q = omega (arith, counts.used k e q, All-outside calls e out)

-- Nothing leaks: in a reachable state in which no call has an entry (each has ended, or is before
-- `getOrCreate`, or past `releaseRef`), `Len` is 0 and no key has an entry.
pub entries_released :
    {max_keys : ℤ} {s : System}
    → Reach max_keys s
    → (k : String) → All IsOutside s.calls
    → (s.lock.key_count ≡ pos 0) × (GoMap.get s.lock.entries k ≡ none)
unfolding GoMap.size GoMap.get
entries_released {max_keys} {s} r k out =
    let counts = (Reach-Inv r).counts in
    let none_left =
      size-empty s.lock.entries.entries (λ j e q. entry_used s.lock s.calls j e counts out q) in
    (
      ground (arith, counts.counted, none_left),
      elim (Option-cases (GoMap.get s.lock.entries k)) [
        | inl e ↦ e
        | inr (e, q) ↦ absurd (entry_used s.lock s.calls k e counts out q)
      ],
    )
