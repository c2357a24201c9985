-- ===== src/Cache/Trace.antt =====
-- What a call adds to the log: how often it calls the load function, which locks it takes and gives
-- back, what it writes, and where its answer is from.
use xkit.Prelude.{
  ℕ, ◌≤◌, ◌≡◌, ◌⊎◌, inl, inr, refl, sym, ap, ◌∙◌, true, List, [], ◌∷◌, ◌++◌, ℤ, pos, ◌≤ℤ◌, ltb_ℤ,
  none, some, total, total-append, append_assoc, All, ok, err, arith,
}
use xkit.Cache.{
  Bytes, Place, key, field, Fault, Answer, returned, Event, read, called, set_key, set_field,
  asked_ttl, set_ttl, locked, unlocked, Log,
}

-- Some element satisfies a predicate.
abbrev pub Any : {A : Type 0} → (A → Type 0) → List A → Type 0
Any P [] = ⊥
Any P (x ∷ xs) = P x ⊎ Any P xs

All-snoc :
    {A : Type 0} (P : A → Type 0) (xs : List A) (x : A) → All P xs → P x → All P (xs ++ x ∷ [])
All-snoc P [] x all h = (h, tt)
All-snoc P (y ∷ xs) x (first, all) h = (first, All-snoc P xs x all h)

Any-snoc : {A : Type 0} (P : A → Type 0) (xs : List A) (x : A) → Any P xs → Any P (xs ++ x ∷ [])
Any-snoc P [] x any = absurd any
Any-snoc P (y ∷ xs) x (inl h) = inl h
Any-snoc P (y ∷ xs) x (inr any) = inr (Any-snoc P xs x any)

-- The key of a place for Redis.
abbrev pub redis_key : Place → Bytes
redis_key (key k) = k
redis_key (field k f) = k

module _ {E : Type 0} where
  abbrev pub calls : Event E → ℕ
  calls (called r) = 1
  calls _ = 0

  abbrev pub takes : Event E → ℕ
  takes (locked k) = 1
  takes _ = 0

  abbrev pub gives : Event E → ℕ
  gives (unlocked k) = 1
  gives _ = 0

  -- A write of an answer to its place, a time to live that ends, a question about that place. A key
  -- never expires only if it shall not.
  abbrev pub Writes : Place → ℤ → Answer E → Event E → Type 0
  Writes place ttl r (set_key k v t) =
      (key k ≡ place)
      × (r ≡ ok v)
      × (pos 0 ≤ℤ t)
      × (ltb_ℤ (pos 0) ttl ≡ true → ltb_ℤ (pos 0) t ≡ true)
  Writes place ttl r (set_field k f v x) = (field k f ≡ place) × (r ≡ ok v)
  Writes place ttl r (set_ttl k t) = (k ≡ redis_key place) × (ltb_ℤ (pos 0) t ≡ true)
  Writes place ttl r (asked_ttl k x) = k ≡ redis_key place
  Writes place ttl r _ = Unit

  -- A field that is written is followed by a request for a time to live, or by a question about it
  -- that fails or is answered by one that the hash has.
  abbrev pub IsGuarded : Log E → Type 0
  IsGuarded [] = Unit
  IsGuarded (set_ttl k t ∷ new) = Unit
  IsGuarded (asked_ttl k (err x) ∷ new) = Unit
  IsGuarded (asked_ttl k (ok t) ∷ new) = (pos 0 ≤ℤ t) ⊎ IsGuarded new
  IsGuarded (set_field k f v none ∷ new) = ⊥
  IsGuarded (e ∷ new) = IsGuarded new

  -- An event before the others that leaves them so; an event after them.
  abbrev pub IsPlain : Event E → Type 0
  IsPlain (set_field k f v none) = ⊥
  IsPlain _ = Unit

  -- The event that an answer is from.
  abbrev pub Offers : Place → Bytes → Event E → Type 0
  Offers place v (read at (ok w)) = (at ≡ place) × (w ≡ v)
  Offers place v (called (returned w)) = w ≡ v
  Offers place v _ = ⊥

  abbrev pub IsSourced : Place → Answer E → Log E → Type 0
  IsSourced place (ok v) new = Any (Offers place v) new
  IsSourced place (err x) new = Unit

  -- What the theorems say of the new events and the answer, first without times to live of hashes.
  abbrev pub Sound : Place → ℤ → Answer E → Log E → Type 0
  Sound place ttl r new =
      (total calls new ≤ 1)
      × (total takes new ≡ total gives new)
      × All (Writes place ttl r) new
      × IsSourced place r new

  abbrev pub Lasting : ℤ → Log E → Type 0
  Lasting ttl new = ltb_ℤ (pos 0) ttl ≡ true → IsGuarded new

  abbrev pub Good : Place → ℤ → Answer E → Log E → Type 0
  Good place ttl r new = Sound place ttl r new × Lasting ttl new

  -- The log grows by events that are sound, or good.
  abbrev pub Draft : Place → ℤ → Answer E → Log E → Log E → Type 0
  Draft place ttl r log log' = (new : Log E) × (log' ≡ new ++ log) × Sound place ttl r new

  abbrev pub Fine : Place → ℤ → Answer E → Log E → Log E → Type 0
  Fine place ttl r log log' = (new : Log E) × (log' ≡ new ++ log) × Good place ttl r new

  abbrev pub FineFrom : Place → ℤ → Log E → Answer E × Log E → Type 0
  FineFrom place ttl log out = Fine place ttl out.0 log out.1

  -- An event that calls nothing and takes or gives back no lock.
  abbrev pub IsLight : Event E → Type 0
  IsLight e = (calls e ≡ 0) × (takes e ≡ 0) × (gives e ≡ 0)

  IsGuarded-cons : (e : Event E) (new : Log E) → IsPlain e → IsGuarded new → IsGuarded (e ∷ new)
  IsGuarded-cons (set_field k f v none) new q g = absurd q
  IsGuarded-cons (set_field k f v (some x)) new q g = g
  IsGuarded-cons (asked_ttl k (err x)) new q g = tt
  IsGuarded-cons (asked_ttl k (ok t)) new q g = inr g
  IsGuarded-cons (set_ttl k t) new q g = tt
  IsGuarded-cons (set_key k v t) new q g = g
  IsGuarded-cons _ new q g = g

  IsGuarded-snoc :
      (new : Log E) (e : Event E) → IsPlain e → IsGuarded new → IsGuarded (new ++ e ∷ [])
  IsGuarded-snoc [] e q g = IsGuarded-cons e [] q tt
  IsGuarded-snoc (set_field k f v none ∷ new) e q g = absurd g
  IsGuarded-snoc (set_field k f v (some x) ∷ new) e q g = IsGuarded-snoc new e q g
  IsGuarded-snoc (asked_ttl k (err x) ∷ new) e q g = tt
  IsGuarded-snoc (asked_ttl k (ok t) ∷ new) e q (inl h) = inl h
  IsGuarded-snoc (asked_ttl k (ok t) ∷ new) e q (inr g) = inr (IsGuarded-snoc new e q g)
  IsGuarded-snoc (set_ttl k t ∷ new) e q g = tt
  IsGuarded-snoc (_ ∷ new) e q g = IsGuarded-snoc new e q g

module _ {E : Type 0} (place : Place) (ttl : ℤ) where
  IsSourced-snoc :
      (r : Answer E) (new : Log E) (e : Event E)
      → IsSourced place r new
      → IsSourced place r (new ++ e ∷ [])
  IsSourced-snoc (ok v) new e s = Any-snoc (Offers place v) new e s
  IsSourced-snoc (err x) new e s = tt

  IsSourced-cons :
      (r : Answer E) (new : Log E) (e : Event E)
      → IsSourced place r new
      → IsSourced place r (e ∷ new)
  IsSourced-cons (ok v) new e s = inr s
  IsSourced-cons (err x) new e s = tt

  -- A light event before the others, and one after them.
  pub Fine-before :
      (r : Answer E) (e : Event E) (log log' : Log E)
      → IsLight e
      → Writes place ttl r e
      → IsPlain e
      → Fine place ttl r (e ∷ log) log'
      → Fine place ttl r log log'
  Fine-before r e log log' (c, t, g) w q (new, is, ((once, balanced, writes, sourced), lasting)) = (
    new ++ e ∷ [],
    is ∙ sym (append_assoc new (e ∷ []) log),
    (
      (
        omega (arith, c, total-append calls new e),
        omega (arith, t, g, total-append takes new e, total-append gives new e),
        All-snoc (Writes place ttl r) new e writes w,
        IsSourced-snoc r new e sourced,
      ),
      λ h. IsGuarded-snoc new e q (lasting h),
    ),
  )

  Sound-after :
      (r : Answer E) (e : Event E) (new : Log E)
      → IsLight e
      → Writes place ttl r e
      → Sound place ttl r new
      → Sound place ttl r (e ∷ new)
  unfolding total
  Sound-after r e new (c, t, g) w (once, balanced, writes, sourced) =
      (omega (arith, c), omega (arith, t, g), (w, writes), IsSourced-cons r new e sourced)

  pub Fine-after :
      (r : Answer E) (e : Event E) (log log' : Log E)
      → IsLight e
      → Writes place ttl r e
      → IsPlain e
      → Fine place ttl r log log'
      → Fine place ttl r log (e ∷ log')
  Fine-after r e log log' light w q (new, is, (sound, lasting)) = (
    e ∷ new,
    ap (λ (l : Log E). e ∷ l) is,
    (Sound-after r e new light w sound, λ h. IsGuarded-cons e new q (lasting h)),
  )

  pub Draft-after :
      (r : Answer E) (e : Event E) (log log' : Log E)
      → IsLight e
      → Writes place ttl r e
      → Draft place ttl r log log'
      → Draft place ttl r log (e ∷ log')
  Draft-after r e log log' light w (new, is, sound) =
      (e ∷ new, ap (λ (l : Log E). e ∷ l) is, Sound-after r e new light w sound)

  pub Fine-Draft :
      (r : Answer E) (log log' : Log E) → Fine place ttl r log log' → Draft place ttl r log log'
  Fine-Draft r log log' (new, is, (sound, lasting)) = (new, is, sound)

  -- An event that looks after the time to live, or is none where none was asked for.
  pub Draft-Fine :
      (r : Answer E) (e : Event E) (log log' : Log E)
      → IsLight e
      → Writes place ttl r e
      → ((new : Log E) → Lasting ttl (e ∷ new))
      → Draft place ttl r log log'
      → Fine place ttl r log (e ∷ log')
  Draft-Fine r e log log' light w guards (new, is, sound) =
      (e ∷ new, ap (λ (l : Log E). e ∷ l) is, (Sound-after r e new light w sound, guards new))

  -- A lock that is taken first and given back last.
  pub Fine-locked :
      (r : Answer E) (k : Bytes) (log log' : Log E)
      → Fine place ttl r (locked k ∷ log) log'
      → Fine place ttl r log (unlocked k ∷ log')
  unfolding total
  Fine-locked r k log log' (new, is, ((once, balanced, writes, sourced), lasting)) = (
    unlocked k ∷ new ++ locked k ∷ [],
    ap (λ (l : Log E). unlocked k ∷ l) (is ∙ sym (append_assoc new (locked k ∷ []) log)),
    (
      (
        omega (arith, total-append calls new (locked k)),
        omega (arith, total-append takes new (locked k), total-append gives new (locked k)),
        (tt, All-snoc (Writes place ttl r) new (locked k) writes tt),
        IsSourced-cons r (new ++ locked k ∷ []) (unlocked k)
            (IsSourced-snoc r new (locked k) sourced),
      ),
      λ h. IsGuarded-snoc new (locked k) tt (lasting h),
    ),
  )

  -- Nothing happens, and an error is the answer.
  pub Fine-error : (x : Fault E) (log : Log E) → Fine place ttl (err x) log log
  unfolding total
  Fine-error x log = ([], refl, ((omega arith, refl, tt, tt), λ h. tt))

  pub Fine-hit : (v : Bytes) (log : Log E) → Fine place ttl (ok v) log (read place (ok v) ∷ log)
  unfolding total
  Fine-hit v log = (
    read place (ok v) ∷ [],
    refl,
    ((omega arith, omega arith, (tt, tt), inl (refl, refl)), λ h. tt),
  )
