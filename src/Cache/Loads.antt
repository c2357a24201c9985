-- ===== src/Cache/Loads.antt =====
-- Load and LoadHash as a whole, whatever the world around them does.
use xkit.Prelude.{
  ◌+◌, ◌≤◌, ◌≡◌, ◌⊎◌, inl, inr, refl, Bool, Option, none, some, ◌∷◌, ℤ, total, total-join, Result,
  ok, err, arith, if-elim, ◌||◌,
}
use xkit.Cache.{
  Bytes, Place, key, field, Fault, external, load_panic, Answer, read, Log, Flight, leads, joins,
  leads_until, joins_until, Oracle, Options,
}
use xkit.Cache.Loader.{
  caller, detached, flight_key, ctx_err, unless_over, fly, load_with_singleflight, go_loading,
  after_first_read, load_checked, if_valid, load, load_hash, validate_load_args, is_empty,
}
use xkit.Cache.Trace.{Fine, FineFrom, Fine-error, Fine-hit, calls, takes, gives}
use xkit.Cache.Fetching.{Leads, read-Leads, load_with_dist_lock-Fine}

module _ {E : Type 0} (o : Oracle E) (p : Options) (place : Place) (ttl : ℤ) where
  -- How an answer comes from that of the call's own run: it is that one, or an error, or the answer
  -- of another call that singleflight joined.
  abbrev pub Got : Answer E → Answer E → Type 0
  Got run r =
      (r ≡ run)
      ⊎ ((x : Fault E) × (r ≡ err x))
      ⊎ ((l : Log E) × (o.flights l (flight_key place) ≡ joins r))

  abbrev pub Runs : Log E → Answer E × Log E → Type 0
  Runs log out = (run : Answer E) × Fine place ttl run log out.1 × Got run out.0

  own : (log : Log E) (out : Answer E × Log E) → FineFrom place ttl log out → Runs log out
  own log out fine = (out.0, fine, inl refl)

  error : (x : Fault E) (log : Log E) → Runs log (err x, log)
  error x log = own log (err x, log) (Fine-error place ttl x log)

  carry-Runs :
      (log l : Log E) (out : Answer E × Log E)
      → Leads o p place ttl log l
      → Runs l out
      → Runs log out
  carry-Runs log l out carry (run, fine, got) = (run, carry run out.1 fine, got)

  fly-Runs :
      (w : Flight E) (run : Log E → Answer E × Log E) (log : Log E)
      → o.flights log (flight_key place) ≡ w
      → ((l : Log E) → FineFrom place ttl l (run l))
      → Runs log (fly o p w run log)
  fly-Runs leads run log e fine = own log (run log) (fine log)
  fly-Runs (leads_until x) run log e fine = ((run log).0, fine log, inr (inl (external x, refl)))
  fly-Runs (joins r) run log e fine =
      (err load_panic, Fine-error place ttl load_panic log, inr (inr (log, e)))
  fly-Runs (joins_until x) run log e fine = error (external x) log

  go_loading-Runs : (log : Log E) → Runs log (go_loading o p place ttl log)
  unfolding load_with_singleflight
  go_loading-Runs log =
      if-elim (Runs log) p.enable_singleflight _ _
        (λ h.
          fly-Runs (o.flights log (flight_key place)) _ log refl
            (load_with_dist_lock-Fine o p place ttl detached))
        (λ h. own log _ (load_with_dist_lock-Fine o p place ttl caller log))

  unless_over-Runs :
      (x : Option E) (y : E) (out : Answer E × Log E) (l : Log E)
      → Runs l out
      → Runs l (unless_over o p x y out l)
  unless_over-Runs (some x) y out l runs = error (external x) l
  unless_over-Runs none y out l runs =
      if-elim (Runs l) (o.is_lifecycle y) (err (external y), l) out (λ h. error (external y) l)
        (λ h. runs)

  after_first_read-Runs :
      (r : Result E Bytes) (log : Log E)
      → Runs log (after_first_read o p place ttl r (read place r ∷ log))
  after_first_read-Runs (ok v) log = own log _ (Fine-hit place ttl v log)
  after_first_read-Runs (err x) log =
      let l : Log E = read place (err x) ∷ log in
      carry-Runs log l _ (read-Leads o p place ttl (err x) log) (
        if-elim (Runs l) (o.is_nil x) _ _ (λ h. go_loading-Runs l)
          (λ h. unless_over-Runs (ctx_err o p caller l) x _ l (go_loading-Runs l)))

  if_valid-Runs :
      (v : Result (Fault E) (Unit {0})) (log : Log E)
      → Runs log (if_valid o p v (load_checked o p place ttl) log)
  unfolding load_checked
  if_valid-Runs (err x) log = error x log
  if_valid-Runs (ok u) log = after_first_read-Runs (o.reads log place) log

  -- The counts of a whole log.
  abbrev pub CallsOnce : Log E → Log E → Type 0
  CallsOnce log log' =
      (total calls log' ≤ total calls log + 1)
      × (total takes log' + total gives log ≡ total gives log' + total takes log)

  Runs-CallsOnce : (log : Log E) (out : Answer E × Log E) → Runs log out → CallsOnce log out.1
  Runs-CallsOnce log (r, l) (run, (new, is, ((once, balanced, writes, sourced), lasting)), got) =
      rw is (
        omega (arith, total-join calls new log),
        omega (arith, total-join takes new log, total-join gives new log),
      )

module _ {E : Type 0} (o : Oracle E) (p : Options) (has_ctx has_cache has_loader : Bool)
    (ttl : ℤ) where
  -- What Load and LoadHash write is the value of their own run, at their place; that value was read
  -- there or loaded. If a time to live was asked for, Load writes with a positive one, and after an HSET
  -- that did not fail LoadHash asks Redis for one with a positive time, unless its question for
  -- the time to live of the hash fails or the hash has one. Their answer is that of their run, an
  -- error, or the answer of the call that singleflight joined.
  pub load-Runs :
      (k f : Bytes) (log : Log E)
      → Runs o p (key k) ttl log (load o p has_ctx has_cache k has_loader ttl log)
        × Runs o p (field k f) ttl log (load_hash o p has_ctx has_cache k f has_loader ttl log)
  unfolding load load_hash
  load-Runs k f log = (
    if_valid-Runs o p (key k) ttl (validate_load_args has_ctx has_cache (is_empty k) has_loader)
        log,
    if_valid-Runs o p (field k f) ttl
        (validate_load_args has_ctx has_cache (is_empty k || is_empty f) has_loader) log,
  )

  -- Load and LoadHash call the load function at most once, and give back each lock that they take,
  -- whatever fails, ends or panics.
  pub load-once :
      (k f : Bytes) (log : Log E)
      → CallsOnce o p (key k) ttl log (load o p has_ctx has_cache k has_loader ttl log).1
        × CallsOnce o p
            (field k f)
            ttl
            log
            (load_hash o p has_ctx has_cache k f has_loader ttl log).1
  load-once k f log =
      let (plain, hashed) = load-Runs k f log in
      (Runs-CallsOnce o p (key k) ttl log _ plain, Runs-CallsOnce o p (field k f) ttl log _ hashed)
