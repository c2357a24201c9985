-- ===== src/Cache/Fetching.antt =====
-- Whatever Redis, the lock, the load function and the contexts do, a load adds good events.
use xkit.Prelude.{
  ℕ, zero, suc, refl, Option, none, some, ◌∷◌, ◌++◌, ℤ, pos, ◌+ℤ◌, ltb_ℤ, Result, ok, err, if-elim,
}
use xkit.Cache.{
  Bytes, Place, Fault, external, nil_context, invalid_config, Answer, read, locked, lock_refused,
  waited, Log, Oracle, Options,
}
use xkit.Cache.Loader.{
  Ctx, flight_key, ctx_err, cut_short, load_and_cache, unless_over, Checked, done, after_check,
  check_cache, or_else, after_wait, wait_round, after_retry, wait_loop, wait_and_retry,
  max_wait_time, max_attempts, lock_event, acquire_lock, handle_lock_error, release, with_lock,
  load_with_lock, load_with_dist_lock, backoff_with_jitter,
}
use xkit.Cache.Trace.{Fine, FineFrom, Fine-before, Fine-locked, Fine-error, Fine-hit}
use xkit.Cache.Storing.{load_and_cache-Fine}

module _ {E : Type 0} (o : Oracle E) (p : Options) (place : Place) (ttl : ℤ) where
  -- What is fine from a log is so from an earlier one.
  abbrev pub Leads : Log E → Log E → Type 0
  Leads log l = (r : Answer E) (l' : Log E) → Fine place ttl r l l' → Fine place ttl r log l'

  abbrev FineChecked : Log E → Checked o p → Type 0
  FineChecked log (some r, l) = Fine place ttl r log l
  FineChecked log (none, l) = Leads log l

  pub read-Leads : (x : Result E Bytes) (log : Log E) → Leads log (read place x ∷ log)
  read-Leads x log r l' fine =
      Fine-before place ttl r (read place x) log l' (refl, refl, refl) tt tt fine

  unless_over-Fine :
      (x : Option E) (y : E) (out : Answer E × Log E) (log l : Log E)
      → Leads log l
      → FineFrom place ttl l out
      → FineFrom place ttl log (unless_over o p x y out l)
  unless_over-Fine (some x) y out log l carry fine = carry _ l (Fine-error place ttl (external x) l)
  unless_over-Fine none y out log l carry fine =
      if-elim (FineFrom place ttl log) (o.is_lifecycle y) (err (external y), l) out
        (λ h. carry _ l (Fine-error place ttl (external y) l)) (λ h. carry _ _ fine)

  done-Fine :
      (log : Log E) (out : Answer E × Log E)
      → FineFrom place ttl log out
      → FineChecked log (done o p out)
  done-Fine log (r, l) fine = fine

  after_check-Fine :
      (c : Ctx) (r : Result E Bytes) (log : Log E)
      → FineChecked log (after_check o p c place ttl r (read place r ∷ log))
  after_check-Fine c (ok v) log = Fine-hit place ttl v log
  after_check-Fine c (err x) log =
      let l : Log E = read place (err x) ∷ log in
      if-elim (FineChecked log) (o.is_nil x) (none, l) _ (λ h. read-Leads (err x) log)
        (λ h. done-Fine log _ (
          unless_over-Fine (ctx_err o p c l) x (load_and_cache o p place ttl l) log l
            (read-Leads (err x) log) (load_and_cache-Fine o p ttl place l)))

  check_cache-Fine : (c : Ctx) (log : Log E) → FineChecked log (check_cache o p c place ttl log)
  unfolding check_cache
  check_cache-Fine c log = after_check-Fine c (o.reads log place) log

  or_else-Fine :
      (log : Log E) (checked : Checked o p) (go_on : Log E → Answer E × Log E)
      → FineChecked log checked
      → ((l : Log E) → FineFrom place ttl l (go_on l))
      → FineFrom place ttl log (or_else o p checked go_on)
  or_else-Fine log (some r, l) go_on fine rest = fine
  or_else-Fine log (none, l) go_on carry rest = carry _ _ (rest l)

  after_wait-Fine :
      (x : Option E) (go_on : Log E → Answer E × Log E) (log : Log E)
      → ((l : Log E) → FineFrom place ttl l (go_on l))
      → FineFrom place ttl log (after_wait o p x go_on log)
  after_wait-Fine (some x) go_on log rest = Fine-error place ttl (external x) log
  after_wait-Fine none go_on log rest = rest log

  after_retry-Fine :
      (r : Result E Bytes) (fallback go_on : Log E → Answer E × Log E) (log : Log E)
      → ((l : Log E) → FineFrom place ttl l (fallback l))
      → ((l : Log E) → FineFrom place ttl l (go_on l))
      → FineFrom place ttl log (after_retry o p r fallback go_on (read place r ∷ log))
  after_retry-Fine (ok v) fallback go_on log last rest = Fine-hit place ttl v log
  after_retry-Fine (err x) fallback go_on log last rest =
      let l : Log E = read place (err x) ∷ log in
      if-elim (FineFrom place ttl log) (o.is_nil x) (go_on l) (fallback l)
        (λ h. read-Leads (err x) log _ _ (rest l)) (λ h. read-Leads (err x) log _ _ (last l))

  wait_round-Fine :
      (c : Ctx) (max_wait elapsed wait : ℤ) (fallback : Log E → Answer E × Log E)
      (go_on : ℤ → Log E → Answer E × Log E) (log : Log E)
      → ((l : Log E) → FineFrom place ttl l (fallback l))
      → ((t : ℤ) (l : Log E) → FineFrom place ttl l (go_on t l))
      → FineFrom place ttl log (wait_round o p c max_wait elapsed wait fallback go_on log)
  wait_round-Fine c max_wait elapsed wait fallback go_on log last rest =
      let l : Log E = waited wait ∷ log in
      if-elim (FineFrom place ttl log) (ltb_ℤ max_wait (elapsed +ℤ wait)) (fallback log)
        (after_wait o p (cut_short o p c log) (go_on (elapsed +ℤ wait)) l) (λ h. last log)
        (λ h.
          Fine-before place ttl _ (waited wait) log _ (refl, refl, refl) tt tt
            (after_wait-Fine (cut_short o p c log) (go_on (elapsed +ℤ wait)) l
              (rest (elapsed +ℤ wait))))

  wait_loop-Fine :
      (c : Ctx) (max_wait : ℤ) (rounds attempt : ℕ) (elapsed : ℤ) (log : Log E)
      → FineFrom place ttl log (wait_loop o p c place ttl max_wait rounds attempt elapsed log)
  unfolding wait_loop
  wait_loop-Fine c max_wait zero attempt elapsed log = load_and_cache-Fine o p ttl place log
  wait_loop-Fine c max_wait (suc rounds) attempt elapsed log =
      after_wait-Fine (ctx_err o p c log) _ log (λ l.
        after_retry-Fine (o.reads l place) _ _ l (load_and_cache-Fine o p ttl place) (λ l'.
          wait_round-Fine c max_wait elapsed (backoff_with_jitter o p l' attempt) _ _ l'
            (load_and_cache-Fine o p ttl place)
            (λ t. wait_loop-Fine c max_wait rounds (suc attempt) t)))

  handle_lock_error-Fine :
      (x : Fault E) (fallback : Log E → Answer E × Log E) (log : Log E)
      → ((l : Log E) → FineFrom place ttl l (fallback l))
      → FineFrom place ttl log (handle_lock_error o p x fallback log)
  unfolding handle_lock_error
  handle_lock_error-Fine (external x) fallback log last =
      if-elim (FineFrom place ttl log) (o.is_context x) _ _
        (λ h. Fine-error place ttl (external x) log)
        (λ h.
          if-elim (FineFrom place ttl log) (o.is_lock_ttl x) _ _
            (λ h. Fine-error place ttl (invalid_config (some x)) log)
            (λ h.
              if-elim (FineFrom place ttl log) (o.is_config x) _ _
                (λ h. Fine-error place ttl (external x) log) (λ h. last log)))
  handle_lock_error-Fine nil_context fallback log last = Fine-error place ttl nil_context log
  handle_lock_error-Fine fault fallback log last = Fine-error place ttl fault log

  release-Fine :
      (k : Bytes) (log : Log E) (out : Answer E × Log E)
      → FineFrom place ttl (locked k ∷ log) out
      → FineFrom place ttl log (release o p k out)
  release-Fine k log (r, l) fine = Fine-locked place ttl r k log l fine

  with_lock-Fine :
      (c : Ctx) (k : Bytes) (r : Result (Fault E) (Unit {0})) (log : Log E)
      → FineFrom place ttl log (with_lock o p c place ttl k (r, lock_event o p k r ∷ log))
  unfolding wait_and_retry
  with_lock-Fine c k (err x) log =
      Fine-before place ttl _ (lock_refused k) log _ (refl, refl, refl) tt tt
        (handle_lock_error-Fine x _ (lock_refused k ∷ log)
          (wait_loop-Fine c (max_wait_time o p) (max_attempts o p) 0 (pos 0)))
  with_lock-Fine c k (ok u) log = release-Fine k log _ (
      or_else-Fine (locked k ∷ log) _ _ (check_cache-Fine c (locked k ∷ log))
        (load_and_cache-Fine o p ttl place))

  pub load_with_dist_lock-Fine :
      (c : Ctx) (log : Log E) → FineFrom place ttl log (load_with_dist_lock o p c place ttl log)
  unfolding load_with_dist_lock load_with_lock acquire_lock
  load_with_dist_lock-Fine c log = or_else-Fine log _ _ (check_cache-Fine c log) (λ l.
      if-elim (λ (f : Log E → Answer E × Log E). FineFrom place ttl l (f l))
        p.enable_distributed_lock _ _
        (λ h. with_lock-Fine c (p.lock_key_prefix ++ flight_key place) _ l)
        (λ h. load_and_cache-Fine o p ttl place l))
