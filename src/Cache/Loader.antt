-- ===== src/Cache/Loader.antt =====
-- loader_impl.go: Load and LoadHash, which differ in the place that they read and write, and in the
-- key of that place for singleflight and the lock.
use xkit.Prelude.{
  ℕ, zero, suc, ◌*◌, ◌^◌, Bool, true, false, not, ◌&&◌, ◌||◌, ◌==◌, ltb, Option, none, some, [],
  ◌∷◌, ◌++◌, ℤ, pos, ◌+ℤ◌, leb_ℤ, ltb_ℤ, pos_part, if◌then◌else◌, Result, ok, err,
}
use xkit.Cache.{
  Bytes, Place, key, field, Fault, external, nil_context, nil_client, empty_key, nil_loader,
  load_panic, invalid_config, Answer, Loaded, returned, failed, panicked, Event, read, called,
  set_key, set_field, asked_ttl, set_ttl, locked, lock_refused, unlocked, waited, reported, Log,
  Flight, leads, joins, leads_until, joins_until, Oracle, Options,
}
use xkit.Cache.HashKey.{hash_field_key}

-- The context of the caller, or one without its cancellation.
pub data Ctx : Type 0 where
  caller detached : Ctx

-- The key of a place for singleflight and the lock.
abbrev pub flight_key : Place → Bytes
flight_key (key k) = k
flight_key (field k f) = hash_field_key k f

abbrev pub base_backoff : ℕ
base_backoff = 50000000

abbrev pub max_backoff : ℕ
max_backoff = 500000000

abbrev pub clamp_shift : ℕ → ℕ
clamp_shift attempt = if ltb 30 attempt then 30 else attempt

-- `backoffWithJitter` before the jitter.
unfoldable pub backoff_of : ℕ → ℕ
backoff_of attempt =
    let backoff = base_backoff * 2 ^ clamp_shift attempt in
    if backoff == 0 || ltb max_backoff backoff then max_backoff else backoff

module _ {E : Type 0} (o : Oracle E) (p : Options) where
  abbrev pub ctx_err : Ctx → Log E → Option E
  ctx_err caller log = o.ctx_err log
  ctx_err detached log = none

  abbrev pub cut_short : Ctx → Log E → Option E
  cut_short caller log = o.cut_short log
  cut_short detached log = none

  abbrev pub backoff_with_jitter : Log E → ℕ → ℤ
  backoff_with_jitter log attempt = pos (backoff_of attempt) +ℤ o.jitter log (backoff_of attempt)

  -- `applyTTLJitter`
  abbrev pub clamped : ℤ → Option ℤ → ℤ
  clamped ttl none = ttl
  clamped ttl (some result) = if leb_ℤ result (pos 0) then pos 1 else result

  unfoldable pub apply_ttl_jitter : Log E → ℤ → ℤ
  apply_ttl_jitter log ttl =
      if not p.has_ttl_jitter || leb_ℤ ttl (pos 0) then ttl else clamped ttl (o.scaled log ttl)

  -- `onCacheSetError`
  unfoldable pub on_cache_set_error : Bytes → E → Log E → Log E
  on_cache_set_error k x log = if p.has_hook then reported k x ∷ log else log

  abbrev pub hook : Bytes → Option E → Log E → Log E
  hook k none log = log
  hook k (some x) log = on_cache_set_error k x log

  abbrev pub expire_missing : Bytes → ℤ → Result E ℤ → Log E → Log E
  expire_missing k ttl (err x) log = on_cache_set_error k x log
  expire_missing k ttl (ok current) log =
      if ltb_ℤ current (pos 0) then hook k (o.writes log) (set_ttl k ttl ∷ log) else log

  unfoldable pub set_hash_ttl_if_missing : Bytes → ℤ → Log E → Log E
  set_hash_ttl_if_missing k ttl log =
      let r = o.ttls log k in expire_missing k ttl r (asked_ttl k r ∷ log)

  abbrev pub after_hset : Bytes → ℤ → Option E → Log E → Log E
  after_hset k ttl (some x) log = on_cache_set_error k x log
  after_hset k ttl none log = if ltb_ℤ (pos 0) ttl then set_hash_ttl_if_missing k ttl log else log

  -- The pipeline writes the field and sets the time to live together.
  unfoldable pub write_hash_cache : Bytes → Bytes → Bytes → ℤ → Log E → Log E
  write_hash_cache k f v ttl log =
      let r = o.writes log in
      if ltb_ℤ (pos 0) ttl && p.hash_ttl_refresh
      then hook k r (set_ttl k ttl ∷ set_field k f v r ∷ log)
      else after_hset k ttl r (set_field k f v r ∷ log)

  abbrev pub write_cache : Place → Bytes → ℤ → Log E → Log E
  write_cache (key k) v ttl log = hook k (o.writes log) (set_key k v ttl ∷ log)
  write_cache (field k f) v ttl log = write_hash_cache k f v ttl log

  abbrev pub store_loaded : Place → ℤ → Loaded E → Log E → Answer E × Log E
  store_loaded place ttl panicked log = (err load_panic, log)
  store_loaded place ttl (failed x) log = (err (external x), log)
  store_loaded place ttl (returned v) log =
      let cache_ttl = apply_ttl_jitter log ttl in
      (ok v, if ltb_ℤ cache_ttl (pos 0) then log else write_cache place v cache_ttl log)

  -- `loadAndCache` and `loadHashAndCache`; `safeLoadFn` makes a panic an error.
  unfoldable pub load_and_cache : Place → ℤ → Log E → Answer E × Log E
  unfolding apply_ttl_jitter write_hash_cache set_hash_ttl_if_missing on_cache_set_error
  load_and_cache place ttl log = let r = o.loads log in store_loaded place ttl r (called r ∷ log)

  -- What follows a read that fails with another error than `redis.Nil`: the error of a context or of
  -- a closed cache, or else what is given.
  abbrev pub unless_over : Option E → E → Answer E × Log E → Log E → Answer E × Log E
  unless_over (some x) y go_on log = (err (external x), log)
  unless_over none y go_on log = if o.is_lifecycle y then (err (external y), log) else go_on

  abbrev pub Checked : Type 0
  Checked = Option (Answer E) × Log E

  abbrev pub done : Answer E × Log E → Checked
  done (r, log) = (some r, log)

  abbrev pub after_check : Ctx → Place → ℤ → Result E Bytes → Log E → Checked
  after_check c place ttl (ok v) log = (some (ok v), log)
  after_check c place ttl (err x) log =
      if o.is_nil x
      then (none, log)
      else done (unless_over (ctx_err c log) x (load_and_cache place ttl log) log)

  -- `checkCacheGet` and `checkCacheHGet`
  unfoldable pub check_cache : Ctx → Place → ℤ → Log E → Checked
  unfolding load_and_cache
  check_cache c place ttl log =
      let r = o.reads log place in after_check c place ttl r (read place r ∷ log)

  abbrev pub or_else : Checked → (Log E → Answer E × Log E) → Answer E × Log E
  or_else (some r, log) go_on = (r, log)
  or_else (none, log) go_on = go_on log

  abbrev pub after_wait : Option E → (Log E → Answer E × Log E) → Log E → Answer E × Log E
  after_wait (some x) go_on log = (err (external x), log)
  after_wait none go_on log = go_on log

  -- A round of `waitAndRetry` from the read, from the wait that it computes, and from its start.
  abbrev pub wait_round :
      Ctx
      → ℤ
      → ℤ
      → ℤ
      → (Log E → Answer E × Log E)
      → (ℤ → Log E → Answer E × Log E)
      → Log E
      → Answer E × Log E
  wait_round c max_wait elapsed wait fallback go_on log =
      if ltb_ℤ max_wait (elapsed +ℤ wait)
      then fallback log
      else after_wait (cut_short c log) (go_on (elapsed +ℤ wait)) (waited wait ∷ log)

  abbrev pub after_retry :
      Result E Bytes
      → (Log E → Answer E × Log E)
      → (Log E → Answer E × Log E)
      → Log E
      → Answer E × Log E
  after_retry (ok v) fallback go_on log = (ok v, log)
  after_retry (err x) fallback go_on log = if o.is_nil x then go_on log else fallback log

  abbrev pub retry_read :
      Place → (Log E → Answer E × Log E) → (Log E → Answer E × Log E) → Log E → Answer E × Log E
  retry_read place fallback go_on log =
      let r = o.reads log place in after_retry r fallback go_on (read place r ∷ log)

  -- The loop of `waitAndRetry`, on the rounds that are left.
  unfoldable pub wait_loop : Ctx → Place → ℤ → ℤ → ℕ → ℕ → ℤ → Log E → Answer E × Log E
  unfolding load_and_cache backoff_of
  wait_loop c place ttl max_wait zero attempt elapsed log = load_and_cache place ttl log
  wait_loop c place ttl max_wait (suc rounds) attempt elapsed log =
      after_wait (ctx_err c log)
        (retry_read place (load_and_cache place ttl) (λ log'.
          wait_round c max_wait elapsed (backoff_with_jitter log' attempt)
            (load_and_cache place ttl)
            (λ elapsed'. wait_loop c place ttl max_wait rounds (suc attempt) elapsed') log'))
        log

  abbrev pub max_attempts : ℕ
  max_attempts = if leb_ℤ p.max_retry_attempts (pos 0) then 10 else pos_part p.max_retry_attempts

  abbrev pub max_wait_time : ℤ
  max_wait_time =
      if leb_ℤ p.distributed_lock_ttl (pos 0) then pos 10000000000 else p.distributed_lock_ttl

  -- `waitAndRetryGet` and `waitAndRetryHGet`
  unfoldable pub wait_and_retry : Ctx → Place → ℤ → Log E → Answer E × Log E
  unfolding wait_loop
  wait_and_retry c place ttl log = wait_loop c place ttl max_wait_time max_attempts 0 (pos 0) log

  abbrev pub check_unlocker : Result E Bool → Result (Fault E) (Unit {0})
  check_unlocker (err x) = err (external x)
  check_unlocker (ok true) = ok tt
  check_unlocker (ok false) = err (invalid_config none)

  abbrev pub lock_event : Bytes → Result (Fault E) (Unit {0}) → Event E
  lock_event k (ok u) = locked k
  lock_event k (err x) = lock_refused k

  unfoldable pub acquire_lock : Bytes → Log E → Result (Fault E) (Unit {0}) × Log E
  acquire_lock k log =
      let r = check_unlocker (o.locks p.has_external_lock log k) in (r, lock_event k r ∷ log)

  unfoldable pub handle_lock_error : Fault E → (Log E → Answer E × Log E) → Log E → Answer E × Log E
  handle_lock_error (external x) fallback log =
      if o.is_context x
      then (err (external x), log)
      else if o.is_lock_ttl x
      then (err (invalid_config (some x)), log)
      else if o.is_config x
      then (err (external x), log)
      else fallback log
  handle_lock_error fault fallback log = (err fault, log)

  abbrev pub release : Bytes → Answer E × Log E → Answer E × Log E
  release k (r, log) = (r, unlocked k ∷ log)

  -- The critical section, and the unlocking that is deferred.
  abbrev pub with_lock :
      Ctx → Place → ℤ → Bytes → Result (Fault E) (Unit {0}) × Log E → Answer E × Log E
  with_lock c place ttl k (err x, log) = handle_lock_error x (wait_and_retry c place ttl) log
  with_lock c place ttl k (ok u, log) =
      release k (or_else (check_cache c place ttl log) (load_and_cache place ttl))

  -- `loadWithLock` and `loadHashWithLock`
  unfoldable pub load_with_lock : Ctx → Place → ℤ → Log E → Answer E × Log E
  unfolding acquire_lock handle_lock_error wait_and_retry check_cache
  load_with_lock c place ttl log =
      let k = p.lock_key_prefix ++ flight_key place in with_lock c place ttl k (acquire_lock k log)

  -- `loadWithDistLock` and `loadHashWithDistLock`
  unfoldable pub load_with_dist_lock : Ctx → Place → ℤ → Log E → Answer E × Log E
  unfolding load_with_lock
  load_with_dist_lock c place ttl log =
      or_else (check_cache c place ttl log)
        (if p.enable_distributed_lock then load_with_lock c place ttl else load_and_cache place ttl)

  abbrev pub fly : Flight E → (Log E → Answer E × Log E) → Log E → Answer E × Log E
  fly leads run log = run log
  fly (leads_until x) run log = (err (external x), (run log).1)
  fly (joins r) run log = (r, log)
  fly (joins_until x) run log = (err (external x), log)

  -- `loadWithSingleflight` and `loadHashWithSingleflight`
  unfoldable pub load_with_singleflight : Place → ℤ → Log E → Answer E × Log E
  unfolding load_with_dist_lock
  load_with_singleflight place ttl log =
      fly (o.flights log (flight_key place)) (load_with_dist_lock detached place ttl) log

  -- `Load` and `LoadHash` after the read of the cache missed.
  abbrev pub go_loading : Place → ℤ → Log E → Answer E × Log E
  go_loading place ttl log =
      if p.enable_singleflight
      then load_with_singleflight place ttl log
      else load_with_dist_lock caller place ttl log

  abbrev pub after_first_read : Place → ℤ → Result E Bytes → Log E → Answer E × Log E
  after_first_read place ttl (ok v) log = (ok v, log)
  after_first_read place ttl (err x) log =
      if o.is_nil x
      then go_loading place ttl log
      else unless_over (ctx_err caller log) x (go_loading place ttl log) log

  unfoldable pub load_checked : Place → ℤ → Log E → Answer E × Log E
  unfolding load_with_singleflight
  load_checked place ttl log =
      let r = o.reads log place in after_first_read place ttl r (read place r ∷ log)

-- The tests of the arguments, of Load and of LoadHash.
abbrev pub is_empty : Bytes → Bool
is_empty [] = true
is_empty (c ∷ cs) = false

unfoldable pub validate_load_args :
    {E : Type 0} → Bool → Bool → Bool → Bool → Result (Fault E) (Unit {0})
validate_load_args has_ctx has_cache has_empty has_loader =
    if not has_ctx
    then err nil_context
    else if not has_cache
    then err nil_client
    else if has_empty
    then err empty_key
    else if not has_loader
    then err nil_loader
    else ok tt

module _ {E : Type 0} (o : Oracle E) (p : Options) where
  abbrev pub if_valid :
      Result (Fault E) (Unit {0}) → (Log E → Answer E × Log E) → Log E → Answer E × Log E
  if_valid (err x) go_on log = (err x, log)
  if_valid (ok u) go_on log = go_on log

  unfoldable pub load : Bool → Bool → Bytes → Bool → ℤ → Log E → Answer E × Log E
  unfolding load_checked validate_load_args
  load has_ctx has_cache k has_loader ttl =
      if_valid (validate_load_args has_ctx has_cache (is_empty k) has_loader)
        (load_checked o p (key k) ttl)

  unfoldable pub load_hash : Bool → Bool → Bytes → Bytes → Bool → ℤ → Log E → Answer E × Log E
  unfolding load_checked validate_load_args
  load_hash has_ctx has_cache k f has_loader ttl =
      if_valid (validate_load_args has_ctx has_cache (is_empty k || is_empty f) has_loader)
        (load_checked o p (field k f) ttl)
