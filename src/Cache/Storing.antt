-- ===== src/Cache/Storing.antt =====
-- The run of the load function and the write of its value add good events.
use xkit.Prelude.{
  ◌≡◌, inl, refl, true, false, Option, none, some, [], ◌∷◌, ℤ, pos, ◌&&◌, ltb_ℤ, leb_ℤ, not, ◌||◌,
  total, Result, ok, err, arith, if-elim,
}
use xkit.Cache.{
  Bytes, Place, key, field, Fault, external, load_panic, Answer, Loaded, returned, failed, panicked,
  called, set_key, set_field, asked_ttl, set_ttl, reported, Log, Oracle, Options,
}
use xkit.Cache.Loader.{
  clamped, apply_ttl_jitter, on_cache_set_error, hook, expire_missing, set_hash_ttl_if_missing,
  after_hset, write_hash_cache, write_cache, store_loaded, load_and_cache,
}
use xkit.Cache.Trace.{
  redis_key, Draft, Fine, FineFrom, Draft-after, Draft-Fine, Fine-Draft, Fine-after,
}

module _ {E : Type 0} (o : Oracle E) (p : Options) (place : Place) (ttl : ℤ) where
  on_cache_set_error-Fine :
      (r : Answer E) (k : Bytes) (x : E) (log l : Log E)
      → Fine place ttl r log l
      → Fine place ttl r log (on_cache_set_error o p k x l)
  unfolding on_cache_set_error
  on_cache_set_error-Fine r k x log l fine =
      if-elim (Fine place ttl r log) p.has_hook (reported k x ∷ l) l
        (λ h. Fine-after place ttl r (reported k x) log l (refl, refl, refl) tt tt fine) (λ h. fine)

  hook-Fine :
      (r : Answer E) (k : Bytes) (x : Option E) (log l : Log E)
      → Fine place ttl r log l
      → Fine place ttl r log (hook o p k x l)
  hook-Fine r k none log l fine = fine
  hook-Fine r k (some x) log l fine = on_cache_set_error-Fine r k x log l fine

  -- A request for a time to live makes a draft fine.
  set_ttl-Fine :
      (r : Answer E) (k : Bytes) (t : ℤ) (log l : Log E)
      → k ≡ redis_key place
      → ltb_ℤ (pos 0) t ≡ true
      → Draft place ttl r log l
      → Fine place ttl r log (set_ttl k t ∷ l)
  set_ttl-Fine r k t log l here positive =
      Draft-Fine place ttl r (set_ttl k t) log l (refl, refl, refl) (here, positive) (λ new h. tt)

  expire_missing-Fine :
      (r : Answer E) (k : Bytes) (t : ℤ) (x : Result E ℤ) (log l : Log E)
      → k ≡ redis_key place
      → ltb_ℤ (pos 0) t ≡ true
      → Draft place ttl r log l
      → Fine place ttl r log (expire_missing o p k t x (asked_ttl k x ∷ l))
  expire_missing-Fine r k t (err x) log l here positive draft =
      on_cache_set_error-Fine r k x log (asked_ttl k (err x) ∷ l) (
        Draft-Fine place ttl r (asked_ttl k (err x)) log l (refl, refl, refl) here (λ new h. tt)
          draft)
  expire_missing-Fine r k t (ok current) log l here positive draft =
      let asked : Log E = asked_ttl k (ok current) ∷ l in
      if-elim (Fine place ttl r log) (ltb_ℤ current (pos 0)) _ asked
        (λ h. hook-Fine r k (o.writes asked) log (set_ttl k t ∷ asked) (
          set_ttl-Fine r k t log asked here positive (
            Draft-after place ttl r (asked_ttl k (ok current)) log l (refl, refl, refl) here
              draft)))
        (λ h.
          Draft-Fine place ttl r (asked_ttl k (ok current)) log l (refl, refl, refl) here
            (λ new w. inl (ground arith)) draft)

module _ {E : Type 0} (o : Oracle E) (p : Options) (ttl : ℤ) (k f v : Bytes) (t : ℤ) (log l : Log E)
    (asks : ltb_ℤ (pos 0) ttl ≡ true → ltb_ℤ (pos 0) t ≡ true)
    (fine : Fine (field k f) ttl (ok v) log l) where
  set_field-Draft : (x : Option E) → Draft (field k f) ttl (ok v) log (set_field k f v x ∷ l)
  set_field-Draft x =
      Draft-after (field k f) ttl (ok v) (set_field k f v x) log l (refl, refl, refl) (refl, refl)
        (Fine-Draft (field k f) ttl (ok v) log l fine)

  after_hset-Fine :
      (x : Option E)
      → Fine (field k f) ttl (ok v) log (after_hset o p k t x (set_field k f v x ∷ l))
  unfolding set_hash_ttl_if_missing
  after_hset-Fine (some x) =
      on_cache_set_error-Fine o p (field k f) ttl (ok v) k x log (set_field k f v (some x) ∷ l) (
        Fine-after (field k f) ttl (ok v) (set_field k f v (some x)) log l (refl, refl, refl)
          (refl, refl) tt fine)
  after_hset-Fine none =
      let now : Log E = set_field k f v none ∷ l in
      if-elim (Fine (field k f) ttl (ok v) log) (ltb_ℤ (pos 0) t) _ now
        (λ h.
          expire_missing-Fine o p (field k f) ttl (ok v) k t (o.ttls now k) log now refl h
            (set_field-Draft none))
        (λ h.
          Draft-Fine (field k f) ttl (ok v) (set_field k f v none) log l (refl, refl, refl)
            (refl, refl) (λ new w. absurd (cc (asks w)))
            (Fine-Draft (field k f) ttl (ok v) log l fine))

  write_hash_cache-Fine : Fine (field k f) ttl (ok v) log (write_hash_cache o p k f v t l)
  unfolding write_hash_cache
  write_hash_cache-Fine =
      let x : Option E = o.writes l in
      let now : Log E = set_field k f v x ∷ l in
      if-elim (Fine (field k f) ttl (ok v) log) (ltb_ℤ (pos 0) t && p.hash_ttl_refresh) _ _
        (λ h. hook-Fine o p (field k f) ttl (ok v) k x log (set_ttl k t ∷ now) (
          set_ttl-Fine o p (field k f) ttl (ok v) k t log now refl (ground arith)
            (set_field-Draft x)))
        (λ h. after_hset-Fine x)

module _ {E : Type 0} (o : Oracle E) (p : Options) (ttl : ℤ) where
  write_cache-Fine :
      (place : Place) (v : Bytes) (t : ℤ) (log l : Log E)
      → ltb_ℤ t (pos 0) ≡ false
      → (ltb_ℤ (pos 0) ttl ≡ true → ltb_ℤ (pos 0) t ≡ true)
      → Fine place ttl (ok v) log l
      → Fine place ttl (ok v) log (write_cache o p place v t l)
  write_cache-Fine (key k) v t log l h asks fine =
      hook-Fine o p (key k) ttl (ok v) k (o.writes l) log (set_key k v t ∷ l) (
        Fine-after (key k) ttl (ok v) (set_key k v t) log l (refl, refl, refl)
          (refl, refl, ground arith, asks) tt fine)
  write_cache-Fine (field k f) v t log l h asks fine =
      write_hash_cache-Fine o p ttl k f v t log l asks fine

  clamped-positive :
      (x : Option ℤ) → ltb_ℤ (pos 0) ttl ≡ true → ltb_ℤ (pos 0) (clamped o p ttl x) ≡ true
  clamped-positive none h = h
  clamped-positive (some t) h = ground arith

  apply_ttl_jitter-positive :
      (log : Log E) → ltb_ℤ (pos 0) ttl ≡ true → ltb_ℤ (pos 0) (apply_ttl_jitter o p log ttl) ≡ true
  unfolding apply_ttl_jitter
  apply_ttl_jitter-positive log h =
      if-elim (λ (t : ℤ). ltb_ℤ (pos 0) t ≡ true) (not p.has_ttl_jitter || leb_ℤ ttl (pos 0)) _ _
        (λ w. h) (λ w. clamped-positive (o.scaled log ttl) h)

  -- The load function alone, and one that fails.
  called-Fine :
      (place : Place) (v : Bytes) (log : Log E)
      → Fine place ttl (ok v) log (called (returned v) ∷ log)
  unfolding total
  called-Fine place v log =
      (called (returned v) ∷ [], refl, ((omega arith, omega arith, (tt, tt), inl refl), λ h. tt))

  failing-Fine :
      (place : Place) (x : Fault E) (e : Loaded E) (log : Log E)
      → Fine place ttl (err x) log (called e ∷ log)
  unfolding total
  failing-Fine place x e log =
      (called e ∷ [], refl, ((omega arith, omega arith, (tt, tt), tt), λ h. tt))

  store_loaded-Fine :
      (place : Place) (r : Loaded E) (log : Log E)
      → FineFrom place ttl log (store_loaded o p place ttl r (called r ∷ log))
  store_loaded-Fine place panicked log = failing-Fine place load_panic panicked log
  store_loaded-Fine place (failed x) log = failing-Fine place (external x) (failed x) log
  store_loaded-Fine place (returned v) log =
      let now : Log E = called (returned v) ∷ log in
      let t = apply_ttl_jitter o p now ttl in
      if-elim (Fine place ttl (ok v) log) (ltb_ℤ t (pos 0)) now (write_cache o p place v t now)
        (λ h. called-Fine place v log)
        (λ h.
          write_cache-Fine place v t log now h (apply_ttl_jitter-positive now)
            (called-Fine place v log))

  pub load_and_cache-Fine :
      (place : Place) (log : Log E) → FineFrom place ttl log (load_and_cache o p place ttl log)
  unfolding load_and_cache
  load_and_cache-Fine place log = store_loaded-Fine place (o.loads log) log
