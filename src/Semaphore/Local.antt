-- ===== src/Semaphore/Local.antt =====
-- local.go and permit.go: the semaphore of one process, its permits' methods, and the retry loop of
-- `Acquire`. What the environment decides (clock readings, generated ids, whether the context has
-- ended) is an argument; tracing, metrics and logs are left out.
pub mod Safety
pub mod Calls
pub mod Methods
pub mod Queries
use xkit.Prelude.{
  ℕ, zero, suc, ◌+◌, ◌≡◌, Bool, true, false, not, ◌&&◌, Option, none, some, String, str_eq, ℤ, pos,
  pos_part, ◌+ℤ◌, ◌-ℤ◌, leb_ℤ, ltb_ℤ, ◌==◌, if◌then◌else◌, Result, ok, err, ◌>>=◌,
}
use xkit.GoMap
use xkit.GoMap.{GoMap}
use xkit.Semaphore.{
  Error, nil_context, semaphore_closed, permit_not_held, id_generation_failed, acquire_failed,
  context_done, Reason, ResourcePermits, Permit, Request, Attempt, granted, refused,
  new_resource_permits, cleanup_expired_locked, acquire_locked, release_locked, extend_locked,
  count_active, entry_at, is_after,
}
use xkit.Semaphore.Validate.{
  AcquireOptions, QueryOptions, Ctx, validate_retry_params, prepare_acquire_common,
  prepare_query_common, effective_pod_count, divide_by_pod_count, max_ℤ,
}

pub record LocalSemaphore : Type 0 where
  pub permits : GoMap ResourcePermits
  pub closed : Bool
  pub pod_count : ℤ

-- `getResourcePermits`: the permits of a resource, made at its first use.
unfoldable pub get_resource_permits : LocalSemaphore → String → ResourcePermits
get_resource_permits s resource = elim (GoMap.get s.permits resource) [
  | none ↦ new_resource_permits
  | some rp ↦ rp
]

abbrev pub put_resource_permits : LocalSemaphore → String → ResourcePermits → LocalSemaphore
put_resource_permits s resource rp = record s { permits = GoMap.put s.permits resource rp }

-- `calculateLocalCapacity`, at one of its two values.
unfoldable pub local_share : LocalSemaphore → ℤ → ℤ
unfolding divide_by_pod_count effective_pod_count
local_share s value = divide_by_pod_count value (effective_pod_count s.pod_count)

unfoldable pub local_request : LocalSemaphore → String → String → AcquireOptions → Request
local_request s resource tenant_id o = record {
  resource = resource;
  tenant_id = tenant_id;
  capacity = local_share s o.capacity;
  tenant_quota = local_share s o.tenant_quota;
  ttl = o.ttl;
}

-- What one attempt meets: the context's end, the generated id or its failure, the clock under the
-- lock, and whether the wait after it is cut short.
pub record Round : Type 0 where
  pub ctx_done : Bool
  pub generated : Option String
  pub now : ℤ
  pub wait_done : Bool

unfoldable pub do_acquire : Round → Request → LocalSemaphore → Result Error Attempt × LocalSemaphore
unfolding get_resource_permits
do_acquire e r s = elim e.generated [
  | none ↦ (err id_generation_failed, s)
  | some id ↦
      let (a, rp) = acquire_locked e.now id r (get_resource_permits s r.resource) in
      (ok a, put_resource_permits s r.resource rp)
]

-- `TryAcquire`; a refusal is a nil permit with a nil error.
unfoldable pub try_acquire :
    Ctx → String → AcquireOptions → Round → LocalSemaphore → Result Error Attempt × LocalSemaphore
try_acquire ctx resource o e s = elim (prepare_acquire_common ctx resource o s.closed) [
  | err x ↦ (err x, s)
  | ok tenant_id ↦
      if e.ctx_done
      then (err context_done, s)
      else do_acquire e (local_request s resource tenant_id o) s
]

-- What an attempt of `Acquire` leads to: its error, its permit, or `rest`, unless the wait between
-- is cut short.
abbrev pub after_attempt :
    Bool
    → Result Error Attempt × LocalSemaphore
    → Result Error Permit × LocalSemaphore
    → Result Error Permit × LocalSemaphore
after_attempt cut_short (err x, s) rest = (err x, s)
after_attempt cut_short (ok (granted p), s) rest = (ok p, s)
after_attempt cut_short (ok (refused reason), s) rest =
    if cut_short then (err context_done, s) else rest

-- The loop of `Acquire`: `left` attempts remain, and `attempt` is the index of the next.
unfoldable pub acquire_loop :
    ℕ → ℕ → (ℕ → Round) → Request → LocalSemaphore → Result Error Permit × LocalSemaphore
acquire_loop zero attempt env r s = (err acquire_failed, s)
acquire_loop (suc left) attempt env r s =
    let e = env attempt in
    let after = do_acquire e r s in
    let rest = acquire_loop left (attempt + 1) env r after.1 in
    if e.ctx_done
    then (err context_done, s)
    else after_attempt (not (left == 0) && e.wait_done) after rest

unfoldable pub acquire :
    Ctx
    → String
    → AcquireOptions
    → (ℕ → Round)
    → LocalSemaphore
    → Result Error Permit × LocalSemaphore
acquire ctx resource o env s = elim (prepare_acquire_common ctx resource o s.closed) [
  | err x ↦ (err x, s)
  | ok tenant_id ↦ elim (validate_retry_params o) [
    | err x ↦ (err x, s)
    | ok _ ↦ acquire_loop (pos_part o.max_retries) 0 env (local_request s resource tenant_id o) s
  ]
]

unfoldable pub release_permit : Permit → LocalSemaphore → Result Error Unit × LocalSemaphore
release_permit p s = elim (GoMap.get s.permits p.resource) [
  | none ↦ (err permit_not_held, s)
  | some rp ↦ let (r, rp') = release_locked p rp in (r, put_resource_permits s p.resource rp')
]

unfoldable pub extend_permit : ℤ → ℤ → Permit → LocalSemaphore → Result Error Unit × LocalSemaphore
extend_permit now until p s = elim (GoMap.get s.permits p.resource) [
  | none ↦ (err permit_not_held, s)
  | some rp ↦
      let (r, rp') = extend_locked now until p rp in (r, put_resource_permits s p.resource rp')
]

-- A permit's `Release`. An error that is not ErrPermitNotHeld leaves the permit unreleased.
unfoldable pub release : Ctx → Permit → LocalSemaphore → Result Error Unit × Permit × LocalSemaphore
release none p s = (err nil_context, p, s)
release (some t) p s =
    let after = release_permit p s in
    if p.released then (ok tt, p, s) else elim after.0 [
      | err permit_not_held ↦ (ok tt, record p { released = true }, after.1)
      | err x ↦ (err x, p, after.1)
      | ok _ ↦ (ok tt, record p { released = true }, after.1)
    ]

-- A permit's `Extend`: it reads the clock for the new instant, and again under the lock.
unfoldable pub extend :
    Ctx → ℤ → ℤ → Permit → LocalSemaphore → Result Error Unit × Permit × LocalSemaphore
extend none now now_locked p s = (err nil_context, p, s)
extend (some t) now now_locked p s =
    let until = now +ℤ p.ttl in
    let after = extend_permit now_locked until p s in
    if p.released then (err permit_not_held, p, s) else elim after.0 [
      | err x ↦ (err x, p, after.1)
      | ok _ ↦ (ok tt, record p { expires_at = until }, after.1)
    ]

pub record ResourceInfo : Type 0 where
  pub resource : String
  pub global_capacity : ℤ
  pub global_used : ℤ
  pub global_available : ℤ
  pub tenant_id : String
  pub tenant_quota : ℤ
  pub tenant_used : ℤ
  pub tenant_available : ℤ

-- `countActivePermits`, for the resource and for a tenant.
unfoldable pub count_global : ℤ → LocalSemaphore → String → ℕ
count_global now s resource = elim (GoMap.get s.permits resource) [
  | none ↦ 0
  | some rp ↦ count_active now rp rp.global.entries
]

unfoldable pub count_tenant : ℤ → LocalSemaphore → String → String → ℕ
count_tenant now s resource tenant_id = elim (GoMap.get s.permits resource) [
  | none ↦ 0
  | some rp ↦ if str_eq tenant_id "" then 0 else elim (GoMap.get rp.tenants tenant_id) [
    | none ↦ 0
    | some ps ↦ count_active now rp ps.entries
  ]
]

unfoldable pub query : Ctx → String → QueryOptions → ℤ → LocalSemaphore → Result Error ResourceInfo
unfolding count_global count_tenant local_share
query ctx resource o now s = elim (prepare_query_common ctx resource o s.closed) [
  | err x ↦ err x
  | ok tenant_id ↦
      let used = pos (count_global now s resource) in
      let tenant_used =
        if leb_ℤ o.tenant_quota (pos 0)
        then pos 0
        else pos (count_tenant now s resource tenant_id) in
      let capacity = local_share s o.capacity in
      let quota = local_share s o.tenant_quota in
      ok (record {
        resource = resource;
        global_capacity = capacity;
        global_used = used;
        global_available = max_ℤ (pos 0) (capacity -ℤ used);
        tenant_id = tenant_id;
        tenant_quota = quota;
        tenant_used = tenant_used;
        tenant_available = max_ℤ (pos 0) (quota -ℤ tenant_used);
      })
]

-- `cleanupAllExpired`, one tick of the background loop.
unfoldable pub cleanup_all_expired : ℤ → LocalSemaphore → LocalSemaphore
cleanup_all_expired now s = record s {
  permits = GoMap.map_values (cleanup_expired_locked now) s.permits;
}

unfoldable pub close : LocalSemaphore → LocalSemaphore
close s = if s.closed then s else record s { closed = true }

unfoldable pub health : Ctx → LocalSemaphore → Result Error Unit
health none s = err nil_context
health (some t) s = if s.closed then err semaphore_closed else ok tt
