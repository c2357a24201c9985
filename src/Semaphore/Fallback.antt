-- ===== src/Semaphore/Fallback.antt =====
-- fallback.go: the semaphore that turns to a semaphore of its own process, or grants or refuses
-- everything, where the distributed one reports that Redis fails. The distributed semaphore is a
-- parameter. Metrics, traces, logs and the callback of a fallback are left out.
pub mod Bounds
pub mod Queries
pub mod Refinement
mod Examples
use Prim.Native.String.{◌++◌ as append}
use xkit.Prelude.{
  ℕ, ◌≡◌, Bool, true, false, not, ◌&&◌, Option, none, some, List, [], ◌∷◌, String, str_eq, ℤ, pos,
  ◌+ℤ◌, if◌then◌else◌, Result, ok, err,
}
use xkit.Semaphore.{
  Error, semaphore_closed, id_generation_failed, Permit, Attempt, granted, refused,
}
use xkit.Semaphore.Validate.{Ctx, AcquireOptions, QueryOptions, resolve_tenant_id}
use xkit.Semaphore.Local
use xkit.Semaphore.Local.Calls.{new_local_semaphore}
use xkit.Semaphore.Local.{LocalSemaphore, Round, ResourceInfo}

-- The distributed semaphore: its state `D`, its errors `E` and permits `P`, and what `IsRedisError`
-- says of an error. A nil permit with a nil error is `ok none`.
pub record Distributed (D E P : Type 0) : Type 0 where
  pub remote_try_acquire : Ctx → String → AcquireOptions → D → Result E (Option P) × D
  pub remote_acquire : Ctx → String → AcquireOptions → D → Result E (Option P) × D
  pub remote_query : Ctx → String → QueryOptions → D → Result E ResourceInfo × D
  pub remote_close : Ctx → D → Result E Unit × D
  pub remote_health : Ctx → D → Result E Unit × D
  pub is_redis_error : E → Bool

pub data FallbackStrategy : Type 0 where
  fallback_local fallback_open fallback_close : FallbackStrategy

pub record FallbackSemaphore (D : Type 0) : Type 0 where
  pub distributed : D
  pub own : Option LocalSemaphore
  pub shut : Bool
  pub strategy : FallbackStrategy
  pub pod_count : ℤ

pub data Failure (E : Type 0) : Type 0 where
  remote_error : E → Failure E
  local_error : Error → Failure E
  redis_unavailable : Failure E
  both_errors : E → Error → Failure E

pub data Handed (P : Type 0) : Type 0 where
  remote_permit : P → Handed P
  local_permit noop_permit : Permit → Handed P
  no_permit : Handed P

-- xtenant.TenantID
abbrev pub tenant_of : Ctx → String
tenant_of none = ""
tenant_of (some t) = t

-- What the semaphore of the process is asked, by `TryAcquire` or by `Acquire`.
pub data Asking : Type 0 where
  asks_once : Round → Asking
  asks_often : (ℕ → Round) → Asking

abbrev pub first_round : Asking → Round
first_round (asks_once e) = e
first_round (asks_often env) = env 0

abbrev pub of_remote : {P : Type 0} → Option P → Handed P
of_remote none = no_permit
of_remote (some p) = remote_permit p

module _ {D : Type 0} where
  -- newFallbackSemaphore
  abbrev pub new_fallback_semaphore : D → FallbackStrategy → ℤ → FallbackSemaphore D
  new_fallback_semaphore d strategy pods = record {
    distributed = d;
    own = none;
    shut = false;
    strategy = strategy;
    pod_count = pods;
  }

  abbrev pub own_or_new : FallbackSemaphore D → LocalSemaphore
  own_or_new f = elim f.own [ none ↦ new_local_semaphore f.pod_count | some s ↦ s ]

  -- `ensureLocalSemaphore` under the strategy `FallbackLocal`.
  unfoldable pub ensure_local_semaphore : FallbackSemaphore D → Option LocalSemaphore
  ensure_local_semaphore f = if f.shut then none else some (own_or_new f)

module _ {E P : Type 0} where
  abbrev pub of_try : Result Error Attempt → Result (Failure E) (Handed P)
  of_try (err x) = err (local_error x)
  of_try (ok (granted p)) = ok (local_permit p)
  of_try (ok (refused reason)) = ok no_permit

  abbrev pub of_acquire : Result Error Permit → Result (Failure E) (Handed P)
  of_acquire (err x) = err (local_error x)
  of_acquire (ok p) = ok (local_permit p)

  -- `newNoopPermit`, with the tenant of the options or of the context (nil has none).
  unfoldable pub new_noop_permit :
      Ctx → String → AcquireOptions → Round → Result (Failure E) (Handed P)
  unfolding resolve_tenant_id
  new_noop_permit ctx resource o e = elim e.generated [
    | none ↦ err (local_error id_generation_failed)
    | some id ↦ ok (
        noop_permit (record {
          id = append "noop-" id;
          resource = resource;
          tenant_id = resolve_tenant_id (tenant_of ctx) o.tenant_id;
          ttl = o.ttl;
          has_tenant_quota = false;
          expires_at = e.now +ℤ o.ttl;
          released = false;
        }))
  ]

  unfoldable pub ask_local :
      Ctx
      → String
      → AcquireOptions
      → Asking
      → LocalSemaphore
      → Result (Failure E) (Handed P) × LocalSemaphore
  ask_local ctx resource o (asks_once e) s =
      let (r, s') = Local.try_acquire ctx resource o e s in (of_try r, s')
  ask_local ctx resource o (asks_often env) s =
      let (r, s') = Local.acquire ctx resource o env s in (of_acquire r, s')

abbrev pub close_own : Option LocalSemaphore → Option LocalSemaphore
close_own none = none
close_own (some s) = some (Local.close s)

module _ {D E P : Type 0} (remote : Distributed D E P) where
  abbrev pub Answer : Type 0
  Answer = Result (Failure E) (Handed P) × FallbackSemaphore D

  -- The strategy `FallbackLocal`, with the semaphore of the process unless this one is closed.
  abbrev pub with_local :
      Ctx → String → AcquireOptions → Asking → FallbackSemaphore D → Option LocalSemaphore → Answer
  with_local ctx resource o a f none = (err (local_error semaphore_closed), f)
  with_local ctx resource o a f (some s) =
      let (r, s') = ask_local ctx resource o a s in (r, record f { own = some s' })

  abbrev pub by_strategy :
      Ctx → String → AcquireOptions → Asking → FallbackSemaphore D → FallbackStrategy → Answer
  by_strategy ctx resource o a f fallback_local =
      with_local ctx resource o a f (ensure_local_semaphore f)
  by_strategy ctx resource o a f fallback_open = (new_noop_permit ctx resource o (first_round a), f)
  by_strategy ctx resource o a f fallback_close = (err redis_unavailable, f)

  unfoldable pub do_fallback : Ctx → String → AcquireOptions → Asking → FallbackSemaphore D → Answer
  unfolding ensure_local_semaphore
  do_fallback ctx resource o a f = by_strategy ctx resource o a f f.strategy

  -- `TryAcquire` and `Acquire`, from what the distributed semaphore answered.
  unfoldable pub after_remote :
      Ctx → String → AcquireOptions → Asking → FallbackSemaphore D → Result E (Option P) → Answer
  unfolding do_fallback
  after_remote ctx resource o a f (ok p) = (ok (of_remote p), f)
  after_remote ctx resource o a f (err x) =
      if not (remote.is_redis_error x)
      then (err (remote_error x), f)
      else do_fallback ctx resource o a f

  unfoldable pub try_acquire : Ctx → String → AcquireOptions → Round → FallbackSemaphore D → Answer
  unfolding after_remote
  try_acquire ctx resource o e f =
      let (r, d) = remote.remote_try_acquire ctx resource o f.distributed in
      after_remote ctx resource o (asks_once e) (record f { distributed = d }) r

  unfoldable pub acquire :
      Ctx → String → AcquireOptions → (ℕ → Round) → FallbackSemaphore D → Answer
  unfolding after_remote
  acquire ctx resource o env f =
      let (r, d) = remote.remote_acquire ctx resource o f.distributed in
      after_remote ctx resource o (asks_often env) (record f { distributed = d }) r

  -- `Close`: the semaphore of the process answers no error.
  unfoldable pub close : Ctx → FallbackSemaphore D → Result (Failure E) Unit × FallbackSemaphore D
  close ctx f =
      let (r, d) = remote.remote_close ctx f.distributed in
      (
        elim r [ ok _ ↦ ok tt | err x ↦ err (remote_error x) ],
        record f { distributed = d; own = close_own f.own; shut = true },
      )

  -- `Health`: both errors are joined where both semaphores have one.
  unfoldable pub health : Ctx → FallbackSemaphore D → Result (Failure E) Unit × FallbackSemaphore D
  health ctx f =
      let (r, d) = remote.remote_health ctx f.distributed in
      let f' = record f { distributed = d } in
      elim r [
        | ok _ ↦ (ok tt, f')
        | err x ↦
            if remote.is_redis_error x
            then elim f.own [
              | none ↦ (err (remote_error x), f')
              | some s ↦ elim (Local.health ctx s) [
                | ok _ ↦ (err (remote_error x), f')
                | err y ↦ (err (both_errors x y), f')
              ]
            ]
            else (err (remote_error x), f')
      ]
