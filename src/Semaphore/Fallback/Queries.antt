-- ===== src/Semaphore/Fallback/Queries.antt =====
-- fallback.go: Query of the fallback semaphore.
use xkit.Prelude.{Option, none, some, String, ℤ, pos, if◌then◌else◌, Result, ok, err}
use xkit.Semaphore.{Error, semaphore_closed}
use xkit.Semaphore.Validate.{Ctx, QueryOptions, resolve_tenant_id}
use xkit.Semaphore.Local
use xkit.Semaphore.Local.{LocalSemaphore, ResourceInfo}
use xkit.Semaphore.Fallback.{
  Distributed, FallbackStrategy, fallback_local, fallback_open, fallback_close, FallbackSemaphore,
  Failure, remote_error, local_error, redis_unavailable, tenant_of, ensure_local_semaphore,
}

-- The answer to a query where everything is granted.
unfoldable pub build_open_query_info : Ctx → String → QueryOptions → ResourceInfo
unfolding resolve_tenant_id
build_open_query_info ctx resource o = record {
  resource = resource;
  global_capacity = o.capacity;
  global_used = pos 0;
  global_available = o.capacity;
  tenant_id = resolve_tenant_id (tenant_of ctx) o.tenant_id;
  tenant_quota = o.tenant_quota;
  tenant_used = pos 0;
  tenant_available = o.tenant_quota;
}

abbrev pub of_query : {E : Type 0} → Result Error ResourceInfo → Result (Failure E) ResourceInfo
of_query (err x) = err (local_error x)
of_query (ok info) = ok info

module _ {D E : Type 0} where
  abbrev pub query_local :
      Ctx
      → String
      → QueryOptions
      → ℤ
      → FallbackSemaphore D
      → Option LocalSemaphore
      → Result (Failure E) ResourceInfo × FallbackSemaphore D
  query_local ctx resource o now f none = (err (local_error semaphore_closed), f)
  query_local ctx resource o now f (some s) =
      (of_query (Local.query ctx resource o now s), record f { own = some s })

module _ {D E P : Type 0} (remote : Distributed D E P) where
  abbrev pub query_by_strategy :
      Ctx
      → String
      → QueryOptions
      → ℤ
      → FallbackSemaphore D
      → FallbackStrategy
      → Result (Failure E) ResourceInfo × FallbackSemaphore D
  query_by_strategy ctx resource o now f fallback_local =
      query_local ctx resource o now f (ensure_local_semaphore f)
  query_by_strategy ctx resource o now f fallback_open =
      (ok (build_open_query_info ctx resource o), f)
  query_by_strategy ctx resource o now f fallback_close = (err redis_unavailable, f)

  unfoldable pub query_fallback :
      Ctx
      → String
      → QueryOptions
      → ℤ
      → FallbackSemaphore D
      → Result (Failure E) ResourceInfo × FallbackSemaphore D
  unfolding ensure_local_semaphore
  query_fallback ctx resource o now f = query_by_strategy ctx resource o now f f.strategy

  unfoldable pub after_remote_query :
      Ctx
      → String
      → QueryOptions
      → ℤ
      → FallbackSemaphore D
      → Result E ResourceInfo
      → Result (Failure E) ResourceInfo × FallbackSemaphore D
  unfolding query_fallback
  after_remote_query ctx resource o now f (ok info) = (ok info, f)
  after_remote_query ctx resource o now f (err x) =
      if remote.is_redis_error x
      then query_fallback ctx resource o now f
      else (err (remote_error x), f)

  unfoldable pub query :
      Ctx
      → String
      → QueryOptions
      → ℤ
      → FallbackSemaphore D
      → Result (Failure E) ResourceInfo × FallbackSemaphore D
  unfolding after_remote_query
  query ctx resource o now f =
      let (r, d) = remote.remote_query ctx resource o f.distributed in
      after_remote_query ctx resource o now (record f { distributed = d }) r
