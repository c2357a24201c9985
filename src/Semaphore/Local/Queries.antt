-- ===== src/Semaphore/Local/Queries.antt =====
-- `Query` against `TryAcquire`.
use xkit.Prelude.{
  ℕ, ◌≡◌, refl, ap, ◌∙◌, ◌↔◌, Bool, true, false, some, String, ℤ, pos, ◌-ℤ◌, leb_ℤ, Result, ok, err,
  arith, Result-cases, inl, inr,
}
use xkit.GoMap.{Unique}
use xkit.Semaphore.{Error, Attempt, refused, capacity_full, acquire_locked, count_active}
use xkit.Semaphore.Expiry.{acquire_locked-capacity_full}
use xkit.Semaphore.Validate.{
  AcquireOptions, QueryOptions, Ctx, prepare_acquire_common, prepare_query_common, validate_acquire,
  validate_query, max_ℤ,
}
use xkit.Semaphore.Local.{
  LocalSemaphore, Round, get_resource_permits, local_share, local_request, do_acquire, try_acquire,
  ResourceInfo, count_global, query,
}

-- The options of a query for what an acquisition asks for.
abbrev pub queried : AcquireOptions → QueryOptions
queried o = record { capacity = o.capacity; tenant_id = o.tenant_id; tenant_quota = o.tenant_quota }

queried-validate :
    (o : AcquireOptions) → validate_acquire o ≡ ok tt → validate_query (queried o) ≡ ok tt
unfolding validate_acquire validate_query
queried-validate o e = ground arith

prepare-queried :
    (ctx : Ctx) (resource : String) (o : AcquireOptions) (closed : Bool)
    → validate_acquire o ≡ ok tt
    → prepare_query_common ctx resource (queried o) closed
      ≡ prepare_acquire_common ctx resource o closed
unfolding prepare_query_common prepare_acquire_common
prepare-queried ctx resource o closed e = rw (e, queried-validate o e) refl

count_global-active :
    (now : ℤ) (s : LocalSemaphore) (resource : String)
    → count_global now s resource
      ≡ count_active now
          (get_resource_permits s resource)
          (get_resource_permits s resource).global.entries
unfolding count_global get_resource_permits count_active
count_global-active now s resource = ground arith

available-none :
    (capacity : ℤ) (used : ℕ)
    → (max_ℤ (pos 0) (capacity -ℤ pos used) ≡ pos 0) ↔ (leb_ℤ capacity (pos used) ≡ true)
available-none (pos c) used = ground arith
available-none (ℤ.negsuc c) used = ground arith

query-refused :
    (ctx : Ctx) (resource : String) (o : QueryOptions) (now : ℤ) (s : LocalSemaphore)
    (info : ResourceInfo) (x : Error)
    → prepare_query_common ctx resource o s.closed ≡ err x
    → query ctx resource o now s ≡ ok info
    → ⊥
unfolding query
query-refused ctx resource o now s info x p q = ground arith

query-available :
    (ctx : Ctx) (resource : String) (o : QueryOptions) (now : ℤ) (s : LocalSemaphore)
    (info : ResourceInfo) (t : String)
    → prepare_query_common ctx resource o s.closed ≡ ok t
    → query ctx resource o now s ≡ ok info
    → info.global_available
      ≡ max_ℤ (pos 0) (local_share s o.capacity -ℤ pos (count_global now s resource))
unfolding query
query-available ctx resource o now s info t p q = ground arith

try_acquire-locked :
    (ctx : Ctx) (resource id t : String) (o : AcquireOptions) (e : Round) (s : LocalSemaphore)
    → prepare_acquire_common ctx resource o s.closed ≡ ok t
    → e.generated ≡ some id
    → e.ctx_done ≡ false
    → (try_acquire ctx resource o e s).0
      ≡ ok
          (acquire_locked e.now id
            (local_request s resource t o)
            (get_resource_permits s resource)).0
unfolding try_acquire do_acquire local_request
try_acquire-locked ctx resource id t o e s p g live = ground arith

full-agrees :
    {tried : Result Error Attempt} {available room : ℤ} (a : Attempt) (is_full : Bool)
    → tried ≡ ok a
    → available ≡ room
    → (a ≡ refused capacity_full) ↔ (is_full ≡ true)
    → (room ≡ pos 0) ↔ (is_full ≡ true)
    → (tried ≡ ok (refused capacity_full)) ↔ (available ≡ pos 0)
full-agrees a is_full e f g h = ground (arith, e, f, g, h)

-- Where `Query` answers, it answers with room exactly if there is some: a `TryAcquire` for the same
-- valid limits, at the same instant, with a live context and a generated id, is refused for want of
-- capacity exactly if the available number reported is 0. The ids of the resource's permits are
-- pairwise different.
pub query-try_acquire :
    (ctx : Ctx) (resource id : String) (o : AcquireOptions) (e : Round) (s : LocalSemaphore)
    (info : ResourceInfo)
    → validate_acquire o ≡ ok tt
    → e.generated ≡ some id
    → e.ctx_done ≡ false
    → Unique (get_resource_permits s resource).global.entries
    → query ctx resource (queried o) e.now s ≡ ok info
    → ((try_acquire ctx resource o e s).0 ≡ ok (refused capacity_full))
      ↔ (info.global_available ≡ pos 0)
unfolding local_share local_request
query-try_acquire ctx resource id o e s info v g live h q =
    let rp = get_resource_permits s resource in
    elim (Result-cases (prepare_acquire_common ctx resource o s.closed)) [
      | inr (x, p) ↦ absurd (
          query-refused ctx resource (queried o) e.now s info x
            (prepare-queried ctx resource o s.closed v ∙ p) q)
      | inl (t, p) ↦
          let r = local_request s resource t o in
          let used = count_active e.now rp rp.global.entries in
          full-agrees (acquire_locked e.now id r rp).0 (leb_ℤ r.capacity (pos used))
            (try_acquire-locked ctx resource id t o e s p g live)
            (query-available ctx resource (queried o) e.now s info t
                (prepare-queried ctx resource o s.closed v ∙ p) q
              ∙ ap (λ n. max_ℤ (pos 0) (r.capacity -ℤ pos n))
                  (count_global-active e.now s resource))
            (acquire_locked-capacity_full e.now id r rp h) (available-none r.capacity used)
    ]
