-- ===== src/Semaphore.antt =====
-- pkg/distributed/xsemaphore: the semaphore's data, and the single-process semaphore of local.go on
-- the permits of one resource. Each operation here holds the lock of that resource, so it is one
-- step. Instants and durations are Go's signed integers.
pub mod Capacity
pub mod History
pub mod Expiry
pub mod Permits
pub mod Granted
pub mod Validate
pub mod Local
pub mod Fallback
mod Examples
use xkit.Prelude.{
  ℕ, zero, suc, ◌+◌, ◌≤◌, ◌≡◌, Bool, true, false, not, ◌&&◌, Option, none, some, List, [], ◌∷◌,
  ◌++◌, String, str_eq, ℤ, pos, negsuc, ◌+ℤ◌, leb_ℤ, ltb_ℤ, leb, ltb, ◌==◌, if◌then◌else◌, length,
  get_or, Result, ok, err,
}
use xkit.GoMap
use xkit.GoMap.{GoMap}

-- The sentinel errors that the package's errors wrap, and the error of an ended context.
pub data Error : Type 0 where
  nil_context semaphore_closed invalid_resource invalid_tenant_id : Error
  invalid_capacity invalid_ttl invalid_tenant_quota invalid_max_retries invalid_retry_delay : Error
  id_generation_failed permit_not_held acquire_failed context_done : Error

-- AcquireFailReason
pub data Reason : Type 0 where
  unknown capacity_full tenant_quota_exceeded : Reason

pub record PermitEntry : Type 0 where
  pub id : String
  pub resource : String
  pub tenant_id : String
  pub expires_at : ℤ

-- The two maps of a resource share pointers to entries: a pointer is a place in `heap`.
pub record ResourcePermits : Type 0 where
  pub heap : List PermitEntry
  pub global : GoMap ℕ
  pub tenants : GoMap (GoMap ℕ)

-- The fields of a permit that the operations read (permit.go).
pub record Permit : Type 0 where
  pub id : String
  pub resource : String
  pub tenant_id : String
  pub ttl : ℤ
  pub has_tenant_quota : Bool
  pub expires_at : ℤ
  pub released : Bool

abbrev pub new_resource_permits : ResourcePermits
new_resource_permits = record { heap = []; global = GoMap.make; tenants = GoMap.make }

abbrev pub no_entry : PermitEntry
no_entry = record { id = ""; resource = ""; tenant_id = ""; expires_at = pos 0 }

-- `*p`; no pointer of the maps dangles.
abbrev pub entry_at : ResourcePermits → ℕ → PermitEntry
entry_at rp p = get_or rp.heap p no_entry

abbrev pub set_entry : List PermitEntry → ℕ → PermitEntry → List PermitEntry
set_entry [] p e = []
set_entry (x ∷ xs) zero e = e ∷ xs
set_entry (x ∷ xs) (suc p) e = x ∷ set_entry xs p e

-- t.After(u)
abbrev pub is_after : ℤ → ℤ → Bool
is_after t u = ltb_ℤ u t

-- What follows a look-up of a tenant's map: the permit is dropped there, and an empty map goes too.
unfoldable pub drop_from_tenant : GoMap (GoMap ℕ) → String → String → GoMap (GoMap ℕ)
drop_from_tenant tenants tenant_id id = elim (GoMap.get tenants tenant_id) [
  | none ↦ tenants
  | some permits ↦
      let left = GoMap.delete permits id in
      if GoMap.size left == 0
      then GoMap.delete tenants tenant_id
      else GoMap.put tenants tenant_id left
]

-- One round of the loop over `rp.global`.
unfoldable pub cleanup_entry : ℤ → String × ℕ → ResourcePermits → ResourcePermits
unfolding drop_from_tenant
cleanup_entry now (id, p) rp =
    let entry = entry_at rp p in
    if not (is_after entry.expires_at now)
    then record rp {
      global = GoMap.delete rp.global id;
      tenants =
          if not (str_eq entry.tenant_id "")
          then drop_from_tenant rp.tenants entry.tenant_id id
          else rp.tenants;
    }
    else rp

cleanup_loop : ℤ → List (String × ℕ) → ResourcePermits → ResourcePermits
cleanup_loop now [] rp = rp
cleanup_loop now (e ∷ rest) rp = cleanup_loop now rest (cleanup_entry now e rp)

unfoldable pub cleanup_expired_locked : ℤ → ResourcePermits → ResourcePermits
unfolding cleanup_loop cleanup_entry
cleanup_expired_locked now rp = cleanup_loop now rp.global.entries rp

-- The parameters of an attempt.
pub record Request : Type 0 where
  pub resource : String
  pub tenant_id : String
  pub capacity : ℤ
  pub tenant_quota : ℤ
  pub ttl : ℤ

pub data Attempt : Type 0 where
  granted : Permit → Attempt
  refused : Reason → Attempt

abbrev pub has_quota : Request → Bool
has_quota r = not (str_eq r.tenant_id "") && ltb_ℤ (pos 0) r.tenant_quota

-- `tenantPermits != nil && len(tenantPermits) >= tenantQuota`
unfoldable pub tenant_is_full : GoMap (GoMap ℕ) → String → ℤ → Bool
tenant_is_full tenants tenant_id quota = elim (GoMap.get tenants tenant_id) [
  | none ↦ false
  | some permits ↦ leb_ℤ quota (pos (GoMap.size permits))
]

-- `rp.tenants[tenantID]`, made if it is nil.
unfoldable pub tenant_permits : GoMap (GoMap ℕ) → String → GoMap ℕ
tenant_permits tenants tenant_id = elim (GoMap.get tenants tenant_id) [
  | none ↦ GoMap.make
  | some permits ↦ permits
]

-- The end of `doAcquire`, where there is room: the entry is stored and the permit made.
unfoldable pub store_permit : ℤ → String → Request → ResourcePermits → Permit × ResourcePermits
unfolding tenant_permits
store_permit now id r rp =
    let expires_at = now +ℤ r.ttl in
    let p = length rp.heap in
    (
      record {
        id = id;
        resource = r.resource;
        tenant_id = r.tenant_id;
        ttl = r.ttl;
        has_tenant_quota = has_quota r;
        expires_at = expires_at;
        released = false;
      },
      record {
        heap =
            rp.heap
            ++ record {
              id = id;
              resource = r.resource;
              tenant_id = r.tenant_id;
              expires_at = expires_at;
            }
              ∷ [];
        global = GoMap.put rp.global id p;
        tenants =
            if has_quota r
            then GoMap.put rp.tenants r.tenant_id
                (GoMap.put (tenant_permits rp.tenants r.tenant_id) id p)
            else rp.tenants;
      },
    )

-- `doAcquire` under the lock, on the permits that a clean-up left.
unfoldable pub acquire_cleaned : ℤ → String → Request → ResourcePermits → Attempt × ResourcePermits
unfolding store_permit tenant_is_full
acquire_cleaned now id r rp =
    if leb_ℤ r.capacity (pos (GoMap.size rp.global))
    then (refused capacity_full, rp)
    else if has_quota r && tenant_is_full rp.tenants r.tenant_id r.tenant_quota
    then (refused tenant_quota_exceeded, rp)
    else let (permit, rp') = store_permit now id r rp in (granted permit, rp')

unfoldable pub acquire_locked : ℤ → String → Request → ResourcePermits → Attempt × ResourcePermits
unfolding cleanup_expired_locked acquire_cleaned
acquire_locked now id r rp = acquire_cleaned now id r (cleanup_expired_locked now rp)

-- Both `releasePermit` and `removeExpiredPermitLocked` take a permit out of the two maps.
unfoldable pub remove_permit : Permit → ResourcePermits → ResourcePermits
unfolding drop_from_tenant
remove_permit p rp = record rp {
  global = GoMap.delete rp.global p.id;
  tenants =
      if not (str_eq p.tenant_id "") && p.has_tenant_quota
      then drop_from_tenant rp.tenants p.tenant_id p.id
      else rp.tenants;
}

unfoldable pub release_locked : Permit → ResourcePermits → Result Error Unit × ResourcePermits
unfolding remove_permit
release_locked p rp = elim (GoMap.get rp.global p.id) [
  | none ↦ (err permit_not_held, rp)
  | some e ↦ (ok tt, remove_permit p rp)
]

unfoldable pub extend_locked :
    ℤ → ℤ → Permit → ResourcePermits → Result Error Unit × ResourcePermits
unfolding remove_permit
extend_locked now new_expires_at p rp = elim (GoMap.get rp.global p.id) [
  | none ↦ (err permit_not_held, rp)
  | some e ↦
      let entry = entry_at rp e in
      if not (is_after entry.expires_at now) then (err permit_not_held, remove_permit p rp) else (
        ok tt,
        record rp { heap = set_entry rp.heap e (record entry { expires_at = new_expires_at }) },
      )
]

-- The loops of `countActivePermits`.
unfoldable pub count_active : ℤ → ResourcePermits → List (String × ℕ) → ℕ
count_active now rp [] = 0
count_active now rp ((id, p) ∷ rest) =
    let n = count_active now rp rest in if is_after (entry_at rp p).expires_at now then n + 1 else n
