-- ===== src/Semaphore/Examples.antt =====
-- Runs of the semaphore on concrete permits and calls.
use xkit.Prelude.{
  ◌≡◌, ◌↔◌, refl, true, false, some, List, [], ◌∷◌, String, ℤ, pos, leb_ℤ, ok, arith,
}
use xkit.GoMap
use xkit.GoMap.{Unique}
use xkit.Semaphore.{
  permit_not_held, PermitEntry, ResourcePermits, Permit, Request, granted, refused, capacity_full,
  tenant_quota_exceeded, new_resource_permits, acquire_locked, release_locked, extend_locked,
  count_active, entry_at, is_after, cleanup_expired_locked,
}
use xkit.Semaphore.History.{Op, acquires, releases, extends, cleans, run, AsksWithin}
use xkit.Semaphore.Expiry.{acquire_locked-capacity_full}
use xkit.Semaphore.Granted.{acquire_locked-held}
use xkit.Semaphore.Permits.{listed, release_locked-get, extend_locked_lem}
use xkit.Semaphore.Validate.{AcquireOptions, validate_acquire, prepare_query_common}
use xkit.Semaphore.Local.{
  LocalSemaphore, Round, get_resource_permits, try_acquire, query, release, extend, ResourceInfo,
}
use xkit.Semaphore.Local.Calls.{Call}
use xkit.Semaphore.Local.Queries.{queried, query-try_acquire}

abbrev job : Request
job = record {
  resource = "job";
  tenant_id = "t1";
  capacity = pos 2;
  tenant_quota = pos 1;
  ttl = pos 10;
}

abbrev permit : String → ℤ → Permit
permit id expires_at = record {
  id = id;
  resource = "job";
  tenant_id = "t1";
  ttl = pos 10;
  has_tenant_quota = true;
  expires_at = expires_at;
  released = false;
}

-- An acquisition, one that meets the tenant's quota, an extension, a clean-up, and a release.
abbrev ops : List Op
ops =
    acquires (pos 0) "a" job
    ∷ acquires (pos 5) "b" job
    ∷ extends (pos 6) (pos 16) (permit "a" (pos 10))
    ∷ cleans (pos 20)
    ∷ acquires (pos 21) "c" job
    ∷ releases (permit "c" (pos 31))
    ∷ []

ops-fit : AsksWithin 2 1 ops
ops-fit = omega arith

quota_met :
    (acquire_locked (pos 5) "b" job (run (acquires (pos 0) "a" job ∷ []) new_resource_permits)).0
    ≡ refused tenant_quota_exceeded
unfolding acquire_locked run GoMap.size GoMap.get GoMap.put
quota_met = refl

granted_a : (acquire_locked (pos 0) "a" job new_resource_permits).0 ≡ granted (permit "a" (pos 10))
unfolding acquire_locked GoMap.size GoMap.get
granted_a = refl

acquire_locked-held_example :
    let rp = (acquire_locked (pos 0) "a" job new_resource_permits).1 in
    ((release_locked (permit "a" (pos 10)) rp).0 ≡ ok tt)
    × ((extend_locked (pos 9) (pos 19) (permit "a" (pos 10)) rp).0 ≡ ok tt)
acquire_locked-held_example =
    acquire_locked-held (pos 0) (pos 9) (pos 19) "a" job new_resource_permits (permit "a" (pos 10))
      granted_a

-- "a" expires at 10 and "b" at 30.
abbrev two : ResourcePermits
two = record {
  heap =
      record { id = "a"; resource = "job"; tenant_id = ""; expires_at = pos 10 }
      ∷ record { id = "b"; resource = "job"; tenant_id = "t1"; expires_at = pos 30 }
      ∷ [];
  global = record { entries = ("b", 1) ∷ ("a", 0) ∷ [] };
  tenants = record { entries = ("t1", record { entries = ("b", 1) ∷ [] }) ∷ [] };
}

abbrev single : Request
single = record {
  resource = "job";
  tenant_id = "";
  capacity = pos 1;
  tenant_quota = pos 0;
  ttl = pos 10;
}

abbrev two-Unique : Unique two.global.entries
two-Unique = unfold GoMap.lookup in (refl, (refl, tt))

count_active-two : count_active (pos 20) two two.global.entries ≡ 1
unfolding count_active
count_active-two = refl

acquire_locked-capacity_full_example :
    ((acquire_locked (pos 20) "c" single two).0 ≡ refused capacity_full)
    ↔ (leb_ℤ single.capacity (pos (count_active (pos 20) two two.global.entries)) ≡ true)
acquire_locked-capacity_full_example =
    acquire_locked-capacity_full (pos 20) "c" single two two-Unique

abbrev held_b : Permit
held_b = permit "b" (pos 30)

release_locked-get_example :
    ((release_locked held_b two).0 ≡ ok tt)
    × (GoMap.get (release_locked held_b two).1.global "a" ≡ some 0)
    × (listed (release_locked held_b two).1.tenants "" "a" ≡ listed two.tenants "" "a")
    × ((release_locked held_b two).1.heap ≡ two.heap)
unfolding GoMap.get
release_locked-get_example = release_locked-get held_b two "" "a"

extend_locked_lem_example :
    let (result, rp) = extend_locked (pos 20) (pos 40) held_b two in
    (result ≡ ok tt)
    × (entry_at rp 1 ≡ record (entry_at two 1) { expires_at = pos 40 })
    × (GoMap.get rp.global "b" ≡ some 1)
    × (listed rp.tenants "" "b" ≡ listed two.tenants "" "b")
unfolding GoMap.get
extend_locked_lem_example =
    extend_locked_lem (pos 20) (pos 40) held_b two 1 1 "" "b" (unfold GoMap.get in refl)
      (omega arith)

abbrev options : AcquireOptions
options = record {
  capacity = pos 7;
  tenant_id = "";
  tenant_quota = pos 2;
  ttl = pos 10;
  max_retries = pos 3;
  retry_delay = pos 1;
}

abbrev round : ℤ → String → Round
round now id = record { ctx_done = false; generated = some id; now = now; wait_done = false }

abbrev calls : List Call
calls =
    Call.try_acquires (some "t1") "job" options (round (pos 0) "a")
    ∷ Call.acquires (some "t1") "job" options (λ n. round (pos 1) "b")
    ∷ Call.extends (some "t1") (pos 5) (pos 5) (permit "a" (pos 10))
    ∷ Call.cleans (pos 12)
    ∷ Call.releases (some "t1") (permit "a" (pos 15))
    ∷ Call.closes
    ∷ []

-- A semaphore of one process with the permits `two`.
abbrev serving : LocalSemaphore
serving = record {
  permits = record { entries = ("job", two) ∷ [] };
  closed = false;
  pod_count = pos 1;
}

abbrev full_options : AcquireOptions
full_options = record options { capacity = pos 1; tenant_quota = pos 0 }

abbrev answer : ResourceInfo
answer = record {
  resource = "job";
  global_capacity = pos 1;
  global_used = pos 1;
  global_available = pos 0;
  tenant_id = "t1";
  tenant_quota = pos 0;
  tenant_used = pos 0;
  tenant_available = pos 0;
}

query-serving : query (some "t1") "job" (queried full_options) (pos 20) serving ≡ ok answer
unfolding query prepare_query_common GoMap.get count_active
query-serving = refl

query-try_acquire_example :
    ((try_acquire (some "t1") "job" full_options (round (pos 20) "c") serving).0
      ≡ ok (refused capacity_full))
    ↔ (pos 0 ≡ pos 0)
query-try_acquire_example =
    query-try_acquire (some "t1") "job" "c" full_options (round (pos 20) "c") serving answer
      (unfold validate_acquire in refl) refl refl
      (unfold get_resource_permits GoMap.get in two-Unique) query-serving
