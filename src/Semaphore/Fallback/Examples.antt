-- ===== src/Semaphore/Fallback/Examples.antt =====
-- The fallback semaphore over a Redis that is down, and over one that grants and fails in turn.
use xkit.Prelude.{
  not, str_eq, ℕ, ◌+◌, ◌%◌, ◌≡◌, ◌==◌, refl, Bool, true, false, none, some, List, [], ◌∷◌, String,
  pos, if◌then◌else◌, ok, err,
}
use xkit.Semaphore.{Permit}
use xkit.Semaphore.Validate.{AcquireOptions, QueryOptions}
use xkit.Semaphore.Local.{Round}
use xkit.Semaphore.Local.Calls
use xkit.Semaphore.Local.Calls.{new_local_semaphore}
use xkit.Semaphore.Fallback.{Distributed, fallback_local, new_fallback_semaphore}
use xkit.Semaphore.Fallback.Bounds.{Event, tries, queries, own_calls, shuts}
use xkit.Semaphore.Fallback.Refinement.{Request, replies, local_replies, replies-refine_local}

-- The state counts the requests; the error `true` is one of Redis, `false` one of the arguments.
abbrev down : Distributed ℕ Bool Unit
down = record {
  remote_try_acquire = λ ctx r o d. (err (not (str_eq r "")), d + 1);
  remote_acquire = λ ctx r o d. (err (not (str_eq r "")), d + 1);
  remote_query = λ ctx r o d. (err (not (str_eq r "")), d + 1);
  remote_close = λ ctx d. (ok tt, d);
  remote_health = λ ctx d. (err true, d);
  is_redis_error = λ x. x;
}

abbrev flaky : Distributed ℕ Bool Unit
flaky = record down {
  remote_try_acquire = λ ctx r o d. (if d % 2 == 0 then ok (some tt) else err true, d + 1);
}

abbrev options : AcquireOptions
options = record {
  capacity = pos 4;
  tenant_id = "";
  tenant_quota = pos 0;
  ttl = pos 10;
  max_retries = pos 3;
  retry_delay = pos 1;
}

abbrev round : String → Round
round id = record { ctx_done = false; generated = some id; now = pos 0; wait_done = false }

abbrev sizes : QueryOptions
sizes = record { capacity = pos 4; tenant_id = ""; tenant_quota = pos 0 }

abbrev requests : List Request
requests =
    Request.tries (some "") "job" options (round "a")
    ∷ Request.acquires (some "t1") "job" options (λ n. round "b")
    ∷ Request.queries (some "") "job" sizes (pos 5)
    ∷ []

replies-refine_local_example :
    replies down requests (new_fallback_semaphore 0 fallback_local (pos 2))
    ≡ local_replies requests (new_local_semaphore (pos 2))
replies-refine_local_example =
    replies-refine_local down 0 (pos 2) requests (refl, (refl, (refl, tt)))

abbrev permit : Permit
permit = record {
  id = "b";
  resource = "job";
  tenant_id = "";
  ttl = pos 10;
  has_tenant_quota = false;
  expires_at = pos 10;
  released = false;
}

abbrev happenings : List Event
happenings =
    tries (some "") "job" options (round "a")
    ∷ tries (some "") "job" options (round "b")
    ∷ queries (some "") "job" sizes (pos 5)
    ∷ own_calls (Calls.releases (some "") permit)
    ∷ shuts none
    ∷ []
