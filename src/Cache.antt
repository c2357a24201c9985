-- ===== src/Cache.antt =====
-- pkg/storage/xcache: the cache loader of loader_impl.go, on what it meets outside. Redis, the function
-- that loads from the backend, the lock, the clock and the contexts are an oracle, which answers each
-- request from all that happened before; what happened is a log, the newest event first.
pub mod Loader
pub mod Trace
pub mod Storing
pub mod Fetching
pub mod Loads
pub mod HashKey
mod Examples
use xkit.Prelude.{ℕ, Bool, true, false, Option, none, some, List, [], ◌∷◌, ℤ, Result, ok, err}

abbrev pub Bytes : Type 0
Bytes = List ℕ

-- Where a value is cached: under a key, or under a field of the hash at a key.
pub data Place : Type 0 where
  key : Bytes → Place
  field : Bytes → Bytes → Place

-- What the loader returns: an error from outside, or one of errors.go. `invalid_config` wraps the
-- error of the lock, if that had one.
pub data Fault (E : Type 0) : Type 0 where
  external : E → Fault E
  nil_context nil_client empty_key nil_loader load_panic : Fault E
  invalid_config : Option E → Fault E

abbrev pub Answer : Type 0 → Type 0
Answer E = Result (Fault E) Bytes

-- What the load function does.
pub data Loaded (E : Type 0) : Type 0 where
  returned : Bytes → Loaded E
  failed : E → Loaded E
  panicked : Loaded E

pub data Event (E : Type 0) : Type 0 where
  read : Place → Result E Bytes → Event E
  called : Loaded E → Event E
  -- SET of a key with its time to live; HSET of a field, with the error of the call or the pipeline.
  set_key : Bytes → Bytes → ℤ → Event E
  set_field : Bytes → Bytes → Bytes → Option E → Event E
  -- TTL of a key with its answer; EXPIRE of a key.
  asked_ttl : Bytes → Result E ℤ → Event E
  set_ttl : Bytes → ℤ → Event E
  locked lock_refused unlocked : Bytes → Event E
  waited : ℤ → Event E
  reported : Bytes → E → Event E

abbrev pub Log : Type 0 → Type 0
Log E = List (Event E)

-- What singleflight does with a call: the call runs the function and has its result; another call
-- runs it, and this one has that result; or, in either case, its context ends first.
pub data Flight (E : Type 0) : Type 0 where
  leads : Flight E
  joins : Answer E → Flight E
  leads_until joins_until : E → Flight E

pub record Oracle (E : Type 0) : Type 0 where
  pub reads : Log E → Place → Result E Bytes
  pub loads : Log E → Loaded E
  pub writes : Log E → Option E
  pub ttls : Log E → Bytes → Result E ℤ
  -- By the external lock or the cache's own; `false` is a nil unlocker with a nil error.
  pub locks : Bool → Log E → Bytes → Result E Bool
  pub flights : Log E → Bytes → Flight E
  -- `ctx.Err()`, and whether the context ends a wait.
  pub ctx_err : Log E → Option E
  pub cut_short : Log E → Option E
  -- A random float64 around 1 times a time to live, truncated, or `none` where the product is not above
  -- 0; and a random part of a time to wait.
  pub scaled : Log E → ℤ → Option ℤ
  pub jitter : Log E → ℕ → ℤ
  -- errors.Is: `redis.Nil`; `redis.ErrClosed` or ErrClosed; an error of a context; ErrInvalidLockTTL;
  -- ErrInvalidConfig.
  pub is_nil : E → Bool
  pub is_lifecycle : E → Bool
  pub is_context : E → Bool
  pub is_lock_ttl : E → Bool
  pub is_config : E → Bool

-- LoaderOptions
pub record Options : Type 0 where
  pub enable_singleflight : Bool
  pub enable_distributed_lock : Bool
  pub distributed_lock_ttl : ℤ
  pub lock_key_prefix : Bytes
  pub has_external_lock : Bool
  pub max_retry_attempts : ℤ
  pub has_ttl_jitter : Bool
  pub hash_ttl_refresh : Bool
  pub has_hook : Bool
