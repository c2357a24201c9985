-- ===== src/Lib.antt =====
-- XKit, a toolkit of Go packages: models of eleven of them and the theorems that make them correct.
--
-- The packages are libraries that applications call; each keeps its own state. Modelled are
--   Mac        pkg/util/xmac: MAC addresses as six bytes. addr.go, validate.go and special.go are in
--              Mac.antt, format.go in Mac/Format, parse.go in Mac/Parse (the trimming of spaces in
--              Mac/Parse/Trim), iter.go in Mac/Iter, encoding.go in Mac/Encoding. Mac/Value and
--              Mac/Bytes give an address its 48-bit number; the other files hold the proofs.
--   Semaphore  pkg/distributed/xsemaphore: the semaphore of one process. Semaphore.antt has the data of
--              local.go and permit.go and the operations under the lock of one resource (doAcquire,
--              cleanupExpiredLocked, releasePermit, extendPermit, countActivePermits);
--              Semaphore/Validate has validate.go, common.go and the checks of options.go;
--              Semaphore/Local has localSemaphore with TryAcquire, Acquire, Release, Extend, Query,
--              the clean-up tick, Close and Health. Capacity, History, Expiry, Permits and Granted reason
--              about one resource; Local/Safety, Calls, Methods and Queries about the whole semaphore.
--              Semaphore/Fallback has fallback.go, over a distributed semaphore, with its Query in
--              Fallback/Queries: Fallback/Refinement
--              compares it with the semaphore of the process, Fallback/Bounds bounds that one.
--   KeyLock    pkg/util/xkeylock: keylock_impl.go, whose callers interleave. KeyLock.antt has Acquire,
--              TryAcquire, Unlock, Close, getOrCreate and releaseRef; Moves and Entries, Release and Steps
--              keep the Invariant; Safety, Limit and Progress draw from it.
--   Pool       pkg/util/xpool: pool.go, whose submitters, workers and Shutdown interleave. Pool.antt has
--              New, Submit, worker and Shutdown; Workers, Invariant and Delivery the proofs.
--   Retry      pkg/resilience/xretry: LinearBackoff of backoff.go on int64, the policies of policies.go,
--              IsRetryable and IsPermanent of errors.go and the RetryIf callback of retryer.go.
--   Breaker    pkg/resilience/xbreaker/policies.go: the trip policies on the counts of gobreaker, with
--              the conditions of a trip in Breaker/Trips.
--   Debug      pkg/debug/xdbg: the messages of protocol.go in Debug.antt, the codec of
--              protocol_codec.go in Debug/Codec and its cutting of text in Debug/Truncate, with proofs in
--              Debug/Header and Debug/RoundTrip; command_registry.go in Debug/Registry; session.go in
--              Debug/Session, which reads with the codec and asks the registry, with proofs in
--              Debug/Answers.
--   Cache      pkg/storage/xcache: the cache loader of loader_impl.go. Cache/Loader has Load and LoadHash
--              with all that they call, each pair of functions for plain keys and for hashes as one on a
--              Place, Cache/HashKey has hashFieldKey. Trace says what a log of events may hold, Storing,
--              Fetching and Loads that the loader keeps to it.
--   Limit      pkg/resilience/xlimit: the rate limiter. Limit/Wildcard has wildcardMatch of
--              rule_matcher.go and Limit/Rules the rest of that file and the rules of config.go,
--              Limit/Template the rendering of key.go, Limit/Core the limiter of core.go over a backend.
--              Limit/Fallback has fallback.go over two limiters, Limit/Buckets the table of local buckets of
--              backend_local.go under interleaved calls. Limit/Asked specifies
--              AllowN as a relation apart from the code: a walk over the list of rules. Proofs are
--              in Matching, Rendering, Known, Effective, Deciding, Decided, Outage
--              and Cap.
--   Trace      pkg/observability/xtrace/trace.go: W3C traceparent texts. Trace.antt parses, formats and
--              resolves them; Hex, Traceparent and Resolved have the proofs.
--   Paging     internal/storageopt/pagination.go: offsets and numbers of pages on int64, with proofs in
--              Paging/Bounds.
-- GoMap is Go's map with string keys, which the semaphore, the locker, the registry and the limiter
-- use; Prelude has the shared helpers.
--
-- How the state corresponds. An Addr is a record of six bytes. The two maps of a resource share
-- pointers to permit entries; here a pointer is a place in a list, so that an extension is seen
-- through both maps as it is in Go. An operation takes the state and returns its result and the new
-- state; a mutex makes each operation on a resource one step, so interleavings are lists of steps
-- (Op of Semaphore/History, Call of Semaphore/Local/Calls). A call of Acquire is one Call with all
-- its attempts; attempts of several callers that interleave are separate TryAcquire steps. Clock
-- readings, generated ids, the ends of contexts and cut-short waits are arguments, so that the
-- theorems hold for all of them. Errors are the sentinel errors that a returned error wraps.
-- KeyLock, Pool and Limit/Buckets are step systems: an event moves one call or worker by one access
-- to shared memory, and Reach has the states that any sequence of events gives. The shards of the
-- locker have no key in common and are one map; an entry is a place on a heap, so that a call keeps
-- an entry that the map has forgotten. The atomic count of its keys changes in the step that changes
-- the map, whose shard is locked meanwhile: what another call could see of the count alone between
-- the two, and the attempts of the CAS that fail, are not in the model. A handler of the pool
-- either works on or returns, by an event of its own. Submit holds its read lock from the test of closed to its
-- send, and the queue is closed under the write lock only when no call holds the read lock. The
-- logs of accepted and taken tasks and the count of handled ones are not in the code; the theorems
-- speak of them.
--
-- The loader of Cache stands in a world that it does not rule: an Oracle answers each read, write,
-- lock, flight, wait and load from the log of all that happened before, so the theorems hold for
-- any Redis and any backend, of one caller's run among others. A call to singleflight runs the
-- loading, joins the run of another call, or ends before either by its context.
--
-- Bounds and fuel. The loops over address ranges run on fuel 2^48, the number of addresses, and the
-- theorems about them state the result, so the fuel is enough; trimming runs on the length of the
-- text; the retry loop of Acquire and the wait for a lock count their attempts down, as the code
-- does; the rendering of a template runs on its length, of which each variable takes a part. Byte
-- and uint64 arithmetic of Mac and int64 and uint32 arithmetic of Retry, Paging and Breaker is
-- written with its wrap-around. Instants, capacities and time differences of the semaphore, and the
-- counts of references and keys of the locker, are unbounded integers.
--
-- Parameters: net.ParseMAC in Parse, the distributed semaphore and IsRedisError in
-- Semaphore/Fallback, encoding/json in Debug, the Oracle of Cache, the Backend interface of Limit,
-- retry-go's IsRecoverable, and the float64 operations of the ratio policies, of which one theorem
-- supposes that 1 is not below 0.
--
-- Not modelled: UnmarshalJSON of xmac; of xsemaphore the Redis scripts, the callback of a fallback,
-- the goroutine that extends permits, metrics, traces, logs, and the metadata of a permit; the
-- options, shards, Len and Keys of xkeylock; the wait for a context in Shutdown of xpool; of xdbg
-- the server around its sessions, the audit log and the count of command slots; ExponentialBackoff,
-- which is random; of xcache the wrappers of Redis and ristretto and the lock; of xlimit the tokens
-- of a bucket, which are float64, Redis, the middleware, callbacks and metrics; of xtrace the
-- carriers of the texts; gobreaker and retry-go, which are libraries; and the other packages of the
-- toolkit, most of which wrap services and libraries.
pub mod Prelude
pub mod Mac
pub mod GoMap
pub mod Semaphore
pub mod Retry
pub mod Breaker
pub mod Cache
pub mod Debug
pub mod KeyLock
pub mod Limit
pub mod Pool
pub mod Trace
pub mod Paging
