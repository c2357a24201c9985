-- ===== src/Semaphore/Fallback/Refinement.antt =====
-- Where Redis is down, the fallback semaphore is a semaphore of the process.
use xkit.Prelude.{
  ℕ, ◌≡◌, refl, sym, subst, Bool, true, false, Option, some, List, [], ◌∷◌, String, ℤ, Result, ok,
  err, arith,
}
use xkit.Semaphore.Validate.{Ctx, AcquireOptions, QueryOptions}
use xkit.Semaphore.Local
use xkit.Semaphore.Local.{LocalSemaphore, Round, ResourceInfo}
use xkit.Semaphore.Local.Calls.{new_local_semaphore}
use xkit.Semaphore.Fallback.{
  Distributed, fallback_local, FallbackSemaphore, Failure, Handed, new_fallback_semaphore,
  own_or_new, of_try, of_acquire, Asking, asks_once, asks_often, ask_local, after_remote,
  try_acquire, acquire,
}
use xkit.Semaphore.Fallback.Queries.{of_query, after_remote_query, query}

pub data Request : Type 0 where
  tries : Ctx → String → AcquireOptions → Round → Request
  acquires : Ctx → String → AcquireOptions → (ℕ → Round) → Request
  queries : Ctx → String → QueryOptions → ℤ → Request

pub data Reply (E P : Type 0) : Type 0 where
  handed : Result (Failure E) (Handed P) → Reply E P
  informed : Result (Failure E) ResourceInfo → Reply E P

-- The specification: a local semaphore, and its answers.
pub local_reply : {E P : Type 0} → Request → LocalSemaphore → Reply E P × LocalSemaphore
local_reply (tries ctx resource o e) s =
    let (r, s') = Local.try_acquire ctx resource o e s in (handed (of_try r), s')
local_reply (acquires ctx resource o env) s =
    let (r, s') = Local.acquire ctx resource o env s in (handed (of_acquire r), s')
local_reply (queries ctx resource o now) s =
    (informed (of_query (Local.query ctx resource o now s)), s)

pub local_replies : {E P : Type 0} → List Request → LocalSemaphore → List (Reply E P)
local_replies [] s = []
local_replies (q ∷ qs) s = let (a, s') = local_reply q s in a ∷ local_replies qs s'

-- The semaphore says that Redis fails.
abbrev pub Fails : {D E A : Type 0} → (E → Bool) → Result E A × D → Type 0
Fails is_redis (ok a, d) = ⊥
Fails is_redis (err x, d) = is_redis x ≡ true

module _ {D E P : Type 0} (remote : Distributed D E P) where
  -- What the distributed semaphore makes of a request: whether it fails, and its state after.
  abbrev pub IsRefused : Request → D → Type 0
  IsRefused (tries ctx r o e) d = Fails remote.is_redis_error (remote.remote_try_acquire ctx r o d)
  IsRefused (acquires ctx r o env) d = Fails remote.is_redis_error (remote.remote_acquire ctx r o d)
  IsRefused (queries ctx r o now) d = Fails remote.is_redis_error (remote.remote_query ctx r o d)

  abbrev pub remote_after : Request → D → D
  remote_after (tries ctx r o e) d = (remote.remote_try_acquire ctx r o d).1
  remote_after (acquires ctx r o env) d = (remote.remote_acquire ctx r o d).1
  remote_after (queries ctx r o now) d = (remote.remote_query ctx r o d).1

  -- Redis fails for each of these requests, when it is made.
  abbrev pub AllRefused : List Request → D → Type 0
  AllRefused [] d = Unit
  AllRefused (q ∷ qs) d = IsRefused q d × AllRefused qs (remote_after q d)

  pub reply : Request → FallbackSemaphore D → Reply E P × FallbackSemaphore D
  reply (tries ctx resource o e) f =
      let (r, f') = try_acquire remote ctx resource o e f in (handed r, f')
  reply (acquires ctx resource o env) f =
      let (r, f') = acquire remote ctx resource o env f in (handed r, f')
  reply (queries ctx resource o now) f =
      let (r, f') = query remote ctx resource o now f in (informed r, f')

  pub replies : List Request → FallbackSemaphore D → List (Reply E P)
  replies [] f = []
  replies (q ∷ qs) f = let (a, f') = reply q f in a ∷ replies qs f'

  -- An open semaphore that falls back to a local one.
  record IsLocal (f : FallbackSemaphore D) : Type 0 where
    falls_back : f.strategy ≡ fallback_local
    alive : f.shut ≡ false

  -- The reply is that of the local semaphore, which goes to the same state.
  record Agrees (f : FallbackSemaphore D) (a : Reply E P × FallbackSemaphore D) (q : Request)
      : Type 0 where
    same_reply : a.0 ≡ (local_reply q (own_or_new f)).0
    same_state : own_or_new a.1 ≡ (local_reply {E = E} {P = P} q (own_or_new f)).1
    still : IsLocal a.1
    remote_state : a.1.distributed ≡ remote_after q f.distributed

  after_remote-down :
      (ctx : Ctx) (resource : String) (o : AcquireOptions) (a : Asking) (f : FallbackSemaphore D)
      (r : Result E (Option P) × D)
      → Fails remote.is_redis_error r
      → IsLocal f
      → let s' = ask_local {E = E} {P = P} ctx resource o a (own_or_new f) in
        after_remote remote ctx resource o a (record f { distributed = r.1 }) r.0
        ≡ (s'.0, record f { distributed = r.1; own = some s'.1 })
  unfolding after_remote
  after_remote-down ctx resource o a f (ok p, d) down l = absurd down
  after_remote-down ctx resource o a f (err x, d) down l =
      ground (arith, down, l.falls_back, l.alive)

  after_remote_query-down :
      (ctx : Ctx) (resource : String) (o : QueryOptions) (now : ℤ) (f : FallbackSemaphore D)
      (r : Result E ResourceInfo × D)
      → Fails remote.is_redis_error r
      → IsLocal f
      → after_remote_query remote ctx resource o now (record f { distributed = r.1 }) r.0 ≡ (
        of_query (Local.query ctx resource o now (own_or_new f)),
        record f { distributed = r.1; own = some (own_or_new f) },
      )
  unfolding after_remote_query
  after_remote_query-down ctx resource o now f (ok info, d) down l = absurd down
  after_remote_query-down ctx resource o now f (err x, d) down l =
      ground (arith, down, l.falls_back, l.alive)

  module _ (f : FallbackSemaphore D) (l : IsLocal f) where
    reply-Agrees : (q : Request) → IsRefused q f.distributed → Agrees f (reply q f) q
    unfolding reply local_reply try_acquire acquire query ask_local
    reply-Agrees (tries ctx resource o e) down =
        rw
          (after_remote-down ctx resource o (asks_once e) f
            (remote.remote_try_acquire ctx resource o f.distributed) down l)
          (record {
            same_reply = refl;
            same_state = refl;
            still = record { falls_back = l.falls_back; alive = l.alive };
            remote_state = refl;
          })
    reply-Agrees (acquires ctx resource o env) down =
        rw
          (after_remote-down ctx resource o (asks_often env) f
            (remote.remote_acquire ctx resource o f.distributed) down l)
          (record {
            same_reply = refl;
            same_state = refl;
            still = record { falls_back = l.falls_back; alive = l.alive };
            remote_state = refl;
          })
    reply-Agrees (queries ctx resource o now) down =
        rw
          (after_remote_query-down ctx resource o now f
            (remote.remote_query ctx resource o f.distributed) down l)
          (record {
            same_reply = refl;
            same_state = refl;
            still = record { falls_back = l.falls_back; alive = l.alive };
            remote_state = refl;
          })

  replies-local :
      (qs : List Request) (f : FallbackSemaphore D)
      → AllRefused qs f.distributed
      → IsLocal f
      → replies qs f ≡ local_replies qs (own_or_new f)
  unfolding replies local_replies
  replies-local [] f down l = refl
  replies-local (q ∷ qs) f (down, later) l =
      let a = reply-Agrees f l q down in
      let rest = subst (AllRefused qs) (sym a.remote_state) later in
      rw (a.same_reply, replies-local qs (reply q f).1 rest a.still, a.same_state) refl

  -- Where the distributed semaphore reports a failure of Redis to each request of a sequence of
  -- `TryAcquire`, `Acquire` and `Query`, when it is made, a new semaphore that falls back to a local
  -- one gives them the answers of a new local semaphore.
  pub replies-refine_local :
      (d : D) (pods : ℤ) (qs : List Request)
      → AllRefused qs d
      → replies qs (new_fallback_semaphore d fallback_local pods)
        ≡ local_replies qs (new_local_semaphore pods)
  replies-refine_local d pods qs down =
      replies-local qs (new_fallback_semaphore d fallback_local pods) down
        (record { falls_back = refl; alive = refl })
