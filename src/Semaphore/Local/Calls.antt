-- ===== src/Semaphore/Local/Calls.antt =====
-- Any sequence of calls of the semaphore and of its permits, with the ticks of the clean-up.
use xkit.Prelude.{
  ℕ, ◌≡◌, false, none, some, List, [], ◌∷◌, String, ℤ, pos, ◌≤ℤ◌, ◌+ℤ◌, inl, inr, arith, pos_part,
  Result-cases, ◌⊎◌, refl, sym, subst, ◌+◌, zero, suc,
}
use xkit.GoMap
use xkit.GoMap.{GoMap}
use xkit.Semaphore.{Permit, Request}
use xkit.Semaphore.Validate.{
  AcquireOptions, Ctx, prepare_acquire_common, validate_retry_params, divide_by_pod_count,
  effective_pod_count,
}
use xkit.Semaphore.Local.{
  LocalSemaphore, Round, local_share, local_request, do_acquire, acquire_loop, try_acquire, acquire,
  release_permit, extend_permit, release, extend, cleanup_all_expired, close,
}
use xkit.Semaphore.Local.Safety.{
  AllWithin, try_acquire-AllWithin, acquire-AllWithin, release_permit-AllWithin,
  extend_permit-AllWithin, cleanup-AllWithin,
}

pub data Call : Type 0 where
  try_acquires : Ctx → String → AcquireOptions → Round → Call
  acquires : Ctx → String → AcquireOptions → (ℕ → Round) → Call
  releases : Ctx → Permit → Call
  extends : Ctx → ℤ → ℤ → Permit → Call
  cleans : ℤ → Call
  closes : Call

unfoldable pub call : Call → LocalSemaphore → LocalSemaphore
call (try_acquires ctx resource o e) s = (try_acquire ctx resource o e s).1
call (acquires ctx resource o env) s = (acquire ctx resource o env s).1
call (releases ctx p) s = (release ctx p s).2
call (extends ctx now now_locked p) s = (extend ctx now now_locked p s).2
call (cleans now) s = cleanup_all_expired now s
call closes s = close s

pub run : List Call → LocalSemaphore → LocalSemaphore
run [] s = s
run (c ∷ cs) s = run cs (call c s)

-- The share of this process, of limits that are asked for with `pods` processes.
abbrev ShareFits : ℕ → ℕ → ℤ → AcquireOptions → Type 0
ShareFits cap quota pods o =
    (divide_by_pod_count o.capacity (effective_pod_count pods) ≤ℤ pos cap)
    × (divide_by_pod_count o.tenant_quota (effective_pod_count pods) ≤ℤ pos quota)

abbrev pub CallFits : ℕ → ℕ → ℤ → Call → Type 0
CallFits cap quota pods (try_acquires ctx resource o e) = ShareFits cap quota pods o
CallFits cap quota pods (acquires ctx resource o env) = ShareFits cap quota pods o
CallFits cap quota pods _ = Unit

abbrev pub CallsFit : ℕ → ℕ → ℤ → List Call → Type 0
CallsFit cap quota pods [] = Unit
CallsFit cap quota pods (c ∷ cs) = CallFits cap quota pods c × CallsFit cap quota pods cs

release_state :
    (ctx : Ctx) (p : Permit) (s : LocalSemaphore)
    → ((release ctx p s).2 ≡ s) ⊎ ((release ctx p s).2 ≡ (release_permit p s).1)
unfolding release
release_state none p s = inl refl
release_state (some t) p s = ground arith

extend_state :
    (ctx : Ctx) (now now_locked : ℤ) (p : Permit) (s : LocalSemaphore)
    → ((extend ctx now now_locked p s).2 ≡ s)
      ⊎ ((extend ctx now now_locked p s).2 ≡ (extend_permit now_locked (now +ℤ p.ttl) p s).1)
unfolding extend
extend_state none now now_locked p s = inl refl
extend_state (some t) now now_locked p s = ground arith

module _ {cap quota : ℕ} where
  release-AllWithin :
      (ctx : Ctx) (p : Permit) (s : LocalSemaphore)
      → AllWithin cap quota s
      → AllWithin cap quota (release ctx p s).2
  release-AllWithin ctx p s h = elim (release_state ctx p s) [
    | inl e ↦ subst (AllWithin cap quota) (sym e) h
    | inr e ↦ subst (AllWithin cap quota) (sym e) (release_permit-AllWithin p s h)
  ]

  extend-AllWithin :
      (ctx : Ctx) (now now_locked : ℤ) (p : Permit) (s : LocalSemaphore)
      → AllWithin cap quota s
      → AllWithin cap quota (extend ctx now now_locked p s).2
  extend-AllWithin ctx now now_locked p s h = elim (extend_state ctx now now_locked p s) [
    | inl e ↦ subst (AllWithin cap quota) (sym e) h
    | inr e ↦
        subst (AllWithin cap quota) (sym e)
          (extend_permit-AllWithin now_locked (now +ℤ p.ttl) p s h)
  ]

  close-AllWithin : (s : LocalSemaphore) → AllWithin cap quota s → AllWithin cap quota (close s)
  unfolding close
  close-AllWithin s h j rp e = h j rp (ground arith)

  pub call-AllWithin :
      (c : Call) (s : LocalSemaphore)
      → CallFits cap quota s.pod_count c
      → AllWithin cap quota s
      → AllWithin cap quota (call c s)
  unfolding call local_share
  call-AllWithin (try_acquires ctx resource o e) s f h =
      try_acquire-AllWithin ctx resource o e s f h
  call-AllWithin (acquires ctx resource o env) s f h = acquire-AllWithin ctx resource o env s f h
  call-AllWithin (releases ctx p) s f h = release-AllWithin ctx p s h
  call-AllWithin (extends ctx now now_locked p) s f h = extend-AllWithin ctx now now_locked p s h
  call-AllWithin (cleans now) s f h = cleanup-AllWithin now s h
  call-AllWithin closes s f h = close-AllWithin s h

pod_count-acquire_loop :
    (left attempt : ℕ) (env : ℕ → Round) (r : Request) (s : LocalSemaphore)
    → (acquire_loop left attempt env r s).1.pod_count ≡ s.pod_count
unfolding acquire_loop do_acquire
pod_count-acquire_loop zero attempt env r s = refl
pod_count-acquire_loop (suc left) attempt env r s =
    ground (arith, pod_count-acquire_loop left (attempt + 1) env r (do_acquire (env attempt) r s).1)

pod_count-acquire :
    (ctx : Ctx) (resource : String) (o : AcquireOptions) (env : ℕ → Round) (s : LocalSemaphore)
    → (acquire ctx resource o env s).1.pod_count ≡ s.pod_count
unfolding acquire
pod_count-acquire ctx resource o env s =
    elim (Result-cases (prepare_acquire_common ctx resource o s.closed)) [
      | inr (x, p) ↦ rw (p, acquire)
      | inl (tenant_id, p) ↦ elim (Result-cases (validate_retry_params o)) [
        | inr (x, q) ↦ rw (p, acquire) (rw (q, acquire))
        | inl (u, q) ↦
            rw (p, acquire)
              (rw (q, acquire)
                (pod_count-acquire_loop (pos_part o.max_retries) 0 env
                  (local_request s resource tenant_id o) s))
      ]
    ]

pub pod_count-call : (c : Call) (s : LocalSemaphore) → (call c s).pod_count ≡ s.pod_count
unfolding call try_acquire do_acquire release_permit extend_permit cleanup_all_expired close
pod_count-call (try_acquires ctx resource o e) s = ground arith
pod_count-call (acquires ctx resource o env) s = pod_count-acquire ctx resource o env s
pod_count-call (releases ctx p) s = ground (arith, release_state ctx p s)
pod_count-call (extends ctx now now_locked p) s =
    ground (arith, extend_state ctx now now_locked p s)
pod_count-call (cleans now) s = refl
pod_count-call closes s = ground arith

-- `newLocalSemaphore`
abbrev pub new_local_semaphore : ℤ → LocalSemaphore
new_local_semaphore pods = record { permits = GoMap.make; closed = false; pod_count = pods }
