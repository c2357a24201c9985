-- ===== src/Semaphore/Local/Safety.antt =====
-- `TryAcquire`, `Acquire`, `Release` and `Extend` keep the bounds of every resource.
use xkit.Prelude.{
  some_injective, ℕ, zero, suc, ◌+◌, ◌≡◌, subst, Bool, true, false, not, ◌&&◌, some, String, str_eq,
  ℤ, pos, ◌≤ℤ◌, if◌then◌else◌, Result, ok, err, arith, Option-cases, Bool-cases, Result-cases, inl,
  inr, ◌==◌, sym, ap, ◌∙◌, pos_part,
}
use xkit.GoMap
use xkit.GoMap.{GoMap, get-put, get-map_values}
use xkit.Semaphore.{
  Error, ResourcePermits, Permit, Request, Attempt, granted, refused, cleanup_expired_locked,
  acquire_locked, release_locked, extend_locked, context_done,
}
use xkit.Semaphore.Capacity.{
  IsWithin, Asks, cleanup-IsWithin, acquire-IsWithin, release-IsWithin, extend-IsWithin,
}
use xkit.Semaphore.History.{new-IsWithin}
use xkit.Semaphore.Validate.{AcquireOptions, Ctx, prepare_acquire_common, validate_retry_params}
use xkit.Semaphore.Local.{
  LocalSemaphore, get_resource_permits, put_resource_permits, local_share, local_request, Round,
  do_acquire, try_acquire, after_attempt, acquire_loop, cleanup_all_expired, acquire,
  release_permit, extend_permit,
}

-- Every resource is within the bounds.
abbrev pub AllWithin : ℕ → ℕ → LocalSemaphore → Type 0
AllWithin cap quota s =
    (resource : String) (rp : ResourcePermits)
    → GoMap.get s.permits resource ≡ some rp
    → IsWithin cap quota rp

module _ {cap quota : ℕ} where
  put-AllWithin :
      (s : LocalSemaphore) (resource : String) (rp : ResourcePermits)
      → AllWithin cap quota s
      → IsWithin cap quota rp
      → AllWithin cap quota (put_resource_permits s resource rp)
  put-AllWithin s resource rp h fits j found e = elim (Bool-cases (str_eq resource j)) [
    | inl same ↦
        subst (IsWithin cap quota)
          (some_injective rp found (ground (arith, get-put s.permits resource j rp))) fits
    | inr other ↦ h j found (ground (arith, get-put s.permits resource j rp))
  ]

  get-IsWithin :
      (s : LocalSemaphore) (resource : String)
      → AllWithin cap quota s
      → IsWithin cap quota (get_resource_permits s resource)
  unfolding get_resource_permits
  get-IsWithin s resource h = elim (Option-cases (GoMap.get s.permits resource)) [
    | inl e ↦ rw (e, get_resource_permits) (new-IsWithin cap quota)
    | inr (rp, e) ↦ rw (e, get_resource_permits) (h resource rp e)
  ]

  do_acquire-AllWithin :
      (e : Round) (r : Request) (s : LocalSemaphore)
      → Asks cap quota r
      → AllWithin cap quota s
      → AllWithin cap quota (do_acquire e r s).1
  unfolding do_acquire
  do_acquire-AllWithin e r s a h = elim (Option-cases e.generated) [
    | inl p ↦ rw (p, do_acquire) h
    | inr (id, p) ↦
        rw (p, do_acquire)
          (put-AllWithin s r.resource
            (acquire_locked e.now id r (get_resource_permits s r.resource)).1 h
            (acquire-IsWithin e.now id r (get_resource_permits s r.resource) a
              (get-IsWithin s r.resource h)))
  ]

  -- The state beside a result.
  if-AllWithin :
      {A : Type 0} (b : Bool) (x y : A × LocalSemaphore)
      → AllWithin cap quota x.1
      → AllWithin cap quota y.1
      → AllWithin cap quota (if b then x else y).1
  if-AllWithin true x y h k = h
  if-AllWithin false x y h k = k

  pub try_acquire-AllWithin :
      (ctx : Ctx) (resource : String) (o : AcquireOptions) (e : Round) (s : LocalSemaphore)
      → (local_share s o.capacity ≤ℤ pos cap) × (local_share s o.tenant_quota ≤ℤ pos quota)
      → AllWithin cap quota s
      → AllWithin cap quota (try_acquire ctx resource o e s).1
  unfolding try_acquire
  try_acquire-AllWithin ctx resource o e s a h =
      elim (Result-cases (prepare_acquire_common ctx resource o s.closed)) [
        | inr (x, p) ↦ rw (p, try_acquire) h
        | inl (tenant_id, p) ↦
            let r = local_request s resource tenant_id o in
            rw (p, try_acquire)
              (if-AllWithin e.ctx_done (err context_done, s) (do_acquire e r s) h
                (do_acquire-AllWithin e r s (unfold local_request in a) h))
      ]

  after_attempt-AllWithin :
      (cut : Bool) (result : Result Error Attempt) (s : LocalSemaphore)
      (rest : Result Error Permit × LocalSemaphore)
      → AllWithin cap quota s
      → AllWithin cap quota rest.1
      → AllWithin cap quota (after_attempt cut (result, s) rest).1
  after_attempt-AllWithin cut (err x) s rest h k = h
  after_attempt-AllWithin cut (ok (granted p)) s rest h k = h
  after_attempt-AllWithin cut (ok (refused reason)) s rest h k =
      if-AllWithin cut (err context_done, s) rest h k

  acquire_loop-AllWithin :
      (left attempt : ℕ) (env : ℕ → Round) (r : Request) (s : LocalSemaphore)
      → Asks cap quota r
      → AllWithin cap quota s
      → AllWithin cap quota (acquire_loop left attempt env r s).1
  unfolding acquire_loop
  acquire_loop-AllWithin zero attempt env r s a h = h
  acquire_loop-AllWithin (suc left) attempt env r s a h =
      let e = env attempt in
      let after = do_acquire e r s in
      let rest = acquire_loop left (attempt + 1) env r after.1 in
      let kept = do_acquire-AllWithin e r s a h in
      if-AllWithin e.ctx_done (err context_done, s)
        (after_attempt (not (left == 0) && e.wait_done) after rest) h
        (after_attempt-AllWithin (not (left == 0) && e.wait_done) after.0 after.1 rest kept
          (acquire_loop-AllWithin left (attempt + 1) env r after.1 a kept))

  pub acquire-AllWithin :
      (ctx : Ctx) (resource : String) (o : AcquireOptions) (env : ℕ → Round) (s : LocalSemaphore)
      → (local_share s o.capacity ≤ℤ pos cap) × (local_share s o.tenant_quota ≤ℤ pos quota)
      → AllWithin cap quota s
      → AllWithin cap quota (acquire ctx resource o env s).1
  unfolding acquire
  acquire-AllWithin ctx resource o env s a h =
      elim (Result-cases (prepare_acquire_common ctx resource o s.closed)) [
        | inr (x, p) ↦ rw (p, acquire) h
        | inl (tenant_id, p) ↦ elim (Result-cases (validate_retry_params o)) [
          | inr (x, q) ↦ rw (p, acquire) (rw (q, acquire) h)
          | inl (u, q) ↦
              let r = local_request s resource tenant_id o in
              rw (p, acquire)
                (rw (q, acquire)
                  (acquire_loop-AllWithin (pos_part o.max_retries) 0 env r s
                    (unfold local_request in a) h))
        ]
      ]

  pub release_permit-AllWithin :
      (p : Permit) (s : LocalSemaphore)
      → AllWithin cap quota s
      → AllWithin cap quota (release_permit p s).1
  unfolding release_permit
  release_permit-AllWithin p s h = elim (Option-cases (GoMap.get s.permits p.resource)) [
    | inl e ↦ rw (e, release_permit) h
    | inr (rp, e) ↦
        rw (e, release_permit)
          (put-AllWithin s p.resource (release_locked p rp).1 h
            (release-IsWithin p rp (h p.resource rp e)))
  ]

  pub extend_permit-AllWithin :
      (now until : ℤ) (p : Permit) (s : LocalSemaphore)
      → AllWithin cap quota s
      → AllWithin cap quota (extend_permit now until p s).1
  unfolding extend_permit
  extend_permit-AllWithin now until p s h = elim (Option-cases (GoMap.get s.permits p.resource)) [
    | inl e ↦ rw (e, extend_permit) h
    | inr (rp, e) ↦
        rw (e, extend_permit)
          (put-AllWithin s p.resource (extend_locked now until p rp).1 h
            (extend-IsWithin now until p rp (h p.resource rp e)))
  ]

  pub cleanup-AllWithin :
      (now : ℤ) (s : LocalSemaphore)
      → AllWithin cap quota s
      → AllWithin cap quota (cleanup_all_expired now s)
  unfolding cleanup_all_expired
  cleanup-AllWithin now s h j found e = elim (Option-cases (GoMap.get s.permits j)) [
    | inl absent ↦ absurd (cc (get-map_values (cleanup_expired_locked now) s.permits j, absent))
    | inr (rp, p) ↦
        subst (IsWithin cap quota)
          (some_injective (cleanup_expired_locked now rp) found (
            sym (ap (GoMap.map_found (cleanup_expired_locked now)) p)
            ∙ sym (get-map_values (cleanup_expired_locked now) s.permits j)
            ∙ e))
          (cleanup-IsWithin now rp (h j rp p))
  ]
