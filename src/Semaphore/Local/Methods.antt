-- ===== src/Semaphore/Local/Methods.antt =====
-- `Release` and `Extend` of a permit, and the division of a limit among processes.
use xkit.Prelude.{
  ℕ, ◌*◌, ◌/◌, ◌≤◌, ◌<◌, ◌≡◌, true, false, none, some, String, str_eq_iff, ℤ, pos, ◌≤ℤ◌, max,
  pos_part, ok, err, arith, Option-cases, Bool-cases, inl, inr, ◌⊎◌, ◌==◌,
}
use native.Mathlib.Nat.{div-add-mod'}
use xkit.GoMap
use xkit.GoMap.{get-put, get-make}
use xkit.Semaphore.{permit_not_held, ResourcePermits, Permit, release_locked}
use xkit.Semaphore.Permits.{release_locked-get}
use xkit.Semaphore.Validate.{divide_by_pod_count}
use xkit.Semaphore.Local.{LocalSemaphore, get_resource_permits, release_permit, release, extend}

release_locked_result :
    (p : Permit) (rp : ResourcePermits)
    → ((release_locked p rp).0 ≡ ok tt) ⊎ ((release_locked p rp).0 ≡ err permit_not_held)
unfolding release_locked
release_locked_result p rp = ground arith

release_permit_result :
    (p : Permit) (s : LocalSemaphore)
    → ((release_permit p s).0 ≡ ok tt) ⊎ ((release_permit p s).0 ≡ err permit_not_held)
unfolding release_permit
release_permit_result p s = elim (Option-cases (GoMap.get s.permits p.resource)) [
  | inl e ↦ inr (rw (e, release_permit))
  | inr (rp, e) ↦ rw (e, release_permit) (release_locked_result p rp)
]

release_permit_gone :
    (p : Permit) (s : LocalSemaphore)
    → GoMap.get (get_resource_permits (release_permit p s).1 p.resource).global p.id ≡ none
unfolding release_permit get_resource_permits
release_permit_gone p s = elim (Option-cases (GoMap.get s.permits p.resource)) [
  | inl e ↦ rw (e, release_permit) (rw (e, get_resource_permits) (get-make p.id))
  | inr (rp, e) ↦
      rw (e, release_permit)
        (ground (
          arith,
          get-put s.permits p.resource p.resource (release_locked p rp).1,
          str_eq_iff p.resource p.resource,
          str_eq_iff p.id p.id,
          (release_locked-get p rp "" p.id).1,
        ))
]

-- With a context, `Release` succeeds on every permit that was not released yet, held, expired or
-- unknown: it marks it released and leaves no permit of that id at its resource. From then on
-- `Release` succeeds and `Extend` fails with ErrPermitNotHeld, and neither changes anything.
pub release_once :
    (t u : String) (now now_locked : ℤ) (p : Permit) (s : LocalSemaphore)
    → p.released ≡ false
    → let (result, p', s') = release (some t) p s in
      (result ≡ ok tt)
      × (p' ≡ record p { released = true })
      × (GoMap.get (get_resource_permits s' p.resource).global p.id ≡ none)
      × (release (some u) p' s' ≡ (ok tt, p', s'))
      × (extend (some u) now now_locked p' s' ≡ (err permit_not_held, p', s'))
unfolding release extend
release_once t u now now_locked p s fresh =
    ground (arith, release_permit_result p s, release_permit_gone p s)

zero_of : {q : ℕ} → (q == 0) ≡ true → q ≡ 0
zero_of e = ground arith

max-positive : (q : ℕ) → 0 < q → max 1 q ≡ q
max-positive q p = omega arith

max-share_bound : (value pods : ℕ) → 0 < pods → max 1 (value / pods) * pods ≤ max value pods
max-share_bound value pods p = elim (Bool-cases (value / pods == 0)) [
  | inl e ↦ rw (zero_of e) (omega arith)
  | inr e ↦ rw (max-positive (value / pods) (ground arith)) (omega (arith, div-add-mod' value pods))
]

-- The shares of `pods` processes, at least one, of a positive limit add up to no more than it, or
-- than one permit a process where the limit is smaller; each share is positive.
pub divide_by_pod_count_bounds :
    (value pods : ℕ)
    → 0 < value
    → 0 < pods
    → let share = divide_by_pod_count (pos value) (pos pods) in
      (pos 1 ≤ℤ share) × (pos_part share * pods ≤ max value pods)
unfolding divide_by_pod_count
divide_by_pod_count_bounds value pods v p = ground (arith, max-share_bound value pods p)
