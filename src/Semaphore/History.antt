-- ===== src/Semaphore/History.antt =====
-- The operations of local.go on the permits of a resource, in the order in which they take its lock.
use xkit.Prelude.{ℕ, List, [], ◌∷◌, String, ℤ, arith}
use xkit.GoMap
use xkit.GoMap.{GoMap, get-make}
use xkit.Semaphore.{
  ResourcePermits, Permit, Request, cleanup_expired_locked, acquire_locked, release_locked,
  extend_locked, new_resource_permits,
}
use xkit.Semaphore.Capacity.{
  IsWithin, Asks, cleanup-IsWithin, acquire-IsWithin, release-IsWithin, extend-IsWithin,
}

-- An operation, with the instant at which it runs where it reads the clock.
pub data Op : Type 0 where
  acquires : ℤ → String → Request → Op
  releases : Permit → Op
  extends : ℤ → ℤ → Permit → Op
  cleans : ℤ → Op

unfoldable pub step : Op → ResourcePermits → ResourcePermits
step (acquires now id r) rp = (acquire_locked now id r rp).1
step (releases p) rp = (release_locked p rp).1
step (extends now until p) rp = (extend_locked now until p rp).1
step (cleans now) rp = cleanup_expired_locked now rp

unfoldable pub run : List Op → ResourcePermits → ResourcePermits
unfolding step
run [] rp = rp
run (o ∷ os) rp = run os (step o rp)

-- Every acquisition of the history asks for limits within `cap` and `quota`.
abbrev pub AsksWithin : ℕ → ℕ → List Op → Type 0
AsksWithin cap quota [] = Unit
AsksWithin cap quota (acquires now id r ∷ os) = Asks cap quota r × AsksWithin cap quota os
AsksWithin cap quota (_ ∷ os) = AsksWithin cap quota os

run-keeps :
    (cap quota : ℕ) (os : List Op) (rp : ResourcePermits)
    → AsksWithin cap quota os
    → IsWithin cap quota rp
    → IsWithin cap quota (run os rp)
unfolding run
run-keeps cap quota [] rp a h = h
run-keeps cap quota (acquires now id r ∷ os) rp a h =
    run-keeps cap quota os _ a.1 (acquire-IsWithin now id r rp a.0 h)
run-keeps cap quota (releases p ∷ os) rp a h = run-keeps cap quota os _ a (release-IsWithin p rp h)
run-keeps cap quota (extends now until p ∷ os) rp a h =
    run-keeps cap quota os _ a (extend-IsWithin now until p rp h)
run-keeps cap quota (cleans now ∷ os) rp a h =
    run-keeps cap quota os _ a (cleanup-IsWithin now rp h)

pub new-IsWithin : (cap quota : ℕ) → IsWithin cap quota new_resource_permits
new-IsWithin cap quota = record {
  total = unfold GoMap.size in omega arith;
  unique = tt;
  share = λ t ps e. absurd (cc (get-make {V = GoMap ℕ} t));
}

-- From an empty resource, whatever the interleaving of acquisitions, releases, extensions and
-- clean-ups, the clock readings, the permits handed in and the ids, there are never more than `cap`
-- permits, nor more than `quota` with any tenant, nor two of one id, if no acquisition asks for
-- higher limits.
pub run-IsWithin :
    (cap quota : ℕ) (os : List Op)
    → AsksWithin cap quota os
    → IsWithin cap quota (run os new_resource_permits)
run-IsWithin cap quota os a = run-keeps cap quota os new_resource_permits a (new-IsWithin cap quota)
