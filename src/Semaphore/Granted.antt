-- ===== src/Semaphore/Granted.antt =====
-- A permit that `doAcquire` hands out, under the operations on it.
use xkit.Prelude.{
  ℕ, ◌≡◌, refl, ap, some, List, [], ◌∷◌, ◌++◌, String, str_eq_iff, ℤ, ◌+ℤ◌, if◌then◌else◌, get_or,
  length, ok, err, arith,
}
use xkit.GoMap
use xkit.GoMap.{get-put}
use xkit.Semaphore.{
  permit_not_held, PermitEntry, no_entry, ResourcePermits, Permit, Request, granted, entry_at,
  is_after, cleanup_expired_locked, store_permit, acquire_cleaned, acquire_locked, release_locked,
  extend_locked,
}

get_or-append_last :
    (xs : List PermitEntry) (x d : PermitEntry) → get_or (xs ++ x ∷ []) (length xs) d ≡ x
get_or-append_last [] x d = refl
get_or-append_last (y ∷ xs) x d = get_or-append_last xs x d

-- A stored permit is at the end of the heap, and the map leads there.
store_permit-get :
    (now : ℤ) (id : String) (r : Request) (rp : ResourcePermits)
    → let (permit, rp') = store_permit now id r rp in
      (GoMap.get rp'.global permit.id ≡ some (length rp.heap))
      × ((entry_at rp' (length rp.heap)).expires_at ≡ now +ℤ r.ttl)
unfolding store_permit
store_permit-get now id r rp = (
  ground (arith, get-put rp.global id id (length rp.heap), str_eq_iff id id),
  ap (λ (e : PermitEntry). e.expires_at) (get_or-append_last rp.heap _ no_entry),
)

module _ (p : Permit) (rp : ResourcePermits) (place : ℕ) where
  release_locked-found : GoMap.get rp.global p.id ≡ some place → (release_locked p rp).0 ≡ ok tt
  unfolding release_locked
  release_locked-found e = rw (e, release_locked) refl

  extend_locked-found :
      (later until expires_at : ℤ)
      → GoMap.get rp.global p.id ≡ some place
      → (entry_at rp place).expires_at ≡ expires_at
      → (extend_locked later until p rp).0
        ≡ (if is_after expires_at later then ok tt else err permit_not_held)
  unfolding extend_locked
  extend_locked-found later until expires_at e f = ground (arith, e, f)

acquire_cleaned-granted :
    (now : ℤ) (id : String) (r : Request) (rp : ResourcePermits) (p : Permit)
    → (acquire_cleaned now id r rp).0 ≡ granted p
    → (acquire_cleaned now id r rp).1 ≡ (store_permit now id r rp).1
      × p ≡ (store_permit now id r rp).0
unfolding acquire_cleaned
acquire_cleaned-granted now id r rp p h = ground arith

-- A permit that an acquisition hands out is held: whatever permits there were, releasing it next
-- succeeds, and extending it at any instant succeeds exactly if that is before the acquisition's
-- instant plus the time to live.
pub acquire_locked-held :
    (now later until : ℤ) (id : String) (r : Request) (rp : ResourcePermits) (p : Permit)
    → (acquire_locked now id r rp).0 ≡ granted p
    → let rp' = (acquire_locked now id r rp).1 in
      ((release_locked p rp').0 ≡ ok tt)
      × ((extend_locked later until p rp').0
          ≡ (if is_after (now +ℤ r.ttl) later then ok tt else err permit_not_held))
unfolding acquire_locked
acquire_locked-held now later until id r rp p h =
    let left = cleanup_expired_locked now rp in
    let place = length left.heap in
    let (same, stored) = acquire_cleaned-granted now id r left p h in
    let (found, expiry) = store_permit-get now id r left in
    rw (same, stored)
      (
        release_locked-found (store_permit now id r left).0 (store_permit now id r left).1 place
            found,
        extend_locked-found (store_permit now id r left).0 (store_permit now id r left).1 place
            later until (now +ℤ r.ttl) found expiry,
      )
