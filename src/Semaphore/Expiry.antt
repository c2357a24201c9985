-- ===== src/Semaphore/Expiry.antt =====
-- Expired permits do not count: what an acquisition compares with the capacity is the number of the
-- permits that are still active.
use mathlib.Core.List.{append_assoc}
use xkit.Prelude.{
  ℕ, ◌≡◌, refl, sym, ap, ◌∙◌, ◌↔◌, true, false, List, [], ◌∷◌, ◌++◌, String, ℤ, pos, leb_ℤ, length,
  arith, if◌then◌else◌, Bool-cases, inl, inr,
}
use xkit.GoMap
use xkit.GoMap.{GoMap, Unique}
use xkit.GoMap.Middle.{Unique-middle, without-middle}
use xkit.Semaphore.{
  ResourcePermits, Request, refused, capacity_full, entry_at, is_after, cleanup_entry, cleanup_loop,
  cleanup_expired_locked, count_active, acquire_cleaned, acquire_locked,
}

-- The entries that have not expired.
active : ℤ → ResourcePermits → List (String × ℕ) → List (String × ℕ)
active now rp [] = []
active now rp ((id, p) ∷ es) =
    let rest = active now rp es in
    if is_after (entry_at rp p).expires_at now then (id, p) ∷ rest else rest

length-active :
    (now : ℤ) (rp : ResourcePermits) (es : List (String × ℕ))
    → length (active now rp es) ≡ count_active now rp es
unfolding active count_active
length-active now rp [] = refl
length-active now rp ((id, p) ∷ es) = ground (arith, length-active now rp es)

pub heap-cleanup_entry :
    (now : ℤ) (e : String × ℕ) (rp : ResourcePermits) → (cleanup_entry now e rp).heap ≡ rp.heap
unfolding cleanup_entry
heap-cleanup_entry now (id, p) rp = ground arith

active-heap :
    (now : ℤ) (a c : ResourcePermits) (es : List (String × ℕ))
    → a.heap ≡ c.heap
    → active now a es ≡ active now c es
unfolding active
active-heap now a c [] e = refl
active-heap now a c ((id, p) ∷ es) e = ground (arith, active-heap now a c es e)

module _ (now : ℤ) (rp : ResourcePermits) (id : String) (p : ℕ) where
  cleanup_entry-alive :
      is_after (entry_at rp p).expires_at now ≡ true → cleanup_entry now (id, p) rp ≡ rp
  unfolding cleanup_entry
  cleanup_entry-alive alive = rw alive

  cleanup_entry-expired :
      (done es : List (String × ℕ))
      → is_after (entry_at rp p).expires_at now ≡ false
      → rp.global.entries ≡ done ++ (id, p) ∷ es
      → Unique (done ++ (id, p) ∷ es)
      → (cleanup_entry now (id, p) rp).global.entries ≡ done ++ es
  unfolding cleanup_entry GoMap.delete
  cleanup_entry-expired done es expired e h = rw (expired, e) (without-middle done es id p h)

-- The clean-up keeps what is active of the entries that it has yet to visit.
global-cleanup_loop :
    (now : ℤ) (done es : List (String × ℕ)) (rp : ResourcePermits)
    → rp.global.entries ≡ done ++ es
    → Unique (done ++ es)
    → (cleanup_loop now es rp).global.entries ≡ done ++ active now rp es
unfolding cleanup_loop active
global-cleanup_loop now done [] rp e h = e
global-cleanup_loop now done ((id, p) ∷ es) rp e h =
    elim (Bool-cases (is_after (entry_at rp p).expires_at now)) [
      | inl alive ↦
          let visited = done ++ (id, p) ∷ [] in
          let same = append_assoc done ((id, p) ∷ []) es in
          rw alive (
            ap (λ (s : ResourcePermits). (cleanup_loop now es s).global.entries)
              (cleanup_entry-alive now rp id p alive)
            ∙ global-cleanup_loop now visited es rp (e ∙ sym same) (rw same h)
            ∙ append_assoc done ((id, p) ∷ []) (active now rp es))
      | inr expired ↦
          let rp' = cleanup_entry now (id, p) rp in
          rw expired (
            global-cleanup_loop now done es rp'
              (cleanup_entry-expired now rp id p done es expired e h)
              (Unique-middle done es id p h).2
            ∙ ap (λ (r : List (String × ℕ)). done ++ r)
                (active-heap now rp' rp es (heap-cleanup_entry now (id, p) rp)))
    ]

-- After a clean-up a resource holds as many permits as were active before it.
size-cleanup :
    (now : ℤ) (rp : ResourcePermits)
    → Unique rp.global.entries
    → GoMap.size (cleanup_expired_locked now rp).global ≡ count_active now rp rp.global.entries
unfolding cleanup_expired_locked GoMap.size
size-cleanup now rp h =
    ap length (global-cleanup_loop now [] rp.global.entries rp refl h)
    ∙ length-active now rp rp.global.entries

-- An acquisition is refused for want of capacity exactly when the number of active permits, which
-- `Query` reports, has reached it: expired permits take no room. The ids of the permits are pairwise
-- different.
pub acquire_locked-capacity_full :
    (now : ℤ) (id : String) (r : Request) (rp : ResourcePermits)
    → Unique rp.global.entries
    → ((acquire_locked now id r rp).0 ≡ refused capacity_full)
      ↔ (leb_ℤ r.capacity (pos (count_active now rp rp.global.entries)) ≡ true)
unfolding acquire_locked acquire_cleaned
acquire_locked-capacity_full now id r rp h = ground (arith, size-cleanup now rp h)
