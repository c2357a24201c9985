-- ===== src/Semaphore/Capacity.antt =====
-- Each operation on the permits of a resource keeps the bounds on their number.
use xkit.Prelude.{
  ℕ, ◌+◌, ◌≤◌, ◌≡◌, Bool, true, false, not, ◌&&◌, some, List, [], ◌∷◌, String, str_eq, ℤ, pos, ◌≤ℤ◌,
  leb_ℤ, ltb_ℤ, arith, ◌==◌, length, if◌then◌else◌, Option-cases, Bool-cases, inl, inr,
}
use xkit.GoMap
use xkit.GoMap.{
  GoMap, Unique, delete-Unique, put-Unique, get-delete, get-put, size-delete-le, size-put-le,
}
use xkit.Semaphore.{
  ResourcePermits, Permit, Request, entry_at, has_quota, drop_from_tenant, cleanup_entry,
  cleanup_loop, cleanup_expired_locked, tenant_is_full, tenant_permits, store_permit,
  acquire_cleaned, acquire_locked, remove_permit, release_locked, extend_locked,
}

-- At most `cap` permits, each id once. Of those that were acquired with a positive tenant quota, which
-- are the ones that `tenants` lists, no tenant has more than `quota`.
pub record IsWithin (cap quota : ℕ) (rp : ResourcePermits) : Type 0 where
  pub total : GoMap.size rp.global ≤ cap
  pub unique : Unique rp.global.entries
  pub share : (t : String) (ps : GoMap ℕ) → GoMap.get rp.tenants t ≡ some ps → GoMap.size ps ≤ quota

abbrev Share : ℕ → GoMap (GoMap ℕ) → Type 0
Share quota tenants =
    (t : String) (ps : GoMap ℕ) → GoMap.get tenants t ≡ some ps → GoMap.size ps ≤ quota

Share-delete :
    (quota : ℕ) (m : GoMap (GoMap ℕ)) (k : String) → Share quota m → Share quota (GoMap.delete m k)
Share-delete quota m k h t ps e = ground (arith, get-delete m k t, h t ps)

Share-put :
    (quota : ℕ) (m : GoMap (GoMap ℕ)) (k : String) (new : GoMap ℕ)
    → Share quota m
    → GoMap.size new ≤ quota
    → Share quota (GoMap.put m k new)
Share-put quota m k new h fits t ps e = ground (arith, get-put m k t new, h t ps)

Share-if :
    (quota : ℕ) (b : Bool) (m n : GoMap (GoMap ℕ))
    → Share quota m
    → Share quota n
    → Share quota (if b then m else n)
Share-if quota true m n h k = h
Share-if quota false m n h k = k

Share-drop :
    (quota : ℕ) (m : GoMap (GoMap ℕ)) (t id : String)
    → Share quota m
    → Share quota (drop_from_tenant m t id)
unfolding drop_from_tenant
Share-drop quota m t id h = elim (Option-cases (GoMap.get m t)) [
  | inl e ↦ rw (e, drop_from_tenant) h
  | inr (ps, e) ↦
      let left = GoMap.delete ps id in
      rw (e, drop_from_tenant)
        (Share-if quota (GoMap.size left == 0) (GoMap.delete m t) (GoMap.put m t left)
          (Share-delete quota m t h)
          (Share-put quota m t left h (omega (arith, size-delete-le ps id, h t ps e))))
]

tenant_permits-fits :
    (quota : ℕ) (m : GoMap (GoMap ℕ)) (t id : String) (p : ℕ) (limit : ℤ)
    → limit ≤ℤ pos quota
    → ltb_ℤ (pos 0) limit ≡ true
    → tenant_is_full m t limit ≡ false
    → GoMap.size (GoMap.put (tenant_permits m t) id p) ≤ quota
unfolding tenant_is_full tenant_permits
tenant_permits-fits quota m t id p limit le some_quota room = elim (Option-cases (GoMap.get m t)) [
  | inl e ↦ rw (e, tenant_permits) (unfold GoMap.size GoMap.put in ground arith)
  | inr (ps, e) ↦ rw (e, tenant_permits) (ground (arith, size-put-le ps id p))
]

-- A request whose limits lie within the bounds.
abbrev pub Asks : ℕ → ℕ → Request → Type 0
Asks cap quota r = (r.capacity ≤ℤ pos cap) × (r.tenant_quota ≤ℤ pos quota)

module _ {cap quota : ℕ} where
  IsWithin-if :
      (b : Bool) (x y : ResourcePermits)
      → IsWithin cap quota x
      → IsWithin cap quota y
      → IsWithin cap quota (if b then x else y)
  IsWithin-if true x y h k = h
  IsWithin-if false x y h k = k

  cleanup_entry-IsWithin :
      (now : ℤ) (e : String × ℕ) (rp : ResourcePermits)
      → IsWithin cap quota rp
      → IsWithin cap quota (cleanup_entry now e rp)
  unfolding cleanup_entry
  cleanup_entry-IsWithin now (id, p) rp h =
      let entry = entry_at rp p in
      IsWithin-if (not (ltb_ℤ now entry.expires_at)) _ rp
        (record {
          total = omega (arith, size-delete-le rp.global id, h.total);
          unique = delete-Unique rp.global id h.unique;
          share =
              Share-if quota (not (str_eq entry.tenant_id ""))
                (drop_from_tenant rp.tenants entry.tenant_id id) rp.tenants
                (Share-drop quota rp.tenants entry.tenant_id id h.share) h.share;
        })
        h

  cleanup_loop-IsWithin :
      (now : ℤ) (es : List (String × ℕ)) (rp : ResourcePermits)
      → IsWithin cap quota rp
      → IsWithin cap quota (cleanup_loop now es rp)
  unfolding cleanup_loop
  cleanup_loop-IsWithin now [] rp h = h
  cleanup_loop-IsWithin now (e ∷ es) rp h =
      cleanup_loop-IsWithin now es (cleanup_entry now e rp) (cleanup_entry-IsWithin now e rp h)

  pub cleanup-IsWithin :
      (now : ℤ) (rp : ResourcePermits)
      → IsWithin cap quota rp
      → IsWithin cap quota (cleanup_expired_locked now rp)
  unfolding cleanup_expired_locked
  cleanup-IsWithin now rp h = cleanup_loop-IsWithin now rp.global.entries rp h

  remove-IsWithin :
      (p : Permit) (rp : ResourcePermits)
      → IsWithin cap quota rp
      → IsWithin cap quota (remove_permit p rp)
  unfolding remove_permit
  remove-IsWithin p rp h = record {
    total = omega (arith, size-delete-le rp.global p.id, h.total);
    unique = delete-Unique rp.global p.id h.unique;
    share =
        Share-if quota (not (str_eq p.tenant_id "") && p.has_tenant_quota)
          (drop_from_tenant rp.tenants p.tenant_id p.id) rp.tenants
          (Share-drop quota rp.tenants p.tenant_id p.id h.share) h.share;
  }

  store-IsWithin :
      (now : ℤ) (id : String) (r : Request) (rp : ResourcePermits)
      → r.tenant_quota ≤ℤ pos quota
      → GoMap.size rp.global + 1 ≤ cap
      → (has_quota r && tenant_is_full rp.tenants r.tenant_id r.tenant_quota) ≡ false
      → IsWithin cap quota rp
      → IsWithin cap quota (store_permit now id r rp).1
  unfolding store_permit
  store-IsWithin now id r rp le room free h = elim (Bool-cases (has_quota r)) [
    | inl e ↦ record {
      total = omega (arith, size-put-le rp.global id (length rp.heap));
      unique = put-Unique rp.global id (length rp.heap) h.unique;
      share = rw e (
          Share-put quota rp.tenants r.tenant_id
            (GoMap.put (tenant_permits rp.tenants r.tenant_id) id (length rp.heap)) h.share
            (tenant_permits-fits quota rp.tenants r.tenant_id id (length rp.heap) r.tenant_quota le
              (ground arith) (ground arith)));
    }
    | inr e ↦ record {
      total = omega (arith, size-put-le rp.global id (length rp.heap));
      unique = put-Unique rp.global id (length rp.heap) h.unique;
      share = rw e h.share;
    }
  ]

  acquire_cleaned-IsWithin :
      (now : ℤ) (id : String) (r : Request) (rp : ResourcePermits)
      → Asks cap quota r
      → IsWithin cap quota rp
      → IsWithin cap quota (acquire_cleaned now id r rp).1
  unfolding acquire_cleaned
  acquire_cleaned-IsWithin now id r rp (le, lq) h =
      elim (Bool-cases (leb_ℤ r.capacity (pos (GoMap.size rp.global)))) [
        | inl full ↦ rw full h
        | inr room ↦
            elim (Bool-cases
              (has_quota r && tenant_is_full rp.tenants r.tenant_id r.tenant_quota)) [
                | inl full ↦ rw (room, full) h
                | inr free ↦ rw (room, free) (store-IsWithin now id r rp lq (ground arith) free h)
              ]
      ]

  pub acquire-IsWithin :
      (now : ℤ) (id : String) (r : Request) (rp : ResourcePermits)
      → Asks cap quota r
      → IsWithin cap quota rp
      → IsWithin cap quota (acquire_locked now id r rp).1
  unfolding acquire_locked
  acquire-IsWithin now id r rp a h =
      acquire_cleaned-IsWithin now id r (cleanup_expired_locked now rp) a
        (cleanup-IsWithin now rp h)

  pub release-IsWithin :
      (p : Permit) (rp : ResourcePermits)
      → IsWithin cap quota rp
      → IsWithin cap quota (release_locked p rp).1
  unfolding release_locked
  release-IsWithin p rp h = elim (Option-cases (GoMap.get rp.global p.id)) [
    | inl e ↦ rw (e, release_locked) h
    | inr (x, e) ↦ rw (e, release_locked) (remove-IsWithin p rp h)
  ]

  pub extend-IsWithin :
      (now until : ℤ) (p : Permit) (rp : ResourcePermits)
      → IsWithin cap quota rp
      → IsWithin cap quota (extend_locked now until p rp).1
  unfolding extend_locked
  extend-IsWithin now until p rp h = elim (Option-cases (GoMap.get rp.global p.id)) [
    | inl e ↦ rw (e, extend_locked) h
    | inr (x, e) ↦ elim (Bool-cases (not (ltb_ℤ now (entry_at rp x).expires_at))) [
      | inl late ↦ rw (e, extend_locked) (rw late (remove-IsWithin p rp h))
      | inr live ↦
          rw (e, extend_locked)
            (rw live (record { total = h.total; unique = h.unique; share = h.share }))
    ]
  ]
