-- ===== src/Semaphore/Permits.antt =====
-- What releasing and extending a permit do to the permits of its resource.
use xkit.Prelude.{
  ℕ, zero, suc, ◌<◌, ◌≡◌, sym, ap, ◌∙◌, Option, Option-cases, Bool-cases, if-elim, inl, inr, refl,
  Bool, true, false, not, ◌&&◌, ◌==◌, none, some, List, [], ◌∷◌, String, str_eq, str_eq_iff, ℤ,
  if◌then◌else◌, get_or, length, ok, err, arith,
}
use xkit.GoMap
use xkit.GoMap.{GoMap, get-delete, get-put, get-empty}
use xkit.Semaphore.{
  permit_not_held, PermitEntry, no_entry, ResourcePermits, Permit, entry_at, set_entry, is_after,
  drop_from_tenant, remove_permit, release_locked, extend_locked,
}

-- Whether `Release` of a permit of this id finds it.
abbrev held : ResourcePermits → String → Bool
held rp id = elim (GoMap.get rp.global id) [ none ↦ false | some e ↦ true ]

abbrev pub listed_in : Option (GoMap ℕ) → String → Option ℕ
listed_in none id = none
listed_in (some permits) id = GoMap.get permits id

-- What a tenant's map lists under an id; the permits that it lists count towards the quota.
abbrev pub listed : GoMap (GoMap ℕ) → String → String → Option ℕ
listed tenants t id = listed_in (GoMap.get tenants t) id

get-left :
    (permits : GoMap ℕ) (id j : String)
    → (GoMap.size (GoMap.delete permits id) == 0) ≡ true
    → (if str_eq id j then none else GoMap.get permits j) ≡ none
get-left permits id j h =
    sym (get-delete permits id j) ∙ get-empty (GoMap.delete permits id) j (ground arith)

module _ (tenants : GoMap (GoMap ℕ)) (t id u j : String) where
  abbrev Dropped : GoMap (GoMap ℕ) → Type 0
  Dropped m = listed m u j ≡ (if str_eq t u && str_eq id j then none else listed tenants u j)

  -- What the tenant's map listed.
  found :
      (o : Option (GoMap ℕ))
      → GoMap.get tenants t ≡ o
      → str_eq t u ≡ true
      → listed tenants u j ≡ listed_in o j
  found o e same =
      ap (λ (v : String). listed tenants v j) (sym ((str_eq_iff t u).0 same))
      ∙ ap (λ (m : Option (GoMap ℕ)). listed_in m j) e

  Dropped-none : GoMap.get tenants t ≡ none → Dropped tenants
  Dropped-none e = elim (Bool-cases (str_eq t u)) [
    | inl same ↦ ground (arith, found none e same)
    | inr other ↦ rw other refl
  ]

  module _ (permits : GoMap ℕ) (e : GoMap.get tenants t ≡ some permits) where
    Dropped-all :
        (GoMap.size (GoMap.delete permits id) == 0) ≡ true → Dropped (GoMap.delete tenants t)
    Dropped-all h =
        ap (λ (m : Option (GoMap ℕ)). listed_in m j) (get-delete tenants t u)
        ∙ elim (Bool-cases (str_eq t u)) [
          | inl same ↦ rw (same, found (some permits) e same) (sym (get-left permits id j h))
          | inr other ↦ rw other refl
        ]

    Dropped-one : Dropped (GoMap.put tenants t (GoMap.delete permits id))
    Dropped-one =
        ap (λ (m : Option (GoMap ℕ)). listed_in m j) (get-put tenants t u (GoMap.delete permits id))
        ∙ elim (Bool-cases (str_eq t u)) [
          | inl same ↦ rw (same, found (some permits) e same) (get-delete permits id j)
          | inr other ↦ rw other refl
        ]

  dropped :
      (o : Option (GoMap ℕ)) → GoMap.get tenants t ≡ o → Dropped (drop_from_tenant tenants t id)
  unfolding drop_from_tenant
  dropped none e = rw (e, drop_from_tenant) (Dropped-none e)
  dropped (some permits) e =
      rw (e, drop_from_tenant)
        (if-elim Dropped (GoMap.size (GoMap.delete permits id) == 0) _ _ (Dropped-all permits e)
          (λ h. Dropped-one permits e))

abbrev pub counts : Permit → Bool
counts p = not (str_eq p.tenant_id "") && p.has_tenant_quota

-- What tenants' maps list without a permit, which they list if it has a tenant with a quota.
abbrev pub unlisted : Permit → GoMap (GoMap ℕ) → String → String → Option ℕ
unlisted p tenants u j =
    if counts p
    then (if str_eq p.tenant_id u && str_eq p.id j then none else listed tenants u j)
    else listed tenants u j

listed-if :
    (b : Bool) (m n : GoMap (GoMap ℕ)) (u j : String) (x y : Option ℕ)
    → listed m u j ≡ x
    → listed n u j ≡ y
    → listed (if b then m else n) u j ≡ (if b then x else y)
listed-if true m n u j x y h k = h
listed-if false m n u j x y h k = k

remove_permit-unlisted :
    (p : Permit) (rp : ResourcePermits) (u j : String)
    → listed (remove_permit p rp).tenants u j ≡ unlisted p rp.tenants u j
unfolding remove_permit
remove_permit-unlisted p rp u j =
    listed-if (counts p) (drop_from_tenant rp.tenants p.tenant_id p.id) rp.tenants u j _ _
      (dropped rp.tenants p.tenant_id p.id u j (GoMap.get rp.tenants p.tenant_id) refl) refl

remove_permit-get :
    (p : Permit) (rp : ResourcePermits) (j : String)
    → GoMap.get (remove_permit p rp).global j
      ≡ (if str_eq p.id j then none else GoMap.get rp.global j)
unfolding remove_permit
remove_permit-get p rp j = get-delete rp.global p.id j

remove_permit-heap : (p : Permit) (rp : ResourcePermits) → (remove_permit p rp).heap ≡ rp.heap
unfolding remove_permit
remove_permit-heap p rp = refl

release_locked-absent :
    (p : Permit) (rp : ResourcePermits)
    → GoMap.get rp.global p.id ≡ none
    → release_locked p rp ≡ (err permit_not_held, rp)
unfolding release_locked
release_locked-absent p rp e = rw (e, release_locked)

release_locked-found :
    (p : Permit) (rp : ResourcePermits) (e : ℕ)
    → GoMap.get rp.global p.id ≡ some e
    → release_locked p rp ≡ (ok tt, remove_permit p rp)
unfolding release_locked
release_locked-found p rp e h = rw (h, release_locked)

absent_get :
    (p : Permit) (rp : ResourcePermits) (j : String)
    → GoMap.get rp.global p.id ≡ none
    → GoMap.get rp.global j ≡ (if str_eq p.id j then none else GoMap.get rp.global j)
absent_get p rp j e = elim (Bool-cases (str_eq p.id j)) [
  | inl same ↦ rw same (ap (GoMap.get rp.global) (sym ((str_eq_iff p.id j).0 same)) ∙ e)
  | inr other ↦ rw other refl
]

-- A release succeeds exactly if the permit is held. Afterwards that permit is gone from the map of
-- permits and, if it has a tenant with a quota, from that tenant's map; every other permit is in both
-- as it was, and no entry has changed. A release that fails leaves the tenants' maps as they were.
pub release_locked-get :
    (p : Permit) (rp : ResourcePermits) (u j : String)
    → ((release_locked p rp).0 ≡ (if held rp p.id then ok tt else err permit_not_held))
      × (GoMap.get (release_locked p rp).1.global j
          ≡ (if str_eq p.id j then none else GoMap.get rp.global j))
      × (listed (release_locked p rp).1.tenants u j
          ≡ (if held rp p.id then unlisted p rp.tenants u j else listed rp.tenants u j))
      × ((release_locked p rp).1.heap ≡ rp.heap)
release_locked-get p rp u j = elim (Option-cases (GoMap.get rp.global p.id)) [
  | inl e ↦
      rw (release_locked-absent p rp e)
        (rw (e, held) refl, absent_get p rp j e, rw (e, held) refl, refl)
  | inr (place, e) ↦ rw (release_locked-found p rp place e) (
    rw (e, held) refl,
    remove_permit-get p rp j,
    rw (e, held) (remove_permit-unlisted p rp u j),
    remove_permit-heap p rp,
  )
]

-- A second release of a permit fails and changes nothing.
pub release_locked_twice :
    (p : Permit) (rp : ResourcePermits)
    → release_locked p (release_locked p rp).1 ≡ (err permit_not_held, (release_locked p rp).1)
release_locked_twice p rp =
    release_locked-absent p (release_locked p rp).1
      (ground (arith, release_locked-get p rp p.id p.id, str_eq_iff p.id p.id))

get_or-set_entry :
    (xs : List PermitEntry) (i j : ℕ) (e d : PermitEntry)
    → i < length xs
    → get_or (set_entry xs i e) j d ≡ (if i == j then e else get_or xs j d)
get_or-set_entry [] i j e d h = absurd (omega arith)
get_or-set_entry (x ∷ xs) zero zero e d h = ground arith
get_or-set_entry (x ∷ xs) zero (suc j) e d h = ground arith
get_or-set_entry (x ∷ xs) (suc i) zero e d h = ground arith
get_or-set_entry (x ∷ xs) (suc i) (suc j) e d h = ground (arith, get_or-set_entry xs i j e d)

extend_locked-held :
    (now until : ℤ) (p : Permit) (rp : ResourcePermits) (e : ℕ)
    → GoMap.get rp.global p.id ≡ some e
    → extend_locked now until p rp ≡ (
        if not (is_after (entry_at rp e).expires_at now)
        then (err permit_not_held, remove_permit p rp)
        else (
          ok tt,
          record rp { heap = set_entry rp.heap e (record (entry_at rp e) { expires_at = until }) },
        ))
unfolding extend_locked
extend_locked-held now until p rp e h = rw (h, extend_locked) refl

-- Of a permit that is held, with its entry at a place `e` of the heap: if it is active at `now` the extension
-- succeeds, moves the instant in that entry, through which both maps see it, and leaves all other
-- entries and both maps as they were; if it has expired the extension fails, takes the permit out of
-- the map of permits and, if it has a tenant with a quota, of that tenant's map, leaves the other
-- permits in both and changes no entry.
pub extend_locked_lem :
    (now until : ℤ) (p : Permit) (rp : ResourcePermits) (e q : ℕ) (u j : String)
    → GoMap.get rp.global p.id ≡ some e
    → e < length rp.heap
    → let active = is_after (entry_at rp e).expires_at now in
      let (result, rp') = extend_locked now until p rp in
      (result ≡ (if active then ok tt else err permit_not_held))
      × (entry_at rp' q ≡ (
          if active && e == q
          then record (entry_at rp e) { expires_at = until }
          else entry_at rp q))
      × (GoMap.get rp'.global j
          ≡ (if not active && str_eq p.id j then none else GoMap.get rp.global j))
      × (listed rp'.tenants u j
          ≡ (if active then listed rp.tenants u j else unlisted p rp.tenants u j))
extend_locked_lem now until p rp e q u j held lt =
    let entry = entry_at rp e in
    let moved = record entry { expires_at = until } in
    rw (extend_locked-held now until p rp e held)
      (elim (Bool-cases (is_after entry.expires_at now)) [
        | inl active ↦ rw active (refl, get_or-set_entry rp.heap e q moved no_entry lt, refl, refl)
        | inr expired ↦ rw expired (
          refl,
          ap (λ (h : List PermitEntry). get_or h q no_entry) (remove_permit-heap p rp),
          remove_permit-get p rp j,
          remove_permit-unlisted p rp u j,
        )
      ])
