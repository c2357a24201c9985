-- ===== src/GoMap/Middle.antt =====
-- One entry of a map among the others.
use xkit.Prelude.{◌≡◌, refl, none, List, [], ◌∷◌, ◌++◌, String, str_eq_iff, arith}
use xkit.GoMap.{Unique, lookup, without, without-absent, without-append}

module _ {ℓ} {V : Type ℓ} where
  lookup-append_none :
      (k : String) (l r : List (String × V))
      → lookup k (l ++ r) ≡ none
      → (lookup k l ≡ none) × (lookup k r ≡ none)
  unfolding lookup
  lookup-append_none k [] r h = (refl, h)
  lookup-append_none k ((j, v) ∷ l) r h = ground (arith, lookup-append_none k l r)

  none-lookup-append :
      (k : String) (l r : List (String × V))
      → lookup k l ≡ none
      → lookup k r ≡ none
      → lookup k (l ++ r) ≡ none
  unfolding lookup
  none-lookup-append k [] r h e = e
  none-lookup-append k ((j, v) ∷ l) r h e = ground (arith, none-lookup-append k l r)

  -- A key in the middle of a map stands nowhere else in it.
  pub Unique-middle :
      (l r : List (String × V)) (k : String) (v : V)
      → Unique (l ++ (k, v) ∷ r)
      → (lookup k l ≡ none) × (lookup k r ≡ none) × Unique (l ++ r)
  unfolding lookup
  Unique-middle [] r k v h = (refl, h.0, h.1)
  Unique-middle ((j, w) ∷ l) r k v h =
      let (absent_l, absent_r, rest) = Unique-middle l r k v h.1 in
      let (j_l, j_r) = lookup-append_none j l ((k, v) ∷ r) h.0 in
      (
        ground (arith, str_eq_iff j k, str_eq_iff k j, absent_l, j_r),
        absent_r,
        (none-lookup-append j l r j_l (ground (arith, j_r)), rest),
      )

  -- Deleting that key leaves the others in place.
  pub without-middle :
      (l r : List (String × V)) (k : String) (v : V)
      → Unique (l ++ (k, v) ∷ r)
      → without k (l ++ (k, v) ∷ r) ≡ l ++ r
  without-middle l r k v h =
      let (absent_l, absent_r, rest) = Unique-middle l r k v h in
      rw without-append (
        rw (without-absent k l absent_l)
          (unfold without in ground (arith, str_eq_iff k k, without-absent k r absent_r)))
