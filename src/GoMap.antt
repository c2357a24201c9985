-- ===== src/GoMap.antt =====
-- Go's `map[string]V` as a list of its entries. Iteration visits the entries in the list's order;
-- no theorem here depends on that order.
pub mod Middle
use xkit.Prelude.{
  ℕ, zero, suc, ◌+◌, ◌≤◌, ◌≡◌, ◌≢◌, refl, ap, Bool, true, false, Option, none, some, List, [], ◌∷◌,
  ◌++◌, String, str_eq, str_eq_iff, if◌then◌else◌, length, arith, Bool-cases, inl, inr,
}

pub record GoMap {ℓ} (V : Type ℓ) : Type ℓ where
  pub entries : List (String × V)

module _ {ℓ} {V : Type ℓ} where
  unfoldable pub lookup : String → List (String × V) → Option V
  lookup k [] = none
  lookup k ((j, v) ∷ rest) = if str_eq j k then some v else lookup k rest

  pub without : String → List (String × V) → List (String × V)
  without k [] = []
  without k ((j, v) ∷ rest) =
      let kept = without k rest in if str_eq j k then kept else (j, v) ∷ kept

  -- make(map[string]V)
  abbrev pub make : GoMap V
  make = record { entries = [] }

  -- v, ok := m[k]
  unfoldable pub get : GoMap V → String → Option V
  unfolding lookup
  get m k = lookup k m.entries

  -- delete(m, k)
  unfoldable pub delete : GoMap V → String → GoMap V
  unfolding without
  delete m k = record { entries = without k m.entries }

  -- m[k] = v
  unfoldable pub put : GoMap V → String → V → GoMap V
  unfolding without
  put m k v = record { entries = (k, v) ∷ without k m.entries }

  -- len(m)
  unfoldable pub size : GoMap V → ℕ
  size m = length m.entries

  lookup-without :
      (k j : String) (l : List (String × V))
      → lookup j (without k l) ≡ (if str_eq k j then none else lookup j l)
  unfolding lookup without
  lookup-without k j [] = ground arith
  lookup-without k j ((i, v) ∷ l) =
      ground (arith, lookup-without k j l, str_eq_iff i k, str_eq_iff i j, str_eq_iff k j)

  pub get-make : (k : String) → get make k ≡ none
  unfolding get
  get-make k = refl

  pub get-delete :
      (m : GoMap V) (k j : String) → get (delete m k) j ≡ (if str_eq k j then none else get m j)
  unfolding get delete
  get-delete m k j = lookup-without k j m.entries

  pub get-put :
      (m : GoMap V) (k j : String) (v : V)
      → get (put m k v) j ≡ (if str_eq k j then some v else get m j)
  unfolding get put
  get-put m k j v = ground (arith, lookup-without k j m.entries)

  lookup-empty : (k : String) (l : List (String × V)) → length l ≡ 0 → lookup k l ≡ none
  unfolding lookup
  lookup-empty k [] h = refl
  lookup-empty k ((j, v) ∷ l) h = absurd (omega arith)

  pub get-empty : (m : GoMap V) (k : String) → size m ≡ 0 → get m k ≡ none
  unfolding get size
  get-empty m k h = lookup-empty k m.entries h

  length-without-le : (k : String) (l : List (String × V)) → length (without k l) ≤ length l
  unfolding without
  length-without-le k [] = omega arith
  length-without-le k ((j, v) ∷ l) = ground (arith, length-without-le k l)

  pub size-delete-le : (m : GoMap V) (k : String) → size (delete m k) ≤ size m
  unfolding size delete
  size-delete-le m k = length-without-le k m.entries

  pub size-put-le : (m : GoMap V) (k : String) (v : V) → size (put m k v) ≤ size m + 1
  unfolding size put
  size-put-le m k v = omega (arith, length-without-le k m.entries)

  -- No key stands twice.
  abbrev pub Unique : List (String × V) → Type ℓ
  Unique [] = Unit
  Unique ((k, v) ∷ rest) = (lookup k rest ≡ none) × Unique rest

  without-Unique : (k : String) (l : List (String × V)) → Unique l → Unique (without k l)
  unfolding without
  without-Unique k [] h = tt
  without-Unique k ((j, v) ∷ l) h =
      ground (arith, without-Unique k l h.1, lookup-without k j l, str_eq_iff j k, str_eq_iff k j)

  lookup-without_self : (k : String) (l : List (String × V)) → lookup k (without k l) ≡ none
  lookup-without_self k l = ground (arith, lookup-without k k l, str_eq_iff k k)

  -- A key that is not there is not missed.
  pub without-absent : (k : String) (l : List (String × V)) → lookup k l ≡ none → without k l ≡ l
  unfolding without lookup
  without-absent k [] h = refl
  without-absent k ((j, v) ∷ l) h = ground (arith, without-absent k l)

  pub without-append :
      (k : String) (l r : List (String × V)) → without k (l ++ r) ≡ without k l ++ without k r
  unfolding without
  without-append k [] r = refl
  without-append k ((j, v) ∷ l) r = ground (arith, without-append k l r)

  pub delete-Unique : (m : GoMap V) (k : String) → Unique m.entries → Unique (delete m k).entries
  unfolding delete
  delete-Unique m k h = without-Unique k m.entries h

  pub put-Unique :
      (m : GoMap V) (k : String) (v : V) → Unique m.entries → Unique (put m k v).entries
  unfolding put
  put-Unique m k v h = (lookup-without_self k m.entries, without-Unique k m.entries h)

  map_entries : (V → V) → List (String × V) → List (String × V)
  map_entries f [] = []
  map_entries f ((k, v) ∷ rest) = (k, f v) ∷ map_entries f rest

  -- Every value of the map is replaced in place.
  unfoldable pub map_values : (V → V) → GoMap V → GoMap V
  unfolding map_entries
  map_values f m = record { entries = map_entries f m.entries }

  abbrev pub map_found : (V → V) → Option V → Option V
  map_found f none = none
  map_found f (some v) = some (f v)

  lookup-map_entries :
      (f : V → V) (k : String) (l : List (String × V))
      → lookup k (map_entries f l) ≡ map_found f (lookup k l)
  unfolding lookup map_entries
  lookup-map_entries f k [] = refl
  lookup-map_entries f k ((j, v) ∷ l) = ground (arith, lookup-map_entries f k l)

  pub get-map_values :
      (f : V → V) (m : GoMap V) (k : String) → get (map_values f m) k ≡ map_found f (get m k)
  unfolding get map_values
  get-map_values f m k = lookup-map_entries f k m.entries

  pub size-put_absent :
      (m : GoMap V) (k : String) (v : V) → get m k ≡ none → size (put m k v) ≡ size m + 1
  unfolding get put size
  size-put_absent m k v h = omega (arith, ap length (without-absent k m.entries h))

  length-without_present :
      (k : String) (v : V) (l : List (String × V))
      → Unique l
      → lookup k l ≡ some v
      → length (without k l) + 1 ≡ length l
  unfolding lookup without
  length-without_present k v [] u h = absurd (cc)
  length-without_present k v ((j, w) ∷ l) u h = elim (Bool-cases (str_eq j k)) [
    | inl same ↦
        let e : lookup k l ≡ none = rw (← (str_eq_iff j k).0 same) u.0 in
        rw same (omega (arith, ap length (without-absent k l e)))
    | inr other ↦ rw other (omega (arith, length-without_present k v l u.1 (ground arith)))
  ]

  pub size-delete_present :
      (m : GoMap V) (k : String) (v : V)
      → Unique m.entries
      → get m k ≡ some v
      → size (delete m k) + 1 ≡ size m
  unfolding get delete size
  size-delete_present m k v u h = length-without_present k v m.entries u h
