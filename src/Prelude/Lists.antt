-- ===== src/Prelude/Lists.antt =====
-- Lists measured and indexed by native numbers, under the library's names.
use Prim.Native.Nat.{ℕ, zero, suc, ◌+◌, ◌≤◌, ◌<◌}
use mathlib.Core.Path.{◌≡◌, refl, ap}
use mathlib.Core.Logic.{◌≢◌, inl, inr}
use mathlib.Core.List.{List, [], ◌∷◌, ◌++◌}
use mathlib.Core.Option.{Option, none, some}
use xkit.Prelude.Tests.{◌==◌, if◌then◌else◌, Bool-cases}
use native.Mathlib.Omega.{arith}

module _ {ℓ} {A : Type ℓ} where
  abbrev pub length : List A → ℕ
  length [] = 0
  length (x ∷ xs) = suc (length xs)

  abbrev pub get_or : List A → ℕ → A → A
  get_or [] i d = d
  get_or (x ∷ xs) zero d = x
  get_or (x ∷ xs) (suc i) d = get_or xs i d

  abbrev pub get_elem? : List A → ℕ → Option A
  get_elem? [] i = none
  get_elem? (x ∷ xs) zero = some x
  get_elem? (x ∷ xs) (suc i) = get_elem? xs i

  -- A write out of bounds changes nothing.
  abbrev pub set : List A → ℕ → A → List A
  set [] i v = []
  set (x ∷ xs) zero v = v ∷ xs
  set (x ∷ xs) (suc i) v = x ∷ set xs i v

  abbrev pub take : ℕ → List A → List A
  take zero xs = []
  take (suc n) [] = []
  take (suc n) (x ∷ xs) = x ∷ take n xs

  abbrev pub drop : ℕ → List A → List A
  drop zero xs = xs
  drop (suc n) [] = []
  drop (suc n) (x ∷ xs) = drop n xs

  pub take-append : (xs ys : List A) → take (length xs) (xs ++ ys) ≡ xs
  take-append [] ys = refl
  take-append (x ∷ xs) ys = ap (λ (zs : List A). x ∷ zs) (take-append xs ys)

  pub drop-append : (xs ys : List A) → drop (length xs) (xs ++ ys) ≡ ys
  drop-append [] ys = refl
  drop-append (x ∷ xs) ys = drop-append xs ys

  pub take-past :
      (xs ys : List A) (i j : ℕ) → j ≡ length xs + i → take j (xs ++ ys) ≡ xs ++ take i ys
  take-past [] ys i j e = ap (λ (k : ℕ). take k ys) (omega arith)
  take-past (x ∷ xs) ys i zero e = absurd (omega arith)
  take-past (x ∷ xs) ys i (suc j) e =
      ap (λ (zs : List A). x ∷ zs) (take-past xs ys i j (omega arith))

  pub length-take : (n : ℕ) (xs : List A) → n ≤ length xs → length (take n xs) ≡ n
  length-take zero xs h = refl
  length-take (suc n) [] h = absurd (omega arith)
  length-take (suc n) (x ∷ xs) h = omega (arith, length-take n xs (omega arith))

  abbrev pub concat : List (List A) → List A
  concat [] = []
  concat (xs ∷ rest) = xs ++ concat rest

  pub append_nil : (xs : List A) → xs ++ [] ≡ xs
  append_nil [] = refl
  append_nil (x ∷ xs) = ap (λ (ys : List A). x ∷ ys) (append_nil xs)

  pub append_assoc : (xs ys zs : List A) → (xs ++ ys) ++ zs ≡ xs ++ (ys ++ zs)
  append_assoc [] ys zs = refl
  append_assoc (x ∷ xs) ys zs = ap (λ (ws : List A). x ∷ ws) (append_assoc xs ys zs)

  pub length-append : (xs ys : List A) → length (xs ++ ys) ≡ length xs + length ys
  length-append [] ys = omega arith
  length-append (x ∷ xs) ys = omega (arith, length-append xs ys)

  pub length-set : (xs : List A) (i : ℕ) (v : A) → length (set xs i v) ≡ length xs
  length-set [] i v = refl
  length-set (x ∷ xs) zero v = refl
  length-set (x ∷ xs) (suc i) v = omega (arith, length-set xs i v)

  pub get_or-set :
      (xs : List A) (i j : ℕ) (v d : A)
      → i < length xs
      → get_or (set xs i v) j d ≡ (if i == j then v else get_or xs j d)
  get_or-set [] i j v d h = absurd (omega arith)
  get_or-set (x ∷ xs) zero zero v d h = ground arith
  get_or-set (x ∷ xs) zero (suc j) v d h = ground arith
  get_or-set (x ∷ xs) (suc i) zero v d h = ground arith
  get_or-set (x ∷ xs) (suc i) (suc j) v d h = ground (arith, get_or-set xs i j v d)

  pub get_elem?-set :
      (xs : List A) (i j : ℕ) (v : A)
      → i < length xs
      → get_elem? (set xs i v) j ≡ (if i == j then some v else get_elem? xs j)
  get_elem?-set [] i j v h = absurd (omega arith)
  get_elem?-set (x ∷ xs) zero zero v h = ground arith
  get_elem?-set (x ∷ xs) zero (suc j) v h = ground arith
  get_elem?-set (x ∷ xs) (suc i) zero v h = ground arith
  get_elem?-set (x ∷ xs) (suc i) (suc j) v h = ground (arith, get_elem?-set xs i j v)

  pub get_elem?-lt : (xs : List A) (i : ℕ) (v : A) → get_elem? xs i ≡ some v → i < length xs
  get_elem?-lt [] i v e = absurd (cc)
  get_elem?-lt (x ∷ xs) zero v e = omega arith
  get_elem?-lt (x ∷ xs) (suc i) v e = omega (arith, get_elem?-lt xs i v e)

  pub get_or-append :
      (xs : List A) (x d : A) (j : ℕ)
      → get_or (xs ++ x ∷ []) j d ≡ (if length xs == j then x else get_or xs j d)
  get_or-append [] x d zero = ground arith
  get_or-append [] x d (suc j) = ground arith
  get_or-append (y ∷ xs) x d zero = ground arith
  get_or-append (y ∷ xs) x d (suc j) = ground (arith, get_or-append xs x d j)

  pub get_or-length : (xs : List A) (d : A) → get_or xs (length xs) d ≡ d
  get_or-length [] d = refl
  get_or-length (x ∷ xs) d = get_or-length xs d

  pub get_elem?-append :
      (xs : List A) (x : A) (j : ℕ)
      → get_elem? (xs ++ x ∷ []) j ≡ (if length xs == j then some x else get_elem? xs j)
  get_elem?-append [] x zero = ground arith
  get_elem?-append [] x (suc j) = ground arith
  get_elem?-append (y ∷ xs) x zero = ground arith
  get_elem?-append (y ∷ xs) x (suc j) = ground (arith, get_elem?-append xs x j)

  -- Weights of the elements, added up.
  unfoldable pub total : (A → ℕ) → List A → ℕ
  total w [] = 0
  total w (x ∷ xs) = w x + total w xs

  pub total-append : (w : A → ℕ) (xs : List A) (x : A) → total w (xs ++ x ∷ []) ≡ total w xs + w x
  unfolding total
  total-append w [] x = omega arith
  total-append w (y ∷ xs) x = omega (arith, total-append w xs x)

  pub total-join : (w : A → ℕ) (xs ys : List A) → total w (xs ++ ys) ≡ total w xs + total w ys
  unfolding total
  total-join w [] ys = omega arith
  total-join w (x ∷ xs) ys = omega (arith, total-join w xs ys)

  pub total-set :
      (w : A → ℕ) (xs : List A) (i : ℕ) (old new : A)
      → get_elem? xs i ≡ some old
      → total w (set xs i new) + w old ≡ total w xs + w new
  unfolding total
  total-set w [] i old new e = absurd (cc)
  total-set w (x ∷ xs) zero old new e = ground arith
  total-set w (x ∷ xs) (suc i) old new e = omega (arith, total-set w xs i old new e)

  pub total-get :
      (w : A → ℕ) (xs : List A) (i : ℕ) (x : A) → get_elem? xs i ≡ some x → w x ≤ total w xs
  unfolding total
  total-get w [] i x e = absurd (cc)
  total-get w (y ∷ xs) zero x e = ground arith
  total-get w (y ∷ xs) (suc i) x e = omega (arith, total-get w xs i x e)

  pub total-get-get :
      (w : A → ℕ) (xs : List A) (i j : ℕ) (x y : A)
      → get_elem? xs i ≡ some x
      → get_elem? xs j ≡ some y
      → i ≢ j
      → w x + w y ≤ total w xs
  unfolding total
  total-get-get w [] i j x y e f n = absurd (cc)
  total-get-get w (z ∷ xs) zero zero x y e f n = absurd (n refl)
  total-get-get w (z ∷ xs) zero (suc j) x y e f n = ground (arith, total-get w xs j y f)
  total-get-get w (z ∷ xs) (suc i) zero x y e f n = ground (arith, total-get w xs i x e)
  total-get-get w (z ∷ xs) (suc i) (suc j) x y e f n =
      omega (arith, total-get-get w xs i j x y e f (λ (q : i ≡ j). n (ap suc q)))

  -- A total that is not 0 has an element of weight.
  pub total-positive :
      (w : A → ℕ) (xs : List A)
      → 0 < total w xs
      → (i : ℕ) × (x : A) × (get_elem? xs i ≡ some x) × (0 < w x)
  unfolding total
  total-positive w [] h = absurd (omega arith)
  total-positive w (x ∷ xs) h = elim (Bool-cases (w x == 0)) [
    | inl nothing ↦ let (i, y, e, p) = total-positive w xs (ground arith) in (suc i, y, e, p)
    | inr some_weight ↦ (zero, x, refl, ground arith)
  ]

-- A predicate at every element: it computes to a tuple, which the tactics read and build.
abbrev pub All {ℓ κ} : {A : Type ℓ} → (A → Type κ) → List A → Type κ
All P [] = Unit
All P (x ∷ xs) = P x × All P xs
