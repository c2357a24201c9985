-- ===== src/Mac/Parse/Trim.antt =====
-- `strings.TrimSpace` on the bytes of a text: the UTF-8 encodings of the runes that `unicode.IsSpace`
-- accepts are dropped at both ends.
use mathlib.Core.List.{reverse-reverse}
use xkit.Prelude.{
  ℕ, zero, suc, ◌≤◌, ◌≡◌, ◌≢◌, refl, Option, none, some, List, [], ◌∷◌, map, reverse, length, ◌==◌,
  if◌then◌else◌, arith, All,
}

abbrev pub spaces : List (List ℕ)
spaces =
    (0x09 ∷ [])
    ∷ (0x0a ∷ [])
    ∷ (0x0b ∷ [])
    ∷ (0x0c ∷ [])
    ∷ (0x0d ∷ [])
    ∷ (0x20 ∷ [])
    ∷ (0xc2 ∷ 0x85 ∷ [])
    ∷ (0xc2 ∷ 0xa0 ∷ [])
    ∷ (0xe1 ∷ 0x9a ∷ 0x80 ∷ [])
    ∷ (0xe2 ∷ 0x80 ∷ 0x80 ∷ [])
    ∷ (0xe2 ∷ 0x80 ∷ 0x81 ∷ [])
    ∷ (0xe2 ∷ 0x80 ∷ 0x82 ∷ [])
    ∷ (0xe2 ∷ 0x80 ∷ 0x83 ∷ [])
    ∷ (0xe2 ∷ 0x80 ∷ 0x84 ∷ [])
    ∷ (0xe2 ∷ 0x80 ∷ 0x85 ∷ [])
    ∷ (0xe2 ∷ 0x80 ∷ 0x86 ∷ [])
    ∷ (0xe2 ∷ 0x80 ∷ 0x87 ∷ [])
    ∷ (0xe2 ∷ 0x80 ∷ 0x88 ∷ [])
    ∷ (0xe2 ∷ 0x80 ∷ 0x89 ∷ [])
    ∷ (0xe2 ∷ 0x80 ∷ 0x8a ∷ [])
    ∷ (0xe2 ∷ 0x80 ∷ 0xa8 ∷ [])
    ∷ (0xe2 ∷ 0x80 ∷ 0xa9 ∷ [])
    ∷ (0xe2 ∷ 0x80 ∷ 0xaf ∷ [])
    ∷ (0xe2 ∷ 0x81 ∷ 0x9f ∷ [])
    ∷ (0xe3 ∷ 0x80 ∷ 0x80 ∷ [])
    ∷ []

drop_prefix : List ℕ → List ℕ → Option (List ℕ)
drop_prefix [] s = some s
drop_prefix (p ∷ ps) [] = none
drop_prefix (p ∷ ps) (c ∷ s) = if p == c then drop_prefix ps s else none

-- The text behind the first of the prefixes that fits.
drop_one : List (List ℕ) → List ℕ → Option (List ℕ)
drop_one [] s = none
drop_one (p ∷ ps) s = elim (drop_prefix p s) [ none ↦ drop_one ps s | some rest ↦ some rest ]

trim_left : List (List ℕ) → ℕ → List ℕ → List ℕ
trim_left ps zero s = s
trim_left ps (suc fuel) s = elim (drop_one ps s) [ none ↦ s | some rest ↦ trim_left ps fuel rest ]

-- Each round drops a byte or more, so the length of the text is fuel enough.
unfoldable pub trim_space : List ℕ → List ℕ
unfolding drop_prefix drop_one trim_left
trim_space s =
    let left = trim_left spaces (length s) s in
    reverse (trim_left (map reverse spaces) (length left) (reverse left))

-- A byte of ASCII punctuation, digits or letters up to `f`, at which no white space begins or ends.
abbrev pub IsPlain : ℕ → Type 0
IsPlain c = (48 ≤ c) × (c ≤ 102)

abbrev pub BeginsPlain : List ℕ → Type 0
BeginsPlain [] = ⊥
BeginsPlain (c ∷ s) = IsPlain c

abbrev BeginsOther : ℕ → List ℕ → Type 0
BeginsOther c [] = ⊥
BeginsOther c (p ∷ ps) = p ≢ c

drop_prefix-none : (c : ℕ) (s p : List ℕ) → BeginsOther c p → drop_prefix p (c ∷ s) ≡ none
unfolding drop_prefix
drop_prefix-none c s [] h = absurd h
drop_prefix-none c s (p ∷ ps) h = ground arith

drop_one-none :
    (c : ℕ) (s : List ℕ) (ps : List (List ℕ)) → All (BeginsOther c) ps → drop_one ps (c ∷ s) ≡ none
unfolding drop_one
drop_one-none c s [] h = refl
drop_one-none c s (p ∷ ps) h = rw (drop_prefix-none c s p h.0, drop_one) (drop_one-none c s ps h.1)

trim_left-plain :
    (ps : List (List ℕ)) (fuel : ℕ) (s : List ℕ)
    → ((c : ℕ) → IsPlain c → All (BeginsOther c) ps)
    → BeginsPlain s
    → trim_left ps fuel s ≡ s
unfolding trim_left
trim_left-plain ps zero s apart h = refl
trim_left-plain ps (suc fuel) [] apart h = absurd h
trim_left-plain ps (suc fuel) (c ∷ s) apart h = rw (drop_one-none c s ps (apart c h), trim_left)

-- A text that begins and ends with such a byte is left as it is.
pub trim_space-plain : (s : List ℕ) → BeginsPlain s → BeginsPlain (reverse s) → trim_space s ≡ s
unfolding trim_space
trim_space-plain s h k = rw (trim_left-plain spaces (length s) s (λ c p. omega arith) h) (
    rw (trim_left-plain (map reverse spaces) (length s) (reverse s) (λ c p. omega arith) k)
      (reverse-reverse s))
