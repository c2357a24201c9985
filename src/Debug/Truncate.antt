-- ===== src/Debug/Truncate.antt =====
-- protocol_codec.go: TruncateUTF8 and TruncateOutput, against the longest run of whole characters that
-- fits. A text is a list of characters, each a byte that starts one and bytes that do not.
use xkit.Prelude.{
  ℕ, zero, suc, ◌+◌, ◌-◌, ◌<◌, ◌≤◌, ◌≡◌, ◌==◌, not, bit_and, inl, inr, refl, ap, ◌∙◌, sym, Bool,
  true, false, leb, Option, none, some, List, [], ◌∷◌, ◌++◌, ℤ, pos, negsuc, length, get_or, take,
  All, Bool-cases, if◌then◌else◌, arith, length-append, take-append, append_assoc, concat,
}
use xkit.Debug.{Bytes, Response, new_success_response, new_truncated_response}

-- utf8.RuneStart
abbrev pub rune_start : ℕ → Bool
rune_start b = not (bit_and b 192 == 128)

-- The loop of `TruncateUTF8`: down to the start of a character.
unfoldable pub cut_back : Bytes → ℕ → ℕ
cut_back s zero = zero
cut_back s (suc n) =
    let below = cut_back s n in if rune_start (get_or s (suc n) 0) then suc n else below

-- `TruncateUTF8` to a size that is not negative, and to any: a slice to a negative index would panic,
-- and gives no result here.
unfoldable pub truncate_to : Bytes → ℕ → Bytes
unfolding cut_back
truncate_to s n = if leb (length s) n then s else take (cut_back s n) s

unfoldable pub truncate_utf8 : Bytes → ℤ → Option Bytes
unfolding truncate_to
truncate_utf8 s (pos n) = some (truncate_to s n)
truncate_utf8 s (negsuc n) = none

-- `TruncateOutput`, in the same way.
unfoldable pub output_response : Bytes → ℕ → Response
unfolding truncate_to
output_response output n =
    if leb (length output) n
    then new_success_response output
    else new_truncated_response (truncate_to output n) (length output)

unfoldable pub truncate_output : Bytes → ℤ → Option Response
unfolding output_response
truncate_output output (pos n) = some (output_response output n)
truncate_output output (negsuc n) = none

-- A character.
pub data IsChar : Bytes → Type 0 where
  char :
      {b : ℕ} {bs : Bytes}
      → rune_start b ≡ true
      → All (λ (c : ℕ). rune_start c ≡ false) bs
      → IsChar (b ∷ bs)

-- The characters at the front that fit in a number of bytes.
unfoldable pub fit : ℕ → List Bytes → List Bytes
fit room [] = []
fit room (c ∷ cs) =
    let others = fit (room - length c) cs in if leb (length c) room then c ∷ others else []

get_or-beyond :
    (xs ys : Bytes) (i j : ℕ) → j ≡ length xs + i → get_or (xs ++ ys) j 0 ≡ get_or ys i 0
get_or-beyond [] ys i j e = ap (λ (k : ℕ). get_or ys k 0) (omega arith)
get_or-beyond (x ∷ xs) ys i zero e = absurd (omega arith)
get_or-beyond (x ∷ xs) ys i (suc j) e = get_or-beyond xs ys i j (omega arith)

inner :
    (bs ys : Bytes) (i : ℕ)
    → All (λ (c : ℕ). rune_start c ≡ false) bs
    → i < length bs
    → rune_start (get_or (bs ++ ys) i 0) ≡ false
inner [] ys i all h = absurd (omega arith)
inner (b ∷ bs) ys zero (first, all) h = first
inner (b ∷ bs) ys (suc i) (first, all) h = inner bs ys i all (omega arith)

-- Within a character there is no other start.
cut_back-inside :
    (b : ℕ) (bs ys : Bytes) (n : ℕ)
    → All (λ (c : ℕ). rune_start c ≡ false) bs
    → n ≤ length bs
    → cut_back (b ∷ bs ++ ys) n ≡ 0
unfolding cut_back
cut_back-inside b bs ys zero all h = refl
cut_back-inside b bs ys (suc n) all h =
    rw (inner bs ys n all (omega arith)) (cut_back-inside b bs ys n all (omega arith))

-- Beyond a character the search is one in the rest, which starts a character.
cut_back-beyond :
    (c : ℕ) (cs : Bytes) (b : ℕ) (ys : Bytes) (n m : ℕ)
    → rune_start b ≡ true
    → m ≡ suc (length cs) + n
    → cut_back (c ∷ cs ++ b ∷ ys) m ≡ suc (length cs) + cut_back (b ∷ ys) n
unfolding cut_back
cut_back-beyond c cs b ys n zero start e = absurd (omega arith)
cut_back-beyond c cs b ys zero (suc m) start e =
    rw (get_or-beyond cs (b ∷ ys) 0 m (omega arith), start) (omega arith)
cut_back-beyond c cs b ys (suc n) (suc m) start e =
    rw (get_or-beyond cs (b ∷ ys) (suc n) m (omega arith))
      (elim (Bool-cases (rune_start (get_or ys n 0))) [
        | inl stop ↦ rw stop (omega arith)
        | inr go ↦ rw go (cut_back-beyond c cs b ys n m start (omega arith))
      ])

fit-prefix : (n : ℕ) (cs : List Bytes) → (rest : Bytes) × (concat cs ≡ concat (fit n cs) ++ rest)
unfolding fit
fit-prefix n [] = ([], refl)
fit-prefix n (c ∷ cs) = elim (Bool-cases (leb (length c) n)) [
  | inl fits ↦
      let (rest, e) = fit-prefix (n - length c) cs in
      (rest, rw (fits, e) (sym (append_assoc c (concat (fit (n - length c) cs)) rest)))
  | inr full ↦ (concat (c ∷ cs), rw full refl)
]

fit-length : (n : ℕ) (cs : List Bytes) → length (concat (fit n cs)) ≤ n
unfolding fit
fit-length n [] = omega arith
fit-length n (c ∷ cs) =
    ground (arith, length-append c (concat (fit (n - length c) cs)), fit-length (n - length c) cs)

fit-whole : (n : ℕ) (cs : List Bytes) → length (concat cs) ≤ n → fit n cs ≡ cs
unfolding fit
fit-whole n [] h = refl
fit-whole n (c ∷ cs) h = ground (
  arith,
  length-append c (concat cs),
  fit-whole (n - length c) cs (omega (arith, length-append c (concat cs))),
)

concat-start :
    (cs : List Bytes)
    → All IsChar cs
    → 0 < length (concat cs)
    → (b : ℕ) × (ys : Bytes) × (concat cs ≡ b ∷ ys) × (rune_start b ≡ true)
concat-start [] chars h = absurd (omega arith)
concat-start (c ∷ cs) (char {b} {bs} start inside, chars) h = (b, bs ++ concat cs, refl, start)

-- The two cases of a character at the front: it fits, or the cut is within it.
fit-fits :
    (c : Bytes) (cs : List Bytes) (n : ℕ)
    → leb (length c) n ≡ true
    → fit n (c ∷ cs) ≡ c ∷ fit (n - length c) cs
unfolding fit
fit-fits c cs n h = rw h refl

fit-full : (c : Bytes) (cs : List Bytes) (n : ℕ) → leb (length c) n ≡ false → fit n (c ∷ cs) ≡ []
unfolding fit
fit-full c cs n h = rw h refl

cut_back-fit :
    (cs : List Bytes) (n : ℕ)
    → All IsChar cs
    → n < length (concat cs)
    → cut_back (concat cs) n ≡ length (concat (fit n cs))
cut_back-fit [] n chars h = absurd (omega arith)
cut_back-fit (c ∷ cs) n (char {b} {bs} start inside, chars) h =
    elim (Bool-cases (leb (length (b ∷ bs)) n)) [
      | inl fits ↦
          let k = n - length (b ∷ bs) in
          let size = length-append (b ∷ bs) (concat cs) in
          let (d, ys, e, starts) = concat-start cs chars (ground (arith, size)) in
          rw (fit-fits (b ∷ bs) cs n fits) (
            ap (λ (s : Bytes). cut_back (b ∷ bs ++ s) n) e
            ∙ omega (
              arith,
              cut_back-beyond b bs d ys k n starts (ground arith),
              ap (λ (s : Bytes). cut_back s k) e,
              cut_back-fit cs k chars (ground (arith, size)),
              length-append (b ∷ bs) (concat (fit k cs)),
            ))
      | inr full ↦
          rw (fit-full (b ∷ bs) cs n full)
            (cut_back-inside b bs (concat cs) n inside (ground arith))
    ]

take-cut_back :
    (cs : List Bytes) (n : ℕ)
    → All IsChar cs
    → n < length (concat cs)
    → take (cut_back (concat cs) n) (concat cs) ≡ concat (fit n cs)
take-cut_back cs n chars h =
    let (rest, e) = fit-prefix n cs in
    ap (λ (k : ℕ). take k (concat cs)) (cut_back-fit cs n chars h)
    ∙ ap (take (length (concat (fit n cs)))) e
    ∙ take-append (concat (fit n cs)) rest

-- The text of an answer is cut to the longest run of its characters that fits, which is marked, with
-- the size that it had; one that fits is sent as it is.
pub truncate_output-fit :
    (cs : List Bytes) (n : ℕ)
    → All IsChar cs
    → truncate_output (concat cs) (pos n)
      ≡ some (
          if leb (length (concat cs)) n
          then new_success_response (concat cs)
          else new_truncated_response (concat (fit n cs)) (length (concat cs)))
unfolding truncate_output output_response
truncate_output-fit cs n chars = elim (Bool-cases (leb (length (concat cs)) n)) [
  | inl fits ↦ rw fits refl
  | inr long ↦ rw (long, truncate_to, take-cut_back cs n chars (ground arith)) refl
]
