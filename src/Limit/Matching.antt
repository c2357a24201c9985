-- ===== src/Limit/Matching.antt =====
-- wildcardMatch decides the matching relation of wildcards.
use xkit.Prelude.{
  ℕ, suc, ◌≡◌, ◌≢◌, ◌↔◌, refl, sym, ap, ◌∙◌, inl, inr, Bool, true, false, ◌||◌, ◌&&◌, ◌==◌, ==_iff,
  [], ◌∷◌, length, get_or, if◌then◌else◌, Bool-cases, arith,
}
use xkit.Limit.{Bytes}
use xkit.Limit.Wildcard.{Row, no_matches, first_row, fill_row, next_row, rows, wildcard_match}

-- `*` stands for any bytes, any other byte for itself.
pub data Matches : Bytes → Bytes → Type 0 where
  done : Matches [] []
  same : {c : ℕ} {ps cs : Bytes} → c ≢ 42 → Matches ps cs → Matches (c ∷ ps) (c ∷ cs)
  star_ends : {p : ℕ} {ps cs : Bytes} → p ≡ 42 → Matches ps cs → Matches (p ∷ ps) cs
  star_takes : {p c : ℕ} {ps cs : Bytes} → p ≡ 42 → Matches (p ∷ ps) cs → Matches (p ∷ ps) (c ∷ cs)

-- The same by recursion.
matches : Bytes → Bytes → Bool
matches [] [] = true
matches [] (c ∷ cs) = false
matches (p ∷ ps) [] = p == 42 && matches ps []
matches (p ∷ ps) (c ∷ cs) =
    if p == 42 then matches ps (c ∷ cs) || matches (p ∷ ps) cs else p == c && matches ps cs

-- A row says up to which places of the text the pattern before matches: some such place has a rest
-- that the pattern `ps` matches.
completes : Bytes → Row → Bytes → Bool
completes ps [] cs = false
completes ps (b ∷ row) [] = b && matches ps []
completes ps (b ∷ row) (c ∷ cs) = (b && matches ps (c ∷ cs)) || completes ps row cs

-- The row has a place before each byte and at the end.
abbrev Fits : Row → Bytes → Type 0
Fits row cs = length row ≡ suc (length cs)

star_tail : Bytes → Row → Bytes → Bool
star_tail ps row [] = false
star_tail ps row (c ∷ cs) = completes (42 ∷ ps) row cs

star_split :
    (ps : Bytes) (b : Bool) (row : Row) (cs : Bytes)
    → completes (42 ∷ ps) (b ∷ row) cs ≡ ((b && matches (42 ∷ ps) cs) || star_tail ps row cs)
unfolding completes star_tail
star_split ps b row [] = ground arith
star_split ps b row (c ∷ cs) = refl

regroup :
    (x b here later rest : Bool)
    → ((x && here) || (((b || x) && later) || rest))
      ≡ ((x && (here || later)) || ((b && later) || rest))
regroup x b here later rest = ground arith

fill_row-star :
    (ps : Bytes) (x d : Bool) (row : Row) (cs : Bytes)
    → length row ≡ length cs
    → completes ps (x ∷ fill_row 42 x cs (d ∷ row)) cs
      ≡ ((x && matches (42 ∷ ps) cs) || star_tail ps row cs)
unfolding fill_row completes matches star_tail
fill_row-star ps x d row [] e = ground arith
fill_row-star ps x d [] (c ∷ cs) e = absurd (omega arith)
fill_row-star ps x d (b ∷ row) (c ∷ cs) e =
    ap (λ (q : Bool). (x && matches ps (c ∷ cs)) || q)
      (fill_row-star ps (b || x) b row cs (omega arith))
    ∙ regroup x b (matches ps (c ∷ cs)) (matches (42 ∷ ps) cs) (star_tail ps row cs)
    ∙ ap (λ (q : Bool). (x && (matches ps (c ∷ cs) || matches (42 ∷ ps) cs)) || q)
        (sym (star_split ps b row cs))

fill_row-literal :
    (p : ℕ) (ps : Bytes) (x d : Bool) (row : Row) (cs : Bytes)
    → (p == 42) ≡ false
    → length row ≡ length cs
    → completes ps (x ∷ fill_row p x cs (d ∷ row)) cs
      ≡ ((x && matches ps cs) || completes (p ∷ ps) (d ∷ row) cs)
unfolding fill_row completes matches
fill_row-literal p ps x d row [] n e = ground arith
fill_row-literal p ps x d [] (c ∷ cs) n e = absurd (omega arith)
fill_row-literal p ps x d (b ∷ row) (c ∷ cs) n e =
    let now : Bool = if p == c then d else false in
    rw n (ground (arith, fill_row-literal p ps now b row cs n (omega arith)))

next_row-length :
    (p : ℕ) (x : Bool) (prev : Row) (cs : Bytes)
    → Fits prev cs
    → length (fill_row p x cs prev) ≡ length cs
unfolding fill_row
next_row-length p x [] cs e = absurd (omega arith)
next_row-length p x (d ∷ []) [] e = omega arith
next_row-length p x (d ∷ []) (c ∷ cs) e = absurd (omega arith)
next_row-length p x (d ∷ b ∷ row) [] e = absurd (omega arith)
next_row-length p x (d ∷ b ∷ row) (c ∷ cs) e = ground (
  arith,
  next_row-length p (if p == 42 then b || x else if p == c then d else false) (b ∷ row) cs
      (omega arith),
)

-- A byte of the pattern moves from the rest to the row.
next_row-completes :
    (p : ℕ) (ps : Bytes) (row : Row) (cs : Bytes)
    → Fits row cs
    → completes ps (next_row p cs row) cs ≡ completes (p ∷ ps) row cs
unfolding next_row
next_row-completes p ps [] cs e = absurd (omega arith)
next_row-completes p ps (d ∷ row) cs e = elim (Bool-cases (p == 42)) [
  | inl star ↦
      rw ((==_iff p 42).0 star)
        (fill_row-star ps d d row cs (omega arith) ∙ sym (star_split ps d row cs))
  | inr literal ↦ rw literal (fill_row-literal p ps false d row cs literal (omega arith))
]

rows-completes :
    (ps : Bytes) (row : Row) (cs : Bytes)
    → Fits row cs
    → completes [] (rows ps cs row) cs ≡ completes ps row cs
unfolding rows
rows-completes [] row cs e = refl
rows-completes (p ∷ ps) row cs e =
    rows-completes ps (next_row p cs row) cs (ap suc (next_row-length p _ row cs e))
    ∙ next_row-completes p ps row cs e

rows-Fits : (ps : Bytes) (row : Row) (cs : Bytes) → Fits row cs → Fits (rows ps cs row) cs
unfolding rows
rows-Fits [] row cs e = e
rows-Fits (p ∷ ps) row cs e =
    rows-Fits ps (next_row p cs row) cs (ap suc (next_row-length p _ row cs e))

completes-last :
    (row : Row) (cs : Bytes) → Fits row cs → completes [] row cs ≡ get_or row (length cs) false
unfolding completes matches
completes-last [] cs e = absurd (omega arith)
completes-last (b ∷ row) [] e = ground arith
completes-last (b ∷ row) (c ∷ cs) e = ground (arith, completes-last row cs (omega arith))

no_matches-length : (cs : Bytes) → length (no_matches cs) ≡ length cs
no_matches-length [] = refl
no_matches-length (c ∷ cs) = ap suc (no_matches-length cs)

completes-no_matches : (ps cs tail : Bytes) → completes ps (no_matches cs) tail ≡ false
unfolding completes
completes-no_matches ps [] tail = refl
completes-no_matches ps (c ∷ cs) [] = refl
completes-no_matches ps (c ∷ cs) (d ∷ tail) = completes-no_matches ps cs tail

first_row-completes : (ps cs : Bytes) → completes ps (first_row cs) cs ≡ matches ps cs
unfolding completes
first_row-completes ps [] = ground arith
first_row-completes ps (c ∷ cs) = ground (arith, completes-no_matches ps (c ∷ cs) cs)

-- The two rows compute what the recursion does.
wildcard_match-matches :
    (pattern content : Bytes) → wildcard_match pattern content ≡ matches pattern content
unfolding wildcard_match matches
wildcard_match-matches [] [] = refl
wildcard_match-matches [] (c ∷ cs) = refl
wildcard_match-matches (p ∷ ps) cs =
    let fits : Fits (first_row cs) cs = ap suc (no_matches-length cs) in
    sym (
      completes-last (rows (p ∷ ps) cs (first_row cs)) cs
        (rows-Fits (p ∷ ps) (first_row cs) cs fits))
    ∙ rows-completes (p ∷ ps) (first_row cs) cs fits
    ∙ first_row-completes (p ∷ ps) cs

matches_sound : (ps cs : Bytes) → matches ps cs ≡ true → Matches ps cs
unfolding matches
matches_sound [] [] e = done
matches_sound [] (c ∷ cs) e = absurd (cc)
matches_sound (p ∷ ps) [] e = elim (Bool-cases (p == 42)) [
  | inl star ↦ star_ends ((==_iff p 42).0 star) (matches_sound ps [] (ground arith))
  | inr literal ↦ absurd (ground arith)
]
matches_sound (p ∷ ps) (c ∷ cs) e = elim (Bool-cases (p == 42)) [
  | inl star ↦ elim (Bool-cases (matches ps (c ∷ cs))) [
    | inl ends ↦ star_ends ((==_iff p 42).0 star) (matches_sound ps (c ∷ cs) ends)
    | inr takes ↦ star_takes ((==_iff p 42).0 star) (matches_sound (p ∷ ps) cs (ground arith))
  ]
  | inr literal ↦
      let both : (p ≡ c) × (matches ps cs ≡ true) = ground arith in
      rw both.0 (same (λ (q : c ≡ 42). absurd (ground arith)) (matches_sound ps cs both.1))
]

matches-star : (p : ℕ) (ps cs : Bytes) → p ≡ 42 → matches ps cs ≡ true → matches (p ∷ ps) cs ≡ true
unfolding matches
matches-star p ps [] star e = ground arith
matches-star p ps (c ∷ cs) star e = ground arith

matches_complete : (ps cs : Bytes) → Matches ps cs → matches ps cs ≡ true
unfolding matches
matches_complete _ _ done = refl
matches_complete _ _ (same {c} {ps} {cs} other m) = ground (arith, matches_complete ps cs m)
matches_complete _ _ (star_ends {p} {ps} {cs} star m) =
    matches-star p ps cs star (matches_complete ps cs m)
matches_complete _ _ (star_takes {p} {c} {ps} {cs} star m) =
    ground (arith, matches_complete (p ∷ ps) cs m)

-- The dynamic programming accepts exactly the texts that the pattern matches, whatever stars it has.
pub wildcard_match-Matches :
    (pattern content : Bytes) → (wildcard_match pattern content ≡ true) ↔ Matches pattern content
wildcard_match-Matches pattern content = (
  λ (e : wildcard_match pattern content ≡ true).
      matches_sound pattern content (sym (wildcard_match-matches pattern content) ∙ e),
  λ (m : Matches pattern content).
      wildcard_match-matches pattern content ∙ matches_complete pattern content m,
)
