-- ===== src/Limit/Wildcard.antt =====
-- rule_matcher.go: wildcardMatch, by dynamic programming over two rows. `b'*'` is 42.
use xkit.Prelude.{ℕ, Bool, true, false, ◌||◌, ◌==◌, List, [], ◌∷◌, length, get_or, if◌then◌else◌}
use xkit.Limit.{Bytes}

abbrev pub Row : Type 0
Row = List Bool

abbrev pub no_matches : Bytes → Row
no_matches [] = []
no_matches (c ∷ cs) = false ∷ no_matches cs

-- The row of the empty pattern.
abbrev pub first_row : Bytes → Row
first_row text = true ∷ no_matches text

-- The inner loop: `last` is curr[j-1], and the old row is taken from prev[j-1] on.
unfoldable pub fill_row : ℕ → Bool → Bytes → Row → Row
fill_row p last (c ∷ cs) (d ∷ e ∷ rest) =
    let now = if p == 42 then e || last else if p == c then d else false in
    now ∷ fill_row p now cs (e ∷ rest)
fill_row p last cs prev = []

unfoldable pub next_row : ℕ → Bytes → Row → Row
unfolding fill_row
next_row p text prev =
    let first = if p == 42 then get_or prev 0 false else false in first ∷ fill_row p first text prev

unfoldable pub rows : Bytes → Bytes → Row → Row
unfolding next_row
rows [] text prev = prev
rows (p ∷ ps) text prev = rows ps text (next_row p text prev)

abbrev is_empty : Bytes → Bool
is_empty [] = true
is_empty (c ∷ cs) = false

unfoldable pub wildcard_match : Bytes → Bytes → Bool
unfolding rows
wildcard_match [] text = is_empty text
wildcard_match (p ∷ ps) text = get_or (rows (p ∷ ps) text (first_row text)) (length text) false
