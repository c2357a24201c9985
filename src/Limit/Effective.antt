-- ===== src/Limit/Effective.antt =====
-- rule_matcher.go: the override and the limits that hold for a rule are those of the specification.
use xkit.Prelude.{
  zero, suc, ◌≡◌, ◌⊎◌, refl, sym, ap, ◌∙◌, inl, inr, Bool, true, false, Option, none, some, List,
  [], ◌∷◌, ℤ, pos, negsuc, ltb_ℤ, if◌then◌else◌, Bool-cases, arith,
}
use xkit.Limit.{Bytes}
use xkit.Limit.Wildcard.{wildcard_match}
use xkit.Limit.Matching.{wildcard_match-Matches}
use xkit.Limit.Rules.{Override, Rule, is_zero, is_enabled, limit_of, burst_of}
use xkit.Limit.Known.{first_override}
use xkit.Limit.Asked.{
  First, no_override, this_override, later_override, unless_zero, if_positive, limits,
}

pub first_override-First :
    (os : List Override) (content : Bytes) → First os content (first_override os content)
unfolding first_override
first_override-First [] content = no_override
first_override-First (o ∷ os) content =
    let (sound, complete) = wildcard_match-Matches o.match_pattern content in
    elim (Bool-cases (wildcard_match o.match_pattern content)) [
      | inl h ↦ rw h (this_override (sound h))
      | inr h ↦
          rw h (later_override (λ m. absurd (cc (complete m))) (first_override-First os content))
    ]

if_zero : (a other : ℤ) → (if is_zero a then other else a) ≡ unless_zero a other
if_zero (pos zero) other = refl
if_zero (pos (suc n)) other = ground arith
if_zero (negsuc n) other = ground arith

if_above : (a other : ℤ) → (if ltb_ℤ (pos 0) a then a else other) ≡ if_positive a other
if_above (pos zero) other = refl
if_above (pos (suc n)) other = ground arith
if_above (negsuc n) other = ground arith

pub limits-limit_of :
    (r : Rule) (o : Option Override)
    → limits r o ≡ ((limit_of r o).0, burst_of r o, (limit_of r o).1)
limits-limit_of r none = ap (λ (t : ℤ). (r.limit, t, r.window)) (sym (if_zero r.burst r.limit))
limits-limit_of r (some o) =
    ap (λ (t : ℤ). (o.limit, t, unless_zero o.window r.window)) (sym (if_above o.burst o.limit))
    ∙ ap (λ (t : ℤ). (o.limit, burst_of r (some o), t)) (sym (if_zero o.window r.window))

pub is_enabled-IsOn : (x : Option Bool) → is_enabled x ≡ true → (x ≡ none) ⊎ (x ≡ some true)
is_enabled-IsOn none h = inl refl
is_enabled-IsOn (some true) h = inr refl
is_enabled-IsOn (some false) h = absurd (cc)

pub is_enabled-off : (x : Option Bool) → is_enabled x ≡ false → x ≡ some false
is_enabled-off none h = absurd (cc)
is_enabled-off (some true) h = absurd (cc)
is_enabled-off (some false) h = refl
