-- ===== src/Limit/Rules.antt =====
-- config.go: rules and their validation. rule_matcher.go: which limits hold for a rendered key.
use xkit.Prelude.{
  ℕ, zero, suc, Bool, true, false, not, ◌&&◌, Option, none, some, List, [], ◌∷◌, ◌++◌, String,
  str_eq, ℤ, pos, leb_ℤ, ltb_ℤ, get_elem?, if◌then◌else◌, Result, ok, err, ◌>>◌,
}
use xkit.GoMap
use xkit.GoMap.{GoMap}
use xkit.Limit.{Bytes}
use xkit.Limit.Wildcard.{wildcard_match}

pub data Error : Type 0 where
  invalid_rule invalid_n limiter_closed no_rule_matched redis_unavailable : Error

pub record Override : Type 0 where
  pub match_pattern : Bytes
  pub limit : ℤ
  pub window : ℤ
  pub burst : ℤ

pub record Rule : Type 0 where
  pub name : String
  pub key_template : Bytes
  pub limit : ℤ
  pub window : ℤ
  pub burst : ℤ
  pub overrides : List Override
  pub enabled : Option Bool

abbrev pub is_enabled : Option Bool → Bool
is_enabled none = true
is_enabled (some b) = b

abbrev pub is_zero : ℤ → Bool
is_zero a = leb_ℤ a (pos 0) && leb_ℤ (pos 0) a

-- EffectiveBurst
abbrev pub effective_burst : Rule → ℤ
effective_burst r = if is_zero r.burst then r.limit else r.burst

abbrev pub is_empty {ℓ} : {A : Type ℓ} → List A → Bool
is_empty [] = true
is_empty (x ∷ xs) = false

abbrev pub require : Bool → Result Error (Unit {0})
require true = ok tt
require false = err invalid_rule

unfoldable pub validate_override : Override → Result Error (Unit {0})
validate_override o =
    require (not (is_empty o.match_pattern))
    >> require (ltb_ℤ (pos 0) o.limit)
    >> require (leb_ℤ (pos 0) o.window)
    >> require (leb_ℤ (pos 0) o.burst)

unfoldable pub validate_overrides : List Override → Result Error (Unit {0})
unfolding validate_override
validate_overrides [] = ok tt
validate_overrides (o ∷ os) = validate_override o >> validate_overrides os

unfoldable pub validate_rule : Rule → Result Error (Unit {0})
unfolding validate_overrides
validate_rule r =
    require (not (str_eq r.name ""))
    >> require (not (is_empty r.key_template))
    >> require (ltb_ℤ (pos 0) r.limit)
    >> require (ltb_ℤ (pos 0) r.window)
    >> require (leb_ℤ (pos 0) r.burst)
    >> validate_overrides r.overrides

-- The loop of Config.Validate; `seen` has the names of the rules before.
abbrev pub is_new : Option (Unit {0}) → Bool
is_new none = true
is_new (some u) = false

unfoldable pub validate_rules : List Rule → GoMap (Unit {0}) → Result Error (Unit {0})
unfolding validate_rule
validate_rules [] seen = ok tt
validate_rules (r ∷ rs) seen =
    validate_rule r
    >> require (is_new (GoMap.get seen r.name))
    >> validate_rules rs (GoMap.put seen r.name tt)

pub record RuleMatcher : Type 0 where
  pub rules : GoMap Rule
  pub rule_names : List String
  pub matchers : GoMap (List Bytes)

abbrev pub patterns_of : List Override → List Bytes
patterns_of [] = []
patterns_of (o ∷ os) = o.match_pattern ∷ patterns_of os

-- A round of newRuleMatcher.
unfoldable pub add_rule : RuleMatcher → Rule → RuleMatcher
add_rule m r = if not (is_enabled r.enabled) then m else record m {
  rules = GoMap.put m.rules r.name r;
  rule_names = m.rule_names ++ r.name ∷ [];
  matchers =
      if is_empty r.overrides
      then m.matchers
      else GoMap.put m.matchers r.name (patterns_of r.overrides);
}

unfoldable pub add_rules : RuleMatcher → List Rule → RuleMatcher
unfolding add_rule
add_rules m [] = m
add_rules m (r ∷ rs) = add_rules (add_rule m r) rs

unfoldable pub new_rule_matcher : List Rule → RuleMatcher
unfolding add_rules
new_rule_matcher = add_rules (record { rules = GoMap.make; rule_names = []; matchers = GoMap.make })

-- matchFirst; -1 is `none`.
abbrev pub next_index : Option ℕ → Option ℕ
next_index none = none
next_index (some i) = some (suc i)

unfoldable pub match_first : List Bytes → Bytes → Option ℕ
match_first [] content = none
match_first (p ∷ ps) content =
    let later = match_first ps content in
    if wildcard_match p content then some zero else next_index later

-- The override that holds for a key, if the matcher has patterns for the rule.
abbrev pub at_index : List Override → Option ℕ → Option Override
at_index os none = none
at_index os (some i) = get_elem? os i

abbrev pub by_patterns : List Override → Bytes → Option (List Bytes) → Option Override
by_patterns os content none = none
by_patterns os content (some ps) = at_index os (match_first ps content)

unfoldable pub matching_override : RuleMatcher → Rule → Bytes → Option Override
unfolding match_first
matching_override m r content = by_patterns r.overrides content (GoMap.get m.matchers r.name)

abbrev pub limit_of : Rule → Option Override → ℤ × ℤ
limit_of r none = (r.limit, r.window)
limit_of r (some o) = (o.limit, if is_zero o.window then r.window else o.window)

abbrev pub burst_of : Rule → Option Override → ℤ
burst_of r none = effective_burst r
burst_of r (some o) = if ltb_ℤ (pos 0) o.burst then o.burst else o.limit

unfoldable pub get_effective_limit : RuleMatcher → Rule → Bytes → ℤ × ℤ
unfolding matching_override
get_effective_limit m r content = limit_of r (matching_override m r content)

unfoldable pub get_effective_burst : RuleMatcher → Rule → Bytes → ℤ
unfolding matching_override
get_effective_burst m r content = burst_of r (matching_override m r content)
