-- ===== src/Limit/Known.antt =====
-- rule_matcher.go: a matcher made for a valid configuration knows its enabled rules in their order.
use xkit.Prelude.{
  ℕ, ◌≡◌, refl, sym, ap, ◌∙◌, inl, inr, Bool, true, false, Option, none, some, List, [], ◌∷◌, ◌++◌,
  append_assoc, append_nil, String, str_eq, str_eq_iff, if◌then◌else◌, All, Bool-cases, Result, ok,
  err, ◌>>◌, arith,
}
use xkit.GoMap
use xkit.GoMap.{GoMap}
use xkit.Limit.{Bytes}
use xkit.Limit.Wildcard.{wildcard_match}
use xkit.Limit.Rules.{
  Override, Rule, is_enabled, is_empty, validate_rules, is_new, require, RuleMatcher, patterns_of,
  add_rule, add_rules, next_index, match_first, at_index, by_patterns, matching_override, Error,
}

-- The first override whose pattern matches.
unfoldable pub first_override : List Override → Bytes → Option Override
first_override [] content = none
first_override (o ∷ os) content =
    let later = first_override os content in
    if wildcard_match o.match_pattern content then some o else later

-- No name stands twice.
abbrev pub Distinct : List Rule → Type 0
Distinct [] = Unit
Distinct (r ∷ rs) = All (λ (q : Rule). str_eq r.name q.name ≡ false) rs × Distinct rs

then-ok : (a b : Result Error (Unit {0})) → (a >> b) ≡ ok tt → (a ≡ ok tt) × (b ≡ ok tt)
then-ok (ok u) b e = (refl, e)
then-ok (err x) b e = absurd (cc)

require-ok : (b : Bool) → require b ≡ ok tt → b ≡ true
require-ok true e = refl
require-ok false e = absurd (cc)

validate_rules-cons :
    (r : Rule) (rs : List Rule) (seen : GoMap (Unit {0}))
    → validate_rules (r ∷ rs) seen ≡ ok tt
    → (is_new (GoMap.get seen r.name) ≡ true)
      × (validate_rules rs (GoMap.put seen r.name tt) ≡ ok tt)
unfolding validate_rules
validate_rules-cons r rs seen v =
    let (first, rest) = then-ok _ _ v in
    let (valid, new) = then-ok _ _ first in (require-ok _ new, rest)

str_eq-not_same : (a c : String) → str_eq a c ≡ false → str_eq c a ≡ false
str_eq-not_same a c h = ground (arith, str_eq_iff a c, str_eq_iff c a)

validate_rules-new :
    (rs : List Rule) (seen : GoMap (Unit {0})) (name : String)
    → validate_rules rs seen ≡ ok tt
    → GoMap.get seen name ≡ some tt
    → All (λ (q : Rule). str_eq name q.name ≡ false) rs
validate_rules-new [] seen name v h = tt
validate_rules-new (r ∷ rs) seen name v h =
    let (new, rest) = validate_rules-cons r rs seen v in
    elim (Bool-cases (str_eq name r.name)) [
      | inl same ↦ absurd (
          let e : name ≡ r.name = (str_eq_iff name r.name).0 same in
          let g : is_new (GoMap.get seen name) ≡ true =
            ap (λ (n : String). is_new (GoMap.get seen n)) e ∙ new in
          ground arith)
      | inr other ↦ (
        other,
        validate_rules-new rs (GoMap.put seen r.name tt) name rest
            (ground (arith, GoMap.get-put seen r.name name tt)),
      )
    ]

-- What Config.Validate accepts has distinct names.
pub validate_rules-Distinct :
    (rs : List Rule) (seen : GoMap (Unit {0})) → validate_rules rs seen ≡ ok tt → Distinct rs
validate_rules-Distinct [] seen v = tt
validate_rules-Distinct (r ∷ rs) seen v =
    let (new, rest) = validate_rules-cons r rs seen v in
    (
      validate_rules-new rs (GoMap.put seen r.name tt) r.name rest
          (ground (arith, GoMap.get-put seen r.name r.name tt, str_eq_iff r.name r.name)),
      validate_rules-Distinct rs (GoMap.put seen r.name tt) rest,
    )

at_index-next :
    (o : Override) (os : List Override) (i : Option ℕ)
    → at_index (o ∷ os) (next_index i) ≡ at_index os i
at_index-next o os none = refl
at_index-next o os (some i) = refl

match_first-override :
    (os : List Override) (content : Bytes)
    → at_index os (match_first (patterns_of os) content) ≡ first_override os content
unfolding match_first first_override
match_first-override [] content = refl
match_first-override (o ∷ os) content = ground (
  arith,
  at_index-next o os (match_first (patterns_of os) content),
  match_first-override os content,
)

-- The matcher knows a rule, with its patterns.
abbrev pub Patterns : RuleMatcher → Rule → Type 0
Patterns m r =
    GoMap.get m.matchers r.name
    ≡ (if is_empty r.overrides then none else some (patterns_of r.overrides))

abbrev pub Knows : RuleMatcher → Rule → Type 0
Knows m r = (GoMap.get m.rules r.name ≡ some r) × Patterns m r

by_patterns-first :
    (os : List Override) (content : Bytes)
    → by_patterns os content (if is_empty os then none else some (patterns_of os))
      ≡ first_override os content
unfolding first_override
by_patterns-first [] content = refl
by_patterns-first (o ∷ os) content = match_first-override (o ∷ os) content

pub matching_override-first :
    (m : RuleMatcher) (r : Rule) (content : Bytes)
    → Patterns m r
    → matching_override m r content ≡ first_override r.overrides content
unfolding matching_override first_override
matching_override-first m r content h =
    ap (by_patterns r.overrides content) h ∙ by_patterns-first r.overrides content

add_rule-other :
    (m : RuleMatcher) (r : Rule) (name : String)
    → str_eq name r.name ≡ false
    → (GoMap.get (add_rule m r).rules name ≡ GoMap.get m.rules name)
      × (GoMap.get (add_rule m r).matchers name ≡ GoMap.get m.matchers name)
unfolding add_rule
add_rule-other m r name h = ground (
  arith,
  str_eq-not_same name r.name h,
  GoMap.get-put m.rules r.name name r,
  GoMap.get-put m.matchers r.name name (patterns_of r.overrides),
)

-- Rules of other names do not change what is known of a name.
add_rules-other :
    (rs : List Rule) (m : RuleMatcher) (name : String)
    → All (λ (q : Rule). str_eq name q.name ≡ false) rs
    → (GoMap.get (add_rules m rs).rules name ≡ GoMap.get m.rules name)
      × (GoMap.get (add_rules m rs).matchers name ≡ GoMap.get m.matchers name)
unfolding add_rules
add_rules-other [] m name h = (refl, refl)
add_rules-other (r ∷ rs) m name (h, hs) =
    let (p, q) = add_rules-other rs (add_rule m r) name hs in
    let (p', q') = add_rule-other m r name h in (p ∙ p', q ∙ q')

add_rule-Knows :
    (m : RuleMatcher) (r : Rule)
    → is_enabled r.enabled ≡ true
    → GoMap.get m.matchers r.name ≡ none
    → Knows (add_rule m r) r
unfolding add_rule
add_rule-Knows m r h e = ground (
  arith,
  str_eq_iff r.name r.name,
  GoMap.get-put m.rules r.name r.name r,
  GoMap.get-put m.matchers r.name r.name (patterns_of r.overrides),
)

add_rule-fresh :
    (rs : List Rule) (m : RuleMatcher) (r : Rule)
    → All (λ (q : Rule). str_eq r.name q.name ≡ false) rs
    → All (λ (q : Rule). GoMap.get m.matchers q.name ≡ none) rs
    → All (λ (q : Rule). GoMap.get (add_rule m r).matchers q.name ≡ none) rs
add_rule-fresh [] m r ds es = tt
add_rule-fresh (q ∷ qs) m r (d, ds) (e, es) = (
  (add_rule-other m r q.name (str_eq-not_same r.name q.name d)).1 ∙ e,
  add_rule-fresh qs m r ds es,
)

abbrev pub KnowsAll : RuleMatcher → List Rule → Type 0
KnowsAll m = All (λ (r : Rule). is_enabled r.enabled ≡ true → Knows m r)

pub add_rules-KnowsAll :
    (rs : List Rule) (m : RuleMatcher)
    → Distinct rs
    → All (λ (q : Rule). GoMap.get m.matchers q.name ≡ none) rs
    → KnowsAll (add_rules m rs) rs
unfolding add_rules
add_rules-KnowsAll [] m d f = tt
add_rules-KnowsAll (r ∷ rs) m (d, ds) (f, fs) =
    let (p, q) = add_rules-other rs (add_rule m r) r.name d in
    (
      λ h. let (known, patterns) = add_rule-Knows m r h f in (p ∙ known, q ∙ patterns),
      add_rules-KnowsAll rs (add_rule m r) ds (add_rule-fresh rs m r d fs),
    )

-- The names of the enabled rules.
unfoldable pub enabled_names : List Rule → List String
enabled_names [] = []
enabled_names (r ∷ rs) =
    let later = enabled_names rs in if is_enabled r.enabled then r.name ∷ later else later

add_rule-rule_names :
    (m : RuleMatcher) (r : Rule) (later : List String)
    → (add_rule m r).rule_names ++ later
      ≡ m.rule_names ++ (if is_enabled r.enabled then r.name ∷ later else later)
unfolding add_rule
add_rule-rule_names m r later = ground (arith, append_assoc m.rule_names (r.name ∷ []) later)

pub add_rules-rule_names :
    (rs : List Rule) (m : RuleMatcher)
    → (add_rules m rs).rule_names ≡ m.rule_names ++ enabled_names rs
unfolding add_rules enabled_names
add_rules-rule_names [] m = sym (append_nil m.rule_names)
add_rules-rule_names (r ∷ rs) m =
    add_rules-rule_names rs (add_rule m r) ∙ add_rule-rule_names m r (enabled_names rs)

pub none-known :
    (rs : List Rule) → All (λ (q : Rule). GoMap.get (GoMap.make {V = List Bytes}) q.name ≡ none) rs
none-known [] = tt
none-known (r ∷ rs) = (GoMap.get-make r.name, none-known rs)
