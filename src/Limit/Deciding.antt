-- ===== src/Limit/Deciding.antt =====
-- core.go: the limiter of a valid configuration asks the enabled rules in their order.
use xkit.Prelude.{
  ◌≡◌, refl, sym, ap, ◌∙◌, inl, inr, Bool, true, false, Option, none, some, List, [], ◌∷◌, ◌++◌,
  String, ℤ, pos, leb_ℤ, if◌then◌else◌, Bool-cases, Result, ok, err, arith,
}
use xkit.GoMap
use xkit.GoMap.{GoMap}
use xkit.Limit.{Bytes}
use xkit.Limit.Template.{Key, render}
use xkit.Limit.Rules.{
  Override, Rule, is_enabled, validate_rules, RuleMatcher, new_rule_matcher, limit_of, burst_of,
  get_effective_limit, get_effective_burst, invalid_n, limiter_closed,
}
use xkit.Limit.Core.{
  Backend, LimitResult, result_of, check_rule, more_restrictive, Evaluation, after_check, with_rule,
  evaluate_rules, LimiterCore, Failure, own, after_evaluation, allow_n,
}
use xkit.Limit.Known.{
  first_override, Patterns, Knows, KnowsAll, matching_override-first, add_rules-KnowsAll,
  add_rules-rule_names, none-known, enabled_names, validate_rules-Distinct,
}

module _ {S E : Type 0} (b : Backend S E) (prefix : Bytes) (key : Key) (n : ℤ) where
  -- The limit, window and burst of a rule come from its first matching override.
  unfoldable pub ask : Rule → S → Result E LimitResult × S
  unfolding first_override
  ask r s =
      let rendered = render key r.key_template in
      let over = first_override r.overrides rendered in
      let (limit, window) = limit_of r over in
      result_of b prefix key r
        (b.check_rule (prefix ++ rendered) limit (burst_of r over) window n s)

  -- The enabled rules are asked in order, up to the first error or denial.
  unfoldable pub judge : List Rule → Option LimitResult → S → Evaluation b prefix key
  unfolding ask
  judge [] most s = (ok most, s)
  judge (r ∷ rs) most s =
      let skipped = judge rs most s in
      if is_enabled r.enabled then after_check b prefix key (judge rs) most (ask r s) else skipped

  check_rule-ask :
      (m : RuleMatcher) (r : Rule) (s : S)
      → Patterns m r
      → check_rule b prefix key m n r s ≡ ask r s
  unfolding check_rule get_effective_limit get_effective_burst ask
  check_rule-ask m r s h =
      ap
        (λ (over : Option Override). result_of b prefix key r (
          b.check_rule (prefix ++ render key r.key_template) (limit_of r over).0 (burst_of r over)
            (limit_of r over).1 n s))
        (matching_override-first m r (render key r.key_template) h)

  after_check-same :
      (f g : Option LimitResult → S → Evaluation b prefix key) (most : Option LimitResult)
      (x : Result E LimitResult × S)
      → ((most' : Option LimitResult) (s : S) → f most' s ≡ g most' s)
      → after_check b prefix key f most x ≡ after_check b prefix key g most x
  after_check-same f g most (err e, s) h = refl
  after_check-same f g most (ok r, s) h =
      ground (arith, h (some (more_restrictive b prefix key most r)) s)

  enabled_names-on :
      (r : Rule) (rs : List Rule)
      → is_enabled r.enabled ≡ true
      → enabled_names (r ∷ rs) ≡ r.name ∷ enabled_names rs
  unfolding enabled_names
  enabled_names-on r rs h = ground arith

  enabled_names-off :
      (r : Rule) (rs : List Rule)
      → is_enabled r.enabled ≡ false
      → enabled_names (r ∷ rs) ≡ enabled_names rs
  unfolding enabled_names
  enabled_names-off r rs h = ground arith

  pub judge-on :
      (r : Rule) (rs : List Rule) (most : Option LimitResult) (s : S)
      → is_enabled r.enabled ≡ true
      → judge (r ∷ rs) most s ≡ after_check b prefix key (judge rs) most (ask r s)
  unfolding judge
  judge-on r rs most s h =
      ap
        (λ (e : Bool).
          if e then after_check b prefix key (judge rs) most (ask r s) else judge rs most s)
        h

  pub judge-off :
      (r : Rule) (rs : List Rule) (most : Option LimitResult) (s : S)
      → is_enabled r.enabled ≡ false
      → judge (r ∷ rs) most s ≡ judge rs most s
  unfolding judge
  judge-off r rs most s h =
      ap
        (λ (e : Bool).
          if e then after_check b prefix key (judge rs) most (ask r s) else judge rs most s)
        h

  evaluate_rules-asks :
      (m : RuleMatcher) (r : Rule) (names : List String) (most : Option LimitResult) (s : S)
      → Knows m r
      → evaluate_rules b prefix key m n (r.name ∷ names) most s
        ≡ after_check b prefix key (evaluate_rules b prefix key m n names) most (ask r s)
  unfolding evaluate_rules
  evaluate_rules-asks m r names most s (known, patterns) =
      ap
        (λ (o : Option Rule).
          with_rule b prefix key o (evaluate_rules b prefix key m n names most s) (λ (q : Rule).
            after_check b prefix key (evaluate_rules b prefix key m n names) most
              (check_rule b prefix key m n q s)))
        known
      ∙ ap (after_check b prefix key (evaluate_rules b prefix key m n names) most)
          (check_rule-ask m r s patterns)

  evaluate_rules-known :
      (m : RuleMatcher) (rs : List Rule) (most : Option LimitResult) (s : S)
      → KnowsAll m rs
      → evaluate_rules b prefix key m n (enabled_names rs) most s ≡ judge rs most s
  unfolding evaluate_rules enabled_names judge
  evaluate_rules-known m [] most s k = refl
  evaluate_rules-known m (r ∷ rs) most s (k, ks) = elim (Bool-cases (is_enabled r.enabled)) [
    | inl h ↦
        ap (λ (names : List String). evaluate_rules b prefix key m n names most s)
          (enabled_names-on r rs h)
        ∙ evaluate_rules-asks m r (enabled_names rs) most s (k h)
        ∙ after_check-same (evaluate_rules b prefix key m n (enabled_names rs)) (judge rs) most
            (ask r s) (λ most' s'. evaluate_rules-known m rs most' s' ks)
        ∙ sym (judge-on r rs most s h)
    | inr h ↦
        ap (λ (names : List String). evaluate_rules b prefix key m n names most s)
          (enabled_names-off r rs h)
        ∙ evaluate_rules-known m rs most s ks
        ∙ sym (judge-off r rs most s h)
  ]

module _ {S E : Type 0} (b : Backend S E) (key : Key) where
  -- AllowN by the rules of a configuration.
  unfoldable pub decide :
      List Rule → ℤ → LimiterCore S → Result (Failure E) LimitResult × LimiterCore S
  unfolding judge
  decide rules n c =
      if leb_ℤ n (pos 0)
      then (err (own invalid_n), c)
      else if c.closed
      then (err (own limiter_closed), c)
      else after_evaluation b c (judge b c.key_prefix key n rules none c.state)

  -- The maps of the matcher, keyed by the names of the rules, make no difference.
  pub allow_n-decide :
      (rules : List Rule) (n : ℤ) (c : LimiterCore S)
      → validate_rules rules GoMap.make ≡ ok tt
      → c.matcher ≡ new_rule_matcher rules
      → allow_n b key n c ≡ decide rules n c
  unfolding allow_n decide new_rule_matcher
  allow_n-decide rules n c v made =
      let m : RuleMatcher = new_rule_matcher rules in
      let names : m.rule_names ≡ enabled_names rules = add_rules-rule_names rules _ in
      let known : KnowsAll m rules =
        add_rules-KnowsAll rules _ (validate_rules-Distinct rules GoMap.make v)
          (none-known rules) in
      ap
        (λ (x : Evaluation b c.key_prefix key).
          if leb_ℤ n (pos 0)
          then (err (own invalid_n), c)
          else if c.closed
          then (err (own limiter_closed), c)
          else after_evaluation b c x)
        (ap (λ (q : RuleMatcher). evaluate_rules b c.key_prefix key q n q.rule_names none c.state)
            made
          ∙ ap (λ (ns : List String). evaluate_rules b c.key_prefix key m n ns none c.state) names
          ∙ evaluate_rules-known b c.key_prefix key n m rules none c.state known)
