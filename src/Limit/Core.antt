-- ===== src/Limit/Core.antt =====
-- core.go: the limiter over a backend. Metrics, traces, logs and the callbacks are left out.
use xkit.Prelude.{
  Bool, true, not, Option, none, some, List, [], ◌∷◌, ◌++◌, String, ℤ, pos, leb_ℤ, ltb_ℤ,
  if◌then◌else◌, Result, ok, err,
}
use xkit.GoMap
use xkit.Limit.{Bytes}
use xkit.Limit.Template.{Key, render}
use xkit.Limit.Rules.{
  Error, invalid_n, limiter_closed, no_rule_matched, Rule, RuleMatcher, get_effective_limit,
  get_effective_burst,
}

-- CheckResult; `reset_at` and `retry_after` are in nanoseconds.
pub record CheckResult : Type 0 where
  pub allowed : Bool
  pub limit : ℤ
  pub remaining : ℤ
  pub reset_at : ℤ
  pub retry_after : ℤ

pub record LimitResult : Type 0 where
  pub check : CheckResult
  pub rule : String
  pub key : Bytes

-- AllowedResult(0, 0)
abbrev pub allowed_result : LimitResult
allowed_result = record {
  check = record {
    allowed = true;
    limit = pos 0;
    remaining = pos 0;
    reset_at = pos 0;
    retry_after = pos 0;
  };
  rule = "";
  key = [];
}

pub record QuotaInfo : Type 0 where
  pub limit : ℤ
  pub remaining : ℤ
  pub reset_at : ℤ
  pub rule : String
  pub key : Bytes

-- The interface Backend, with its state and its errors; contexts and the clock are part of the state.
-- The arguments of a check are the key, the limit, the burst, the window and the number of requests.
pub record Backend (S E : Type 0) : Type 0 where
  pub check_rule : Bytes → ℤ → ℤ → ℤ → ℤ → S → Result E CheckResult × S
  pub reset : Bytes → S → Option E × S
  pub query : Bytes → ℤ → ℤ → ℤ → S → Result E (ℤ × ℤ × ℤ) × S
  pub close : S → Option E × S

pub data Failure (E : Type 0) : Type 0 where
  backend_error : E → Failure E
  own : Error → Failure E

pub record LimiterCore (S : Type 0) : Type 0 where
  pub matcher : RuleMatcher
  pub key_prefix : Bytes
  pub closed : Bool
  pub state : S

module _ {S E : Type 0} (b : Backend S E) (prefix : Bytes) (key : Key) where
  abbrev pub result_of : Rule → Result E CheckResult × S → Result E LimitResult × S
  result_of r (err x, s) = (err x, s)
  result_of r (ok c, s) =
      (ok (record { check = c; rule = r.name; key = render key r.key_template }), s)

  unfoldable pub check_rule : RuleMatcher → ℤ → Rule → S → Result E LimitResult × S
  unfolding get_effective_limit get_effective_burst
  check_rule m n r s =
      let rendered = render key r.key_template in
      let (limit, window) = get_effective_limit m r rendered in
      result_of r
        (b.check_rule (prefix ++ rendered) limit (get_effective_burst m r rendered) window n s)

  -- The result with the least remaining quota, the first of several.
  abbrev pub more_restrictive : Option LimitResult → LimitResult → LimitResult
  more_restrictive none r = r
  more_restrictive (some most) r = if ltb_ℤ r.check.remaining most.check.remaining then r else most

  abbrev pub Evaluation : Type 0
  Evaluation = Result E (Option LimitResult) × S

  abbrev pub after_check :
      (Option LimitResult → S → Evaluation)
      → Option LimitResult
      → Result E LimitResult × S
      → Evaluation
  after_check go_on most (err x, s) = (err x, s)
  after_check go_on most (ok r, s) =
      if not r.check.allowed then (ok (some r), s) else go_on (some (more_restrictive most r)) s

  abbrev pub with_rule : Option Rule → Evaluation → (Rule → Evaluation) → Evaluation
  with_rule none skip go = skip
  with_rule (some r) skip go = go r

  unfoldable pub evaluate_rules :
      RuleMatcher → ℤ → List String → Option LimitResult → S → Evaluation
  unfolding check_rule
  evaluate_rules m n [] most s = (ok most, s)
  evaluate_rules m n (name ∷ names) most s =
      with_rule (GoMap.get m.rules name) (evaluate_rules m n names most s)
        (λ r. after_check (evaluate_rules m n names) most (check_rule m n r s))

  abbrev pub after_reset : (S → Option E × S) → Option E × S → Option E × S
  after_reset go_on (some x, s) = (some x, s)
  after_reset go_on (none, s) = go_on s

  -- The loop of Reset.
  unfoldable pub reset_rules : RuleMatcher → List String → S → Option E × S
  reset_rules m [] s = (none, s)
  reset_rules m (name ∷ names) s = elim (GoMap.get m.rules name) [
    | none ↦ reset_rules m names s
    | some r ↦ after_reset (reset_rules m names) (b.reset (prefix ++ render key r.key_template) s)
  ]

  abbrev pub Quota : Type 0
  Quota = Result E (Option QuotaInfo) × S

  abbrev pub least_quota : Option QuotaInfo → QuotaInfo → QuotaInfo
  least_quota none i = i
  least_quota (some most) i = if ltb_ℤ i.remaining most.remaining then i else most

  abbrev pub after_query :
      (Option QuotaInfo → S → Quota) → Option QuotaInfo → Rule → Result E (ℤ × ℤ × ℤ) × S → Quota
  after_query go_on most r (err x, s) = (err x, s)
  after_query go_on most r (ok (limit, remaining, reset_at), s) =
      go_on
        (some (
          least_quota most (record {
            limit = limit;
            remaining = remaining;
            reset_at = reset_at;
            rule = r.name;
            key = render key r.key_template;
          })))
        s

  unfoldable pub query_rule : RuleMatcher → Rule → S → Result E (ℤ × ℤ × ℤ) × S
  unfolding get_effective_limit get_effective_burst
  query_rule m r s =
      let rendered = render key r.key_template in
      let (limit, window) = get_effective_limit m r rendered in
      b.query (prefix ++ rendered) limit (get_effective_burst m r rendered) window s

  -- The loop of Query.
  unfoldable pub query_rules : RuleMatcher → List String → Option QuotaInfo → S → Quota
  unfolding query_rule
  query_rules m [] most s = (ok most, s)
  query_rules m (name ∷ names) most s = elim (GoMap.get m.rules name) [
    | none ↦ query_rules m names most s
    | some r ↦ after_query (query_rules m names) most r (query_rule m r s)
  ]

module _ {S E : Type 0} (b : Backend S E) where
  abbrev pub after_evaluation :
      LimiterCore S
      → Result E (Option LimitResult) × S
      → Result (Failure E) LimitResult × LimiterCore S
  after_evaluation c (err x, s) = (err (backend_error x), record c { state = s })
  after_evaluation c (ok none, s) = (ok allowed_result, record c { state = s })
  after_evaluation c (ok (some r), s) = (ok r, record c { state = s })

  unfoldable pub allow_n : Key → ℤ → LimiterCore S → Result (Failure E) LimitResult × LimiterCore S
  unfolding evaluate_rules
  allow_n key n c =
      if leb_ℤ n (pos 0)
      then (err (own invalid_n), c)
      else if c.closed
      then (err (own limiter_closed), c)
      else after_evaluation c
          (evaluate_rules b c.key_prefix key c.matcher n c.matcher.rule_names none c.state)

  unfoldable pub reset : Key → LimiterCore S → Option (Failure E) × LimiterCore S
  unfolding reset_rules
  reset key c =
      if c.closed
      then (some (own limiter_closed), c)
      else let (r, s) = reset_rules b c.key_prefix key c.matcher c.matcher.rule_names c.state in
        (elim r [ none ↦ none | some x ↦ some (backend_error x) ], record c { state = s })

  abbrev pub of_quota : Result E (Option QuotaInfo) → Result (Failure E) QuotaInfo
  of_quota (err x) = err (backend_error x)
  of_quota (ok none) = err (own no_rule_matched)
  of_quota (ok (some i)) = ok i

  unfoldable pub query : Key → LimiterCore S → Result (Failure E) QuotaInfo × LimiterCore S
  unfolding query_rules
  query key c =
      if c.closed
      then (err (own limiter_closed), c)
      else let (r, s) =
          query_rules b c.key_prefix key c.matcher c.matcher.rule_names none c.state in
        (of_quota r, record c { state = s })

  unfoldable pub close : LimiterCore S → Option E × LimiterCore S
  close c = let (r, s) = b.close c.state in (r, record c { closed = true; state = s })
