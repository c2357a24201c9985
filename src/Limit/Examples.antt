-- ===== src/Limit/Examples.antt =====
-- Two rules, the first with an override; a Redis that is down; and two calls that race for a bucket.
use xkit.Prelude.{ℕ, ◌≡◌, ◌↔◌, refl, true, false, none, some, List, [], ◌∷◌, ℤ, pos, ltb_ℤ, All, ok}
use xkit.Prelude.{codes}
use xkit.GoMap
use xkit.GoMap.{GoMap}
use xkit.Prelude.{arith}
use xkit.Limit.Wildcard.{wildcard_match}
use xkit.Limit.Matching.{Matches, wildcard_match-Matches}
use xkit.Limit.Template.{Key, render}
use xkit.Limit.Rendering.{
  Segment, plain, variable, IsWellFormed, template_of, values, render-values,
}
use xkit.Limit.Rules.{Override, Rule, validate_rules, new_rule_matcher}
use xkit.Limit.Core.{Backend, LimiterCore, allow_n}
use xkit.Limit.Buckets.{
  System, Event, begins_check, moves, step, move, compare_and_swap, new_local_backend, Reach, start,
  later, owes, max_buckets,
}
use xkit.Limit.Cap.{bucket_limit}
use xkit.Limit.Outage.{IsDown, limiters, core, replies, local_replies, replies-local_replies}
use xkit.Prelude.{inl, inr, err, suc, ◌==◌, ◌+◌, Option-cases, ◌≤◌, total}
use xkit.Limit.Asked.{Decides}
use xkit.Limit.Decided.{allow_n-Decides}

-- Tenant "acme", and one extra name.
abbrev somebody : Key
somebody = record {
  tenant = codes "acme";
  caller = [];
  method = [];
  path = codes "/v1";
  resource = [];
  extra = some (λ name. some (codes "x"));
}

abbrev pieces : List Segment
pieces = plain (codes "t:") ∷ variable (codes "path") ∷ variable (codes "q") ∷ []

pieces-IsWellFormed : All IsWellFormed pieces
pieces-IsWellFormed = ground arith

render-values_example : render somebody (template_of pieces) ≡ values somebody pieces
render-values_example = render-values somebody pieces pieces-IsWellFormed

wildcard_match-Matches_example :
    (wildcard_match (codes "t:*:b*") (codes "t:a:b1") ≡ true)
    ↔ Matches (codes "t:*:b*") (codes "t:a:b1")
wildcard_match-Matches_example = wildcard_match-Matches (codes "t:*:b*") (codes "t:a:b1")

-- A request that is below the burst passes; the state has the limits asked for, the last one first.
abbrev lenient : Backend (List ℤ) ℕ
lenient = record {
  check_rule = λ k limit burst window n s. (
    ok (record {
      allowed = ltb_ℤ n burst;
      limit = limit;
      remaining = burst;
      reset_at = window;
      retry_after = pos 0;
    }),
    limit ∷ s,
  );
  reset = λ k s. (none, s);
  query = λ k limit burst window s. (ok (limit, burst, window), s);
  close = λ s. (none, s);
}

abbrev generous : Override
generous = record { match_pattern = codes "t:*"; limit = pos 50; window = pos 0; burst = pos 60 }

abbrev two_rules : List Rule
two_rules =
    record {
      name = "tenant";
      key_template = codes "t:${tenant_id}";
      limit = pos 5;
      window = pos 1000;
      burst = pos 0;
      overrides = generous ∷ [];
      enabled = none;
    }
    ∷ record {
      name = "global";
      key_template = codes "g";
      limit = pos 100;
      window = pos 1000;
      burst = pos 0;
      overrides = [];
      enabled = some true;
    }
    ∷ []

two_rules-ok : validate_rules two_rules GoMap.make ≡ ok tt
unfolding validate_rules GoMap.get GoMap.put
two_rules-ok = refl

abbrev two_limits : LimiterCore (List ℤ)
two_limits = record {
  matcher = new_rule_matcher two_rules;
  key_prefix = codes "l:";
  closed = false;
  state = [];
}

allow_n-Decides_example :
    Decides lenient somebody two_rules
      (pos 1)
      two_limits
      (allow_n lenient somebody (pos 1) two_limits)
allow_n-Decides_example =
    allow_n-Decides lenient somebody two_rules (pos 1) two_limits two_rules-ok refl

-- Nothing comes back from Redis, and each attempt is counted.
abbrev broken : Backend ℕ ℕ
broken = record {
  check_rule = λ k limit burst window n s. (err 0, suc s);
  reset = λ k s. (some 0, s);
  query = λ k limit burst window s. (err 0, s);
  close = λ s. (none, s);
}

broken-IsDown : IsDown broken lenient (λ x. x == 0)
broken-IsDown k limit burst window n s = refl

-- The second request is invalid.
abbrev requests : List (Key × ℤ)
requests = (somebody, pos 2) ∷ (somebody, pos 0) ∷ []

replies-local_replies_example :
    replies broken lenient
      (λ x. x == 0)
      requests
      (limiters broken lenient (λ x. x == 0) (new_rule_matcher two_rules) (codes "l:") false 0 [])
    ≡ local_replies broken lenient
        (λ x. x == 0)
        requests
        (core broken lenient (λ x. x == 0) (new_rule_matcher two_rules) (codes "l:") false [])
replies-local_replies_example =
    replies-local_replies broken lenient (λ x. x == 0) (new_rule_matcher two_rules) (codes "l:")
      false requests 0 [] broken-IsDown

-- The state after a step, where it is possible.
abbrev after : Event → System → System
after e s = elim (step e s) [ none ↦ s | some t ↦ t ]

abbrev run : List Event → System → System
run [] s = s
run (e ∷ es) s = run es (after e s)

after-Reach : {s : System} → Reach s → (e : Event) → Reach (after e s)
after-Reach {s} r e = elim (Option-cases (step e s)) [
  | inl q ↦ rw (q, after) r
  | inr (t, q) ↦ rw (q, after) (later r e q)
]

run-Reach : (es : List Event) {s : System} → Reach s → Reach (run es s)
run-Reach [] r = r
run-Reach (e ∷ es) r = run-Reach es (after-Reach r e)

-- Two calls for one key reserve a place each; the second one finds the bucket of the first.
abbrev race : List Event
race =
    begins_check "a"
    ∷ begins_check "a"
    ∷ moves 0
    ∷ moves 1
    ∷ moves 0
    ∷ moves 0
    ∷ moves 1
    ∷ moves 1
    ∷ moves 0
    ∷ moves 1
    ∷ []

raced : System
raced = run race new_local_backend

raced-counts : (raced.backend.bucket_count ≡ 2) × (GoMap.size raced.backend.buckets ≡ 1)
unfolding raced step move compare_and_swap GoMap.get GoMap.put GoMap.size
raced-counts = (refl, refl)

raced-Reach : Reach raced
unfolding raced
raced-Reach = run-Reach race start

bucket_limit_example :
    (raced.backend.bucket_count ≡ GoMap.size raced.backend.buckets + total owes raced.calls)
    × (GoMap.size raced.backend.buckets ≤ max_buckets)
bucket_limit_example = bucket_limit raced-Reach
