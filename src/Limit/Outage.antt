-- ===== src/Limit/Outage.antt =====
-- While Redis is down the limiter with the local fallback behaves as the local limiter.
use xkit.Prelude.{
  ◌≡◌, ◌⊎◌, inl, inr, refl, sym, ap, ◌∙◌, Bool, Bool-cases, true, false, not, Option, none, some,
  List, [], ◌∷◌, ℤ, pos, leb_ℤ, String, if◌then◌else◌, Result, ok, err,
}
use xkit.GoMap
use xkit.GoMap.{GoMap}
use xkit.Limit.{Bytes}
use xkit.Limit.Template.{Key}
use xkit.Limit.Rules.{Rule, RuleMatcher, invalid_n, limiter_closed}
use xkit.Limit.Core.{
  Backend, LimitResult, LimiterCore, Failure, own, backend_error, allow_n, evaluate_rules,
  check_rule, after_check, with_rule, after_evaluation, Evaluation, CheckResult, result_of,
}
use xkit.Limit.Fallback.{
  fallback_local, Reply, FallbackLimiter, reply_of, fallback_allow_n, after_distributed,
  local_allow_n,
}

-- AllowN by its tests.
module _ {S E : Type 0} (b : Backend S E) (key : Key) (n : ℤ) (c : LimiterCore S) where
  allow_n-invalid : leb_ℤ n (pos 0) ≡ true → allow_n b key n c ≡ (err (own invalid_n), c)
  unfolding allow_n
  allow_n-invalid h = rw h refl

  allow_n-closed :
      leb_ℤ n (pos 0) ≡ false → c.closed ≡ true → allow_n b key n c ≡ (err (own limiter_closed), c)
  unfolding allow_n
  allow_n-closed h g = rw h (rw g refl)

  allow_n-asks :
      leb_ℤ n (pos 0) ≡ false
      → c.closed ≡ false
      → allow_n b key n c
        ≡ after_evaluation b c
            (evaluate_rules b c.key_prefix key c.matcher n c.matcher.rule_names none c.state)
  unfolding allow_n
  allow_n-asks h g = rw h (rw g refl)

  after_evaluation-state :
      (x : Evaluation b c.key_prefix key) → (after_evaluation b c x).1 ≡ record c { state = x.1 }
  after_evaluation-state (err x, s) = refl
  after_evaluation-state (ok none, s) = refl
  after_evaluation-state (ok (some r), s) = refl

module _ {S L E : Type 0} (redis : Backend S E) (buckets : Backend L E) (is_redis : E → Bool) where
  -- An error of Redis, whatever is asked.
  abbrev pub IsRefused : Result E CheckResult → Type 0
  IsRefused (ok c) = ⊥
  IsRefused (err x) = is_redis x ≡ true

  abbrev pub IsDown : Type 0
  IsDown =
      (k : Bytes) (limit burst window n : ℤ) (s : S)
      → IsRefused (redis.check_rule k limit burst window n s).0

  module _ (down : IsDown) (prefix : Bytes) (key : Key) (m : RuleMatcher) (n : ℤ) where
    -- Either no rule is known, and nobody is asked, or Redis is asked and refuses.
    abbrev Same :
        Option LimitResult
        → Evaluation redis prefix key
        → Evaluation buckets prefix key
        → L
        → Type 0
    Same most x y l =
        ((x.0 ≡ ok most) × (y ≡ (ok most, l))) ⊎ ((e : E) × (x.0 ≡ err e) × (is_redis e ≡ true))

    result_of-refused :
        (r : Rule) (x : Result E CheckResult × S)
        → IsRefused x.0
        → (e : E) × ((result_of redis prefix key r x).0 ≡ err e) × (is_redis e ≡ true)
    result_of-refused r (ok c, s) q = absurd q
    result_of-refused r (err e, s) q = (e, refl, q)

    after_check-refused :
        (go_on : Option LimitResult → S → Evaluation redis prefix key) (most : Option LimitResult)
        (x : Result E LimitResult × S) (e : E)
        → x.0 ≡ err e
        → (after_check redis prefix key go_on most x).0 ≡ err e
    after_check-refused go_on most (ok r, s) e q = absurd (cc)
    after_check-refused go_on most (err x, s) e q =
        ap (λ (y : Result E LimitResult). elim y [ ok a ↦ err e | err z ↦ err z ]) q

    with_rule-Same :
        (names : List String) (o : Option Rule) (most : Option LimitResult) (s : S) (l : L)
        → Same most
            (evaluate_rules redis prefix key m n names most s)
            (evaluate_rules buckets prefix key m n names most l)
            l
        → Same most
            (with_rule redis prefix key o (evaluate_rules redis prefix key m n names most s) (λ r.
              after_check redis prefix key
                (evaluate_rules redis prefix key m n names)
                most
                (check_rule redis prefix key m n r s)))
            (with_rule buckets prefix key o
              (evaluate_rules buckets prefix key m n names most l)
              (λ r.
                after_check buckets prefix key
                  (evaluate_rules buckets prefix key m n names)
                  most
                  (check_rule buckets prefix key m n r l)))
            l
    unfolding check_rule
    with_rule-Same names none most s l same = same
    with_rule-Same names (some r) most s l same =
        let (e, q, refused) = result_of-refused r _ (down _ _ _ _ _ s) in
        inr (
          e,
          after_check-refused (evaluate_rules redis prefix key m n names) most
              (check_rule redis prefix key m n r s) e q,
          refused,
        )

    evaluate_rules-Same :
        (names : List String) (most : Option LimitResult) (s : S) (l : L)
        → Same most
            (evaluate_rules redis prefix key m n names most s)
            (evaluate_rules buckets prefix key m n names most l)
            l
    unfolding evaluate_rules
    evaluate_rules-Same [] most s l = inl (refl, refl)
    evaluate_rules-Same (name ∷ names) most s l =
        with_rule-Same names (GoMap.get m.rules name) most s l (evaluate_rules-Same names most s l)

  module _ (m : RuleMatcher) (prefix : Bytes) (closed : Bool) where
    -- One of the two limiters that New makes for a configuration; they have its rules in common.
    abbrev pub core : {X : Type 0} → X → LimiterCore X
    core s = record { matcher = m; key_prefix = prefix; closed = closed; state = s }

    abbrev pub limiters : S → L → FallbackLimiter S L
    limiters s l = record { distributed = core s; local = core l; strategy = fallback_local }

    -- What the fallback makes of an answer `x` of Redis' limiter, where the local one says `y`.
    abbrev Fell :
        Key
        → ℤ
        → L
        → Result (Failure E) LimitResult × LimiterCore S
        → Result (Failure E) LimitResult × LimiterCore L
        → Type 0
    Fell key n l (r, d) y =
        (s' : S) × (l' : L) × (after_distributed redis buckets is_redis none key n
            (record (limiters s' l) { distributed = d }) r
          ≡ (reply_of y.0, limiters s' l'))
        × (y.1 ≡ core l')

    module _ (down : IsDown) (key : Key) (n : ℤ) (s : S) (l : L) where
      asked-Fell :
          (x : Evaluation redis prefix key) (y : Evaluation buckets prefix key)
          → allow_n buckets key n (core l) ≡ after_evaluation buckets (core l) y
          → Same down prefix key m n none x y l
          → Fell key n l (after_evaluation redis (core s) x) (allow_n buckets key n (core l))
      asked-Fell (err z, s') y e (inl (p, q)) = absurd (cc)
      asked-Fell (ok (some r), s') y e (inl (p, q)) = absurd (cc)
      asked-Fell (ok none, s') y e (inl (p, q)) =
          rw (e ∙ ap (after_evaluation buckets (core l)) q) (s', l, refl, refl)
      asked-Fell (ok r, s') y e (inr (z, p, refused)) = absurd (cc)
      asked-Fell (err w, s') y e (inr (z, p, refused)) =
          let same : w ≡ z = cc in
          let is : is_redis w ≡ true = ap is_redis same ∙ refused in
          let here : (allow_n buckets key n (core l)).1 ≡ core y.1 =
            ap (λ o. o.1) e ∙ after_evaluation-state buckets key n (core l) y in
          (
            s',
            y.1,
            ap
                  (λ (b : Bool).
                    if not b
                    then ((none, some (backend_error w)), limiters s' l)
                    else local_allow_n redis buckets is_redis none key n (limiters s' l))
                  is
                ∙ ap
                    (λ (c : LimiterCore L). (
                      reply_of (allow_n buckets key n (core l)).0,
                      record (limiters s' l) { local = c },
                    ))
                    here,
            here,
          )

      allow_n-Fell : Fell key n l (allow_n redis key n (core s)) (allow_n buckets key n (core l))
      allow_n-Fell = elim (Bool-cases (leb_ℤ n (pos 0))) [
        | inl h ↦
            rw (allow_n-invalid redis key n (core s) h, allow_n-invalid buckets key n (core l) h)
              (s, l, refl, refl)
        | inr h ↦ elim (Bool-cases closed) [
          | inl g ↦
              rw
                (allow_n-closed redis key n (core s) h g, allow_n-closed buckets key n (core l) h g)
                (s, l, refl, refl)
          | inr g ↦ rw (allow_n-asks redis key n (core s) h g) (
              asked-Fell _ _ (allow_n-asks buckets key n (core l) h g)
                (evaluate_rules-Same down prefix key m n m.rule_names none s l))
        ]
      ]

  -- The replies to a list of requests, each with its key and its number of requests, by the limiter
  -- with the fallback and by a local limiter alone.
  unfoldable pub replies : List (Key × ℤ) → FallbackLimiter S L → List (Reply E)
  unfolding fallback_allow_n
  replies [] f = []
  replies ((key, n) ∷ requests) f =
      let (r, f') = fallback_allow_n redis buckets is_redis none key n f in r ∷ replies requests f'

  unfoldable pub local_replies : List (Key × ℤ) → LimiterCore L → List (Reply E)
  unfolding allow_n
  local_replies [] c = []
  local_replies ((key, n) ∷ requests) c =
      let (r, c') = allow_n buckets key n c in reply_of r ∷ local_replies requests c'

  -- While every check on Redis fails with an error of Redis, the limiter with the local fallback
  -- answers any list of requests just as the local limiter alone does, and so charges its buckets:
  -- also where a request is invalid, where the limiters are closed and where there is no rule.
  pub replies-local_replies :
      (m : RuleMatcher) (prefix : Bytes) (closed : Bool) (requests : List (Key × ℤ)) (s : S) (l : L)
      → IsDown
      → replies requests (limiters m prefix closed s l)
        ≡ local_replies requests (core m prefix closed l)
  unfolding replies local_replies fallback_allow_n
  replies-local_replies m prefix closed [] s l down = refl
  replies-local_replies m prefix closed ((key, n) ∷ requests) s l down =
      let (s', l', fell, here) = allow_n-Fell m prefix closed down key n s l in
      ap (λ (p : Reply E × FallbackLimiter S L). p.0 ∷ replies requests p.1) fell
      ∙ ap
          (λ (rest : List (Reply E)).
            reply_of (allow_n buckets key n (core m prefix closed l)).0 ∷ rest)
          (replies-local_replies m prefix closed requests s' l' down
            ∙ ap (local_replies requests) (sym here))
