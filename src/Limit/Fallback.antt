-- ===== src/Limit/Fallback.antt =====
-- fallback.go: the limiter that New makes over Redis and over local buckets. Both are limiters of
-- core.go, which implement Querier and Resetter; logs, metrics and onFallback are left out.
use xkit.Prelude.{
  Bool, true, false, not, Option, none, some, List, [], ◌∷◌, ◌++◌, ℤ, pos, if◌then◌else◌, Result,
  ok, err,
}
use xkit.Limit.Template.{Key}
use xkit.Limit.Rules.{redis_unavailable}
use xkit.Limit.Core.{
  Backend, LimitResult, QuotaInfo, LimiterCore, Failure, backend_error, own, allow_n, reset, query,
  close,
}

-- `fallback_other` is every other text, "" among them.
pub data FallbackStrategy : Type 0 where
  fallback_local fallback_open fallback_close fallback_other : FallbackStrategy

-- A result and an error; a closed fallback gives both.
abbrev pub Reply : Type 0 → Type 0
Reply E = Option LimitResult × Option (Failure E)

-- &Result{Allowed: allowed, Rule: rule}
abbrev pub fallback_result : Bool → LimitResult
fallback_result lets = record {
  check = record {
    allowed = lets;
    limit = pos 0;
    remaining = pos 0;
    reset_at = pos 0;
    retry_after = pos 0;
  };
  rule = if lets then "fallback-open" else "fallback-close";
  key = [];
}

pub record FallbackLimiter (S L : Type 0) : Type 0 where
  pub distributed : LimiterCore S
  pub local : LimiterCore L
  pub strategy : FallbackStrategy

module _ {E : Type 0} (is_redis : E → Bool) where
  -- IsRedisError; `is_redis` is what it says of an error of a backend.
  abbrev pub is_redis_error : Failure E → Bool
  is_redis_error (backend_error x) = is_redis x
  is_redis_error (own redis_unavailable) = true
  is_redis_error (own _) = false

  abbrev pub unless_redis : Option (Failure E) → List (Failure E)
  unless_redis none = []
  unless_redis (some x) = if is_redis_error x then [] else x ∷ []

abbrev pub reply_of : {E : Type 0} → Result (Failure E) LimitResult → Reply E
reply_of (ok r) = (some r, none)
reply_of (err x) = (none, some x)

abbrev pub errors : {X : Type 0} → Option X → List X
errors none = []
errors (some x) = x ∷ []

module _ {S L E : Type 0} (redis : Backend S E) (buckets : Backend L E) (is_redis : E → Bool)
    (custom_fallback : Option (Key → ℤ → Failure E → Reply E)) where
  abbrev pub local_allow_n : Key → ℤ → FallbackLimiter S L → Reply E × FallbackLimiter S L
  local_allow_n key n f =
      let (r, local) = allow_n buckets key n f.local in (reply_of r, record f { local = local })

  abbrev pub by_strategy :
      FallbackStrategy → Key → ℤ → FallbackLimiter S L → Reply E × FallbackLimiter S L
  by_strategy fallback_open key n f = ((some (fallback_result true), none), f)
  by_strategy fallback_close key n f =
      ((some (fallback_result false), some (own redis_unavailable)), f)
  by_strategy _ key n f = local_allow_n key n f

  abbrev pub fall_back :
      Option (Key → ℤ → Failure E → Reply E)
      → Failure E
      → Key
      → ℤ
      → FallbackLimiter S L
      → Reply E × FallbackLimiter S L
  fall_back (some custom) x key n f = (custom key n x, f)
  fall_back none x key n f = by_strategy f.strategy key n f

  abbrev pub after_distributed :
      Key → ℤ → FallbackLimiter S L → Result (Failure E) LimitResult → Reply E × FallbackLimiter S L
  after_distributed key n f (ok r) = ((some r, none), f)
  after_distributed key n f (err x) =
      if not (is_redis_error is_redis x)
      then ((none, some x), f)
      else fall_back custom_fallback x key n f

  unfoldable pub fallback_allow_n : Key → ℤ → FallbackLimiter S L → Reply E × FallbackLimiter S L
  fallback_allow_n key n f =
      let (r, distributed) = allow_n redis key n f.distributed in
      after_distributed key n (record f { distributed = distributed }) r

  -- The errors that errors.Join joins.
  unfoldable pub fallback_reset : Key → FallbackLimiter S L → List (Failure E) × FallbackLimiter S L
  fallback_reset key f =
      let (x, distributed) = reset redis key f.distributed in
      let (y, local) = reset buckets key f.local in
      (
        unless_redis is_redis x ++ errors y,
        record { distributed = distributed; local = local; strategy = f.strategy },
      )

  unfoldable pub fallback_close_both : FallbackLimiter S L → List E × FallbackLimiter S L
  fallback_close_both f =
      let (x, distributed) = close redis f.distributed in
      let (y, local) = close buckets f.local in
      (
        errors x ++ errors y,
        record { distributed = distributed; local = local; strategy = f.strategy },
      )

  abbrev pub local_query :
      Key → FallbackLimiter S L → Result (Failure E) QuotaInfo × FallbackLimiter S L
  local_query key f = let (r, local) = query buckets key f.local in (r, record f { local = local })

  abbrev pub after_distributed_query :
      Key
      → FallbackLimiter S L
      → Result (Failure E) QuotaInfo
      → Result (Failure E) QuotaInfo × FallbackLimiter S L
  after_distributed_query key f (ok i) = (ok i, f)
  after_distributed_query key f (err x) =
      if is_redis_error is_redis x then local_query key f else (err x, f)

  unfoldable pub fallback_query :
      Key → FallbackLimiter S L → Result (Failure E) QuotaInfo × FallbackLimiter S L
  fallback_query key f =
      let (r, distributed) = query redis key f.distributed in
      after_distributed_query key (record f { distributed = distributed }) r
