-- ===== src/Limit/Asked.antt =====
-- core.go: AllowN as a relation, apart from the definitions of the code: which rules are asked, with
-- which limits, and which answer follows.
use xkit.Prelude.{
  zero, suc, ◌≡◌, ◌⊎◌, ◌++◌, true, false, ℤ, pos, ◌≤ℤ◌, Option, none, some, List, [], ◌∷◌, All,
  Result, ok, err,
}
use xkit.Limit.{Bytes}
use xkit.Limit.Matching.{Matches}
use xkit.Limit.Template.{Key, render}
use xkit.Limit.Rules.{Override, Rule, invalid_n, limiter_closed}
use xkit.Limit.Core.{
  Backend, CheckResult, LimitResult, LimiterCore, Failure, backend_error, own, allowed_result,
}

-- The first override whose pattern matches the text, if there is one.
pub data First : List Override → Bytes → Option Override → Type 0 where
  no_override : {content : Bytes} → First [] content none
  this_override :
      {o : Override} {os : List Override} {content : Bytes}
      → Matches o.match_pattern content
      → First (o ∷ os) content (some o)
  later_override :
      {o : Override} {os : List Override} {content : Bytes} {x : Option Override}
      → (Matches o.match_pattern content → ⊥)
      → First os content x
      → First (o ∷ os) content x

-- A number, or another one in place of 0; a positive number, or another one.
abbrev pub unless_zero : ℤ → ℤ → ℤ
unless_zero (pos zero) other = other
unless_zero a other = a

abbrev pub if_positive : ℤ → ℤ → ℤ
if_positive (pos (suc n)) other = pos (suc n)
if_positive a other = other

-- The limit, the burst and the window that hold for a rule with an override or none.
abbrev pub limits : Rule → Option Override → ℤ × ℤ × ℤ
limits r none = (r.limit, unless_zero r.burst r.limit, r.window)
limits r (some o) = (o.limit, if_positive o.burst o.limit, unless_zero o.window r.window)

abbrev pub IsOn : Rule → Type 0
IsOn r = (r.enabled ≡ none) ⊎ (r.enabled ≡ some true)

pub data Ending (E : Type 0) : Type 0 where
  passed : Ending E
  denied : LimitResult → Ending E
  failed : E → Ending E

module _ {S E : Type 0} (b : Backend S E) (prefix : Bytes) (key : Key) (n : ℤ) where
  abbrev pub result : Rule → CheckResult → LimitResult
  result r c = record { check = c; rule = r.name; key = render key r.key_template }

  -- The answer of the backend for a rule with its first override.
  abbrev pub answer : Rule → Option Override → S → Result E CheckResult × S
  answer r o s =
      let (limit, burst, window) = limits r o in
      b.check_rule (prefix ++ render key r.key_template) limit burst window n s

  -- A walk over the rules from a state: the results that allowed, how it ended, and the state then.
  pub data Walk : List Rule → S → List LimitResult → Ending E → S → Type 0 where
    ends : {s : S} → Walk [] s [] passed s
    skips :
        {r : Rule} {rs : List Rule} {s s' : S} {allowed : List LimitResult} {end : Ending E}
        → r.enabled ≡ some false
        → Walk rs s allowed end s'
        → Walk (r ∷ rs) s allowed end s'
    allows :
        {r : Rule} {rs : List Rule} {s s1 s' : S} {allowed : List LimitResult} {end : Ending E}
        {o : Option Override} {c : CheckResult}
        → IsOn r
        → First r.overrides (render key r.key_template) o
        → answer r o s ≡ (ok c, s1)
        → c.allowed ≡ true
        → Walk rs s1 allowed end s'
        → Walk (r ∷ rs) s (result r c ∷ allowed) end s'
    denies :
        {r : Rule} {rs : List Rule} {s s1 : S} {o : Option Override} {c : CheckResult}
        → IsOn r
        → First r.overrides (render key r.key_template) o
        → answer r o s ≡ (ok c, s1)
        → c.allowed ≡ false
        → Walk (r ∷ rs) s [] (denied (result r c)) s1
    fails :
        {r : Rule} {rs : List Rule} {s s1 : S} {o : Option Override} {x : E}
        → IsOn r
        → First r.overrides (render key r.key_template) o
        → answer r o s ≡ (err x, s1)
        → Walk (r ∷ rs) s [] (failed x) s1

-- A result of the list of which the remaining quota is the least.
abbrev pub IsMember : LimitResult → List LimitResult → Type 0
IsMember m [] = ⊥
IsMember m (r ∷ rs) = (m ≡ r) ⊎ IsMember m rs

abbrev pub IsLeast : List LimitResult → Option LimitResult → Type 0
IsLeast rs none = rs ≡ []
IsLeast rs (some m) =
    IsMember m rs × All (λ (r : LimitResult). m.check.remaining ≤ℤ r.check.remaining) rs

-- The reply to a walk that ended so.
abbrev pub IsReply :
    {E : Type 0} → List LimitResult → Ending E → Result (Failure E) LimitResult → Type 0
IsReply allowed passed r =
    ((allowed ≡ []) × (r ≡ ok allowed_result))
    ⊎ ((m : LimitResult) × IsLeast allowed (some m) × (r ≡ ok m))
IsReply allowed (denied d) r = r ≡ ok d
IsReply allowed (failed x) r = r ≡ err (backend_error x)

module _ {S E : Type 0} (b : Backend S E) (key : Key) (rules : List Rule) (n : ℤ) where
  -- What AllowN may answer and leave behind, on every branch.
  abbrev pub Decides : LimiterCore S → Result (Failure E) LimitResult × LimiterCore S → Type 0
  Decides c out =
      ((n ≤ℤ pos 0) × (out ≡ (err (own invalid_n), c)))
      ⊎ ((pos 1 ≤ℤ n) × (c.closed ≡ true) × (out ≡ (err (own limiter_closed), c)))
      ⊎ ((pos 1 ≤ℤ n)
          × (c.closed ≡ false)
          × ((allowed : List LimitResult) × (end : Ending E) × (s' : S) × Walk b c.key_prefix key n
                rules c.state allowed end s'
              × IsReply allowed end out.0
              × (out.1 ≡ record c { state = s' })))
