-- ===== src/Limit/Decided.antt =====
-- core.go: AllowN decides as the walk over the rules of a valid configuration does.
use xkit.Prelude.{
  ◌≡◌, ◌⊎◌, refl, sym, ap, ◌∙◌, inl, inr, Bool, true, false, not, Option, none, some, List, [], ◌∷◌,
  ◌++◌, ℤ, pos, ◌≤ℤ◌, leb_ℤ, ltb_ℤ, Bool-cases, Result, ok, err, arith, if-elim,
}
use xkit.GoMap
use xkit.GoMap.{GoMap}
use xkit.Limit.{Bytes}
use xkit.Limit.Template.{Key, render}
use xkit.Limit.Rules.{Override, Rule, is_enabled, validate_rules, new_rule_matcher}
use xkit.Limit.Core.{
  Backend, CheckResult, LimitResult, result_of, more_restrictive, Evaluation, after_check,
  LimiterCore, after_evaluation, allow_n,
}
use xkit.Limit.Known.{first_override}
use xkit.Limit.Asked.{
  IsOn, Ending, passed, denied, failed, result, answer, Walk, ends, skips, allows, denies, fails,
  IsMember, IsLeast, IsReply, Decides,
}
use xkit.Limit.Deciding.{ask, judge, judge-on, judge-off, decide, allow_n-decide}
use xkit.Limit.Effective.{first_override-First, limits-limit_of, is_enabled-IsOn, is_enabled-off}

not-true : {x : Bool} → not x ≡ true → x ≡ false
not-true {x} h = ground arith

not-false : {x : Bool} → not x ≡ false → x ≡ true
not-false {x} h = ground arith

module _ {S E : Type 0} (b : Backend S E) (prefix : Bytes) (key : Key) (n : ℤ) where
  over : Rule → Option Override
  over r = first_override r.overrides (render key r.key_template)

  ask-answer :
      (r : Rule) (s : S)
      → ask b prefix key n r s ≡ result_of b prefix key r (answer b prefix key n r (over r) s)
  unfolding ask over
  ask-answer r s =
      ap
        (λ (x : ℤ × ℤ × ℤ).
          result_of b prefix key r
            (b.check_rule (prefix ++ render key r.key_template) x.0 x.1 x.2 n s))
        (sym (limits-limit_of r (over r)))

  abbrev list_of : Option LimitResult → List LimitResult
  list_of none = []
  list_of (some m) = m ∷ []

  -- What an evaluation gives at the end of a walk.
  abbrev Gives :
      Option LimitResult → List LimitResult → Ending E → S → Evaluation b prefix key → Type 0
  Gives most allowed passed s' x =
      (last : Option LimitResult) × IsLeast (list_of most ++ allowed) last × (x ≡ (ok last, s'))
  Gives most allowed (denied d) s' x = x ≡ (ok (some d), s')
  Gives most allowed (failed e) s' x = x ≡ (err e, s')

  abbrev Walks : List Rule → Option LimitResult → S → Evaluation b prefix key → Type 0
  Walks rs most s x =
      (allowed : List LimitResult) × (end : Ending E) × (s' : S) × Walk b prefix key n rs s allowed
        end s'
      × Gives most allowed end s' x

  IsMember-pair :
      (m r x l : LimitResult) (allowed : List LimitResult)
      → (x ≡ m) ⊎ (x ≡ r)
      → IsMember l (x ∷ allowed)
      → IsMember l (m ∷ r ∷ allowed)
  IsMember-pair m r x l allowed (inl e) (inl h) = inl (h ∙ e)
  IsMember-pair m r x l allowed (inr e) (inl h) = inr (inl (h ∙ e))
  IsMember-pair m r x l allowed e (inr h) = inr (inr h)

  more_restrictive-is :
      (m r : LimitResult)
      → let x = more_restrictive b prefix key (some m) r in
        ((x ≡ m) ⊎ (x ≡ r))
        × (x.check.remaining ≤ℤ m.check.remaining)
        × (x.check.remaining ≤ℤ r.check.remaining)
  more_restrictive-is m r = elim (Bool-cases (ltb_ℤ r.check.remaining m.check.remaining)) [
    | inl h ↦ rw h (inr refl, ground arith, omega arith)
    | inr h ↦ rw h (inl refl, omega arith, ground arith)
  ]

  IsLeast-more_restrictive :
      (most : Option LimitResult) (r : LimitResult) (allowed : List LimitResult)
      (last : Option LimitResult)
      → IsLeast (more_restrictive b prefix key most r ∷ allowed) last
      → IsLeast (list_of most ++ r ∷ allowed) last
  IsLeast-more_restrictive none r allowed last h = h
  IsLeast-more_restrictive (some m) r allowed none h = absurd (cc)
  IsLeast-more_restrictive (some m) r allowed (some l) (member, (least, rest)) =
      let (one, below_m, below_r) = more_restrictive-is m r in
      (
        IsMember-pair m r (more_restrictive b prefix key (some m) r) l allowed one member,
        (omega arith, (omega arith, rest)),
      )

  Gives-allow :
      (most : Option LimitResult) (r : LimitResult) (allowed : List LimitResult) (end : Ending E)
      (s' : S) (x : Evaluation b prefix key)
      → Gives (some (more_restrictive b prefix key most r)) allowed end s' x
      → Gives most (r ∷ allowed) end s' x
  Gives-allow most r allowed passed s' x (last, least, is) =
      (last, IsLeast-more_restrictive most r allowed last least, is)
  Gives-allow most r allowed (denied d) s' x is = is
  Gives-allow most r allowed (failed e) s' x is = is

  after_check-Walks :
      (r : Rule) (rs : List Rule) (most : Option LimitResult) (s : S) (x : Result E CheckResult × S)
      → IsOn r
      → answer b prefix key n r (over r) s ≡ x
      → ((most' : Option LimitResult) (t : S) → Walks rs most' t (judge b prefix key n rs most' t))
      → Walks
          (r ∷ rs)
          most
          s
          (after_check b prefix key (judge b prefix key n rs) most (result_of b prefix key r x))
  unfolding over
  after_check-Walks r rs most s (err e, t) on is rest =
      ([], failed e, t, fails on (first_override-First r.overrides _) is, refl)
  after_check-Walks r rs most s (ok c, t) on is rest =
      let q : LimitResult = result b prefix key n r c in
      let first = first_override-First r.overrides (render key r.key_template) in
      if-elim (Walks (r ∷ rs) most s) (not c.allowed) _ _
        (λ h. ([], denied q, t, denies on first is (not-true h), refl))
        (λ h.
          let (allowed, end, s', walk, gives) =
            rest (some (more_restrictive b prefix key most q)) t in
          (
            q ∷ allowed,
            end,
            s',
            allows on first is (not-false h) walk,
            Gives-allow most q allowed end s' _ gives,
          ))

  judge-Walks :
      (rs : List Rule) (most : Option LimitResult) (s : S)
      → Walks rs most s (judge b prefix key n rs most s)
  unfolding judge
  judge-Walks [] none s = ([], passed, s, ends, (none, refl, refl))
  judge-Walks [] (some m) s = ([], passed, s, ends, (some m, (inl refl, (omega arith, tt)), refl))
  judge-Walks (r ∷ rs) most s = elim (Bool-cases (is_enabled r.enabled)) [
    | inl h ↦
        rw (judge-on b prefix key n r rs most s h, ask-answer r s)
          (after_check-Walks r rs most s _ (is_enabled-IsOn r.enabled h) refl (judge-Walks rs))
    | inr h ↦
        let (allowed, end, s', walk, gives) = judge-Walks rs most s in
        rw (judge-off b prefix key n r rs most s h)
          (allowed, end, s', skips (is_enabled-off r.enabled h) walk, gives)
  ]

module _ {S E : Type 0} (b : Backend S E) (key : Key) where
  -- The answer of a call that is carried out.
  after_evaluation-IsReply :
      (c : LimiterCore S) (n : ℤ) (rules : List Rule) (x : Evaluation b c.key_prefix key)
      → Walks b c.key_prefix key n rules none c.state x
      → (allowed : List LimitResult) × (end : Ending E) × (s' : S) × Walk b c.key_prefix key n rules
          c.state allowed end s'
        × IsReply allowed end (after_evaluation b c x).0
        × ((after_evaluation b c x).1 ≡ record c { state = s' })
  after_evaluation-IsReply c n rules x (allowed, passed, s', walk, (none, least, is)) =
      (allowed, passed, s', walk, rw is (inl (least, refl)), rw is refl)
  after_evaluation-IsReply c n rules x (allowed, passed, s', walk, (some m, least, is)) =
      (allowed, passed, s', walk, rw is (inr (m, least, refl)), rw is refl)
  after_evaluation-IsReply c n rules x (allowed, denied d, s', walk, is) =
      (allowed, denied d, s', walk, rw is refl, rw is refl)
  after_evaluation-IsReply c n rules x (allowed, failed e, s', walk, is) =
      (allowed, failed e, s', walk, rw is refl, rw is refl)

  decide-Decides :
      (rules : List Rule) (n : ℤ) (c : LimiterCore S)
      → Decides b key rules n c (decide b key rules n c)
  unfolding decide
  decide-Decides rules n c =
      if-elim (Decides b key rules n c) (leb_ℤ n (pos 0)) _ _ (λ h. inl (ground arith, refl))
        (λ h.
          if-elim (Decides b key rules n c) c.closed _ _ (λ k. inr (inl (ground arith, k, refl)))
            (λ k. inr (
              inr (
                ground arith,
                k,
                after_evaluation-IsReply c n rules _
                    (judge-Walks b c.key_prefix key n rules none c.state),
              ))))

  -- When the configuration passes its validation, a call of AllowN on a limiter made for it is refused
  -- for an invalid number of requests, or else because the limiter is closed, and changes nothing; or it
  -- walks over the rules in their order, without those that are off, and asks the backend for each,
  -- with the limits of the first override whose pattern matches the rendered key, up to the first
  -- failure or denial; its reply is that failure, or that denial, or else a result that allows and
  -- has the least remaining quota of all, or that of no rule if none was asked; and it changes the
  -- state of the backend as the walk does, and nothing else.
  pub allow_n-Decides :
      (rules : List Rule) (n : ℤ) (c : LimiterCore S)
      → validate_rules rules GoMap.make ≡ ok tt
      → c.matcher ≡ new_rule_matcher rules
      → Decides b key rules n c (allow_n b key n c)
  allow_n-Decides rules n c v made =
      rw (allow_n-decide b key rules n c v made) (decide-Decides rules n c)
