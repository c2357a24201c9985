-- ===== src/Limit/Rendering.antt =====
-- Render puts for each variable of a template its value.
use xkit.Prelude.{
  ℕ, zero, suc, ◌-◌, ◌≤◌, ◌≡◌, ◌≢◌, refl, sym, ap, ◌∙◌, inl, inr, Bool, true, false, ◌&&◌, ◌==◌,
  Option, some, List, [], ◌∷◌, ◌++◌, length, take, drop, if◌then◌else◌, Bool-cases, All, arith,
  append_assoc, length-append, take-append, if-elim,
}
use xkit.Prelude.{codes}
use xkit.Limit.{Bytes}
use xkit.Limit.Template.{
  Key, bytes_eq, starts_open, cut_open, push, cut_close, resolve_var, look_up, inner_name, expand,
  expand_rest, render_loop, is_static, render,
}

-- A template: texts without '$', and names without '}'.
pub data Segment : Type 0 where
  plain : Bytes → Segment
  variable : Bytes → Segment

abbrev pub IsWellFormed : Segment → Type 0
IsWellFormed (plain t) = All (λ (c : ℕ). c ≢ 36) t
IsWellFormed (variable name) = All (λ (c : ℕ). c ≢ 125) name

abbrev pub template_of : List Segment → Bytes
template_of [] = []
template_of (plain t ∷ segments) = t ++ template_of segments
template_of (variable name ∷ segments) = 36 ∷ 123 ∷ (name ++ 125 ∷ template_of segments)

-- The value of a name: a field of the key, or an extra one, or nothing.
unfoldable pub value_of : Key → Bytes → Bytes
unfolding bytes_eq
value_of k name =
    if bytes_eq name (codes "tenant_id")
    then k.tenant
    else if bytes_eq name (codes "caller_id")
    then k.caller
    else if bytes_eq name (codes "method")
    then k.method
    else if bytes_eq name (codes "path")
    then k.path
    else if bytes_eq name (codes "resource")
    then k.resource
    else look_up k.extra name

abbrev pub values : Key → List Segment → Bytes
values k [] = []
values k (plain t ∷ segments) = t ++ values k segments
values k (variable name ∷ segments) = value_of k name ++ values k segments

wrapped : Bytes → Bytes
wrapped name = 36 ∷ 123 ∷ (name ++ 125 ∷ [])

bytes_eq-wrapped :
    (n m : Bytes)
    → All (λ (c : ℕ). c ≢ 125) n
    → All (λ (c : ℕ). c ≢ 125) m
    → bytes_eq (n ++ 125 ∷ []) (m ++ 125 ∷ []) ≡ bytes_eq n m
unfolding bytes_eq
bytes_eq-wrapped [] [] p q = refl
bytes_eq-wrapped [] (y ∷ []) p (q, qs) = ground arith
bytes_eq-wrapped [] (y ∷ z ∷ m) p (q, qs) = ground arith
bytes_eq-wrapped (x ∷ []) [] (p, ps) q = ground arith
bytes_eq-wrapped (x ∷ z ∷ n) [] (p, ps) q = ground arith
bytes_eq-wrapped (x ∷ n) (y ∷ m) (p, ps) (q, qs) =
    ap (λ (b : Bool). x == y && b) (bytes_eq-wrapped n m ps qs)

inner_name-wrapped : (name : Bytes) → inner_name (wrapped name) ≡ name
unfolding wrapped
inner_name-wrapped name =
    let size : length (wrapped name) - 1 ≡ suc (suc (length name)) =
      omega (arith, length-append name (125 ∷ [])) in
    ap (λ (n : ℕ). drop 2 (take n (wrapped name))) size ∙ take-append name (125 ∷ [])

resolve_var-wrapped :
    (k : Key) (name : Bytes)
    → All (λ (c : ℕ). c ≢ 125) name
    → resolve_var k (wrapped name) ≡ value_of k name
unfolding resolve_var value_of wrapped inner_name-wrapped
resolve_var-wrapped k name h =
    rw
      (
        bytes_eq-wrapped name (codes "tenant_id") h (ground arith),
        bytes_eq-wrapped name (codes "caller_id") h (ground arith),
        bytes_eq-wrapped name (codes "method") h (ground arith),
        bytes_eq-wrapped name (codes "path") h (ground arith),
        bytes_eq-wrapped name (codes "resource") h (ground arith),
        inner_name-wrapped name,
      )
      refl

starts_open-other : (c : ℕ) (s : Bytes) → c ≢ 36 → starts_open (c ∷ s) ≡ false
starts_open-other c [] h = refl
starts_open-other c (d ∷ s) h = ground arith

cut_open-plain :
    (t s : Bytes)
    → All (λ (c : ℕ). c ≢ 36) t
    → cut_open (t ++ s) ≡ (t ++ (cut_open s).0, (cut_open s).1)
unfolding cut_open
cut_open-plain [] s h = refl
cut_open-plain (c ∷ t) s (h, hs) = rw (starts_open-other c (t ++ s) h, cut_open-plain t s hs) refl

cut_close-name :
    (name s : Bytes)
    → All (λ (c : ℕ). c ≢ 125) name
    → cut_close (name ++ 125 ∷ s) ≡ some (name ++ 125 ∷ [], s)
unfolding cut_close
cut_close-name [] s h = refl
cut_close-name (c ∷ name) s (h, hs) = ground (arith, cut_close-name name s hs)

cut_close-wrapped :
    (name s : Bytes)
    → All (λ (c : ℕ). c ≢ 125) name
    → cut_close (36 ∷ 123 ∷ (name ++ 125 ∷ s)) ≡ some (wrapped name, s)
unfolding cut_close wrapped
cut_close-wrapped name s h =
    ap (λ (o : Option (Bytes × Bytes)). push 36 (push 123 o)) (cut_close-name name s h)

expand_rest-append :
    (k : Key) (go_on : Bytes → Bytes) (t before rest : Bytes)
    → expand_rest k go_on (t ++ before, rest) ≡ t ++ expand_rest k go_on (before, rest)
expand_rest-append k go_on t before [] = refl
expand_rest-append k go_on t before (c ∷ rest) =
    append_assoc t before (expand k go_on (c ∷ rest) (cut_close (c ∷ rest)))

-- A text before the rest is put out as it is.
render_loop-plain :
    (k : Key) (fuel : ℕ) (t s : Bytes)
    → All (λ (c : ℕ). c ≢ 36) t
    → render_loop k fuel (t ++ s) ≡ t ++ render_loop k fuel s
unfolding render_loop
render_loop-plain k zero t s h = refl
render_loop-plain k (suc fuel) t s h =
    ap (expand_rest k (render_loop k fuel)) (cut_open-plain t s h)
    ∙ expand_rest-append k (render_loop k fuel) t (cut_open s).0 (cut_open s).1

variables : List Segment → ℕ
variables [] = 0
variables (plain t ∷ segments) = variables segments
variables (variable name ∷ segments) = suc (variables segments)

render_loop-values :
    (k : Key) (segments : List Segment) (fuel : ℕ)
    → All IsWellFormed segments
    → variables segments ≤ fuel
    → render_loop k fuel (template_of segments) ≡ values k segments
unfolding render_loop variables
render_loop-values k [] zero ok h = refl
render_loop-values k [] (suc fuel) ok h = refl
render_loop-values k (plain t ∷ segments) fuel (ok, oks) h =
    render_loop-plain k fuel t (template_of segments) ok
    ∙ ap (λ (s : Bytes). t ++ s) (render_loop-values k segments fuel oks h)
render_loop-values k (variable name ∷ segments) zero (ok, oks) h = absurd (omega arith)
render_loop-values k (variable name ∷ segments) (suc fuel) (ok, oks) h =
    let rest : Bytes = 36 ∷ 123 ∷ (name ++ 125 ∷ template_of segments) in
    ap (expand k (render_loop k fuel) rest) (cut_close-wrapped name (template_of segments) ok)
    ∙ ap (λ (v : Bytes). v ++ render_loop k fuel (template_of segments))
        (resolve_var-wrapped k name ok)
    ∙ ap (λ (v : Bytes). value_of k name ++ v)
        (render_loop-values k segments fuel oks (omega arith))

variables-le-length : (segments : List Segment) → variables segments ≤ length (template_of segments)
unfolding variables
variables-le-length [] = omega arith
variables-le-length (plain t ∷ segments) =
    omega (arith, variables-le-length segments, length-append t (template_of segments))
variables-le-length (variable name ∷ segments) =
    omega (arith, variables-le-length segments, length-append name (125 ∷ template_of segments))

cut_open-whole : (s : Bytes) → is_static (cut_open s) ≡ true → (cut_open s).0 ≡ s
unfolding cut_open
cut_open-whole [] h = refl
cut_open-whole (c ∷ s) h = elim (Bool-cases (starts_open (c ∷ s))) [
  | inl opens ↦ absurd (ground arith)
  | inr other ↦ rw other (ap (λ (t : Bytes). c ∷ t) (cut_open-whole s (rw other at h)))
]

expand_rest-static :
    (k : Key) (go_on : Bytes → Bytes) (cut : Bytes × Bytes)
    → is_static cut ≡ true
    → expand_rest k go_on cut ≡ cut.0
expand_rest-static k go_on (before, []) h = refl
expand_rest-static k go_on (before, c ∷ rest) h = absurd (cc)

render_loop-static :
    (k : Key) (fuel : ℕ) (s : Bytes) → is_static (cut_open s) ≡ true → render_loop k fuel s ≡ s
unfolding render_loop
render_loop-static k zero s h = refl
render_loop-static k (suc fuel) s h =
    expand_rest-static k (render_loop k fuel) (cut_open s) h ∙ cut_open-whole s h

-- A template renders to its texts with the values of its variables in their places; a variable that
-- the key does not have is rendered as nothing.
pub render-values :
    (k : Key) (segments : List Segment)
    → All IsWellFormed segments
    → render k (template_of segments) ≡ values k segments
unfolding render
render-values k segments ok =
    let t : Bytes = template_of segments in
    let spec : render_loop k (length t) t ≡ values k segments =
      render_loop-values k segments (length t) ok (variables-le-length segments) in
    if-elim (λ (r : Bytes). r ≡ values k segments) (is_static (cut_open t)) t
      (render_loop k (length t) t) (λ h. sym (render_loop-static k (length t) t h) ∙ spec)
      (λ h. spec)
