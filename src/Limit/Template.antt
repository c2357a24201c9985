-- ===== src/Limit/Template.antt =====
-- key.go: Key and Render. `template[i:]` is the rest of a list; b'$', b'{' and b'}' are 36, 123 and 125.
use xkit.Prelude.{
  codes, ℕ, zero, suc, ◌-◌, Bool, true, false, ◌&&◌, ◌==◌, Option, none, some, [], ◌∷◌, ◌++◌,
  length, take, drop, if◌then◌else◌,
}
use xkit.Limit.{Bytes}

unfoldable pub bytes_eq : Bytes → Bytes → Bool
bytes_eq [] [] = true
bytes_eq (x ∷ xs) (y ∷ ys) = x == y && bytes_eq xs ys
bytes_eq _ _ = false

-- `extra` is a nil map, or a map.
pub record Key : Type 0 where
  pub tenant : Bytes
  pub caller : Bytes
  pub method : Bytes
  pub path : Bytes
  pub resource : Bytes
  pub extra : Option (Bytes → Option Bytes)

-- The text before the first "${", and the text from it on, which is empty if there is none.
abbrev pub starts_open : Bytes → Bool
starts_open (c ∷ d ∷ rest) = c == 36 && d == 123
starts_open _ = false

unfoldable pub cut_open : Bytes → Bytes × Bytes
cut_open [] = ([], [])
cut_open (c ∷ s) =
    let (before, rest) = cut_open s in
    if starts_open (c ∷ s) then ([], c ∷ s) else (c ∷ before, rest)

-- The text up to and with the first "}", and the text after it.
abbrev pub push : ℕ → Option (Bytes × Bytes) → Option (Bytes × Bytes)
push c none = none
push c (some (name, rest)) = some (c ∷ name, rest)

unfoldable pub cut_close : Bytes → Option (Bytes × Bytes)
cut_close [] = none
cut_close (c ∷ s) = let later = cut_close s in if c == 125 then some (c ∷ [], s) else push c later

abbrev pub or_empty : Option Bytes → Bytes
or_empty none = []
or_empty (some v) = v

-- `varName[2 : len(varName)-1]`
abbrev pub inner_name : Bytes → Bytes
inner_name var_name = drop 2 (take (length var_name - 1) var_name)

abbrev pub look_up : Option (Bytes → Option Bytes) → Bytes → Bytes
look_up none name = []
look_up (some m) name = or_empty (m name)

unfoldable pub resolve_var : Key → Bytes → Bytes
unfolding bytes_eq
resolve_var k var_name =
    if bytes_eq var_name (codes "${tenant_id}")
    then k.tenant
    else if bytes_eq var_name (codes "${caller_id}")
    then k.caller
    else if bytes_eq var_name (codes "${method}")
    then k.method
    else if bytes_eq var_name (codes "${path}")
    then k.path
    else if bytes_eq var_name (codes "${resource}")
    then k.resource
    else look_up k.extra (inner_name var_name)

abbrev pub expand : Key → (Bytes → Bytes) → Bytes → Option (Bytes × Bytes) → Bytes
expand k go_on rest none = rest
expand k go_on rest (some (name, after)) = resolve_var k name ++ go_on after

abbrev pub expand_rest : Key → (Bytes → Bytes) → Bytes × Bytes → Bytes
expand_rest k go_on (before, []) = before
expand_rest k go_on (before, c ∷ rest) = before ++ expand k go_on (c ∷ rest) (cut_close (c ∷ rest))

-- The loop of Render; each round takes a variable off the text, so its length is fuel enough.
unfoldable pub render_loop : Key → ℕ → Bytes → Bytes
unfolding cut_open cut_close resolve_var
render_loop k zero s = s
render_loop k (suc fuel) s = expand_rest k (render_loop k fuel) (cut_open s)

abbrev pub is_static : Bytes × Bytes → Bool
is_static (before, []) = true
is_static (before, c ∷ rest) = false

unfoldable pub render : Key → Bytes → Bytes
unfolding render_loop
render k template =
    if is_static (cut_open template) then template else render_loop k (length template) template
