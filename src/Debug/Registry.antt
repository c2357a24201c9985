-- ===== src/Debug/Registry.antt =====
-- command_registry.go: the commands by name, and the list of those that are allowed.
use xkit.Prelude.{
  ◌≡◌, refl, Bool, true, false, ◌||◌, Option, none, some, List, [], ◌∷◌, String, str_eq,
  if◌then◌else◌, arith,
}
use xkit.GoMap
use xkit.GoMap.{GoMap}

abbrev pub Names : Type 0
Names = GoMap (Unit {0})

-- A command is known by its name; what it does at a call is given with the call.
pub record Registry : Type 0 where
  pub commands : Names
  pub whitelist : Option Names

abbrev pub new_command_registry : Registry
new_command_registry = record { commands = GoMap.make; whitelist = none }

-- `Register`; a nil command is none.
unfoldable pub register : Option String → Registry → Registry
register none g = g
register (some name) g = record g { commands = GoMap.put g.commands name tt }

unfoldable pub unregister : String → Registry → Registry
unregister name g = record g { commands = GoMap.delete g.commands name }

abbrev is_some : Option (Unit {0}) → Bool
is_some none = false
is_some (some u) = true

-- `Get` and `Has`
unfoldable pub has : String → Registry → Bool
has name g = is_some (GoMap.get g.commands name)

abbrev essential : String → Bool
essential name = str_eq name "help" || str_eq name "exit"

unfoldable pub allow_all : List String → Names → Names
allow_all [] m = m
allow_all (name ∷ names) m = allow_all names (GoMap.put m name tt)

-- `SetWhitelist`; nil takes the list away.
unfoldable pub set_whitelist : Option (List String) → Registry → Registry
unfolding allow_all
set_whitelist none g = record g { whitelist = none }
set_whitelist (some names) g = record g { whitelist = some (allow_all names GoMap.make) }

unfoldable pub is_allowed : String → Registry → Bool
is_allowed name g =
    if essential name
    then true
    else elim g.whitelist [ none ↦ true | some m ↦ is_some (GoMap.get m name) ]

-- Whether a name is in a list.
unfoldable pub mentions : String → List String → Bool
mentions name [] = false
mentions name (other ∷ names) = str_eq other name || mentions name names

allow_all-get :
    (names : List String) (m : Names) (name : String)
    → is_some (GoMap.get (allow_all names m) name)
      ≡ (mentions name names || is_some (GoMap.get m name))
unfolding allow_all mentions
allow_all-get [] m name = refl
allow_all-get (other ∷ names) m name =
    ground (arith, allow_all-get names (GoMap.put m other tt) name, GoMap.get-put m other name tt)

-- With a list of allowed names, exactly these and the essential ones are allowed, an empty list
-- included; without one, every name is.
pub is_allowed-set_whitelist :
    (name : String) (names : List String) (g : Registry)
    → (is_allowed name (set_whitelist (some names) g) ≡ (essential name || mentions name names))
      × (is_allowed name (set_whitelist none g) ≡ true)
unfolding is_allowed set_whitelist
is_allowed-set_whitelist name names g =
    ground (arith, allow_all-get names GoMap.make name, GoMap.get-make {V = Unit {0}} name)
