-- ===== src/Prelude/Texts.antt =====
-- Texts as the bytes of their UTF-8.
use Prim.Native.Char.{code}
use Prim.Native.String
use Prim.Native.Nat.{ℕ}
use mathlib.Core.List.{List, [], ◌∷◌}

-- The bytes of an ASCII text.
abbrev pub codes : String.String → List ℕ
codes String.[] = []
codes (String.◌∷◌ c s) = code c ∷ codes s
