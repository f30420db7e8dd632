-- ===== src/Prelude/Text.antt =====
-- Texts of the source as lists of bytes.
use Prim.Native.Nat.{ℕ}
use Prim.Native.Char.{code}
use Prim.Native.String.{String, [], ◌∷◌}
use mathlib.Core.List.{List}

-- the bytes of an ASCII text
abbrev pub text : String → List ℕ
text [] = List.[]
text (c ∷ s) = List.◌∷◌ (code c) (text s)
