-- ===== src/Format/Buffer.antt =====
-- What `vsnprintf` of lib/printfmt.c leaves in its buffer.
use jos_operating_system.Prelude.{ℕ, ◌%◌, List, [], ◌∷◌}

-- the values as a `char` stores them
abbrev pub bytes : List ℕ → List ℕ
bytes [] = []
bytes (ch ∷ out) = ch % 256 ∷ bytes out
