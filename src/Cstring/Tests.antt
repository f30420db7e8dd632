-- ===== src/Cstring/Tests.antt =====
-- The theorems on strings at "ab" and "ac", with a byte 9 behind them.
use jos_operating_system.Prelude.{ℕ, List, [], ◌∷◌, arith}
use jos_operating_system.Cstring.Length.{IsString}

abbrev ab : List ℕ
ab = 97 ∷ 98 ∷ []

abbrev ac : List ℕ
ac = 97 ∷ 99 ∷ []

ab-IsString : IsString ab
ab-IsString = (ground arith, (ground arith, tt))

ac-IsString : IsString ac
ac-IsString = (ground arith, (ground arith, tt))
