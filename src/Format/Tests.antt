-- ===== src/Format/Tests.antt =====
-- The theorems on printing at small numbers, and the formats of the source at some arguments.
use jos_operating_system.Prelude.{
  ℕ, ◌-◌, ◌^◌, ◌%◌, ◌≡◌, refl, some, none, List, [], ◌∷◌, ◌++◌, arith,
}
use jos_operating_system.Prelude.Text.{text}
use jos_operating_system.Cstring.Strtol.{strtol}
use jos_operating_system.Format.{printnum, print_digits}
use jos_operating_system.Format.Spec.{int_arg}
use jos_operating_system.Format.Vprintfmt.{vprintfmt}
use jos_operating_system.Format.ReadBack.{strtol-printnum}
use jos_operating_system.Format.Printed.{strtol-vprintfmt, strtol-vprintfmt_minus}
use jos_operating_system.Format.Loop.{vprintfmt_ends}

strtol-printnum_example : strtol (printnum 255 16 8 b' ' ++ (0 ∷ [])) 16 ≡ some (255, 0 ∷ [])
strtol-printnum_example = strtol-printnum 255 16 8 [] (omega arith) (omega arith) (omega arith)

strtol-vprintfmt_example :
    (out : List ℕ) × (vprintfmt (text "%d" ++ (0 ∷ [])) (int_arg (2 ^ 64 - 42) ∷ [])
      ≡ some (some out))
    × (strtol (out ++ (0 ∷ [])) 10 ≡ some (2 ^ 64 - 42, 0 ∷ []))
strtol-vprintfmt_example = strtol-vprintfmt (2 ^ 64 - 42) [] (omega arith)

strtol-vprintfmt_minus_example :
    (out : List ℕ) × (vprintfmt (text "%-*d" ++ (0 ∷ [])) (int_arg 3 ∷ int_arg 42 ∷ [])
      ≡ some (some out))
    × (strtol (out ++ (0 ∷ [])) 10 ≡ some ((2 ^ 64 - 42) % 2 ^ 64, 0 ∷ []))
unfolding printnum print_digits
strtol-vprintfmt_minus_example = strtol-vprintfmt_minus 3 42 [] (omega arith) refl (omega arith)

vprintfmt_ends_example : ¬ (vprintfmt (text "%q%" ++ (0 ∷ [])) [] ≡ some none)
vprintfmt_ends_example = vprintfmt_ends (text "%q%" ++ (0 ∷ [])) []

abbrev printed_value : List ℕ
printed_value = text "n =   -7|ab"
