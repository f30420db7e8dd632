-- ===== src/Format/Printed.antt =====
-- `%d` and `%*d` of `vprintfmt` in lib/printfmt.c, read back by `strtol`.
use jos_operating_system.Prelude.{
  ℕ, suc, ◌-◌, ◌%◌, ◌^◌, ◌<◌, ◌≡◌, refl, ap, ◌∙◌, false, some, List, [], ◌∷◌, ◌++◌, leb, length,
  arith, lt→ltb,
}
use mathlib.Core.List.{append-nil}
use jos_operating_system.Prelude.Text.{text}
use jos_operating_system.Cstring.Strtol.{strtol}
use jos_operating_system.Format.{printnum}
use jos_operating_system.Format.Spec.{int_arg, int_of, Spec, new_spec, read_escape, decimal}
use jos_operating_system.Format.Vprintfmt.{
  integer, conversion_of, converted, vprintfmt_loop, vprintfmt,
}
use jos_operating_system.Format.ReadBack.{strtol-decimal, strtol-minus_padded}

vprintfmt-decimal :
    (a : ℕ) → vprintfmt (text "%d" ++ (0 ∷ [])) (int_arg a ∷ []) ≡ some (some (decimal new_spec a))
unfolding vprintfmt vprintfmt_loop read_escape converted conversion_of integer
vprintfmt-decimal a = ap (λ l. some (some l)) (append-nil (decimal new_spec a))

-- What `%d` prints of a `long long` is read back by `strtol` in base 10 to the same number, negative
-- ones included.
pub strtol-vprintfmt :
    (a : ℕ) (s : List ℕ)
    → a < 2 ^ 64
    → (out : List ℕ) × (vprintfmt (text "%d" ++ (0 ∷ [])) (int_arg a ∷ []) ≡ some (some out))
      × (strtol (out ++ (0 ∷ s)) 10 ≡ some (a, 0 ∷ s))
strtol-vprintfmt a s fits = (decimal new_spec a, vprintfmt-decimal a, strtol-decimal a s fits)

int_of-some : (w : ℕ) → w < 2 ^ 31 → int_of w ≡ some w
int_of-some w h = let low : w % 2 ^ 32 ≡ w = omega arith in rw (low, lt→ltb w (2 ^ 31) h) refl

abbrev minus_spec : ℕ → Spec
minus_spec w = record new_spec { padc = b'-'; width = some w }

vprintfmt-minus :
    (w a : ℕ)
    → w < 2 ^ 31
    → vprintfmt (text "%-*d" ++ (0 ∷ [])) (int_arg w ∷ int_arg a ∷ [])
      ≡ some (some (decimal (minus_spec w) a))
unfolding vprintfmt vprintfmt_loop read_escape converted conversion_of integer
vprintfmt-minus w a h =
    ap (λ o. some (some (decimal (record new_spec { padc = b'-'; width = o }) a ++ [])))
      (int_of-some w h)
    ∙ ap (λ l. some (some l)) (append-nil (decimal (minus_spec w) a))

-- The flag `-` makes `vprintfmt` pad with minus signs in front: a number below 2 ^ 63 that `%-*d` prints
-- one character wider than its digits is read back by `strtol` as its negation.
pub strtol-vprintfmt_minus :
    (w num : ℕ) (s : List ℕ)
    → num < 2 ^ 63
    → w ≡ suc (length (printnum num 10 0 b'-'))
    → w < 2 ^ 31
    → (out : List ℕ) × (vprintfmt (text "%-*d" ++ (0 ∷ [])) (int_arg w ∷ int_arg num ∷ [])
        ≡ some (some out))
      × (strtol (out ++ (0 ∷ s)) 10 ≡ some ((2 ^ 64 - num) % 2 ^ 64, 0 ∷ s))
strtol-vprintfmt_minus w num s fits e small =
    let plus : leb (2 ^ 63) num ≡ false = ground arith in
    let read : strtol (printnum num 10 w b'-' ++ (0 ∷ s)) 10
        ≡ some ((2 ^ 64 - num) % 2 ^ 64, 0 ∷ s) =
      rw e (strtol-minus_padded num s (omega arith)) in
    (decimal (minus_spec w) num, vprintfmt-minus w num small, rw plus read)
