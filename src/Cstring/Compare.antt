-- ===== src/Cstring/Compare.antt =====
-- `strcmp` on strings.
use jos_operating_system.Prelude.{
  ℕ, ◌≡◌, ◌↔◌, refl, Option, some, List, [], ◌∷◌, ◌++◌, ap, ◌∙◌, arith,
}
use native.Mathlib.Decide.{ℕ_discrete}
use jos_operating_system.Cstring.{strcmp, Difference, ◌minus◌}
use jos_operating_system.Cstring.Length.{IsString}

-- The comparison ends, and tells the two strings apart or not.
abbrev pub Compared : List ℕ → List ℕ → Option Difference → Type 0
Compared p q o = (x y : ℕ) × (o ≡ some (x minus y)) × ((x ≡ y) ↔ (p ≡ q))

-- `strcmp` of two strings ends within them, and its result is 0 exactly when they are equal.
pub strcmp_iff :
    (p q a b : List ℕ) → IsString p → IsString q → Compared p q (strcmp (p ++ 0 ∷ a) (q ++ 0 ∷ b))
unfolding strcmp
strcmp_iff [] [] a b v w = (0, 0, refl, (λ e. refl, λ e. refl))
strcmp_iff [] (d ∷ q) a b v w = (0, d, refl, (λ e. ground arith, λ e. absurd (ground arith)))
strcmp_iff (c ∷ p) [] a b v w =
    (c, 0, ground arith, (λ e. ground arith, λ e. absurd (ground arith)))
strcmp_iff (c ∷ p) (d ∷ q) a b v w =
    let (x, y, r, same) = strcmp_iff p q a b v.1 w.1 in
    elim (ℕ_discrete c d) [
      | yes e ↦
          (x, y, ground (arith, r), (λ h. ground (arith, same.0 h), λ h. same.1 (ground arith)))
      | no ne ↦ (c, d, ground arith, (λ h. absurd (ne h), λ h. ground arith))
    ]

-- A result of 0 in any object means that the string stands there, with its 0.
pub strcmp_equal :
    (l p b : List ℕ) (x : ℕ)
    → IsString p
    → strcmp l (p ++ 0 ∷ b) ≡ some (x minus x)
    → (rest : List ℕ) × (l ≡ p ++ 0 ∷ rest)
unfolding strcmp
strcmp_equal [] p b x v e = absurd (ground arith)
strcmp_equal (c ∷ l) [] b x v e = (l, ground arith)
strcmp_equal (c ∷ l) (d ∷ p) b x v e = elim (ℕ_discrete c d) [
  | yes same ↦
      (let (rest, at) = strcmp_equal l p b x v.1 (ground arith) in
        (rest, ap (λ t. t ∷ l) same ∙ ap (λ t. d ∷ t) at))
  | no apart ↦ absurd (ground (arith, apart))
]
