-- ===== src/Format/Digits.antt =====
-- The digits that `printnum` prints, and its padding.
use jos_operating_system.Prelude.{
  ℕ, zero, suc, ◌-◌, ◌/◌, ◌%◌, ◌<◌, ◌≡◌, refl, ap, ◌∙◌, true, false, List, [], ◌∷◌, ◌++◌, leb,
  replicate, length, length-append, All, arith, Bool-cases, inl, inr,
}
use mathlib.Core.List.{append_assoc}
use native.Mathlib.Nat.{mod-lt}
use jos_operating_system.Format.{digit_char, last_digits, print_digits}

replicate-suc : (n c : ℕ) (s : List ℕ) → (replicate n c ++ (c ∷ s)) ≡ (replicate (suc n) c ++ s)
replicate-suc zero c s = refl
replicate-suc (suc n) c s = ap (λ t. c ∷ t) (replicate-suc n c s)

length-replicate : (n c : ℕ) → length (replicate n c) ≡ n
length-replicate zero c = refl
length-replicate (suc n) c = ap suc (length-replicate n c)

module _ (base padc : ℕ) where
  pub print_digits-last :
      (fuel num width : ℕ)
      → leb base num ≡ false
      → print_digits fuel num base width padc ≡ last_digits num base width padc
  unfolding print_digits
  print_digits-last zero num width e = refl
  print_digits-last (suc fuel) num width e = rw (e, print_digits) refl

  pub print_digits-more :
      (fuel num width : ℕ)
      → leb base num ≡ true
      → print_digits (suc fuel) num base width padc
        ≡ print_digits fuel (num / base) base (width - 1) padc ++ (digit_char (num % base) ∷ [])
  unfolding print_digits
  print_digits-more fuel num width e = rw (e, print_digits) refl

-- Padding stands in front of the digits, as many characters as they leave of the width.
pub print_digits-padded :
    (fuel num base width padc : ℕ)
    → print_digits fuel num base width padc
      ≡ replicate (width - length (print_digits fuel num base 0 padc)) padc
        ++ print_digits fuel num base 0 padc
print_digits-padded zero num base width padc = unfold print_digits in refl
print_digits-padded (suc fuel) num base width padc = elim (Bool-cases (leb base num)) [
  | inl e ↦
      (let ih = print_digits-padded fuel (num / base) base (width - 1) padc in
        let shorter = print_digits fuel (num / base) base 0 padc in
        let one = digit_char (num % base) ∷ [] in
        let size : width - 1 - length shorter ≡ width - length (shorter ++ one) =
          omega (arith, length-append shorter one) in
        rw (print_digits-more base padc fuel num width e, print_digits-more base padc fuel num 0 e)
          (ap (λ t. t ++ one) ih
            ∙ ap (λ n. (replicate n padc ++ shorter) ++ one) size
            ∙ append_assoc _ shorter one))
  | inr e ↦
      rw
        (
          print_digits-last base padc (suc fuel) num width e,
          print_digits-last base padc (suc fuel) num 0 e,
        )
        refl
]

-- one of the characters that `printnum` takes from its table
abbrev pub IsDigit : ℕ → ℕ → Type 0
IsDigit base c = (d : ℕ) × (d < base) × (c ≡ digit_char d)

All-snoc : (P : ℕ → Type 0) (s : List ℕ) (c : ℕ) → All P s → P c → All P (s ++ (c ∷ []))
All-snoc P [] c h p = (p, tt)
All-snoc P (a ∷ s) c h p = (h.0, All-snoc P s c h.1 p)

module _ (base padc : ℕ) (positive : 0 < base) where
  pub print_digits-IsDigit : (fuel num : ℕ) → All (IsDigit base) (print_digits fuel num base 0 padc)
  print_digits-IsDigit zero num =
      unfold print_digits in ((num % base, mod-lt num positive, refl), tt)
  print_digits-IsDigit (suc fuel) num = elim (Bool-cases (leb base num)) [
    | inl e ↦ rw (print_digits-more base padc fuel num 0 e) (
        All-snoc (IsDigit base) _ _ (print_digits-IsDigit fuel (num / base))
          (num % base, mod-lt num positive, refl))
    | inr e ↦
        rw (print_digits-last base padc (suc fuel) num 0 e)
          ((num % base, mod-lt num positive, refl), tt)
  ]
