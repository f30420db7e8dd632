-- ===== src/Format/ReadBack.antt =====
-- `strtol` of lib/string.c on what `printnum` and `%d` of lib/printfmt.c print.
use jos_operating_system.Prelude.{
  ℕ, zero, suc, ◌+◌, ◌-◌, ◌*◌, ◌/◌, ◌%◌, ◌^◌, ◌<◌, ◌≤◌, ◌≡◌, refl, ap, ◌∙◌, true, false, some, List,
  [], ◌∷◌, ◌++◌, ◌==◌, leb, replicate, length, All, arith, Bool-cases, inl, inr,
}
use mathlib.Core.List.{append_assoc}
use native.Mathlib.Nat.{mod-lt, mod-eq_of_lt, div-lt_self, div-add-mod'}
use jos_operating_system.Cstring.Strtol.{
  blank, skip_blanks, take_sign, take_prefix, accepted, strtol_digits, strtol, finish, read_digits,
  read_unsigned,
}
use jos_operating_system.Format.{digit_char, print_digits, printnum}
use jos_operating_system.Format.Digits.{
  print_digits-last, print_digits-more, print_digits-padded, IsDigit, print_digits-IsDigit,
}
use jos_operating_system.Format.Spec.{new_spec, decimal}

module _ (base : ℕ) (least : 2 ≤ base) (most : base ≤ 16) where
  accepted-digit_char : (d : ℕ) → d < base → accepted base (digit_char d) ≡ some d
  accepted-digit_char d h = ground arith

  strtol_digits-digit_char :
      (val d : ℕ) (s : List ℕ)
      → d < base
      → strtol_digits base val (digit_char d ∷ s) ≡ strtol_digits base ((val * base + d) % 2 ^ 64) s
  unfolding strtol_digits
  strtol_digits-digit_char val d s h = rw (accepted-digit_char d h, strtol_digits) refl

  one_digit :
      (num : ℕ) → leb base num ≡ false → num < 2 ^ 64 → (0 * base + num % base) % 2 ^ 64 ≡ num
  one_digit num e fits =
      let low : num % base ≡ num = mod-eq_of_lt (ground arith) in rw low (omega arith)

  next_digit : (num : ℕ) → num < 2 ^ 64 → (num / base * base + num % base) % 2 ^ 64 ≡ num
  next_digit num fits = rw (div-add-mod' num base) (omega arith)

  -- Reading the digits of a number gives the number.
  strtol_digits-print_digits :
      (fuel num padc : ℕ) (s : List ℕ)
      → num ≤ fuel
      → num < 2 ^ 64
      → strtol_digits base 0 (print_digits fuel num base 0 padc ++ s) ≡ strtol_digits base num s
  strtol_digits-print_digits zero num padc s enough fits =
      let e : leb base num ≡ false = ground arith in
      rw (print_digits-last base padc zero num 0 e) (
        strtol_digits-digit_char 0 (num % base) s (mod-lt num (omega arith))
        ∙ ap (λ v. strtol_digits base v s) (one_digit num e fits))
  strtol_digits-print_digits (suc fuel) num padc s enough fits = elim (Bool-cases (leb base num)) [
    | inl e ↦
        (let c = digit_char (num % base) in
          let less : num / base < num = div-lt_self (ground arith) least in
          let ih =
            strtol_digits-print_digits fuel (num / base) padc (c ∷ s) (omega arith) (omega arith) in
          rw (print_digits-more base padc fuel num 0 e) (
            ap (λ l. strtol_digits base 0 l)
              (append_assoc (print_digits fuel (num / base) base 0 padc) (c ∷ []) s)
            ∙ ih
            ∙ strtol_digits-digit_char (num / base) (num % base) s (mod-lt num (omega arith))
            ∙ ap (λ v. strtol_digits base v s) (next_digit num fits)))
    | inr e ↦ rw (print_digits-last base padc (suc fuel) num 0 e) (
        strtol_digits-digit_char 0 (num % base) s (mod-lt num (omega arith))
        ∙ ap (λ v. strtol_digits base v s) (one_digit num e fits))
  ]

  strtol_digits-end : (val : ℕ) (s : List ℕ) → strtol_digits base val (0 ∷ s) ≡ some (val, 0 ∷ s)
  unfolding strtol_digits
  strtol_digits-end val s = refl

  -- No digit is blank, a sign or the `x` of a prefix.
  plain :
      (c : ℕ) (s : List ℕ)
      → IsDigit base c
      → (skip_blanks (c ∷ s) ≡ c ∷ s)
        × ((take_sign (c ∷ s) ≡ (false, c ∷ s)) × ((c == b'x') ≡ false))
  unfolding skip_blanks
  plain c s (d, h, e) =
      let no_blank : blank c ≡ false = ground arith in
      let no_x : (c == b'x') ≡ false = ground arith in (ground arith, (ground arith, no_x))

  no_prefix :
      (l s : List ℕ) → All (IsDigit base) l → take_prefix base (l ++ (0 ∷ s)) ≡ (base, l ++ (0 ∷ s))
  no_prefix [] s h = ground arith
  no_prefix (c ∷ []) s h = ground arith
  no_prefix (c ∷ d ∷ l) s h = ground (arith, plain d l h.1.0)

  strtol-digits :
      (l s : List ℕ) (val : ℕ)
      → All (IsDigit base) l
      → strtol_digits base 0 (l ++ (0 ∷ s)) ≡ some (val, 0 ∷ s)
      → strtol (l ++ (0 ∷ s)) base ≡ some (val, 0 ∷ s)
  unfolding strtol
  strtol-digits [] s val h e =
      ap (λ x. read_digits false x) (no_prefix [] s tt) ∙ ap (λ o. finish false o) e
  strtol-digits (c ∷ l) s val h e =
      let (skip, (sign, _)) = plain c (l ++ (0 ∷ s)) h.0 in
      ap (λ x. read_unsigned base (take_sign x)) skip
      ∙ ap (λ x. read_unsigned base x) sign
      ∙ ap (λ x. read_digits false x) (no_prefix (c ∷ l) s h)
      ∙ ap (λ o. finish false o) e

  strtol-minus :
      (l s : List ℕ) (val : ℕ)
      → All (IsDigit base) l
      → strtol_digits base 0 (l ++ (0 ∷ s)) ≡ some (val, 0 ∷ s)
      → strtol (b'-' ∷ (l ++ (0 ∷ s))) base ≡ some ((2 ^ 64 - val) % 2 ^ 64, 0 ∷ s)
  unfolding strtol skip_blanks
  strtol-minus l s val h e =
      ap (λ x. read_digits true x) (no_prefix l s h) ∙ ap (λ o. finish true o) e

strtol-blanks : (k base : ℕ) (s : List ℕ) → strtol (replicate k b' ' ++ s) base ≡ strtol s base
unfolding strtol skip_blanks
strtol-blanks zero base s = refl
strtol-blanks (suc k) base s = strtol-blanks k base s

digits-read :
    (num base padc : ℕ) (s : List ℕ)
    → 2 ≤ base
    → base ≤ 16
    → num < 2 ^ 64
    → strtol_digits base 0 (printnum num base 0 padc ++ (0 ∷ s)) ≡ some (num, 0 ∷ s)
unfolding printnum
digits-read num base padc s least most fits =
    strtol_digits-print_digits base least most num num padc (0 ∷ s) (omega arith) fits
    ∙ strtol_digits-end base least most num s

printnum-IsDigit : (num base padc : ℕ) → 0 < base → All (IsDigit base) (printnum num base 0 padc)
unfolding printnum
printnum-IsDigit num base padc positive = print_digits-IsDigit base padc positive num num

-- What `printnum` prints in a base from 2 to 16, blanks in front up to any width, is read back by
-- `strtol` in this base to the number, up to the end of the string.
pub strtol-printnum :
    (num base width : ℕ) (s : List ℕ)
    → 2 ≤ base
    → base ≤ 16
    → num < 2 ^ 64
    → strtol (printnum num base width b' ' ++ (0 ∷ s)) base ≡ some (num, 0 ∷ s)
unfolding printnum
strtol-printnum num base width s least most fits =
    let l = print_digits num num base 0 b' ' in
    let k = width - length l in
    ap (λ t. strtol (t ++ (0 ∷ s)) base) (print_digits-padded num num base width b' ')
    ∙ ap (λ t. strtol t base) (append_assoc (replicate k b' ') l (0 ∷ s))
    ∙ strtol-blanks k base (l ++ (0 ∷ s))
    ∙ strtol-digits base least most l s num (printnum-IsDigit num base b' ' (omega arith))
        (digits-read num base b' ' s least most fits)

negated : (a : ℕ) → a < 2 ^ 64 → (2 ^ 64 - (2 ^ 64 - a) % 2 ^ 64) % 2 ^ 64 ≡ a
negated a fits = omega arith

-- `%d` of a `long long`, without a width, is read back by `strtol` in base 10 to the same number,
-- negative ones included.
pub strtol-decimal :
    (a : ℕ) (s : List ℕ) → a < 2 ^ 64 → strtol (decimal new_spec a ++ (0 ∷ s)) 10 ≡ some (a, 0 ∷ s)
strtol-decimal a s fits = elim (Bool-cases (leb (2 ^ 63) a)) [
  | inl e ↦
      (let num = (2 ^ 64 - a) % 2 ^ 64 in
        let back : (2 ^ 64 - num) % 2 ^ 64 ≡ a = negated a fits in
        let r =
          strtol-minus 10 (omega arith) (omega arith) (printnum num 10 0 b' ') s num
            (printnum-IsDigit num 10 b' ' (omega arith))
            (digits-read num 10 b' ' s (omega arith) (omega arith) (omega arith)) in
        rw e (r ∙ ap (λ v. some (v, 0 ∷ s)) back))
  | inr e ↦ rw e (strtol-printnum a 10 0 s (omega arith) (omega arith) fits)
]

-- The number that `%-` prints one character wider than its digits has a minus sign in front: `strtol`
-- reads its negation.
pub strtol-minus_padded :
    (num : ℕ) (s : List ℕ)
    → num < 2 ^ 64
    → strtol (printnum num 10 (suc (length (printnum num 10 0 b'-'))) b'-' ++ (0 ∷ s)) 10
      ≡ some ((2 ^ 64 - num) % 2 ^ 64, 0 ∷ s)
unfolding printnum
strtol-minus_padded num s fits =
    let l = print_digits num num 10 0 b'-' in
    let one : suc (length l) - length l ≡ 1 = omega arith in
    ap (λ t. strtol (t ++ (0 ∷ s)) 10) (print_digits-padded num num 10 (suc (length l)) b'-')
    ∙ ap (λ k. strtol ((replicate k b'-' ++ l) ++ (0 ∷ s)) 10) one
    ∙ strtol-minus 10 (omega arith) (omega arith) l s num
        (printnum-IsDigit num 10 b'-' (omega arith))
        (digits-read num 10 b'-' s (omega arith) (omega arith) fits)
