-- ===== src/Cstring/Strtol.antt =====
-- `strtol` of lib/string.c. A `long` is its 64-bit pattern, so that -v is 2 ^ 64 - v; the base is
-- from 0 to 36. The answer has the value and what `*endptr` points to.
use jos_operating_system.Prelude.{
  ℕ, ◌+◌, ◌-◌, ◌*◌, ◌%◌, ◌^◌, Bool, true, false, Option, none, some, List, [], ◌∷◌, ◌==◌, ◌&&◌,
  ◌||◌, leb, if◌then◌else◌,
}

abbrev pub blank : ℕ → Bool
blank c = (c == b' ') || (c == b'\t')

unfoldable pub skip_blanks : List ℕ → List ℕ
skip_blanks [] = []
skip_blanks (c ∷ s) = let rest = skip_blanks s in if blank c then rest else c ∷ s

-- `neg`, and the string behind the sign
abbrev pub take_sign : List ℕ → Bool × List ℕ
take_sign [] = (false, [])
take_sign (c ∷ s) =
    if c == b'+' then (false, s) else if c == b'-' then (true, s) else (false, c ∷ s)

abbrev pub starts_with : ℕ → List ℕ → Bool
starts_with a [] = false
starts_with a (c ∷ s) = c == a

abbrev pub rest_of : List ℕ → List ℕ
rest_of [] = []
rest_of (c ∷ s) = s

-- the base to read in, and the string behind the prefix
abbrev pub take_prefix : ℕ → List ℕ → ℕ × List ℕ
take_prefix base s =
    if ((base == 0) || (base == 16)) && (starts_with b'0' s && starts_with b'x' (rest_of s))
    then (16, rest_of (rest_of s))
    else if (base == 0) && starts_with b'0' s
    then (8, rest_of s)
    else if base == 0
    then (10, s)
    else (base, s)

abbrev pub digit_of : ℕ → Option ℕ
digit_of c =
    if leb b'0' c && leb c b'9'
    then some (c - b'0')
    else if leb b'a' c && leb c b'z'
    then some (c - b'a' + 10)
    else if leb b'A' c && leb c b'Z'
    then some (c - b'A' + 10)
    else none

-- the digit that the loop goes on with
abbrev pub accepted : ℕ → ℕ → Option ℕ
accepted base c = elim (digit_of c) [
  | none ↦ none
  | some dig ↦ if leb base dig then none else some dig
]

unfoldable pub strtol_digits : ℕ → ℕ → List ℕ → Option (ℕ × List ℕ)
strtol_digits base val [] = none
strtol_digits base val (c ∷ s) = elim (accepted base c) [
  | none ↦ some (val, c ∷ s)
  | some dig ↦ strtol_digits base ((val * base + dig) % 2 ^ 64) s
]

abbrev pub signed : Bool → ℕ → ℕ
signed neg val = if neg then (2 ^ 64 - val) % 2 ^ 64 else val

-- the value with its sign
abbrev pub finish : Bool → Option (ℕ × List ℕ) → Option (ℕ × List ℕ)
finish neg none = none
finish neg (some (val, rest)) = some (signed neg val, rest)

abbrev pub read_digits : Bool → ℕ × List ℕ → Option (ℕ × List ℕ)
read_digits neg (radix, s) = finish neg (strtol_digits radix 0 s)

-- behind the sign
abbrev pub read_unsigned : ℕ → Bool × List ℕ → Option (ℕ × List ℕ)
read_unsigned base (neg, s) = read_digits neg (take_prefix base s)

-- `none` where the string is read behind its end
unfoldable pub strtol : List ℕ → ℕ → Option (ℕ × List ℕ)
unfolding skip_blanks strtol_digits
strtol s base = read_unsigned base (take_sign (skip_blanks s))
