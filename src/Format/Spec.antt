-- ===== src/Format/Spec.antt =====
-- `vprintfmt` of lib/printfmt.c: the %-escapes. A `width` or `precision` below 0 is `none`; they are
-- only compared with 0, counted down and given to `strnlen` as a limit. Characters are bytes.
use jos_operating_system.Prelude.{
  ℕ, zero, suc, ◌+◌, ◌-◌, ◌*◌, ◌%◌, ◌^◌, Bool, true, false, Option, none, some, List, [], ◌∷◌, ◌++◌,
  ◌==◌, ◌!=◌, ◌&&◌, ◌||◌, leb, ltb, if◌then◌else◌, replicate, length,
}
use jos_operating_system.Cstring.{later, strlen, strnlen}
use jos_operating_system.Format.{printnum}

-- An argument that `va_arg` reads: an integer, as 64 bits of which a shorter one takes the low ones,
-- or a `char *`, which may be NULL.
pub data Arg : Type 0 where
  int_arg : ℕ → Arg
  str_arg : Option (List ℕ) → Arg

pub record Spec : Type 0 where
  pub padc : ℕ
  pub width : Option ℕ
  pub precision : Option ℕ
  pub lflag : ℕ
  pub altflag : Bool

abbrev pub new_spec : Spec
new_spec = record { padc = b' '; width = none; precision = none; lflag = 0; altflag = false }

abbrev pub nonneg : Option ℕ → ℕ
nonneg none = 0
nonneg (some n) = n

-- an `int` of 32 bits
abbrev pub int_of : ℕ → Option ℕ
int_of a = if ltb (a % 2 ^ 32) (2 ^ 31) then some (a % 2 ^ 32) else none

-- `process_precision`
abbrev pub process_precision : Spec → Spec
process_precision s = elim s.width [
  | none ↦ record s { width = s.precision; precision = none }
  | some w ↦ s
]

-- Behind a character of the escape `reswitch` goes on, with the digits of a number that it is in,
-- or the character is the conversion.
pub data Turn : Type 0 where
  reswitch : Option ℕ → Spec → List Arg → Turn
  convert : Spec → Turn
  no_argument : Turn

abbrev star : Spec → List Arg → Turn
star s [] = no_argument
star s (int_arg a ∷ args) =
    reswitch none (process_precision (record s { precision = int_of a })) args
star s (str_arg p ∷ args) = no_argument

abbrev pub switch : Spec → ℕ → List Arg → Turn
switch s ch args =
    if (ch == b'-') || (ch == b'0')
    then reswitch none (record s { padc = ch }) args
    else if leb b'1' ch && leb ch b'9'
    then reswitch (some (ch - b'0')) s args
    else if ch == b'*'
    then star s args
    else if ch == b'.'
    then reswitch none (record s { width = some (nonneg s.width) }) args
    else if ch == b'#'
    then reswitch none (record s { altflag = true }) args
    else if ch == b'l'
    then reswitch none (record s { lflag = s.lflag + 1 }) args
    else convert s

-- The loop over the digits of a number, then `process_precision`; or the switch.
abbrev pub turn : Option ℕ → Spec → ℕ → List Arg → Turn
turn none s ch args = switch s ch args
turn (some n) s ch args =
    if leb b'0' ch && leb ch b'9'
    then reswitch (some (n * 10 + (ch - b'0'))) s args
    else switch (process_precision (record s { precision = some n })) ch args

-- the conversion of an escape, with what it leaves of the format and the arguments
pub record Escape : Type 0 where
  pub spec : Spec
  pub conversion : ℕ
  pub format : List ℕ
  pub args : List Arg

-- `none` where the format or the arguments end
unfoldable pub read_escape : Option ℕ → Spec → List ℕ → List Arg → Option Escape
read_escape n s [] args = none
read_escape n s (ch ∷ fmt) args = elim (turn n s ch args) [
  | reswitch n' s' args' ↦ read_escape n' s' fmt args'
  | convert s' ↦ some (record { spec = s'; conversion = ch; format = fmt; args = args })
  | no_argument ↦ none
]

-- `number:`
abbrev pub number : Spec → ℕ → ℕ → List ℕ
number s num base = printnum num base (nonneg s.width) s.padc

-- `%d` of a `long long`
abbrev pub decimal : Spec → ℕ → List ℕ
decimal s num =
    if leb (2 ^ 63) num then b'-' ∷ number s ((2 ^ 64 - num) % 2 ^ 64) 10 else number s num 10

-- `getint(&aq, lflag)`, whose `int` is extended by its sign
abbrev pub getint : ℕ → ℕ → ℕ
getint lflag a =
    if lflag != 0
    then a
    else if leb (2 ^ 31) (a % 2 ^ 32)
    then a % 2 ^ 32 + (2 ^ 64 - 2 ^ 32)
    else a % 2 ^ 32

-- the loop of `%s`, which reads a character before it looks at the precision
string_chars : List ℕ → Option ℕ → Option (List ℕ)
string_chars [] precision = none
string_chars (c ∷ p) none =
    let rest = string_chars p none in if c == 0 then some [] else later (λ t. c ∷ t) rest
string_chars (c ∷ p) (some zero) = some []
string_chars (c ∷ p) (some (suc n)) =
    let rest = string_chars p (some n) in if c == 0 then some [] else later (λ t. c ∷ t) rest

-- `strnlen(p, precision)`; a negative limit is beyond every length
abbrev measured : List ℕ → Option ℕ → Option ℕ
measured p none = strlen p
measured p (some n) = strnlen p n

-- `?` for what is not printable, where altflag is set
abbrev shown : Bool → List ℕ → List ℕ
shown alt [] = []
shown alt (c ∷ p) = (if alt && (ltb c b' ' || ltb b'~' c) then b'?' else c) ∷ shown alt p

-- Padding in front, after which the width is not positive; or behind what the loop has printed.
string_padded : Spec → List ℕ → List ℕ → Option (List ℕ)
string_padded s p chars =
    if (nonneg s.width != 0) && (s.padc != b'-')
    then elim (measured p s.precision) [
      | none ↦ none
      | some n ↦ some (replicate (nonneg s.width - n) s.padc ++ shown s.altflag chars)
    ]
    else some (shown s.altflag chars ++ replicate (nonneg s.width - length chars) b' ')

unfoldable pub string : Spec → List ℕ → Option (List ℕ)
unfolding string_chars string_padded
string s p = elim (string_chars p s.precision) [
  | none ↦ none
  | some chars ↦ string_padded s p chars
]
