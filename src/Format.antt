-- ===== src/Format.antt =====
-- `printnum` of lib/printfmt.c. What a function prints is the list of the values that it hands to
-- `putch`, in this order. A width that is not positive is 0: it is only counted down and compared
-- with 0.
pub mod Spec
pub mod Vprintfmt
pub mod Digits
pub mod ReadBack
pub mod Loop
pub mod Buffer
pub mod Printed
mod Tests
use jos_operating_system.Prelude.{
  ℕ, zero, suc, ◌+◌, ◌-◌, ◌*◌, ◌/◌, ◌%◌, ◌^◌, Bool, true, false, Option, none, some, List, [], ◌∷◌,
  ◌++◌, ◌==◌, ◌&&◌, ◌||◌, leb, ltb, if◌then◌else◌, replicate,
}

-- `"0123456789abcdef"[d]`
abbrev pub digit_char : ℕ → ℕ
digit_char d = if ltb d 10 then b'0' + d else b'a' + (d - 10)

-- `while (--width > 0) putch(padc, putdat)`, and the digit
abbrev pub last_digits : ℕ → ℕ → ℕ → ℕ → List ℕ
last_digits num base width padc = replicate (width - 1) padc ++ (digit_char (num % base) ∷ [])

-- The calls of `printnum`, at most `fuel` of them below this one.
unfoldable pub print_digits : ℕ → ℕ → ℕ → ℕ → ℕ → List ℕ
print_digits zero num base width padc = last_digits num base width padc
print_digits (suc fuel) num base width padc = elim (leb base num) [
  | true ↦ print_digits fuel (num / base) base (width - 1) padc ++ (digit_char (num % base) ∷ [])
  | false ↦ last_digits num base width padc
]

-- From base 2 on each call divides the number, so that `num` calls are enough.
unfoldable pub printnum : ℕ → ℕ → ℕ → ℕ → List ℕ
unfolding print_digits
printnum num base width padc = print_digits num num base width padc
