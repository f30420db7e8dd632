-- ===== src/Format/Vprintfmt.antt =====
-- `vprintfmt`, `printfmt` and `vsnprintf` of lib/printfmt.c.
use Prim.Native.String.{String}
use jos_operating_system.Prelude.{
  ℕ, zero, suc, ◌+◌, ◌-◌, ◌%◌, ◌^◌, Bool, true, false, Option, none, some, List, [], ◌∷◌, ◌++◌,
  ◌==◌, ◌!=◌, ◌||◌, leb, ltb, if◌then◌else◌, length, not,
}
use jos_operating_system.Prelude.Text.{text}
use jos_operating_system.Cstring.{later}
use jos_operating_system.Format.{printnum}
use jos_operating_system.Format.Spec.{
  Arg, int_arg, str_arg, Spec, new_spec, Escape, read_escape, number, decimal, getint, string,
}

abbrev pub maxerror : ℕ
maxerror = 22

-- `error_string`, which has no text for E_NO_SYS and for what comes behind E_NOT_SUPP up to MAXERROR
error_string : ℕ → Option String
error_string err =
    if err == 1
    then some "unspecified error"
    else if err == 2
    then some "bad environment"
    else if err == 3
    then some "invalid parameter"
    else if err == 4
    then some "out of memory"
    else if err == 5
    then some "out of environments"
    else if err == 6
    then some "segmentation fault"
    else if err == 8
    then some "env is not recving"
    else if err == 9
    then some "unexpected end of file"
    else if err == 10
    then some "no free space on disk"
    else if err == 11
    then some "too many files are open"
    else if err == 12
    then some "file or block not found"
    else if err == 13
    then some "invalid path"
    else if err == 14
    then some "file already exists"
    else if err == 15
    then some "file is not a valid executable"
    else if err == 16
    then some "operation not supported"
    else none

-- `printfmt(putch, putdat, "%s", p)` or `"error %d"` of an error's number
error_text : ℕ → List ℕ
unfolding error_string
error_text err = elim (if leb maxerror err then none else error_string err) [
  | none ↦ text "error " ++ printnum err 10 0 b' '
  | some p ↦ text p
]

-- `%e`: the number or its negation; that of -2 ^ 31 is out of the table
abbrev error_of : ℕ → Option (List ℕ)
error_of a =
    let err = a % 2 ^ 32 in
    if err == 2 ^ 31
    then none
    else some (error_text (if ltb (2 ^ 31) err then 2 ^ 32 - err else err))

-- what the conversions of an integer print
unfoldable pub integer : Spec → ℕ → ℕ → Option (List ℕ)
unfolding error_text error_string
integer s ch a =
    if ch == b'c'
    then some (a % 2 ^ 32 ∷ [])
    else if ch == b'e'
    then error_of a
    else if ch == b'd'
    then some (decimal s a)
    else if ch == b'u'
    then some (number s a 10)
    else if ch == b'o'
    then some (number s (getint s.lflag a) 8)
    else if ch == b'p'
    then some (b'0' ∷ b'x' ∷ number s a 16)
    else some (number s a 16)

abbrev pub takes_integer : ℕ → Bool
takes_integer ch =
    (ch == b'c')
    || ((ch == b'e')
        || ((ch == b'd') || ((ch == b'u') || ((ch == b'o') || ((ch == b'p') || (ch == b'x'))))))

unfoldable pub conversion_of : Spec → ℕ → List Arg → Option (List ℕ × List Arg)
unfolding integer
conversion_of s ch [] = none
conversion_of s ch (int_arg a ∷ args) =
    if takes_integer ch then later (λ out. (out, args)) (integer s ch a) else none
conversion_of s ch (str_arg none ∷ args) =
    if ch == b's' then later (λ out. (out, args)) (string s (text "(null)" ++ (0 ∷ []))) else none
conversion_of s ch (str_arg (some p) ∷ args) =
    if ch == b's' then later (λ out. (out, args)) (string s p) else none

-- The `switch` behind the flags: what is printed, the format that is left and the arguments. `after`
-- is the format behind the `%`, to which an escape that is not known goes back.
unfoldable pub converted : List ℕ → Escape → Option (List ℕ × (List ℕ × List Arg))
unfolding conversion_of
converted after e =
    if e.conversion == b'%'
    then some (b'%' ∷ [], (e.format, e.args))
    else if takes_integer e.conversion || (e.conversion == b's')
    then later (λ done. (done.0, (e.format, done.1))) (conversion_of e.spec e.conversion e.args)
    else some (b'%' ∷ [], (after, e.args))

-- The outer loop, `fuel` rounds; `some none` is a call that wants more of them, `none` one that reads
-- behind the end of the format, a string or the arguments.
unfoldable pub vprintfmt_loop : ℕ → List ℕ → List Arg → Option (Option (List ℕ))
vprintfmt_loop zero fmt args = some none
vprintfmt_loop (suc fuel) [] args = none
vprintfmt_loop (suc fuel) (ch ∷ fmt) args = elim (ch == b'%') [
  | true ↦ elim (read_escape none new_spec fmt args) [
    | none ↦ none
    | some e ↦ elim (converted fmt e) [
      | none ↦ none
      | some (out, (fmt', args')) ↦
          later (λ rest. later (λ t. out ++ t) rest) (vprintfmt_loop fuel fmt' args')
    ]
  ]
  | false ↦ elim (ch == 0) [
    | true ↦ some (some [])
    | false ↦ later (λ rest. later (λ t. ch ∷ t) rest) (vprintfmt_loop fuel fmt args)
  ]
]

-- A round goes on behind its first character or further.
unfoldable pub vprintfmt : List ℕ → List Arg → Option (Option (List ℕ))
unfolding vprintfmt_loop
vprintfmt fmt args = vprintfmt_loop (suc (length fmt)) fmt args

-- `struct sprintbuf`, with the bytes from `buf` to `ebuf` still to write and those written
pub record Sprintbuf : Type 0 where
  pub written : List ℕ
  pub room : ℕ
  pub cnt : ℕ

unfoldable pub sprintputch : Sprintbuf → ℕ → Sprintbuf
sprintputch b ch = record {
  written = if b.room != 0 then b.written ++ (ch % 256 ∷ []) else b.written;
  room = b.room - 1;
  cnt = b.cnt + 1;
}

unfoldable pub put_all : Sprintbuf → List ℕ → Sprintbuf
put_all b [] = b
put_all b (ch ∷ out) = put_all (sprintputch b ch) out

-- the buffer with its closing 0, and the result
abbrev pub filled : ℕ → List ℕ → List ℕ × ℕ
filled room out =
    let b = put_all (record { written = []; room = room; cnt = 0 }) out in
    (b.written ++ (0 ∷ []), b.cnt)

-- The innermost `none` is -E_INVAL; the others are those of `vprintfmt`.
unfoldable pub vsnprintf : Bool → ℕ → List ℕ → List Arg → Option (Option (Option (List ℕ × ℕ)))
vsnprintf buf n fmt args =
    if not buf || (n == 0)
    then some (some none)
    else later (λ done. later (λ out. some (filled (n - 1) out)) done) (vprintfmt fmt args)
