-- ===== src/Cstring.antt =====
-- The functions on strings of lib/string.c. A `const char *` is the list of the bytes from there to
-- the end of the object that it points into; what reads or writes behind that end is `none`. Bytes
-- are below 256. Lengths stay below 2 ^ 31.
pub mod Length
pub mod Compare
pub mod Copy
pub mod Strtol
mod Tests
use jos_operating_system.Prelude.{
  ℕ, zero, suc, ◌+◌, ◌-◌, Bool, true, false, Option, none, some, List, [], ◌∷◌, ◌==◌, ◌!=◌, ◌&&◌,
  leb, ltb, if◌then◌else◌,
}

infix 20 ◌minus◌
-- an `int` that is a difference of two bytes
pub data Difference : Type 0 where
  ◌minus◌ : (a b : ℕ) → Difference

-- what an answer becomes when one more byte stands in front
abbrev pub later {ℓ κ} : {A : Type ℓ} {B : Type κ} → (A → B) → Option A → Option B
later f none = none
later f (some a) = some (f a)

unfoldable pub strlen : List ℕ → Option ℕ
strlen [] = none
strlen (c ∷ s) = let rest = strlen s in if c == 0 then some 0 else later suc rest

unfoldable pub strnlen : List ℕ → ℕ → Option ℕ
strnlen s zero = some 0
strnlen [] (suc n) = none
strnlen (c ∷ s) (suc n) = let rest = strnlen s n in if c == 0 then some 0 else later suc rest

-- The destination comes with its bytes; the answer is what it holds afterwards.
unfoldable pub strcpy : List ℕ → List ℕ → Option (List ℕ)
strcpy dst [] = none
strcpy [] (c ∷ src) = none
strcpy (d ∷ dst) (c ∷ src) =
    let rest = strcpy dst src in if c == 0 then some (c ∷ dst) else later (λ t. c ∷ t) rest

unfoldable pub strcat : List ℕ → List ℕ → Option (List ℕ)
strcat [] src = none
strcat (d ∷ dst) src =
    let rest = strcat dst src in if d == 0 then strcpy (d ∷ dst) src else later (λ t. d ∷ t) rest

-- `size` bytes are written; `*src` is not passed once it is 0.
unfoldable pub strncpy : List ℕ → List ℕ → ℕ → Option (List ℕ)
strncpy dst src zero = some dst
strncpy [] src (suc n) = none
strncpy (d ∷ dst) [] (suc n) = none
strncpy (d ∷ dst) (c ∷ src) (suc n) =
    later (λ t. c ∷ t) (strncpy dst (if c == 0 then c ∷ src else src) n)

-- the loop of `strlcpy`, with `room` for so many bytes before the last; and the bytes copied
pub strlcpy_loop : List ℕ → List ℕ → ℕ → Option (List ℕ × ℕ)
strlcpy_loop [] src room = none
strlcpy_loop (d ∷ dst) src zero = some (0 ∷ dst, 0)
strlcpy_loop (d ∷ dst) [] (suc room) = none
strlcpy_loop (d ∷ dst) (c ∷ src) (suc room) =
    let rest = strlcpy_loop dst src room in
    if c == 0 then some (0 ∷ dst, 0) else later (λ t. (c ∷ t.0, t.1 + 1)) rest

unfoldable pub strlcpy : List ℕ → List ℕ → ℕ → Option (List ℕ × ℕ)
unfolding strlcpy_loop
strlcpy dst src zero = some (dst, 0)
strlcpy dst src (suc n) = strlcpy_loop dst src n

unfoldable pub strcmp : List ℕ → List ℕ → Option Difference
strcmp [] q = none
strcmp (a ∷ p) [] = none
strcmp (a ∷ p) (b ∷ q) =
    let rest = strcmp p q in if (a != 0) && (a == b) then rest else some (a minus b)

unfoldable pub strncmp : List ℕ → List ℕ → ℕ → Option Difference
strncmp p q zero = some (0 minus 0)
strncmp [] q (suc n) = none
strncmp (a ∷ p) [] (suc n) = none
strncmp (a ∷ p) (b ∷ q) (suc n) =
    let rest = strncmp p q n in if (a != 0) && (a == b) then rest else some (a minus b)

-- The pointer found, as its distance from `s`; `some none` is NULL.
unfoldable pub strchr : List ℕ → ℕ → Option (Option ℕ)
strchr [] c = none
strchr (a ∷ s) c =
    let rest = strchr s c in
    if a == 0 then some none else if a == c then some (some 0) else later (later suc) rest

unfoldable pub strfind : List ℕ → ℕ → Option ℕ
strfind [] c = none
strfind (a ∷ s) c =
    let rest = strfind s c in if a == 0 then some 0 else if a == c then some 0 else later suc rest

unfoldable pub memcmp : List ℕ → List ℕ → ℕ → Option Difference
memcmp p q zero = some (0 minus 0)
memcmp [] q (suc n) = none
memcmp (a ∷ p) [] (suc n) = none
memcmp (a ∷ p) (b ∷ q) (suc n) =
    let rest = memcmp p q n in if a != b then some (a minus b) else rest

-- the distance to the first byte `c`, or `n`
unfoldable pub memfind : List ℕ → ℕ → ℕ → Option ℕ
memfind s c zero = some 0
memfind [] c (suc n) = none
memfind (a ∷ s) c (suc n) = let rest = memfind s c n in if a == c then some 0 else later suc rest
