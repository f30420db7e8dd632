-- ===== src/Cstring/Length.antt =====
-- What a C string is, and `strlen`, `strnlen`, `strchr` and `strfind` on it.
use jos_operating_system.Prelude.{
  ℕ, zero, suc, ◌≡◌, ◌≢◌, refl, Option, none, some, List, [], ◌∷◌, ◌++◌, arith, length, min,
}
use jos_operating_system.Cstring.{strlen, strnlen, strchr, strfind}

-- The characters of a string, without the 0 at its end.
abbrev pub IsString : List ℕ → Type 0
IsString [] = Unit
IsString (c ∷ s) = (c ≢ 0) × IsString s

-- `strlen` counts the characters up to the 0, whatever follows it in the object.
pub strlen_lem : (s rest : List ℕ) → IsString s → strlen (s ++ 0 ∷ rest) ≡ some (length s)
unfolding strlen
strlen_lem [] rest v = refl
strlen_lem (c ∷ s) rest v = ground (arith, strlen_lem s rest v.1)

-- `strnlen` is `strlen` cut off at its bound.
pub strnlen_lem :
    (s rest : List ℕ) (n : ℕ) → IsString s → strnlen (s ++ 0 ∷ rest) n ≡ some (min (length s) n)
unfolding strnlen
strnlen_lem [] rest zero v = refl
strnlen_lem [] rest (suc n) v = ground arith
strnlen_lem (c ∷ s) rest zero v = ground arith
strnlen_lem (c ∷ s) rest (suc n) v = ground (arith, strnlen_lem s rest n v.1)

-- a pointer that was found, or the one at the end where it is NULL
abbrev pub or_end : Option (Option ℕ) → Option ℕ → Option ℕ
or_end none e = none
or_end (some none) e = e
or_end (some (some i)) e = some i

-- `strfind` points to what `strchr` finds, and where that is NULL to the end of the string.
pub strfind-strchr : (s : List ℕ) (c : ℕ) → strfind s c ≡ or_end (strchr s c) (strlen s)
unfolding strfind strchr strlen
strfind-strchr [] c = refl
strfind-strchr (a ∷ s) c = step (strchr s c) refl (strfind-strchr s c)
  where
    step :
        (o : Option (Option ℕ))
        → strchr s c ≡ o
        → strfind s c ≡ or_end (strchr s c) (strlen s)
        → strfind (a ∷ s) c ≡ or_end (strchr (a ∷ s) c) (strlen (a ∷ s))
    step none e below = ground (arith, e, below)
    step (some none) e below = ground (arith, e, below)
    step (some (some i)) e below = ground (arith, e, below)
