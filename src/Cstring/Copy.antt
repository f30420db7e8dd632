-- ===== src/Cstring/Copy.antt =====
-- `strcpy` and `strlcpy` into an object that holds `old` and, behind it, `rest`.
use jos_operating_system.Prelude.{
  ℕ, zero, suc, ◌≡◌, refl, some, List, [], ◌∷◌, ◌++◌, arith, length, take,
}
use jos_operating_system.Cstring.{strcpy, strlcpy, strlcpy_loop}
use jos_operating_system.Cstring.Length.{IsString}

-- `strcpy` into an object with room for the string and its 0 writes just these.
pub strcpy_lem :
    (old rest s r : List ℕ)
    → IsString s
    → length old ≡ suc (length s)
    → strcpy (old ++ rest) (s ++ 0 ∷ r) ≡ some (s ++ 0 ∷ rest)
unfolding strcpy
strcpy_lem [] rest s r v e = absurd (ground arith)
strcpy_lem (d ∷ []) rest [] r v e = refl
strcpy_lem (d ∷ f ∷ old) rest [] r v e = absurd (ground arith)
strcpy_lem (d ∷ old) rest (c ∷ s) r v e = ground (arith, strcpy_lem old rest s r v.1)

loop_lem :
    (n : ℕ) (old rest s r : List ℕ)
    → IsString s
    → length old ≡ suc n
    → (left : List ℕ) × (strlcpy_loop (old ++ rest) (s ++ 0 ∷ r) n
        ≡ some (take n s ++ 0 ∷ left ++ rest, length (take n s)))
unfolding strlcpy_loop
loop_lem n [] rest s r v e = absurd (ground arith)
loop_lem zero (d ∷ old) rest [] r v e = (old, refl)
loop_lem zero (d ∷ old) rest (c ∷ s) r v e = (old, refl)
loop_lem (suc n) (d ∷ old) rest [] r v e = (old, refl)
loop_lem (suc n) (d ∷ old) rest (c ∷ s) r v e =
    let (left, done) = loop_lem n old rest s r v.1 (ground arith) in (left, ground (arith, done))

-- `strlcpy` with a size above 0 writes within the first `size` bytes of the destination only: as
-- many characters as fit before a 0, and the 0; it returns the number of these characters.
pub strlcpy_lem :
    (n : ℕ) (old rest s r : List ℕ)
    → IsString s
    → length old ≡ suc n
    → (left : List ℕ) × (strlcpy (old ++ rest) (s ++ 0 ∷ r) (suc n)
        ≡ some (take n s ++ 0 ∷ left ++ rest, length (take n s)))
unfolding strlcpy
strlcpy_lem n old rest s r v e = loop_lem n old rest s r v e
