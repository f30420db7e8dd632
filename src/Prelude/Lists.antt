-- ===== src/Prelude/Lists.antt =====
-- Lists measured and indexed by native numbers, under the library's names.
use Prim.Native.Nat.{ℕ, zero, suc, ◌+◌, ◌<◌, ◌≤◌}
use mathlib.Core.Path.{◌≡◌, refl}
use mathlib.Core.List.{List, [], ◌∷◌, ◌++◌}
use mathlib.Core.Bool.{Bool, true, false, ◌||◌}
use mathlib.Core.Option.{Option, none, some}
use native.Mathlib.Omega.{arith}
use jos_operating_system.Prelude.Tests.{◌==◌}

module _ {ℓ} {A : Type ℓ} where
  abbrev pub length : List A → ℕ
  length [] = 0
  length (x ∷ xs) = suc (length xs)

  abbrev pub get_elem? : List A → ℕ → Option A
  get_elem? [] i = none
  get_elem? (x ∷ xs) zero = some x
  get_elem? (x ∷ xs) (suc i) = get_elem? xs i

  abbrev pub take : ℕ → List A → List A
  take zero xs = []
  take (suc n) [] = []
  take (suc n) (x ∷ xs) = x ∷ take n xs

  abbrev pub drop : ℕ → List A → List A
  drop zero xs = xs
  drop (suc n) [] = []
  drop (suc n) (x ∷ xs) = drop n xs

  abbrev pub replicate : ℕ → A → List A
  replicate zero a = []
  replicate (suc n) a = a ∷ replicate n a

  pub length-append : (xs ys : List A) → length (xs ++ ys) ≡ length xs + length ys
  length-append [] ys = omega arith
  length-append (x ∷ xs) ys = omega (arith, length-append xs ys)

-- A predicate of every element.
abbrev pub All {ℓ κ} : {A : Type ℓ} → (A → Type κ) → List A → Type κ
All P [] = Unit
All P (x ∷ xs) = P x × All P xs

-- Membership of a list of numbers, as a test.
abbrev pub has : ℕ → List ℕ → Bool
has a [] = false
has a (x ∷ xs) = (a == x) || has a xs

-- No number twice.
abbrev pub Distinct : List ℕ → Type 0
Distinct [] = Unit
Distinct (x ∷ xs) = (has x xs ≡ false) × Distinct xs

-- The numbers from `i` on, `n` of them.
unfoldable pub range_from : ℕ → ℕ → List ℕ
range_from i zero = []
range_from i (suc n) = i ∷ range_from (suc i) n

pub has-range_from : (i n a : ℕ) → has a (range_from i n) ≡ true → (i ≤ a) × (a < i + n)
unfolding range_from
has-range_from i zero a h = ground arith
has-range_from i (suc n) a h = ground (arith, has-range_from (suc i) n a)

pub not-has-range_from : (i n a : ℕ) → a < i → has a (range_from i n) ≡ false
unfolding range_from
not-has-range_from i zero a h = refl
not-has-range_from i (suc n) a h = ground (arith, not-has-range_from (suc i) n a)

pub range_from-Distinct : (i n : ℕ) → Distinct (range_from i n)
unfolding range_from
range_from-Distinct i zero = tt
range_from-Distinct i (suc n) =
    (not-has-range_from (suc i) n i (omega arith), range_from-Distinct (suc i) n)

pub has-range_from_inside : (i n a : ℕ) → i ≤ a → a < i + n → has a (range_from i n) ≡ true
unfolding range_from
has-range_from_inside i zero a lo hi = absurd (omega arith)
has-range_from_inside i (suc n) a lo hi = ground (arith, has-range_from_inside (suc i) n a)
