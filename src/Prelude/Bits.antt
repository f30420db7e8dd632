-- ===== src/Prelude/Bits.antt =====
-- Single bits of a word: what `w & (1 << i)`, `w |= 1 << i` and `w &= ~(1 << i)` read and write.
use Prim.Native.Nat.{
  ℕ, zero, suc, ◌+◌, ◌-◌, ◌*◌, ◌/◌, ◌%◌, ◌^◌, ◌≤◌, ◌<◌, min, max, bit_and, bit_or, digits,
  bit_and-bitwise, bit_or-bitwise,
}
use mathlib.Core.Path.{◌≡◌, refl, ap}
use mathlib.Core.Logic.{◌⊎◌, inl, inr}
use mathlib.Core.Bool.{Bool, true, false}
use native.Mathlib.Omega.{arith}
use native.Mathlib.Decide.{ℕ_discrete}
use native.Mathlib.Nat.{pow-suc, one-le-pow, le_refl}
use jos_operating_system.Prelude.Tests.{◌==◌, ==_iff, if◌then◌else◌}

-- bit `i` of `w`, as 0 or 1
abbrev pub bit : ℕ → ℕ → ℕ
bit zero w = w % 2
bit (suc i) w = bit i (w / 2)

-- `~(1 << i)` of an n-bit word
abbrev pub all_but : ℕ → ℕ → ℕ
all_but n i = 2 ^ n - 1 - 2 ^ i

-- The digit recursion that the native operations stand for does not depend on its fuel.
module _ (rest : ℕ → ℕ) (join : ℕ → ℕ → ℕ) where
  more_fuel : (n k a b : ℕ) → a ≤ n → a ≤ k → digits rest join n a b ≡ digits rest join k a b
  more_fuel zero zero a b p q = refl
  more_fuel zero (suc k) zero b p q = refl
  more_fuel zero (suc k) (suc a) b p q = absurd (omega arith)
  more_fuel (suc n) zero zero b p q = refl
  more_fuel (suc n) zero (suc a) b p q = absurd (omega arith)
  more_fuel (suc n) (suc k) zero b p q = refl
  more_fuel (suc n) (suc k) (suc a) b p q =
      ap (λ t. t * 2 + join (suc a % 2) (b % 2))
        (more_fuel n k (suc a / 2) (b / 2) (omega arith) (omega arith))

and_low_bit : (a b : ℕ) → bit_and a b ≡ bit_and (a / 2) (b / 2) * 2 + min (a % 2) (b % 2)
and_low_bit zero b = omega (arith, bit_and-bitwise 0 b, bit_and-bitwise 0 (b / 2))
and_low_bit (suc a) b =
    let enough =
      more_fuel (λ _. 0) min a (suc a / 2) (suc a / 2) (b / 2) (omega arith) (le_refl _) in
    let half = bit_and-bitwise (suc a / 2) (b / 2) in
    omega (arith, half, enough, bit_and-bitwise (suc a) b)

or_low_bit : (a b : ℕ) → bit_or a b ≡ bit_or (a / 2) (b / 2) * 2 + max (a % 2) (b % 2)
or_low_bit zero b = omega (arith, bit_or-bitwise 0 b, bit_or-bitwise 0 (b / 2))
or_low_bit (suc a) b =
    let enough =
      more_fuel (λ y. y) max a (suc a / 2) (suc a / 2) (b / 2) (omega arith) (le_refl _) in
    let half = bit_or-bitwise (suc a / 2) (b / 2) in
    omega (arith, half, enough, bit_or-bitwise (suc a) b)

half_and : (a b : ℕ) → bit_and a b / 2 ≡ bit_and (a / 2) (b / 2)
half_and a b = omega (arith, and_low_bit a b)

half_or : (a b : ℕ) → bit_or a b / 2 ≡ bit_or (a / 2) (b / 2)
half_or a b = omega (arith, or_low_bit a b)

pub bit-bit_and : (i a b : ℕ) → bit i (bit_and a b) ≡ min (bit i a) (bit i b)
bit-bit_and zero a b = omega (arith, and_low_bit a b)
bit-bit_and (suc i) a b = rw (half_and a b) (bit-bit_and i (a / 2) (b / 2))

pub bit-bit_or : (i a b : ℕ) → bit i (bit_or a b) ≡ max (bit i a) (bit i b)
bit-bit_or zero a b = omega (arith, or_low_bit a b)
bit-bit_or (suc i) a b = rw (half_or a b) (bit-bit_or i (a / 2) (b / 2))

pub bit-lt-two : (i w : ℕ) → bit i w < 2
bit-lt-two zero w = omega arith
bit-lt-two (suc i) w = bit-lt-two i (w / 2)

and-zero : (n a : ℕ) → a ≤ n → bit_and a 0 ≡ 0
and-zero zero zero h = refl
and-zero zero (suc a) h = absurd (omega arith)
and-zero (suc n) zero h = refl
and-zero (suc n) (suc a) h =
    omega (arith, and_low_bit (suc a) 0, and-zero n (suc a / 2) (omega arith))

-- `w & (1 << i)` is the bit in its place.
pub bit_and-two_pow : (i w : ℕ) → bit_and w (2 ^ i) ≡ bit i w * 2 ^ i
bit_and-two_pow zero w = omega (arith, and_low_bit w 1, and-zero (w / 2) (w / 2) (le_refl _))
bit_and-two_pow (suc i) w =
    let halved : 2 ^ suc i / 2 ≡ 2 ^ i = omega (arith, pow-suc 2 i) in
    omega (
      arith,
      and_low_bit w (2 ^ suc i),
      pow-suc 2 i,
      ap (λ t. bit_and (w / 2) t) halved,
      bit_and-two_pow i (w / 2),
      ap (λ t. bit i (w / 2) * t) (pow-suc 2 i),
    )

-- The test `w & (1 << i)` reads bit `i`.
pub bit_and_test : (i w : ℕ) → (bit_and w (2 ^ i) == 0) ≡ (bit i w == 0)
bit_and_test i w = elim (bit_cases (bit i w) (bit-lt-two i w)) [
  | inl e ↦ rw (bit_and-two_pow i w, e) (ground arith)
  | inr e ↦ rw (bit_and-two_pow i w, e) (ground (arith, one-le-pow i 2))
]
  where
    bit_cases : (b : ℕ) → b < 2 → (b ≡ 0) ⊎ (b ≡ 1)
    bit_cases zero h = inl refl
    bit_cases (suc zero) h = inr refl
    bit_cases (suc (suc b)) h = absurd (omega arith)

bit-zero : (i : ℕ) → bit i 0 ≡ 0
bit-zero zero = refl
bit-zero (suc i) = bit-zero i

pub bit-two_pow : (j i : ℕ) → bit j (2 ^ i) ≡ (if i == j then 1 else 0)
bit-two_pow zero zero = refl
bit-two_pow zero (suc i) = ground (arith, pow-suc 2 i)
bit-two_pow (suc j) zero = ground (arith, bit-zero j)
bit-two_pow (suc j) (suc i) =
    let halved : 2 ^ suc i / 2 ≡ 2 ^ i = omega (arith, pow-suc 2 i) in
    rw halved (ground (arith, bit-two_pow j i))

-- Does a test hold of every bit position of a 32-bit word? The word is `n` bits long.
holds_up_to : (ℕ → Bool) → ℕ → Bool
holds_up_to test zero = true
holds_up_to test (suc n) = if test n then holds_up_to test n else false

holds_at : (test : ℕ → Bool) (i n : ℕ) → i < n → holds_up_to test n ≡ true → test i ≡ true
unfolding holds_up_to
holds_at test i zero inside e = absurd (omega arith)
holds_at test i (suc n) inside e = elim (ℕ_discrete i n) [
  | yes last ↦ rw last (ground arith)
  | no before ↦ holds_at test i n (omega arith) (ground arith)
]

abbrev cleared_at : ℕ → ℕ → Bool
cleared_at i j = bit j (all_but 32 i) == (if i == j then 0 else 1)

cleared_everywhere : holds_up_to (λ i. holds_up_to (cleared_at i) 32) 32 ≡ true
unfolding holds_up_to
cleared_everywhere = refl

pub bit-all_but : (j i : ℕ) → j < 32 → i < 32 → bit j (all_but 32 i) ≡ (if i == j then 0 else 1)
bit-all_but j i hj hi =
    let row = holds_at (λ k. holds_up_to (cleared_at k) 32) i 32 hi cleared_everywhere in
    (==_iff _ _).0 (holds_at (cleared_at i) j 32 hj row)

-- `w |= 1 << i` sets bit `i` and leaves the others.
pub bit-set_bit : (j i w : ℕ) → bit j (bit_or w (2 ^ i)) ≡ (if i == j then 1 else bit j w)
bit-set_bit j i w = ground (arith, bit-bit_or j w (2 ^ i), bit-two_pow j i, bit-lt-two j w)

-- `w &= ~(1 << i)` clears bit `i` and leaves the others.
pub bit-clear_bit :
    (j i w : ℕ)
    → j < 32
    → i < 32
    → bit j (bit_and w (all_but 32 i)) ≡ (if i == j then 0 else bit j w)
bit-clear_bit j i w hj hi =
    ground (arith, bit-bit_and j w (all_but 32 i), bit-all_but j i hj hi, bit-lt-two j w)

or-zero : (n a : ℕ) → a ≤ n → bit_or a 0 ≡ a
or-zero zero zero h = refl
or-zero zero (suc a) h = absurd (omega arith)
or-zero (suc n) zero h = refl
or-zero (suc n) (suc a) h = omega (arith, or_low_bit (suc a) 0, or-zero n (suc a / 2) (omega arith))

-- `(q << k) | r` for a value `r` of `k` bits
pub bit_or_shifted : (k q r : ℕ) → r < 2 ^ k → bit_or (q * 2 ^ k) r ≡ q * 2 ^ k + r
bit_or_shifted zero q r h =
    let e : r ≡ 0 = omega arith in rw e (omega (arith, or-zero (q * 1) (q * 1) (le_refl _)))
bit_or_shifted (suc k) q r h =
    let wide : q * 2 ^ suc k ≡ q * 2 ^ k * 2 = omega (arith, ap (λ t. q * t) (pow-suc 2 k)) in
    let halved : q * 2 ^ suc k / 2 ≡ q * 2 ^ k = omega arith in
    omega (
      arith,
      or_low_bit (q * 2 ^ suc k) r,
      ap (λ t. bit_or t (r / 2)) halved,
      bit_or_shifted k q (r / 2) (omega (arith, pow-suc 2 k)),
    )

-- `w | 1`
pub bit_or-one : (w : ℕ) → bit_or w 1 ≡ w / 2 * 2 + 1
bit_or-one w = omega (arith, or_low_bit w 1, or-zero (w / 2) (w / 2) (le_refl _))

-- Both operations stay below a power of two.
pub bit_and-lt : (k a b : ℕ) → a < 2 ^ k → bit_and a b < 2 ^ k
bit_and-lt zero a b h = let e : a ≡ 0 = omega arith in rw e (omega (arith, bit_and-bitwise 0 b))
bit_and-lt (suc k) a b h =
    omega (
      arith,
      pow-suc 2 k,
      and_low_bit a b,
      bit_and-lt k (a / 2) (b / 2) (omega (arith, pow-suc 2 k)),
    )

pub bit_and-lt_right : (k a b : ℕ) → b < 2 ^ k → bit_and a b < 2 ^ k
bit_and-lt_right zero a b h =
    let e : b ≡ 0 = omega arith in rw (e, and-zero a a (le_refl _)) (omega arith)
bit_and-lt_right (suc k) a b h = omega (
  arith,
  pow-suc 2 k,
  and_low_bit a b,
  bit_and-lt_right k (a / 2) (b / 2) (omega (arith, pow-suc 2 k)),
)

pub bit_or-lt : (k a b : ℕ) → a < 2 ^ k → b < 2 ^ k → bit_or a b < 2 ^ k
bit_or-lt zero a b h i =
    let e : a ≡ 0 = omega arith in
    let f : b ≡ 0 = omega arith in rw (e, f) (omega (arith, or-zero 0 0 (le_refl _)))
bit_or-lt (suc k) a b h i = omega (
  arith,
  pow-suc 2 k,
  or_low_bit a b,
  bit_or-lt k (a / 2) (b / 2) (omega (arith, pow-suc 2 k)) (omega (arith, pow-suc 2 k)),
)
