-- ===== src/Pmap/Init/Chains.antt =====
-- Free lists that are made of runs of pages.
use jos_operating_system.Prelude.{
  ℕ, zero, suc, ◌+◌, ◌<◌, ◌≤◌, ◌≡◌, refl, ap, true, false, Option, none, some, List, [], ◌∷◌, ◌++◌,
  arith, ◌==◌, ◌||◌, if◌then◌else◌, has, Distinct, range_from,
}
use mathlib.Core.Path.{subst}
use jos_operating_system.Pmap.{PageInfo}
use jos_operating_system.Pmap.FreeList.{Chain, Unreferenced}

-- Pages `i` to `i + n - 1` are linked in their order, and the last one to `next`.
abbrev pub Linked : (ℕ → PageInfo) → ℕ → ℕ → Option ℕ → Type 0
Linked pages i n next =
    (a : ℕ)
    → i ≤ a
    → a < i + n
    → (pages a).pp_link ≡ (if a + 1 == i + n then next else some (a + 1))

pub Chain-run :
    (pages : ℕ → PageInfo) (i n : ℕ) (next : Option ℕ) (rest : List ℕ)
    → Linked pages i (suc n) next
    → Chain pages next rest
    → Chain pages (some i) (range_from i (suc n) ++ rest)
unfolding range_from
Chain-run pages i zero next rest linked c = (refl, ground (arith, linked i, c))
Chain-run pages i (suc n) next rest linked c =
    let after = Chain-run pages (suc i) n next rest (λ a lo hi. ground (arith, linked a)) c in
    let link : (pages i).pp_link ≡ some (suc i) = ground (arith, linked i) in (refl, rw link after)

pub has-append : (a : ℕ) (xs ys : List ℕ) → has a (xs ++ ys) ≡ (has a xs || has a ys)
has-append a [] ys = refl
has-append a (x ∷ xs) ys = ground (arith, has-append a xs ys)

pub Distinct-append :
    (xs ys : List ℕ)
    → Distinct xs
    → Distinct ys
    → ((a : ℕ) → has a xs ≡ true → has a ys ≡ false)
    → Distinct (xs ++ ys)
Distinct-append [] ys d e apart = e
Distinct-append (x ∷ xs) ys d e apart = (
  ground (arith, has-append x xs ys, apart x),
  Distinct-append xs ys d.1 e (λ a h. ground (arith, apart a)),
)

pub Unreferenced-all :
    (pages : ℕ → PageInfo) (xs : List ℕ) → ((a : ℕ) → (pages a).pp_ref ≡ 0) → Unreferenced pages xs
Unreferenced-all pages [] zeros = tt
Unreferenced-all pages (x ∷ xs) zeros = (zeros x, Unreferenced-all pages xs zeros)

append-nil : (xs : List ℕ) → xs ++ [] ≡ xs
append-nil [] = refl
append-nil (x ∷ xs) = ap (λ ys. x ∷ ys) (append-nil xs)

pub Chain-last :
    (pages : ℕ → PageInfo) (i n : ℕ)
    → Linked pages i (suc n) none
    → Chain pages (some i) (range_from i (suc n))
Chain-last pages i n linked =
    subst (Chain pages (some i)) (append-nil (range_from i (suc n)))
      (Chain-run pages i n none [] linked refl)
