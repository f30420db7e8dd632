-- ===== src/Pmap/FreeList.antt =====
-- What the page allocator keeps: `page_free_list` links distinct unreferenced pages, and pages in use
-- have no link.
use jos_operating_system.Prelude.{
  ℕ, ◌<◌, ◌≡◌, false, Option, none, some, List, [], ◌∷◌, arith, update, has, Distinct,
}
use jos_operating_system.Pmap.{PageInfo, Phys}

-- From `h` the links lead through `xs` and end in NULL.
abbrev pub Chain : (ℕ → PageInfo) → Option ℕ → List ℕ → Type 0
Chain pages h [] = h ≡ none
Chain pages h (x ∷ xs) = (h ≡ some x) × Chain pages (pages x).pp_link xs

abbrev pub Unreferenced : (ℕ → PageInfo) → List ℕ → Type 0
Unreferenced pages [] = Unit
Unreferenced pages (x ∷ xs) = ((pages x).pp_ref ≡ 0) × Unreferenced pages xs

pub record IsFreeList (p : Phys) (xs : List ℕ) : Type 0 where
  pub chain : Chain p.pages p.page_free_list xs
  pub distinct : Distinct xs
  pub unreferenced : Unreferenced p.pages xs
  pub unlinked : (a : ℕ) → 0 < (p.pages a).pp_ref → (p.pages a).pp_link ≡ none

module _ (pages : ℕ → PageInfo) (i : ℕ) (info : PageInfo) where
  pub Chain-update :
      (h : Option ℕ) (xs : List ℕ)
      → has i xs ≡ false
      → Chain pages h xs
      → Chain (update pages i info) h xs
  Chain-update h [] out c = c
  Chain-update h (x ∷ xs) out c = ground (arith, Chain-update (pages x).pp_link xs)

  pub Unreferenced-update :
      (xs : List ℕ)
      → has i xs ≡ false
      → Unreferenced pages xs
      → Unreferenced (update pages i info) xs
  Unreferenced-update [] out c = tt
  Unreferenced-update (x ∷ xs) out c = ground (arith, Unreferenced-update xs)

abbrev pub head? : List ℕ → Option ℕ
head? [] = none
head? (x ∷ xs) = some x

abbrev pub tail : List ℕ → List ℕ
tail [] = []
tail (x ∷ xs) = xs

-- Only the pages' links and counts matter to the invariant, not their contents.
abbrev pub popped : Phys → ℕ → Phys
popped p x = record p {
  page_free_list = (p.pages x).pp_link;
  pages = update p.pages x (record (p.pages x) { pp_link = none });
}

pub popped-IsFreeList :
    {p : Phys} (x : ℕ) (xs : List ℕ) → IsFreeList p (x ∷ xs) → IsFreeList (popped p x) xs
popped-IsFreeList {p} x xs v = record {
  chain = Chain-update p.pages x _ (p.pages x).pp_link xs v.distinct.0 v.chain.1;
  distinct = v.distinct.1;
  unreferenced = Unreferenced-update p.pages x _ xs v.distinct.0 v.unreferenced.1;
  unlinked = λ a out. ground (arith, v.unlinked a);
}
