-- ===== src/Pmap/DoubleFree.antt =====
-- How far the test of `pp_link` in `page_free` catches a page that is freed twice.
use jos_operating_system.Prelude.{
  ℕ, ◌≡◌, refl, Option, some, List, [], ◌∷◌, ◌++◌, arith, ◌==◌, ◌||◌, ◌∙◌, true, false, sym, has,
  Distinct, returns, panics, update,
}
use jos_operating_system.Pmap.{PageInfo, Phys, page_free, insert_at_beginning}
use jos_operating_system.Pmap.FreeList.{Chain, Unreferenced, IsFreeList, head?}

link_at :
    (pages : ℕ → PageInfo) (h : Option ℕ) (ys : List ℕ) (x : ℕ) (zs : List ℕ)
    → Chain pages h (ys ++ x ∷ zs)
    → (pages x).pp_link ≡ head? zs
link_at pages h [] x [] c = c.1
link_at pages h [] x (z ∷ zs) c = c.1.0
link_at pages h (y ∷ ys) x zs c = link_at pages (pages y).pp_link ys x zs c.1

count_at :
    (pages : ℕ → PageInfo) (ys : List ℕ) (x : ℕ) (zs : List ℕ)
    → Unreferenced pages (ys ++ x ∷ zs)
    → (pages x).pp_ref ≡ 0
count_at pages [] x zs u = u.0
count_at pages (y ∷ ys) x zs u = count_at pages ys x zs u.1

-- A page that is free and has a successor on the list cannot be freed again: `page_free` panics.
pub page_free_twice :
    (ys : List ℕ) (x z : ℕ) (zs : List ℕ) {p : Phys}
    → IsFreeList p (ys ++ x ∷ z ∷ zs)
    → page_free x p ≡ panics
unfolding page_free
page_free_twice ys x z zs {p} v =
    ground (arith, link_at p.pages p.page_free_list ys x (z ∷ zs) v.chain)

-- A list that starts where a finite list leading to `x` starts, over links that agree before `x`.
reaches :
    (old new : ℕ → PageInfo) (h : Option ℕ) (ys : List ℕ) (x : ℕ) (zs : List ℕ)
    → ((a : ℕ) → (a == x) ≡ false → (new a).pp_link ≡ (old a).pp_link)
    → has x ys ≡ false
    → Chain old h (ys ++ x ∷ [])
    → Chain new h zs
    → has x zs ≡ true
reaches old new h [] x [] same out c d = cc (sym c.0 ∙ d)
reaches old new h [] x (z ∷ zs) same out c d = ground arith
reaches old new h (y ∷ ys) x [] same out c d = cc (sym c.0 ∙ d)
reaches old new h (y ∷ ys) x (z ∷ zs) same out c d =
    let next : (new z).pp_link ≡ (old y).pp_link = ground (arith, same y) in
    let rest : has x zs ≡ true =
      reaches old new (old y).pp_link ys x zs same (ground arith) c.1 (rw next at d.1) in
    ground arith

first_of_list :
    (pages : ℕ → PageInfo) (h : Option ℕ) (ys : List ℕ) (x : ℕ)
    → Chain pages h (ys ++ x ∷ [])
    → (f : ℕ) × (h ≡ some f)
first_of_list pages h [] x c = (x, c.0)
first_of_list pages h (y ∷ ys) x c = (y, c.0)

last_apart : (ys : List ℕ) (x : ℕ) → Distinct (ys ++ x ∷ []) → has x ys ≡ false
last_apart [] x d = refl
last_apart (y ∷ ys) x d = ground (arith, last_apart ys x, has-last ys x y)
  where
    has-last : (zs : List ℕ) (a b : ℕ) → has b (zs ++ a ∷ []) ≡ (has b zs || (b == a))
    has-last [] a b = ground arith
    has-last (z ∷ zs) a b = ground (arith, has-last zs a b)

-- the state after the second `page_free(x)`: `x` is first, and links to the old first page
abbrev looped : Phys → ℕ → ℕ → Phys
looped p x f = record p {
  pages = update p.pages x (record (p.pages x) { pp_link = some f });
  page_free_list = some x;
}

looped-not-IsFreeList :
    (ys : List ℕ) (x f : ℕ) {p : Phys} (zs : List ℕ)
    → IsFreeList p (ys ++ x ∷ [])
    → p.page_free_list ≡ some f
    → ¬ IsFreeList (looped p x f) zs
looped-not-IsFreeList ys x f [] v e w = cc (w.chain)
looped-not-IsFreeList ys x f {p} (z ∷ zs) v e w =
    let back : ((looped p x f).pages z).pp_link ≡ p.page_free_list = ground (arith, w.chain) in
    let again : has x zs ≡ true =
      reaches p.pages (looped p x f).pages p.page_free_list ys x zs (λ a o. ground arith)
        (last_apart ys x v.distinct) v.chain (rw back at w.chain.1) in
    ground (arith, w.chain, w.distinct)

-- The last page of the free list has a NULL link, so that a second `page_free` of it is not
-- noticed: the call returns, and what `page_free_list` then leads through is no free list at all.
pub page_free_twice_last :
    (ys : List ℕ) (x : ℕ) {p : Phys}
    → IsFreeList p (ys ++ x ∷ [])
    → (q : Phys) × (page_free x p ≡ returns q) × ((zs : List ℕ) → ¬ IsFreeList q zs)
unfolding page_free insert_at_beginning
page_free_twice_last ys x {p} v =
    let (f, e) = first_of_list p.pages p.page_free_list ys x v.chain in
    (
      looped p x f,
      ground (
        arith,
        e,
        link_at p.pages p.page_free_list ys x [] v.chain,
        count_at p.pages ys x [] v.unreferenced,
      ),
      λ zs. looped-not-IsFreeList ys x f zs v e,
    )
