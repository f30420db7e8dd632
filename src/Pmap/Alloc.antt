-- ===== src/Pmap/Alloc.antt =====
-- `page_alloc`, `page_free` and `page_decref` against the free list that they keep.
use jos_operating_system.Prelude.{
  ℕ, ◌-◌, ◌<◌, ◌≡◌, refl, false, Option, none, some, List, [], ◌∷◌, arith, ◌==◌, if◌then◌else◌,
  update, has, returns, zero, suc, ◌∙◌, ◌!=◌, ◌&&◌, bit_and, ◌^◌,
}
use jos_operating_system.Pmap.{
  PageInfo, Phys, page_alloc, page_free, page_decref, ref_down, set_page, take_page,
  insert_at_beginning, alloc_zero,
}
use jos_operating_system.Pmap.FreeList.{
  Chain, IsFreeList, head?, tail, popped-IsFreeList, Chain-update, Unreferenced-update,
}

-- What a call of `page_alloc` has done.
pub record Allocated (p : Phys) (xs : List ℕ) (out : Option ℕ × Phys) : Type 0 where
  pub page : out.0 ≡ head? xs
  pub free : IsFreeList out.1 (tail xs)
  pub counts : (a : ℕ) → (out.1.pages a).pp_ref ≡ (p.pages a).pp_ref

pub take_page-IsFreeList :
    (flags x : ℕ) {p : Phys} (xs : List ℕ)
    → IsFreeList p (x ∷ xs)
    → IsFreeList (take_page flags x p) xs
unfolding take_page
take_page-IsFreeList flags x {p} xs v =
    let w = popped-IsFreeList x xs v in
    record {
      chain = ground (arith, w.chain);
      distinct = w.distinct;
      unreferenced = ground (arith, w.unreferenced);
      unlinked = λ a out. ground (arith, w.unlinked a);
    }

page_alloc-empty : (flags : ℕ) (p : Phys) → p.page_free_list ≡ none → page_alloc flags p ≡ (none, p)
unfolding page_alloc
page_alloc-empty flags p e = ground arith

pub page_alloc-some :
    (flags x : ℕ) (p : Phys)
    → p.page_free_list ≡ some x
    → page_alloc flags p ≡ (some x, take_page flags x p)
unfolding page_alloc
page_alloc-some flags x p e = ground arith

pp_ref-take_page :
    (flags x : ℕ) (p : Phys) (a : ℕ) → ((take_page flags x p).pages a).pp_ref ≡ (p.pages a).pp_ref
unfolding take_page
pp_ref-take_page flags x p a = ground arith

-- `page_alloc` hands out the first free page, or NULL exactly when none is free; the rest of the
-- list stays free in its order, and no reference count changes.
pub page_alloc_lem :
    (flags : ℕ) {p : Phys} (xs : List ℕ) → IsFreeList p xs → Allocated p xs (page_alloc flags p)
page_alloc_lem flags {p} [] v =
    rw (page_alloc-empty flags p v.chain) (record { page = refl; free = v; counts = λ a. refl })
page_alloc_lem flags {p} (x ∷ xs) v = rw (page_alloc-some flags x p v.chain.0) (record {
  page = refl;
  free = take_page-IsFreeList flags x xs v;
  counts = pp_ref-take_page flags x p;
})

-- What is in a page that `page_alloc` hands out: zeros where ALLOC_ZERO is among the flags, what
-- was there before elsewhere. No other page is written.
pub page_alloc-word :
    (flags x : ℕ) (p : Phys) (a k : ℕ)
    → p.page_free_list ≡ some x
    → (page_alloc flags p).1.word a k
      ≡ (if (bit_and flags alloc_zero != 0) && (x == a) then 0 else p.word a k)
unfolding take_page
page_alloc-word flags x p a k e = rw (page_alloc-some flags x p e) (ground arith)

-- `page_free` of a page that is neither referenced nor free and has no link puts it in front of the free list,
-- and writes no page.
pub page_free_lem :
    (x : ℕ) {p : Phys} (xs : List ℕ)
    → IsFreeList p xs
    → has x xs ≡ false
    → (p.pages x).pp_ref ≡ 0
    → (p.pages x).pp_link ≡ none
    → (q : Phys) × (page_free x p ≡ returns q) × IsFreeList q (x ∷ xs) × (q.word ≡ p.word)
unfolding page_free insert_at_beginning
page_free_lem x {p} [] v out unused plain = (
  record p { page_free_list = some x },
  ground (arith, plain),
  record {
    chain = ground (arith, plain);
    distinct = ground arith;
    unreferenced = ground arith;
    unlinked = λ a o. ground (arith, v.unlinked a);
  },
  refl,
)
page_free_lem x {p} (y ∷ ys) v out unused plain = (
  record p {
    pages = update p.pages x (record (p.pages x) { pp_link = some y });
    page_free_list = some x;
  },
  ground (arith, plain),
  record {
    chain = (refl, Chain-front);
    distinct = (out, v.distinct);
    unreferenced = ground (arith, Unreferenced-update p.pages x linked (y ∷ ys) out v.unreferenced);
    unlinked = λ a o. ground (arith, v.unlinked a);
  },
  refl,
)
  where
    linked : PageInfo
    linked = record (p.pages x) { pp_link = some y }

    Chain-front : Chain (update p.pages x linked) (update p.pages x linked x).pp_link (y ∷ ys)
    Chain-front =
        ground (arith, Chain-update p.pages x linked (some y) (y ∷ ys) out (refl, v.chain.1))

-- Writing the count of a page that is not free leaves the free list as it is.
pub set_ref-IsFreeList :
    (x n : ℕ) {p : Phys} (xs : List ℕ)
    → IsFreeList p xs
    → has x xs ≡ false
    → (p.pages x).pp_link ≡ none
    → IsFreeList (set_page p x (record (p.pages x) { pp_ref = n })) xs
set_ref-IsFreeList x n {p} xs v out plain = record {
  chain = Chain-update p.pages x _ p.page_free_list xs out v.chain;
  distinct = v.distinct;
  unreferenced = Unreferenced-update p.pages x _ xs out v.unreferenced;
  unlinked = λ a o. ground (arith, v.unlinked a);
}

-- What a call of `page_decref` has done to page `x`, which had `r` references.
pub record Released (x r : ℕ) (xs : List ℕ) (p q : Phys) : Type 0 where
  pub count : (q.pages x).pp_ref ≡ r - 1
  pub free : IsFreeList q (if r == 1 then x ∷ xs else xs)
  pub same : q.word ≡ p.word

page_decref-shared :
    (x : ℕ) (p : Phys)
    → 1 < (p.pages x).pp_ref
    → (p.pages x).pp_ref < 2 ^ 16
    → page_decref x p
      ≡ returns (set_page p x (record (p.pages x) { pp_ref = (p.pages x).pp_ref - 1 }))
unfolding page_decref
page_decref-shared x p h k =
    let e : ref_down (p.pages x).pp_ref ≡ (p.pages x).pp_ref - 1 = omega arith in
    rw e (ground arith)

page_decref_last :
    (x : ℕ) (p : Phys)
    → (p.pages x).pp_ref ≡ 1
    → page_decref x p ≡ page_free x (set_page p x (record (p.pages x) { pp_ref = 0 }))
unfolding page_decref
page_decref_last x p h =
    let e : ref_down (p.pages x).pp_ref ≡ 0 = omega arith in rw e (ground arith)

-- `page_decref` of a page in use counts one reference less; when that was the last one the page
-- goes to the front of the free list, else the list stays. No page is written.
pub page_decref_lem :
    (x r : ℕ) {p : Phys} (xs : List ℕ)
    → IsFreeList p xs
    → has x xs ≡ false
    → (p.pages x).pp_ref ≡ r
    → 0 < r
    → r < 2 ^ 16
    → (q : Phys) × (page_decref x p ≡ returns q) × Released x r xs p q
page_decref_lem x zero xs v out e pos small = absurd (omega arith)
page_decref_lem x (suc zero) {p} xs v out e pos small =
    let plain = v.unlinked x (omega arith) in
    let w = set_ref-IsFreeList x 0 xs v out plain in
    let zeroed : PageInfo = record (p.pages x) { pp_ref = 0 } in
    let (q, freed, free, same) = page_free_lem x xs w out (ground arith) (ground (arith, plain)) in
    (
      q,
      page_decref_last x p e ∙ freed,
      record { count = free.unreferenced.0; free = free; same = same },
    )
page_decref_lem x (suc (suc r)) {p} xs v out e pos small = (
  set_page p x (record (p.pages x) { pp_ref = (p.pages x).pp_ref - 1 }),
  page_decref-shared x p (omega arith) (omega arith),
  record {
    count = ground arith;
    free = ground (
      arith,
      set_ref-IsFreeList x ((p.pages x).pp_ref - 1) xs v out (v.unlinked x (omega arith)),
    );
    same = refl;
  },
)
