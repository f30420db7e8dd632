-- ===== src/Pmap/Init/Listed.antt =====
-- The free list that `page_init` makes.
use jos_operating_system.Prelude.{
  ℕ, zero, suc, ◌+◌, ◌-◌, ◌<◌, ◌≤◌, ◌≡◌, ◌⊎◌, inl, inr, refl, ap, ◌∙◌, none, some, List, ◌++◌,
  arith, ◌==◌, if◌then◌else◌, Distinct, range_from, has-range_from, not-has-range_from,
  range_from-Distinct, returns,
}
use native.Mathlib.Decide.{dec_lt, ℕ_discrete}
use jos_operating_system.Pmap.{Phys, set_page}
use jos_operating_system.Pmap.FreeList.{Chain, IsFreeList}
use jos_operating_system.Pmap.Init.{
  free_info, init_loop, link_last, pass_over, drop_first, page_init, hole_start,
}
use jos_operating_system.Pmap.Init.Chains.{
  Chain-run, Chain-last, has-append, Distinct-append, Unreferenced-all,
}

module _ (n i : ℕ) (p : Phys) where
  -- the state when the loop comes to the page behind `i`
  abbrev next_state : Phys
  next_state = link_last (some i) (i + 1) (set_page p (i + 1) free_info)

  init_loop-suc :
      init_loop (suc n) (i + 1) (some i) p ≡ init_loop n (i + 1 + 1) (some (i + 1)) next_state
  unfolding init_loop
  init_loop-suc = refl

page_free_list-init_loop :
    (n i : ℕ) (p : Phys) → (init_loop n (i + 1) (some i) p).page_free_list ≡ p.page_free_list
unfolding init_loop
page_free_list-init_loop zero i p = refl
page_free_list-init_loop (suc n) i p = page_free_list-init_loop n (i + 1) (next_state n i p)

-- the pages outside the loop's
outside :
    (n i : ℕ) (p : Phys) (a : ℕ)
    → (a < i) ⊎ (i + 1 + n ≤ a)
    → (init_loop n (i + 1) (some i) p).pages a ≡ p.pages a
unfolding init_loop
outside zero i p a h = refl
outside (suc n) i p a (inl h) =
    outside n (i + 1) (next_state n i p) a (inl (omega arith)) ∙ ground arith
outside (suc n) i p a (inr h) =
    outside n (i + 1) (next_state n i p) a (inr (omega arith)) ∙ ground arith

-- the loop's pages
inside_loop :
    (n i : ℕ) (p : Phys) (a : ℕ)
    → (p.pages i).pp_link ≡ none
    → (p.pages i).pp_ref ≡ 0
    → i ≤ a
    → a < i + 1 + n
    → (((init_loop n (i + 1) (some i) p).pages a).pp_link
        ≡ (if a + 1 == i + 1 + n then none else some (a + 1)))
      × (((init_loop n (i + 1) (some i) p).pages a).pp_ref ≡ 0)
unfolding init_loop
inside_loop zero i p a link count lo hi =
    let same : a ≡ i = omega arith in rw same (ground (arith, link), count)
inside_loop (suc n) i p a link count lo hi = elim (ℕ_discrete a i) [
  | yes first ↦
      (let kept = outside n (i + 1) (next_state n i p) i (inl (omega arith)) in
        rw first (
          ap (λ x. x.pp_link) kept ∙ ground arith,
          ap (λ x. x.pp_ref) kept ∙ ground (arith, count),
        ))
  | no later ↦
      (let (l, c) =
          inside_loop n (i + 1) (next_state n i p) a (ground arith) (ground arith) (omega arith)
            (omega arith) in
        (l ∙ ground arith, c))
]

-- The state in front of the removal of page 0, for `m + 1` pages.
module _ (m : ℕ) (p : Phys) (beyond : (b : ℕ) → m < b → (p.pages b).pp_ref ≡ 0) where
  abbrev one_page : Phys
  one_page = link_last none 0 (set_page (record p { page_free_list = none }) 0 free_info)

  abbrev all_free : Phys
  all_free = init_loop m (0 + 1) (some 0) one_page

  link_of :
      (a : ℕ) → a < m + 1 → (all_free.pages a).pp_link ≡ (if a == m then none else some (a + 1))
  link_of a h =
      (inside_loop m 0 one_page a (ground arith) (ground arith) (omega arith) (omega arith)).0
      ∙ ground arith

  count_of : (a : ℕ) → (all_free.pages a).pp_ref ≡ 0
  count_of a = elim (dec_lt a (m + 1)) [
    | yes known ↦
        (inside_loop m 0 one_page a (ground arith) (ground arith) (omega arith) (omega arith)).1
    | no other ↦
        ap (λ x. x.pp_ref) (outside m 0 one_page a (inr (omega arith)))
        ∙ ground (arith, beyond a (omega arith))
  ]

  init_loop-all_free : init_loop (suc m) 0 none (record p { page_free_list = none }) ≡ all_free
  unfolding init_loop
  init_loop-all_free = refl

  module _ (kern_end boot_first boot_last : ℕ) where
    abbrev listed : Phys
    listed = pass_over kern_end boot_first boot_last (record all_free { page_free_list = some 1 })

    -- the pages that `page_init` leaves free
    abbrev free_pages : List ℕ
    free_pages = range_from 1 6 ++ (range_from 8 152 ++ range_from kern_end (suc (m - kern_end)))

    module _ (above : hole_start < boot_first) (below : boot_first ≤ kern_end)
        (room : kern_end ≤ m) where
      dropped : drop_first all_free ≡ returns (record all_free { page_free_list = some 1 })
      unfolding drop_first
      dropped =
          let head : all_free.page_free_list ≡ some 0 = page_free_list-init_loop m 0 one_page in
          let second : (all_free.pages 0).pp_link ≡ some 1 =
            link_of 0 (omega arith) ∙ ground arith in
          ground (arith, head, second)

      listed-page_init : page_init (suc m) kern_end boot_first boot_last p ≡ returns listed
      unfolding page_init
      listed-page_init = rw (init_loop-all_free, dropped) refl

      listed-Chain : Chain listed.pages (some 1) free_pages
      listed-Chain =
          Chain-run listed.pages 1 5 (some 8)
            (range_from 8 152 ++ range_from kern_end (suc (m - kern_end)))
            (λ a lo hi. ground (arith, link_of a (omega arith)))
            (Chain-run listed.pages 8 151 (some kern_end) (range_from kern_end (suc (m - kern_end)))
              (λ a lo hi. ground (arith, link_of a (omega arith)))
              (Chain-last listed.pages kern_end (m - kern_end)
                (λ a lo hi. ground (arith, link_of a (omega arith)))))

      listed-Distinct : Distinct free_pages
      listed-Distinct =
          Distinct-append (range_from 1 6)
            (range_from 8 152 ++ range_from kern_end (suc (m - kern_end))) (range_from-Distinct 1 6)
            (Distinct-append (range_from 8 152) (range_from kern_end (suc (m - kern_end)))
              (range_from-Distinct 8 152) (range_from-Distinct kern_end (suc (m - kern_end)))
              (λ a h.
                not-has-range_from kern_end (suc (m - kern_end)) a
                  (omega (arith, has-range_from 8 152 a h))))
            (λ a h. ground (
              arith,
              has-append a (range_from 8 152) (range_from kern_end (suc (m - kern_end))),
              not-has-range_from 8 152 a (omega (arith, has-range_from 1 6 a h)),
              not-has-range_from kern_end (suc (m - kern_end)) a
                  (omega (arith, has-range_from 1 6 a h)),
            ))

      -- `page_init` of a machine whose kernel ends in its memory, behind the boot page tables and the
      -- hole, leaves a free list: pages 1 to 6, 8 to 159 and those from the end of the kernel on,
      -- in this order. Page 0, the page at MPENTRY_PADDR, the hole, the boot page tables and the kernel
      -- are not on it.
      pub page_init-IsFreeList :
          (q : Phys) × (page_init (suc m) kern_end boot_first boot_last p ≡ returns q)
          × IsFreeList q free_pages
      page_init-IsFreeList = (
        listed,
        listed-page_init,
        record {
          chain = listed-Chain;
          distinct = listed-Distinct;
          unreferenced = Unreferenced-all listed.pages free_pages (λ a.
              ground (arith, count_of a, count_of 6, count_of 159, count_of (boot_first - 1)));
          unlinked = λ a used.
              absurd
                (ground (arith, count_of a, count_of 6, count_of 159, count_of (boot_first - 1)));
        },
      )
