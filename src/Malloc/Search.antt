-- ===== src/Malloc/Search.antt =====
-- When the search for address space ends.
use jos_operating_system.Prelude.{
  ℕ, zero, suc, ◌+◌, ◌-◌, ◌*◌, ◌/◌, ◌%◌, ◌^◌, ◌<◌, ◌≤◌, ◌≡◌, ◌⊎◌, refl, sym, ◌∙◌, ap, Bool, true,
  false, Option, none, some, arith, ◌==◌, ◌!=◌, leb, inl, inr, Bool-cases, returns,
}
use mathlib.Core.Path.{subst}
use native.Mathlib.Decide.{ℕ_discrete}
use jos_operating_system.Malloc.{
  pgsize, maxmalloc, mbegin, mend, Heap, isfree, isfree_loop, free, Found, place, out_of_space,
  search_loop, found, in_page, round_up, malloc,
}

module _ (rounds n nwrap : ℕ) (h : Heap) where
  free_here : isfree h.mptr (n + 4) h ≡ true → search_loop (suc rounds) n nwrap h ≡ some (place h)
  unfolding search_loop
  free_here e = ground (arith, e)

  abbrev next : ℕ
  next = (h.mptr + pgsize) % 2 ^ 64

  go_on :
      isfree h.mptr (n + 4) h ≡ false
      → (next == mend) ≡ false
      → search_loop (suc rounds) n nwrap h ≡ search_loop rounds n nwrap (record h { mptr = next })
  unfolding search_loop
  go_on e f = ground (arith, e, f)

  wrap_around :
      isfree h.mptr (n + 4) h ≡ false
      → (next == mend) ≡ true
      → (nwrap == 0) ≡ true
      → search_loop (suc rounds) n nwrap h
        ≡ search_loop rounds n (nwrap + 1) (record h { mptr = mbegin })
  unfolding search_loop
  wrap_around e f g = ground (arith, e, f, g)

  give_up :
      isfree h.mptr (n + 4) h ≡ false
      → (next == mend) ≡ true
      → (nwrap == 0) ≡ false
      → search_loop (suc rounds) n nwrap h ≡ some (out_of_space (record h { mptr = mbegin }))
  unfolding search_loop
  give_up e f g = ground (arith, e, f, g)

-- The search ends: at a place in the area at the start of a page, from which the pages of the chunk
-- are free, or in failure; nothing but `mptr` has changed.
abbrev pub Searched : ℕ → Heap → Option Found → Type 0
Searched n h o =
    ((m : ℕ) × (o ≡ some (place (record h { mptr = m })))
      × (m % pgsize ≡ 0)
      × (mbegin ≤ m)
      × (m < mend)
      × (isfree m (n + 4) (record h { mptr = m }) ≡ true))
    ⊎ (o ≡ some (out_of_space (record h { mptr = mbegin })))

-- a number of rounds that is enough
abbrev pub left : ℕ → ℕ → ℕ
left mptr nwrap = (mend - mptr) / pgsize + 32768 * (1 - nwrap)

search_lem :
    (rounds n nwrap : ℕ) (h : Heap)
    → h.mptr % pgsize ≡ 0
    → mbegin ≤ h.mptr
    → h.mptr < mend
    → left h.mptr nwrap ≤ rounds
    → Searched n h (search_loop rounds n nwrap h)
search_lem zero n nwrap h at lo hi enough = absurd (omega arith)
search_lem (suc rounds) n nwrap h at lo hi enough = elim (Bool-cases (isfree h.mptr (n + 4) h)) [
  | inl yes_free ↦ inl (h.mptr, free_here rounds n nwrap h yes_free, at, lo, hi, yes_free)
  | inr taken ↦ elim (ℕ_discrete (h.mptr + pgsize) mend) [
    | no inside ↦ subst (Searched n h) (sym (go_on rounds n nwrap h taken (ground arith))) (
        search_lem rounds n nwrap (record h { mptr = (h.mptr + pgsize) % 2 ^ 64 }) (omega arith)
          (omega arith) (omega arith) (omega arith))
    | yes at_end ↦ elim (ℕ_discrete nwrap 0) [
      | yes first ↦
          subst (Searched n h)
            (sym (wrap_around rounds n nwrap h taken (ground arith) (ground (arith, first))))
            (search_lem rounds n (nwrap + 1) (record h { mptr = mbegin }) (omega arith)
              (omega arith) (omega arith) (omega arith))
      | no second ↦ inr (give_up rounds n nwrap h taken (ground arith) (ground arith))
    ]
  ]
]

-- From the start of a page of the area, the search for address space ends within 65536 rounds,
-- twice the number of pages of the area: at the start of a page from which the pages of the chunk
-- are free, or in failure. Nothing but `mptr` has changed.
pub search_ends :
    (n : ℕ) (h : Heap)
    → h.mptr % pgsize ≡ 0
    → mbegin ≤ h.mptr
    → h.mptr < mend
    → Searched n h (search_loop 65536 n 0 h)
search_ends n h at lo hi = search_lem 65536 n 0 h at lo hi (omega arith)

past_end : (v n : ℕ) (h : Heap) → mend ≤ v → v + n + 4 < 2 ^ 64 → isfree v (n + 4) h ≡ false
unfolding isfree isfree_loop
past_end v n h hi fits =
    let k = ((v + (n + 4)) % 2 ^ 64 - v + 4095) / pgsize in
    let one_more : k ≡ suc (k - 1) = omega arith in
    ap (λ r. isfree_loop r v h) one_more ∙ ground arith

-- The search for address space goes on from the end of the area, round after round: it tests `mptr`
-- for equality with `mend` only after it has moved on.
pub search_past_end :
    (rounds n nwrap : ℕ) (h : Heap)
    → mend ≤ h.mptr
    → h.mptr + rounds * pgsize + n + 4 < 2 ^ 64
    → search_loop rounds n nwrap h ≡ none
unfolding search_loop
search_past_end zero n nwrap h hi fits = refl
search_past_end (suc rounds) n nwrap h hi fits =
    go_on rounds n nwrap h (past_end h.mptr n h hi (omega arith)) (ground arith)
    ∙ search_past_end rounds n nwrap (record h { mptr = (h.mptr + pgsize) % 2 ^ 64 }) (omega arith)
        (omega arith)

-- When `mptr` is in the last page of the area and the chunk does not fit behind it, `malloc` goes on
-- to the end of the area and does not return within 2 ^ 51 rounds of the search.
pub malloc_hangs :
    (fails : ℕ → Bool) (rounds size : ℕ) (h g : Heap)
    → mend - pgsize < h.mptr
    → h.mptr < mend
    → mend ≤ h.mptr + round_up size + 3
    → round_up size < maxmalloc
    → free h.mptr h ≡ returns g
    → rounds ≤ 2 ^ 51
    → malloc fails rounds size h ≡ returns none
unfolding malloc in_page found
malloc_hangs fails rounds size h g lo hi full small freed enough =
    let n = round_up size in
    let begun : (h.mptr == 0) ≡ false = ground arith in
    let fits : leb maxmalloc n ≡ false = ground arith in
    let inside : (h.mptr % pgsize != 0) ≡ true = ground arith in
    let apart : (h.mptr / pgsize == (h.mptr + n + 3) / pgsize) ≡ false = ground arith in
    let at_end : (h.mptr + pgsize) / pgsize * pgsize ≡ mend = omega arith in
    let lost =
      search_past_end rounds n 0 (record g { mptr = (h.mptr + pgsize) / pgsize * pgsize })
        (omega arith) (omega arith) in
    rw (begun, fits, inside, apart, freed, lost) refl
