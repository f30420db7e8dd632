-- ===== src/Malloc.antt =====
-- `malloc` and `free` of lib/malloc.c. A page of the area is its number; `page` gives what uvpt says
-- of it, `none` or whether PTE_CONTINUED is set, and `ref` its last word, the count of references.
-- Whether sys_page_alloc fails for a page is a parameter.
pub mod Search
mod Tests
use jos_operating_system.Prelude.{
  ℕ, zero, suc, ◌+◌, ◌-◌, ◌*◌, ◌/◌, ◌%◌, ◌^◌, Bool, true, false, Option, none, some, ◌==◌, ◌!=◌,
  leb, ltb, ◌||◌, ◌&&◌, if◌then◌else◌, Outcome, returns, panics, ◌>>=◌, update,
}

abbrev pub pgsize : ℕ
pgsize = 4096

abbrev pub maxmalloc : ℕ
maxmalloc = 0x10_0000

abbrev pub mbegin : ℕ
mbegin = 0x0800_0000

abbrev pub mend : ℕ
mend = 0x1000_0000

-- `mptr` is 0 before the first call
pub record Heap : Type 0 where
  pub mptr : ℕ
  pub page : ℕ → Option Bool
  pub ref : ℕ → ℕ

abbrev pub is_mapped : Heap → ℕ → Bool
is_mapped h i = elim (h.page i) [ none ↦ false | some cont ↦ true ]

abbrev pub is_continued : Heap → ℕ → Bool
is_continued h i = elim (h.page i) [ none ↦ false | some cont ↦ cont ]

abbrev pub unmap : ℕ → Heap → Heap
unmap i h = record h { page = update h.page i none }

-- the loop of `isfree`, `k` rounds from address `va` on
isfree_loop : ℕ → ℕ → Heap → Bool
isfree_loop zero va h = true
isfree_loop (suc k) va h =
    let rest = isfree_loop k (va + pgsize) h in
    if leb mend va || is_mapped h (va / pgsize) then false else rest

unfoldable pub isfree : ℕ → ℕ → Heap → Bool
unfolding isfree_loop
isfree v n h = isfree_loop (((v + n) % 2 ^ 64 - v + 4095) / pgsize) v h

-- the end of `free`: the reference to page `c` dropped
drop_ref : ℕ → Heap → Outcome Heap
drop_ref c h =
    if is_mapped h c
    then (let n = (h.ref c + (2 ^ 32 - 1)) % 2 ^ 32 in
        let g = record h { ref = update h.ref c n } in returns (if n == 0 then unmap c g else g))
    else panics

-- The loop of `free` from page `c` on. The assertion ends it at `mend`, so that as many rounds as
-- pages are enough.
free_loop : ℕ → ℕ → Heap → Outcome Heap
unfolding drop_ref
free_loop zero c h = panics
free_loop (suc fuel) c h = elim (is_continued h c) [
  | false ↦ drop_ref c h
  | true ↦
      (if leb mbegin ((c + 1) * pgsize) && ltb ((c + 1) * pgsize) mend
        then free_loop fuel (c + 1) (unmap c h)
        else panics)
]

unfoldable pub free : ℕ → Heap → Outcome Heap
unfolding free_loop
free v h =
    if v == 0
    then returns h
    else if leb mbegin v && ltb v mend
    then free_loop ((mend - mbegin) / pgsize) (v / pgsize) h
    else panics

-- what the search for address space ends with
pub data Found : Type 0 where
  place : Heap → Found
  out_of_space : Heap → Found

-- The search, for `n` bytes and a count; `none` when it goes on after so many rounds.
unfoldable pub search_loop : ℕ → ℕ → ℕ → Heap → Option Found
search_loop zero n nwrap h = none
search_loop (suc rounds) n nwrap h = elim (isfree h.mptr (n + 4) h) [
  | true ↦ some (place h)
  | false ↦
      (let next = (h.mptr + pgsize) % 2 ^ 64 in
        elim (next == mend) [
          | false ↦ search_loop rounds n nwrap (record h { mptr = next })
          | true ↦ elim (nwrap == 0) [
            | false ↦ some (out_of_space (record h { mptr = mbegin }))
            | true ↦ search_loop rounds n (nwrap + 1) (record h { mptr = mbegin })
          ]
        ])
]

-- the pages up to the one that sys_page_alloc failed for, from the last on
unmap_back : ℕ → ℕ → Heap → Heap
unmap_back zero first h = unmap first h
unmap_back (suc i) first h = unmap_back i first (unmap (first + suc i) h)

-- The loop of calls of sys_page_alloc, `k` rounds from page `i` of the chunk on; false is a failure.
alloc_loop : (ℕ → Bool) → ℕ → ℕ → ℕ → Heap → Bool × Heap
unfolding unmap_back
alloc_loop fails zero first i h = (true, h)
alloc_loop fails (suc k) first i h =
    let rest =
      alloc_loop fails k first (i + 1)
        (record h { page = update h.page (first + i) (some (k != 0)) }) in
    if fails (first + i) then (false, unmap_back i first h) else rest

-- the pages of a chunk at `mptr`, and their count of references
fill : (ℕ → Bool) → ℕ → Heap → Option ℕ × Heap
unfolding alloc_loop
fill fails n h =
    let pages = (n + 4 + 4095) / pgsize in
    let first = h.mptr / pgsize in
    let (good, g) = alloc_loop fails pages first 0 h in
    if good
    then (some h.mptr, record g { mptr = h.mptr + n; ref = update g.ref (first + pages - 1) 2 })
    else (none, g)

-- What `malloc` returns, `none` for 0, and the state.
abbrev pub Result : Type 0
Result = Option ℕ × Heap

-- behind the search
unfoldable pub found : (ℕ → Bool) → ℕ → Option Found → Option Result
unfolding fill
found fails n none = none
found fails n (some (out_of_space h)) = some (none, h)
found fails n (some (place h)) = some (fill fails n h)

-- `malloc` for a rounded size when `mptr` is at the start of a page
abbrev pub fresh : (ℕ → Bool) → ℕ → ℕ → Heap → Option Result
fresh fails rounds n h = found fails n (search_loop rounds n 0 h)

-- `malloc` within a page that has been begun
in_page : (ℕ → Bool) → ℕ → ℕ → Heap → Outcome (Option Result)
in_page fails rounds n h =
    let c = h.mptr / pgsize in
    if c == (h.mptr + n + 3) / pgsize
    then (if is_mapped h c
        then returns (
            some (
              some h.mptr,
              record h { mptr = h.mptr + n; ref = update h.ref c ((h.ref c + 1) % 2 ^ 32) },
            ))
        else panics)
    else (free h.mptr h >>= λ g.
        returns (fresh fails rounds n (record g { mptr = (h.mptr + pgsize) / pgsize * pgsize })))

-- `ROUNDUP(n, 4)`
abbrev pub round_up : ℕ → ℕ
round_up n = (n + 3) % 2 ^ 64 / 4 * 4

-- `malloc` with so many rounds of the search.
unfoldable pub malloc : (ℕ → Bool) → ℕ → ℕ → Heap → Outcome (Option Result)
unfolding in_page
malloc fails rounds size h =
    let g = if h.mptr == 0 then record h { mptr = mbegin } else h in
    let n = round_up size in
    if leb maxmalloc n
    then returns (some (none, g))
    else if g.mptr % pgsize != 0
    then in_page fails rounds n g
    else returns (fresh fails rounds n g)
