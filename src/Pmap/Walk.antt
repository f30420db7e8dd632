-- ===== src/Pmap/Walk.antt =====
-- The four-level page tables of kern/pmap.c: `pml4e_walk`, `pdpe_walk`, `pgdir_walk`.
-- A table is a page of 512 entries; a pointer to a table is the number of its page, NULL is
-- `none`, and a `pte_t *` is a page with an index.
use jos_operating_system.Prelude.{
  ℕ, ◌*◌, ◌/◌, ◌%◌, ◌^◌, Bool, Option, none, some, ◌==◌, leb, if◌then◌else◌, update, Outcome,
  returns, panics, ◌>>=◌, bit_or,
}
use jos_operating_system.Pmap.{Phys, alloc_zero, set_page, ref_up, page_alloc, page_decref}

pub record Slot : Type 0 where
  pub page : ℕ
  pub index : ℕ

abbrev pub slot : ℕ → ℕ → Slot
slot d k = record { page = d; index = k }

-- inc/mmu.h
abbrev pub pgsize : ℕ
pgsize = 4096

abbrev pub pte_p : ℕ
pte_p = 1

abbrev pub pte_w : ℕ
pte_w = 2

abbrev pub pte_u : ℕ
pte_u = 4

abbrev pub ptx : ℕ → ℕ
ptx va = va / 2 ^ 12 % 512

abbrev pub pdx : ℕ → ℕ
pdx va = va / 2 ^ 21 % 512

abbrev pub pdpe : ℕ → ℕ
pdpe va = va / 2 ^ 30 % 512

abbrev pub pml4 : ℕ → ℕ
pml4 va = va / 2 ^ 39 % 512

abbrev pub ppn : ℕ → ℕ
ppn pa = pa / pgsize

abbrev pub pte_addr : ℕ → ℕ
pte_addr e = e / pgsize * pgsize

abbrev pub page2pa : ℕ → ℕ
page2pa i = i * pgsize

abbrev pub load : Phys → Slot → ℕ
load p s = p.word s.page s.index

abbrev pub store : Phys → Slot → ℕ → Phys
store p s e = record p { word = update p.word s.page (update (p.word s.page) s.index e) }

-- `page->pp_ref++; table[k] = page2pa(page) | perm` with PTE_W, PTE_U and PTE_P
unfoldable pub link_table : Slot → ℕ → Phys → Phys
link_table s i p =
    let info = p.pages i in
    store (set_page p i (record info { pp_ref = ref_up info.pp_ref })) s (bit_or (page2pa i) 7)

module _ (npages : ℕ) where
  -- `KADDR(pa)`, as the page behind the address; its page number is cut to 32 bits for the test
  unfoldable pub kaddr : ℕ → Outcome ℕ
  kaddr pa = if leb npages (ppn pa % 2 ^ 32) then panics else returns (ppn pa)

  unfoldable pub pa2page : ℕ → Outcome ℕ
  pa2page pa = if leb npages (ppn pa) then panics else returns (ppn pa)

  -- the end of `pgdir_walk`, from the entry of the page directory on
  pgdir_enter : ℕ → ℕ → Phys → Outcome (Option Slot × Phys)
  pgdir_enter d va p =
      kaddr (pte_addr (p.word d (pdx va))) >>= λ table. returns (some (slot table (ptx va)), p)

  pgdir_create : ℕ → ℕ → Option ℕ × Phys → Outcome (Option Slot × Phys)
  pgdir_create d va (none, p) = returns (none, p)
  pgdir_create d va (some i, p) = pgdir_enter d va (link_table (slot d (pdx va)) i p)

  unfoldable pub pgdir_walk : Option ℕ → ℕ → Bool → Phys → Outcome (Option Slot × Phys)
  unfolding pgdir_enter pgdir_create
  pgdir_walk none va create p = returns (none, p)
  pgdir_walk (some d) va create p =
      if p.word d (pdx va) == 0
      then (if create then pgdir_create d va (page_alloc alloc_zero p) else returns (none, p))
      else pgdir_enter d va p

  pdpe_enter : ℕ → ℕ → Bool → Phys → Outcome (Option Slot × Phys)
  pdpe_enter d va create p =
      kaddr (pte_addr (p.word d (pdpe va))) >>= λ table. pgdir_walk (some table) va create p

  -- The page is bound to a variable of the block, so that `page` of the function stays NULL and
  -- the clean-up behind the call of `pgdir_walk` never runs.
  pdpe_create : ℕ → ℕ → Bool → Option ℕ × Phys → Outcome (Option Slot × Phys)
  pdpe_create d va create (none, p) = returns (none, p)
  pdpe_create d va create (some i, p) = pdpe_enter d va create (link_table (slot d (pdpe va)) i p)

  unfoldable pub pdpe_walk : Option ℕ → ℕ → Bool → Phys → Outcome (Option Slot × Phys)
  unfolding pdpe_enter pdpe_create
  pdpe_walk none va create p = returns (none, p)
  pdpe_walk (some d) va create p =
      if p.word d (pdpe va) == 0
      then (if create then pdpe_create d va create (page_alloc alloc_zero p) else returns (none, p))
      else pdpe_enter d va create p

  pml4e_enter : ℕ → ℕ → Bool → Phys → Outcome (Option Slot × Phys)
  pml4e_enter d va create p =
      kaddr (pte_addr (p.word d (pml4 va))) >>= λ table. pdpe_walk (some table) va create p

  -- `page_decref(page); pml4e[pml4eIndex] = 0` when the walk below a new table failed
  pml4e_undo : ℕ → ℕ → ℕ → Option Slot × Phys → Outcome (Option Slot × Phys)
  pml4e_undo d va i (some s, p) = returns (some s, p)
  pml4e_undo d va i (none, p) =
      page_decref i p >>= λ q. returns (none, store q (slot d (pml4 va)) 0)

  pml4e_create : ℕ → ℕ → Bool → Option ℕ × Phys → Outcome (Option Slot × Phys)
  pml4e_create d va create (none, p) = returns (none, p)
  pml4e_create d va create (some i, p) =
      pml4e_enter d va create (link_table (slot d (pml4 va)) i p) >>= pml4e_undo d va i

  unfoldable pub pml4e_walk : Option ℕ → ℕ → Bool → Phys → Outcome (Option Slot × Phys)
  unfolding pml4e_enter pml4e_undo pml4e_create
  pml4e_walk none va create p = returns (none, p)
  pml4e_walk (some d) va create p =
      if p.word d (pml4 va) == 0
      then (if create
          then pml4e_create d va create (page_alloc alloc_zero p)
          else returns (none, p))
      else pml4e_enter d va create p
