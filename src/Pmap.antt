-- ===== src/Pmap.antt =====
-- Physical pages: `struct PageInfo`, `page_free_list` and the allocator of kern/pmap.c.
-- A `struct PageInfo *` and the page that it describes are one number, its index in `pages`, so
-- that `page2pa`, `page2kva` and `pa2page` only change units. `page2kva(pp)` is read and written
-- as 512 words of 64 bits.
pub mod FreeList
pub mod Alloc
pub mod Init
pub mod DoubleFree
pub mod Walk
pub mod Map
pub mod Tables
pub mod Check
mod Tests
use jos_operating_system.Prelude.{
  ℕ, ◌+◌, ◌%◌, ◌^◌, Bool, true, false, Option, none, some, ◌==◌, ◌!=◌, if◌then◌else◌, update,
  Outcome, returns, panics, bit_and,
}

-- `struct PageInfo`; `pp_ref` is a uint16_t
pub record PageInfo : Type 0 where
  pub pp_link : Option ℕ
  pub pp_ref : ℕ

pub record Phys : Type 0 where
  pub pages : ℕ → PageInfo
  pub page_free_list : Option ℕ
  pub word : ℕ → ℕ → ℕ

abbrev pub alloc_zero : ℕ
alloc_zero = 1

abbrev pub set_page : Phys → ℕ → PageInfo → Phys
set_page p i info = record p { pages = update p.pages i info }

-- `memset(page2kva(page), '\0', PGSIZE)`
abbrev pub clear_page : Phys → ℕ → Phys
clear_page p i = record p { word = update p.word i (λ _. 0) }

-- The page taken off the list, its link cleared.
unfoldable pub take_page : ℕ → ℕ → Phys → Phys
take_page flags i p =
    let info = p.pages i in
    let q = record p {
      page_free_list = info.pp_link;
      pages = update p.pages i (record info { pp_link = none });
    } in
    if bit_and flags alloc_zero != 0 then clear_page q i else q

unfoldable pub page_alloc : ℕ → Phys → Option ℕ × Phys
unfolding take_page
page_alloc flags p = elim p.page_free_list [
  | none ↦ (none, p)
  | some i ↦ (some i, take_page flags i p)
]

-- `insertAtBegining(&page_free_list, pp)` at a node that is not NULL
insert_at_beginning : ℕ → Phys → Phys
insert_at_beginning i p = elim p.page_free_list [
  | none ↦ record p { page_free_list = some i }
  | some first ↦ record p {
    pages = update p.pages i (record (p.pages i) { pp_link = some first });
    page_free_list = some i;
  }
]

unfoldable pub page_free : ℕ → Phys → Outcome Phys
unfolding insert_at_beginning
page_free i p =
    if (p.pages i).pp_ref != 0
    then panics
    else elim (p.pages i).pp_link [ some _ ↦ panics | none ↦ returns (insert_at_beginning i p) ]

-- `pp->pp_ref++` and `--pp->pp_ref`, on 16 bits
abbrev pub ref_up : ℕ → ℕ
ref_up n = (n + 1) % 2 ^ 16

abbrev pub ref_down : ℕ → ℕ
ref_down n = (n + 65535) % 2 ^ 16

unfoldable pub page_decref : ℕ → Phys → Outcome Phys
unfolding page_free
page_decref i p =
    let n = ref_down (p.pages i).pp_ref in
    let q = set_page p i (record (p.pages i) { pp_ref = n }) in
    if n == 0 then page_free i q else returns q
