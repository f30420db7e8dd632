-- ===== src/Pmap/Init.antt =====
-- The first free list: `boot_alloc` and `page_init` of kern/pmap.c. The end of the kernel's image and
-- the place of the boot page tables are symbols of the linker, and `npages` is read from the machine.
pub mod Chains
pub mod Listed
mod Tests
use jos_operating_system.Prelude.{
  ℕ, zero, suc, ◌+◌, ◌-◌, ◌*◌, ◌/◌, ◌%◌, ◌^◌, Option, none, some, ◌==◌, ltb, if◌then◌else◌, Outcome,
  returns, panics, ◌>>=◌,
}
use jos_operating_system.Pmap.{PageInfo, Phys, set_page}

abbrev pub round_up : ℕ → ℕ
round_up a = (a + 4095) % 2 ^ 64 / 4096 * 4096

-- The result and `nextfree`, which is 0 before the first call; `end` is the linker's symbol.
unfoldable pub boot_alloc : ℕ → ℕ → ℕ → Outcome (ℕ × ℕ)
boot_alloc end n nextfree =
    let start = if nextfree == 0 then round_up end else nextfree in
    if n == 0
    then returns (start, start)
    else (let next = round_up ((start + n) % 2 ^ 64) in
        if ltb next end then panics else returns (start, next))

abbrev pub free_info : PageInfo
free_info = record { pp_link = none; pp_ref = 0 }

-- `pages[i].pp_link = …`
abbrev pub set_link : ℕ → Option ℕ → Phys → Phys
set_link i link p = set_page p i (record (p.pages i) { pp_link = link })

-- `last->pp_link = &pages[i]`, or the head of the list
abbrev pub link_last : Option ℕ → ℕ → Phys → Phys
link_last none i p = record p { page_free_list = some i }
link_last (some l) i p = set_link l (some i) p

-- The loop of `page_init`, `n` rounds from page `i` on.
init_loop : ℕ → ℕ → Option ℕ → Phys → Phys
init_loop zero i last p = p
init_loop (suc n) i last p =
    init_loop n (i + 1) (some i) (link_last last i (set_page p i free_info))

abbrev pub hole_start : ℕ
hole_start = 0xa_0000 / 4096

abbrev pub mpentry : ℕ
mpentry = 0x7000 / 4096

-- The list behind the loop: page 0, the hole up to page `kern_end`, the boot page tables from
-- `boot_first` to `boot_last` and the page at MPENTRY_PADDR are passed over.
abbrev pub pass_over : ℕ → ℕ → ℕ → Phys → Phys
pass_over kern_end boot_first boot_last p =
    set_link (mpentry - 1) (some (mpentry + 1)) (
      set_link (boot_first - 1) (some (boot_last + 1))
        (set_link (hole_start - 1) (some kern_end) p))

-- `page_free_list = page_free_list->pp_link`
drop_first : Phys → Outcome Phys
drop_first p = elim p.page_free_list [
  | none ↦ panics
  | some i ↦ returns (record p { page_free_list = (p.pages i).pp_link })
]

-- `kern_end` is the page of `boot_alloc(0)`. The accesses stay within `pages`, which has `npages`
-- entries; its pages' words are not touched.
unfoldable pub page_init : ℕ → ℕ → ℕ → ℕ → Phys → Outcome Phys
unfolding init_loop drop_first
page_init npages kern_end boot_first boot_last p =
    drop_first (init_loop npages 0 none (record p { page_free_list = none })) >>= λ q.
    returns (pass_over kern_end boot_first boot_last q)
