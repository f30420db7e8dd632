-- ===== src/Fork.antt =====
-- `duppage` and the walk of `fork` over the address space, lib/fork.c. An address space is the page
-- table entry of each page number below the stack's top, as `uvpt` shows it; that of the child is
-- empty after `sys_exofork`. While `fork` runs it writes to its own stack, whose page it may just have
-- marked as copy-on-write: then `pgfault` gives the parent a fresh page in its place. Such stores may
-- come between the two mappings of `duppage` and behind every round, to any pages; those between the
-- reading of an entry and its first mapping go to the stack and come as if behind the round before.
-- A store to a page that is not present, and the lack of memory in `pgfault`, which both end the
-- environment, are left out.
pub mod Entry
pub mod Stores
pub mod Walk
pub mod Isolated
pub mod Page
pub mod Rounds
pub mod Copied
pub mod Skips
mod Tests
use jos_operating_system.Prelude.{
  ℕ, zero, suc, ◌+◌, ◌-◌, ◌*◌, ◌/◌, ◌%◌, ◌^◌, Bool, true, false, ◌==◌, ◌!=◌, ◌||◌, leb, ltb, not,
  ◌&&◌, if◌then◌else◌, update, Option, none, some, List, [], ◌∷◌, bit_or, bit_and,
}
use jos_operating_system.Prelude.Bits.{all_but}
use jos_operating_system.Syscall.Page.{pte_syscall}

pub record Spaces : Type 0 where
  pub parent : ℕ → ℕ
  pub child : ℕ → ℕ

abbrev pub pte_share : ℕ
pte_share = 0x400

abbrev pub pte_cow : ℕ
pte_cow = 0x800

abbrev pub frame : ℕ → ℕ
frame e = e / 4096 * 4096

abbrev pub present : ℕ → Bool
present e = bit_and e 1 != 0

abbrev pub writable : ℕ → Bool
writable e = bit_and e 2 != 0

-- PFTEMP, as a page number
abbrev pub pftemp : ℕ
pftemp = 0x5ff

-- `pgfault` at page `pn`: the page `new`, mapped at PFTEMP, gets the page's contents, is mapped in its
-- place with PTE_U, PTE_P and PTE_W, and is unmapped at PFTEMP.
abbrev pub pgfault : ℕ → ℕ → Spaces → Spaces
pgfault new pn s = record s {
  parent = update (update s.parent pn (bit_or (new * 4096) 7)) pftemp 0;
}

-- What the parent does besides: `fresh s pn` is the page that `sys_page_alloc` gives `pgfault`, `between
-- pn` the pages that it writes to between the two mappings of page `pn`, and `behind addr` those behind
-- the round at `addr`.
pub record Parent : Type 0 where
  pub fresh : Spaces → ℕ → ℕ
  pub between : ℕ → List ℕ
  pub behind : ℕ → List ℕ

-- a store of the parent to its page `pn`
abbrev pub store_page : (Spaces → ℕ → ℕ) → ℕ → Spaces → Spaces
store_page fresh pn s =
    if present (s.parent pn) && not (writable (s.parent pn)) then pgfault (fresh s pn) pn s else s

unfoldable pub stores : (Spaces → ℕ → ℕ) → List ℕ → Spaces → Spaces
stores fresh [] s = s
stores fresh (pn ∷ pns) s = stores fresh pns (store_page fresh pn s)

-- `fails true pn` and `fails false pn` tell whether `sys_page_map` of the parent's page `pn` to the
-- parent itself and to the child fails; then it changes nothing.
module _ (fails : Bool → ℕ → Bool) where
  abbrev pub map_to_child : ℕ → ℕ → Spaces → Spaces
  map_to_child pn perm s =
      if fails false pn
      then s
      else record s { child = update s.child pn (bit_or (frame (s.parent pn)) perm) }

  abbrev pub map_to_self : ℕ → ℕ → Spaces → Spaces
  map_to_self pn perm s =
      if fails true pn
      then s
      else record s { parent = update s.parent pn (bit_or (frame (s.parent pn)) perm) }

module _ (fails : Bool → ℕ → Bool) (w : Parent) where
  -- `0 < sys_page_map(...)` never holds, so that a failure goes unnoticed.
  unfoldable pub duppage : ℕ → Spaces → Spaces
  unfolding stores
  duppage pn s =
      let perm = bit_and (s.parent pn) pte_syscall in
      if bit_and perm pte_share != 0
      then map_to_child fails pn perm s
      else if (bit_and perm 2 != 0) || (bit_and perm pte_cow != 0)
      then (let cow = bit_and (bit_or perm pte_cow) (all_but 32 1) in
          map_to_self fails pn cow (stores w.fresh (w.between pn) (map_to_child fails pn cow s)))
      else map_to_child fails pn perm s

-- Which entries of the three upper levels are present, by the address shifted to their level.
pub record Tables : Type 0 where
  pub pml4e : ℕ → Bool
  pub pdpe : ℕ → Bool
  pub pde : ℕ → Bool

abbrev pub utext : ℕ
utext = 0x800000

-- `addr -= n` on 64 bits
abbrev pub down : ℕ → ℕ → ℕ
down n addr = (addr + (2 ^ 64 - n % 2 ^ 64)) % 2 ^ 64

-- where the body of the loop leaves `addr`
abbrev pub passed : Tables → ℕ → ℕ
passed t addr =
    if t.pml4e (addr / 2 ^ 39)
    then (if t.pdpe (addr / 2 ^ 30)
        then (if t.pde (addr / 2 ^ 21) then addr else down (512 * 4096) addr)
        else down (512 * 512 * 4096) addr)
    else down ((addr / 2 ^ 39 + 1) * 2 ^ 39) addr

-- the page that the body hands to `duppage`
abbrev pub visited : Tables → (ℕ → ℕ) → ℕ → Option ℕ
visited t uvpt addr =
    if t.pml4e (addr / 2 ^ 39)
    then (if t.pdpe (addr / 2 ^ 30)
        then (if t.pde (addr / 2 ^ 21)
            then (if bit_and (uvpt (addr / 4096)) 1 != 0 then some (addr / 4096) else none)
            else none)
        else none)
    else none

abbrev pub duppage_at : (Bool → ℕ → Bool) → Parent → Option ℕ → Spaces → Spaces
duppage_at fails w none s = s
duppage_at fails w (some pn) s = duppage fails w pn s

-- The loop of `fork`, at most `fuel` rounds; `none` is a loop that wants more.
unfoldable pub fork_loop : (Bool → ℕ → Bool) → Parent → Tables → ℕ → ℕ → Spaces → Option Spaces
fork_loop fails w t zero addr s = none
fork_loop fails w t (suc fuel) addr s = elim (leb utext addr) [
  | true ↦
      fork_loop fails w t fuel (down 4096 (passed t addr))
        (stores w.fresh (w.behind addr) (duppage_at fails w (visited t s.parent addr) s))
  | false ↦ some s
]
