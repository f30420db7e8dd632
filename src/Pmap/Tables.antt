-- ===== src/Pmap/Tables.antt =====
-- Which tables the walk of an address goes through, and what a walk that creates them changes.
pub mod Create
pub mod Walked
pub mod Insert
pub mod Mapped
mod Tests
use jos_operating_system.Prelude.{
  ℕ, zero, suc, ◌+◌, ◌-◌, ◌*◌, ◌/◌, ◌%◌, ◌^◌, ◌<◌, ◌≤◌, ◌≡◌, ◌≢◌, ◌⊎◌, inl, inr, refl, sym, ap, ◌∙◌,
  Bool, true, false, Option, none, some, List, [], ◌∷◌, arith, ◌==◌, if◌then◌else◌, update, has,
  Outcome, returns, panics, ◌>>=◌, bit_or,
}
use jos_operating_system.Pmap.{Phys, alloc_zero, take_page, page_alloc}
use jos_operating_system.Pmap.FreeList.{IsFreeList}
use jos_operating_system.Pmap.Walk.{
  Slot, slot, pgsize, ptx, pdx, pdpe, pml4, ppn, pte_addr, page2pa, load, store, link_table, kaddr,
  pgdir_walk, pdpe_walk, pml4e_walk,
}

-- Entry `k` of table `d` refers to table `t`.
pub record Refers (npages : ℕ) (p : Phys) (d k t : ℕ) : Type 0 where
  pub entry : p.word d k ≢ 0
  pub table : kaddr npages (pte_addr (p.word d k)) ≡ returns t

-- The tables of `va` below `root` are pages `t1`, `t2` and `t3`.
pub record HasTables (npages : ℕ) (p : Phys) (root va t1 t2 t3 : ℕ) : Type 0 where
  pub first : Refers npages p root (pml4 va) t1
  pub second : Refers npages p t1 (pdpe va) t2
  pub third : Refers npages p t2 (pdx va) t3

module _ (npages : ℕ) (p : Phys) (d va t : ℕ) (create : Bool) where
  pub pgdir_walk-Refers :
      Refers npages p d (pdx va) t
      → pgdir_walk npages (some d) va create p ≡ returns (some (slot t (ptx va)), p)
  unfolding pgdir_walk
  pgdir_walk-Refers v =
      let there : (p.word d (pdx va) == 0) ≡ false = ground (arith, v.entry) in
      rw (there, v.table) refl

  pub pdpe_walk-Refers :
      Refers npages p d (pdpe va) t
      → pdpe_walk npages (some d) va create p ≡ pgdir_walk npages (some t) va create p
  unfolding pdpe_walk
  pdpe_walk-Refers v =
      let there : (p.word d (pdpe va) == 0) ≡ false = ground (arith, v.entry) in
      rw (there, v.table) refl

  pub pml4e_walk-Refers :
      Refers npages p d (pml4 va) t
      → pml4e_walk npages (some d) va create p ≡ pdpe_walk npages (some t) va create p
  unfolding pml4e_walk
  pml4e_walk-Refers v =
      let there : (p.word d (pml4 va) == 0) ≡ false = ground (arith, v.entry) in
      rw (there, v.table) refl

-- The walk of an address whose tables are there finds its entry and changes nothing, whether it may
-- create tables or not.
pub pml4e_walk-HasTables :
    (npages : ℕ) (p : Phys) (root va t1 t2 t3 : ℕ) (create : Bool)
    → HasTables npages p root va t1 t2 t3
    → pml4e_walk npages (some root) va create p ≡ returns (some (slot t3 (ptx va)), p)
pml4e_walk-HasTables npages p root va t1 t2 t3 create v =
    pml4e_walk-Refers npages p root va t1 create v.first
    ∙ pdpe_walk-Refers npages p t1 va t2 create v.second
    ∙ pgdir_walk-Refers npages p t2 va t3 create v.third
