-- ===== src/Env/Vm.antt =====
-- `env_setup_vm`: the page that a new environment gets for its page tables.
use jos_operating_system.Prelude.{
  ℕ, ◌<◌, ◌≤◌, ◌≡◌, ◌≢◌, ◌^◌, true, false, none, some, List, ◌∷◌, arith, returns, bit_or,
}
use jos_operating_system.Pmap.{Phys, page_alloc, take_page, alloc_zero}
use jos_operating_system.Pmap.FreeList.{IsFreeList}
use jos_operating_system.Pmap.Alloc.{take_page-IsFreeList, set_ref-IsFreeList}
use jos_operating_system.Pmap.Walk.{kaddr, page2pa}
use jos_operating_system.Env.{Kernel, env_setup_vm, vm_filled, uvpt_index}

pub env_setup_vm-empty :
    (i : ℕ) (k : Kernel) → k.phys.page_free_list ≡ none → env_setup_vm i k ≡ returns (false, k)
unfolding env_setup_vm page_alloc
env_setup_vm-empty i k e = ground arith

-- the kernel after a successful `env_setup_vm` with page `pg`
abbrev pub with_vm : ℕ → ℕ → Kernel → Kernel
with_vm i pg k = vm_filled i pg (record k { phys = take_page alloc_zero pg k.phys })

pub env_setup_vm-some :
    (i pg : ℕ) (k : Kernel)
    → k.phys.page_free_list ≡ some pg
    → pg < k.npages
    → k.npages ≤ 2 ^ 32
    → env_setup_vm i k ≡ returns (true, with_vm i pg k)
unfolding env_setup_vm page_alloc kaddr
env_setup_vm-some i pg k e h small = ground arith

-- Page `pg` was free and is now a page of its own for the tables: it is off the free list and has one
-- reference, its entries are the kernel's for the kernel, itself for UVPT, and none else; no other page
-- has changed.
pub record Private (pg : ℕ) (ps : List ℕ) (k : Kernel) (q : Phys) : Type 0 where
  pub free : IsFreeList q ps
  pub counted : (q.pages pg).pp_ref ≡ 1
  pub kernel : q.word pg 1 ≡ k.phys.word k.boot_pml4e 1
  pub itself : q.word pg uvpt_index ≡ bit_or (page2pa pg) 7
  pub rest : (j : ℕ) → j ≢ 1 → j ≢ uvpt_index → q.word pg j ≡ 0
  pub words : (p : ℕ) → p ≢ pg → q.word p ≡ k.phys.word p
  pub counts : (p : ℕ) → p ≢ pg → (q.pages p).pp_ref ≡ (k.phys.pages p).pp_ref

take_page-plain : (x : ℕ) (p : Phys) → ((take_page alloc_zero x p).pages x).pp_link ≡ none
unfolding take_page
take_page-plain x p = ground arith

take_page-count :
    (x : ℕ) (p : Phys) (a : ℕ) → ((take_page alloc_zero x p).pages a).pp_ref ≡ (p.pages a).pp_ref
unfolding take_page
take_page-count x p a = ground arith

pub with_vm-Private :
    (i pg : ℕ) (ps : List ℕ) (k : Kernel)
    → IsFreeList k.phys (pg ∷ ps)
    → k.boot_pml4e ≢ pg
    → Private pg ps k (with_vm i pg k).phys
unfolding vm_filled take_page
with_vm-Private i pg ps k v apart =
    let w =
      set_ref-IsFreeList pg 1 ps (take_page-IsFreeList alloc_zero pg ps v) v.distinct.0
        (take_page-plain pg k.phys) in
    let zero_refs = v.unreferenced.0 in
    record {
      free = record {
        chain = ground (arith, w.chain);
        distinct = w.distinct;
        unreferenced = ground (arith, w.unreferenced);
        unlinked = λ a out. ground (arith, w.unlinked a);
      };
      counted = ground (arith, zero_refs);
      kernel = ground (arith, apart);
      itself = ground arith;
      rest = λ j a b. ground (arith, a, b);
      words = λ p ne. ground (arith, ne);
      counts = λ p ne. ground (arith, ne);
    }
