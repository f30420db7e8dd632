-- ===== src/Syscall/Page.antt =====
-- `sys_page_alloc`, `sys_page_map` and `sys_page_unmap` of kern/syscall.c.
pub mod Envs
use jos_operating_system.Prelude.{
  ℕ, ◌%◌, Bool, true, false, Option, none, some, ◌==◌, ◌!=◌, leb, ltb, ◌||◌, ◌&&◌, if◌then◌else◌,
  Outcome, returns, panics, ◌>>=◌, bit_and, bit_or,
}
use jos_operating_system.Pmap.{Phys, page_alloc}
use jos_operating_system.Pmap.Walk.{Slot, pgsize, pte_p, pte_w, pte_u, load}
use jos_operating_system.Pmap.Map.{page_insert, page_lookup, page_remove}
use jos_operating_system.Env.{
  Env, Kernel, Reply, ok, fail, Error, inval, no_mem, bad_env, envid2env,
}
use jos_operating_system.Env.Free.{utop}
use jos_operating_system.Syscall.{Result, on_env}

-- PTE_SYSCALL
abbrev pub pte_syscall : ℕ
pte_syscall = 0xe07

-- `!(perm & PTE_U) || !(perm & PTE_P) || (perm & ~PTE_SYSCALL)`
abbrev pub bad_perm : ℕ → Bool
bad_perm perm =
    (bit_and perm pte_u == 0) || (bit_and perm pte_p == 0) || (bit_and perm 0xffff_f1f8 != 0)

-- `va % PGSIZE != 0 || va > UTOP`
abbrev pub bad_va : ℕ → Bool
bad_va va = (va % pgsize != 0) || ltb utop va

-- what `page_insert` returns, as the result of the call
pub inserted : Kernel → Bool × Phys → Reply ℕ × Kernel
inserted k (true, p) = (ok 0, record k { phys = p })
inserted k (false, p) = (fail no_mem, record k { phys = p })

-- `sys_page_alloc` behind `page_alloc(0)`, for the address space `root`
insert_new : Kernel → Option ℕ → ℕ → ℕ → Option ℕ × Phys → Result
unfolding inserted
insert_new k root va perm (none, p) = returns (fail no_mem, record k { phys = p })
insert_new k root va perm (some pp, p) =
    page_insert k.npages root (some pp) va (bit_or perm pte_p) p >>= λ r. returns (inserted k r)

-- `sys_page_map` behind `page_lookup`, for the address space `root` of the target
pub map_found : Kernel → Option ℕ → ℕ → ℕ → Option (ℕ × Slot) × Phys → Result
unfolding inserted
map_found k root dstva perm (none, p) = returns (fail inval, record k { phys = p })
map_found k root dstva perm (some (pp, s), p) =
    if (bit_and (load p s) pte_w == 0) && (bit_and perm pte_w != 0)
    then returns (fail inval, record k { phys = p })
    else (page_insert k.npages root (some pp) dstva perm p >>= λ r. returns (inserted k r))

module _ (cpu : ℕ) where
  unfoldable pub sys_page_alloc : ℕ → ℕ → ℕ → Kernel → Result
  unfolding insert_new
  sys_page_alloc envid va perm k = on_env k (envid2env k cpu envid true) λ i.
      if bad_perm perm
      then returns (fail inval, k)
      else if bad_va va
      then returns (fail inval, k)
      else insert_new k (k.envs i).env_pml4e va perm (page_alloc 0 k.phys)

  unfoldable pub sys_page_map : ℕ → ℕ → ℕ → ℕ → ℕ → Kernel → Result
  unfolding map_found
  sys_page_map srcenvid srcva dstenvid dstva perm k =
      on_env k (envid2env k cpu srcenvid true) λ src.
        on_env k (envid2env k cpu dstenvid false) λ dst.
          if bad_perm perm
          then returns (fail inval, k)
          else if bad_va dstva || bad_va srcva
          then returns (fail inval, k)
          else (page_lookup k.npages (k.envs src).env_pml4e srcva k.phys
              >>= map_found k (k.envs dst).env_pml4e dstva perm)

  -- every error of `envid2env` is -E_BAD_ENV
  unfoldable pub sys_page_unmap : ℕ → ℕ → Kernel → Result
  sys_page_unmap envid va k = on_env k (envid2env k cpu envid true) λ i.
      if (va == 0) || leb utop va || (va % pgsize != 0)
      then returns (fail inval, k)
      else (page_remove k.npages (k.envs i).env_pml4e va k.phys >>= λ p.
          returns (ok 0, record k { phys = p }))
