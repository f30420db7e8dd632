-- ===== src/Env/Free.antt =====
-- `env_free` of kern/env.c. Its loads of the page-table register have no effect in the model.
use jos_operating_system.Prelude.{
  ℕ, zero, suc, ◌+◌, ◌*◌, ◌^◌, Option, none, some, ◌==◌, if◌then◌else◌, Outcome, returns, panics,
  ◌>>=◌, update,
}
use jos_operating_system.Pmap.{Phys, page_decref}
use jos_operating_system.Pmap.Walk.{pgsize, pte_addr, kaddr, pa2page, store, slot, pdx}
use jos_operating_system.Pmap.Map.{present, page_remove}
use jos_operating_system.Env.{Env, Kernel}
use jos_operating_system.Env.Status

-- UTOP, and `PTX(~0)`, which is also PDX(0xFFFFFFFF)
abbrev pub utop : ℕ
utop = 0x80_0080_0000

abbrev pub last_index : ℕ
last_index = 511

-- `PGADDR(0, i, j, k, 0)`
abbrev pub pgaddr : ℕ → ℕ → ℕ → ℕ
pgaddr i j k = i * 2 ^ 30 + j * 2 ^ 21 + k * pgsize

-- `page_decref(pa2page(pa))`
abbrev pub decref_at : ℕ → ℕ → Phys → Outcome Phys
decref_at npages pa p = pa2page npages pa >>= λ i. page_decref i p

module _ (npages root : ℕ) where
  -- the loop over the entries of page table `t`, `n` rounds from entry `k` on
  free_ptes : ℕ → ℕ → ℕ → ℕ → ℕ → Phys → Outcome Phys
  free_ptes zero t i j k p = returns p
  free_ptes (suc n) t i j k p =
      (if present (p.word t k) then page_remove npages (some root) (pgaddr i j k) p else returns p)
      >>= λ q. free_ptes n t i j (k + 1) q

  -- one page table: its mappings, its entry in the directory `d`, and itself
  free_table : ℕ → ℕ → ℕ → Phys → Outcome Phys
  unfolding free_ptes
  free_table d i j p =
      let pa = pte_addr (p.word d j) in
      kaddr npages pa >>= λ t.
      free_ptes last_index t i j 0 p >>= λ q. decref_at npages pa (store q (slot d j) 0)

  -- the loop over the page tables of directory `d`, `n` rounds from entry `j` on
  free_tables : ℕ → ℕ → ℕ → ℕ → Phys → Outcome Phys
  unfolding free_table
  free_tables zero d i j p = returns p
  free_tables (suc n) d i j p =
      (if present (p.word d j) then free_table d i j p else returns p) >>= λ q.
      free_tables n d i (j + 1) q

  -- one page directory, of entry `i` of the table `t` above it
  free_directory : ℕ → ℕ → Phys → Outcome Phys
  unfolding free_tables
  free_directory t i p = kaddr npages (pte_addr (p.word t i)) >>= λ d.
      free_tables (if i == 3 then pdx utop else last_index) d i 0 p >>= λ q.
      decref_at npages (pte_addr (q.word t i)) (store q (slot t i) 0)

  -- the outer loop, `n` rounds from entry `i` on
  free_directories : ℕ → ℕ → ℕ → Phys → Outcome Phys
  unfolding free_directory
  free_directories zero t i p = returns p
  free_directories (suc n) t i p =
      (if present (p.word t i) then free_directory t i p else returns p) >>= λ q.
      free_directories n t (i + 1) q

-- the pages of the environment whose PML4 is `root`, with `cr3` for its physical address
pub free_pages : ℕ → ℕ → ℕ → Phys → Outcome Phys
unfolding free_directories
free_pages npages root cr3 p = kaddr npages (pte_addr (p.word root 0)) >>= λ t.
    free_directories npages root 4 t 0 p >>= λ q.
    decref_at npages (pte_addr (q.word root 0)) q >>= λ r.
    decref_at npages cr3 (store r (slot root 0) 0)

-- the fields of a freed environment, in front of the free list
abbrev pub freed_env : Option ℕ → Env → Env
freed_env link e = record e {
  env_pml4e = none;
  env_cr3 = 0;
  env_status = Status.free;
  env_link = link;
}

abbrev pub put_free : ℕ → Kernel → Phys → Kernel
put_free i k p = record k {
  phys = p;
  envs = update k.envs i (freed_env k.env_free_list (k.envs i));
  env_free_list = some i;
}

-- An environment without page tables has no PML4 to read: the kernel faults.
unfoldable pub env_free : ℕ → Kernel → Outcome Kernel
unfolding free_pages
env_free i k = elim (k.envs i).env_pml4e [
  | none ↦ panics
  | some root ↦ free_pages k.npages root (k.envs i).env_cr3 k.phys >>= λ p. returns (put_free i k p)
]
