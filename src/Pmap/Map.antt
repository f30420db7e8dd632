-- ===== src/Pmap/Map.antt =====
-- Mappings of physical pages in kern/pmap.c: `page_insert`, `page_lookup`, `page_remove` and
-- `boot_map_region`. `tlb_invalidate` only drops entries of the processor's cache, which the model
-- does not have; its `assert(pml4e != NULL)` holds at each call.
use jos_operating_system.Prelude.{
  ℕ, zero, suc, ◌+◌, ◌/◌, Bool, true, false, Option, none, some, ◌==◌, ◌!=◌, if◌then◌else◌, Outcome,
  returns, ◌>>=◌, bit_or, bit_and,
}
use jos_operating_system.Pmap.{Phys, set_page, ref_up, page_decref}
use jos_operating_system.Pmap.Walk.{
  Slot, pgsize, pte_p, pte_addr, page2pa, load, store, pa2page, pml4e_walk,
}

-- `bool present = *pte & PTE_P`
abbrev pub present : ℕ → Bool
present e = bit_and e pte_p != 0

module _ (npages : ℕ) where
  -- the page mapped at an entry that the walk found, with the entry's address for `*pte_store`
  lookup_at : Option Slot × Phys → Outcome (Option (ℕ × Slot) × Phys)
  lookup_at (none, p) = returns (none, p)
  lookup_at (some s, p) =
      if present (load p s)
      then (pa2page npages (load p s) >>= λ i. returns (some (i, s), p))
      else returns (none, p)

  -- The walk is asked to create what is missing, also for a mere lookup.
  unfoldable pub page_lookup : Option ℕ → ℕ → Phys → Outcome (Option (ℕ × Slot) × Phys)
  unfolding lookup_at
  page_lookup none va p = returns (none, p)
  page_lookup (some root) va p = pml4e_walk npages (some root) va true p >>= lookup_at

  remove_at : Option (ℕ × Slot) × Phys → Outcome Phys
  remove_at (none, p) = returns p
  remove_at (some (i, s), p) = page_decref i p >>= λ q. returns (store q s 0)

  unfoldable pub page_remove : Option ℕ → ℕ → Phys → Outcome Phys
  unfolding remove_at
  page_remove none va p = returns p
  page_remove (some root) va p = page_lookup (some root) va p >>= remove_at

  -- `*pgTblIndexPtr = page2pa(pp) | perm`
  abbrev pub set_entry : Slot → ℕ → ℕ → Phys → Phys
  set_entry s i perm p = store p s (bit_or (page2pa i) perm)

  -- the entry written and the page counted once more
  abbrev pub add_entry : Slot → ℕ → ℕ → Phys → Phys
  add_entry s i perm p =
      let q = set_entry s i perm p in
      set_page q i (record (q.pages i) { pp_ref = ref_up (q.pages i).pp_ref })

  -- `page_insert` at the entry that the walk found; false is -E_NO_MEM
  insert_at : ℕ → ℕ → ℕ → ℕ → Option Slot × Phys → Outcome (Bool × Phys)
  insert_at root i va perm (none, p) = returns (false, p)
  insert_at root i va perm (some s, p) =
      let flags = bit_or perm pte_p in
      if present (load p s)
      then (pa2page npages (pte_addr (load p s)) >>= λ old.
          if old == i
          then returns (true, set_entry s i flags p)
          else (page_remove (some root) va p >>= λ q. returns (true, add_entry s i flags q)))
      else returns (true, add_entry s i flags p)

  -- true is 0, false is -E_NO_MEM
  unfoldable pub page_insert : Option ℕ → Option ℕ → ℕ → ℕ → Phys → Outcome (Bool × Phys)
  unfolding insert_at
  page_insert none pp va perm p = returns (true, p)
  page_insert (some root) none va perm p = returns (true, p)
  page_insert (some root) (some i) va perm p =
      pml4e_walk npages (some root) va true p >>= insert_at root i va perm

  -- one round of `boot_map_region`; where the walk fails the addresses do not move on
  boot_map_at : ℕ → ℕ → ℕ → Option Slot × Phys → ℕ × ℕ × Phys
  boot_map_at la pa perm (none, p) = (la, pa, p)
  boot_map_at la pa perm (some s, p) = (la + pgsize, pa + pgsize, store p s (bit_or pa perm))

  boot_map_loop : ℕ → ℕ → ℕ → ℕ → ℕ → Phys → Outcome Phys
  boot_map_loop zero root la pa perm p = returns p
  boot_map_loop (suc rounds) root la pa perm p =
      pml4e_walk npages (some root) la true p >>= λ found.
      let (la', pa', q) = boot_map_at la pa perm found in boot_map_loop rounds root la' pa' perm q

  unfoldable pub boot_map_region : Option ℕ → ℕ → ℕ → ℕ → ℕ → Phys → Outcome Phys
  unfolding boot_map_at boot_map_loop
  boot_map_region none la size pa perm p = returns p
  boot_map_region (some root) la size pa perm p = boot_map_loop (size / pgsize) root la pa perm p
