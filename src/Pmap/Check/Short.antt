-- ===== src/Pmap/Check/Short.antt =====
-- How far `user_mem_check` looks.
use jos_operating_system.Prelude.{
  ℕ, ◌+◌, ◌-◌, ◌*◌, ◌/◌, ◌%◌, ◌^◌, ◌<◌, ◌≤◌, ◌≡◌, ◌≢◌, ◌↔◌, false, Option, none, some, arith, leb,
  returns, bit_and,
}
use jos_operating_system.Pmap.{Phys}
use jos_operating_system.Pmap.Walk.{Slot, pgsize, load}
use jos_operating_system.Pmap.Map.{page_lookup}
use jos_operating_system.Pmap.Check.{
  user_mem_check, check_loop, check_at, check_end, round_down, ulim,
}

-- The pages that `user_mem_check` looks at reach to the end of a range that does not wrap around
-- exactly when the offset of its start in the first page, added to its length, is no more than the
-- length rounded up to whole pages.
pub check_end_iff :
    (va len : ℕ)
    → va + len + 4096 ≤ 2 ^ 64
    → (va + len ≤ check_end va len) ↔ (va % pgsize + len ≤ (len + 4095) / pgsize * pgsize)
check_end_iff va len fits = (λ h. omega (arith), λ h. omega (arith))

-- A range of at most one page that lies across a page boundary passes `user_mem_check` by its first
-- page alone: if that page is below ULIM and mapped with one of the permissions, the answer is 0,
-- whatever the second page is.
pub user_mem_check_short :
    (npages : ℕ) (root : Option ℕ) (va len perm : ℕ) (p q : Phys) (i : ℕ) (s : Slot)
    → 0 < len
    → len ≤ pgsize
    → va + len + 4096 ≤ 2 ^ 64
    → va < ulim
    → page_lookup npages root (round_down va) p ≡ returns (some (i, s), q)
    → bit_and (load q s) perm ≢ 0
    → user_mem_check npages root va len perm p ≡ returns (none, q)
unfolding user_mem_check check_loop check_at
user_mem_check_short npages root va len perm p q i s pos short fits low found allows =
    let one : (check_end va len - round_down va) / pgsize ≡ 1 = omega arith in
    let below : leb ulim (round_down va) ≡ false = ground arith in
    rw (one, below, found) (ground (arith, allows))
