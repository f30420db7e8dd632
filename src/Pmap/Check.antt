-- ===== src/Pmap/Check.antt =====
-- `user_mem_check` of kern/pmap.c. Addresses are 64 bits wide.
pub mod Short
use jos_operating_system.Prelude.{
  ℕ, zero, suc, ◌+◌, ◌-◌, ◌*◌, ◌/◌, ◌%◌, ◌^◌, Bool, true, false, Option, none, some, ◌==◌, leb, ltb,
  if◌then◌else◌, Outcome, returns, ◌>>=◌, bit_and,
}
use jos_operating_system.Pmap.{Phys}
use jos_operating_system.Pmap.Walk.{Slot, pgsize, load}
use jos_operating_system.Pmap.Map.{page_lookup}

abbrev pub ulim : ℕ
ulim = 0x80_03c0_0000

-- `ROUNDDOWN(a, PGSIZE)` and `ROUNDUP(a, PGSIZE)`
abbrev pub round_down : ℕ → ℕ
round_down a = a / pgsize * pgsize

abbrev pub round_up : ℕ → ℕ
round_up a = (a + 4095) % 2 ^ 64 / pgsize * pgsize

-- where the pages checked end: the source adds `len` to the start rounded down
abbrev pub check_end : ℕ → ℕ → ℕ
check_end va len = round_up ((round_down va + len) % 2 ^ 64)

-- the tests of one round on what `page_lookup` returned
abbrev pub allowed : ℕ → Option (ℕ × Slot) → Phys → Bool
allowed perm none p = false
allowed perm (some (i, s)) p = if bit_and (load p s) perm == 0 then false else true

-- the address of the error and -E_FAULT, or `none`, with the tables that the look-ups created
abbrev pub Checked : Type 0
Checked = Option ℕ × Phys

module _ (npages : ℕ) (root : Option ℕ) (va perm : ℕ) where
  check_at : (Phys → Outcome Checked) → ℕ → Option (ℕ × Slot) × Phys → Outcome Checked
  check_at rest at (found, p) =
      if allowed perm found p then rest p else returns (some (if ltb at va then va else at), p)

  -- the loop, `n` rounds from address `at` on
  check_loop : ℕ → ℕ → Phys → Outcome Checked
  unfolding check_at
  check_loop zero at p = returns (none, p)
  check_loop (suc n) at p =
      if leb ulim at
      then returns (some (if ltb at va then va else at), p)
      else (page_lookup npages root at p >>= check_at (λ q. check_loop n (at + pgsize) q) at)

unfoldable pub user_mem_check : ℕ → Option ℕ → ℕ → ℕ → ℕ → Phys → Outcome Checked
unfolding check_loop
user_mem_check npages root va len perm p =
    check_loop npages root va perm ((check_end va len - round_down va) / pgsize) (round_down va) p
