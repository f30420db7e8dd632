-- ===== src/Fork/Tests.antt =====
-- The theorems on `fork` at an address space with three pages, one of them shared.
use jos_operating_system.Prelude.{
  ℕ, suc, ◌+◌, ◌/◌, ◌*◌, false, ◌≡◌, ◌≤◌, refl, true, some, arith, ◌==◌, if◌then◌else◌, [], ◌∷◌,
}
use jos_operating_system.Fork.{Spaces, Parent, Tables, present, fork_loop}
use jos_operating_system.Fork.Isolated.{never}
use jos_operating_system.Fork.Entry.{Isolated}
use jos_operating_system.Fork.Stores.{Unmapped}
use jos_operating_system.Fork.Skips.{fork_skips}
use jos_operating_system.Fork.Copied.{CopiedAt, fork_loop-Copied}
use jos_operating_system.Fork.Rounds.{top_page, fork_loop-Isolated}

abbrev tables : Tables
tables = record { pml4e = λ i. true; pdpe = λ i. true; pde = λ i. true }

abbrev before : Spaces
before = record {
  parent = λ pn.
      if pn == 2048
      then 0x5007
      else if pn == 0xef7fd
      then 0x6007
      else if pn == 3000
      then 0x7407
      else 0;
  child = λ pn. 0;
}

-- the parent writes to its stack between any two mappings, and a page that is not the child's is free
abbrev busy : Parent
busy = record {
  fresh = λ s pn. s.child pn / 4096 + 1;
  between = λ pn. 0xef7fd ∷ [];
  behind = λ addr. 0xef7fd ∷ [];
}

busy-Unmapped : Unmapped busy
busy-Unmapped s pn e = omega arith

fork_loop-Isolated_example :
    (u : Spaces) × (fork_loop never busy tables (suc top_page) (top_page * 4096) before ≡ some u)
    × Isolated u
fork_loop-Isolated_example =
    fork_loop-Isolated busy tables before busy-Unmapped refl refl (λ pn. refl)

fork_loop-Copied_example :
    (u : Spaces) × (fork_loop never busy tables (suc top_page) (top_page * 4096) before ≡ some u)
    × ((q : ℕ)
        → 2048 ≤ q
        → q ≤ top_page
        → present (before.parent q) ≡ true
        → CopiedAt busy q before u)
    × Isolated u
fork_loop-Copied_example =
    fork_loop-Copied busy tables before busy-Unmapped
      (record { root = refl; directories = λ g h. refl; tables = λ r h. refl }) (λ pn. refl)

-- the page table of the stack is missing, that of the two megabytes below is there
abbrev gap : Tables
gap = record { pml4e = λ i. true; pdpe = λ i. true; pde = λ i. if i == 0x77b then false else true }

fork_skips_example :
    (u : Spaces) × (fork_loop never busy gap (suc (0xef7fd000 / 4096 + 1)) 0xef7fd000 before
      ≡ some u)
    × ((q : ℕ) → 0xef7fd000 / 4096 ≤ q + 512 → u.child q ≡ before.child q)
fork_skips_example =
    fork_skips busy gap 0xef7fd000 before refl refl (omega arith) (omega arith) refl refl
