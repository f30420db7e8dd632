-- ===== src/Env/Tests.antt =====
-- The theorems on environments at the table that `env_init` makes, with one free page.
use jos_operating_system.Prelude.{
  ℕ, ◌≡◌, ◌≢◌, refl, Option, none, some, arith, ◌==◌, if◌then◌else◌, panics, Outcome, [], ◌∷◌, ◌+◌,
  ◌%◌, ◌&&◌, returns, range_from,
}
use jos_operating_system.Env.{Kernel, ok, zeroed_env, next_id, env_init, env_alloc}
use jos_operating_system.Env.Status
use jos_operating_system.Env.Ident.{Indexed}
use jos_operating_system.Env.Alloc.{IsTable, Created, env_init-IsTable, env_alloc_lem}
use jos_operating_system.Pmap.{page_decref}
use jos_operating_system.Pmap.FreeList.{IsFreeList}
use jos_operating_system.Env.Vm.{Private}
use jos_operating_system.Pmap.Walk.{kaddr, pa2page}
use jos_operating_system.Env.Free.{env_free}
use jos_operating_system.Env.Destroy.{env_free-IsTable}

abbrev booted : Option ℕ → Kernel
booted page = record {
  npages = 8;
  boot_pml4e = 2;
  phys = record {
    pages = λ i. record { pp_link = none; pp_ref = 0 };
    page_free_list = page;
    word = λ i k. 0;
  };
  envs = λ i. zeroed_env;
  env_free_list = none;
  cpu_env = λ c. none;
  env_counter = 0;
}

abbrev table : Option ℕ → Kernel
table page = env_init (booted page)

one_page : IsFreeList (table (some 5)).phys (5 ∷ [])
unfolding env_init
one_page = record {
  chain = (refl, refl);
  distinct = (refl, tt);
  unreferenced = (refl, tt);
  unlinked = λ a h. refl;
}

env_alloc_example :
    (k' : Kernel) × (env_alloc 0 (table (some 5)) ≡ returns (ok 0, k'))
    × IsTable k' (range_from 1 1023)
    × Created 0 0 5 (table (some 5)) k'
    × Private 5 [] (table (some 5)) k'.phys
unfolding env_init range_from
env_alloc_example =
    env_alloc_lem 0 0 5 {k = table (some 5)} (range_from 1 1023) []
      (env_init-IsTable (booted (some 5))) one_page (λ e. omega arith) (omega arith) (omega arith)

-- environment 3, with the identifier 0x1003, runs on processor 0
abbrev one : Kernel
one = record (booted none) {
  envs = λ i.
      if i == 3
      then record zeroed_env { env_id = 0x1003; env_status = Status.running }
      else zeroed_env;
  cpu_env = λ c. if c == 0 then some 3 else none;
}

one-Indexed : Indexed one
one-Indexed i h used = ground arith

abbrev reused : Kernel
reused = record one {
  envs = λ i.
      if i == 3
      then record zeroed_env { env_id = 0x2003; env_status = Status.running }
      else zeroed_env;
}

second_id : (reused.envs 3).env_id ≡ next_id 0x1003 3
unfolding next_id
second_id = refl

-- All environments are in use; the tables of each are pages 5 and 6, and there are no others.
abbrev full : Kernel
full = record (booted none) {
  phys = record {
    pages = λ i. record { pp_link = none; pp_ref = 1 };
    page_free_list = none;
    word = λ i k. if i == 5 && (k == 0) then 0x6007 else 0;
  };
  envs = λ i. record zeroed_env {
    env_id = 0x1000 + i % 1024;
    env_status = Status.runnable;
    env_pml4e = some 5;
    env_cr3 = 0x5000;
  };
}

full-IsTable : IsTable full []
full-IsTable = record {
  chain = refl;
  distinct = ground arith;
  inside = λ j h. absurd (ground arith);
  free = λ j h. absurd (ground arith);
  used = λ j l h. ground arith;
  indexed = λ j l ne. ground arith;
  small = λ j. omega arith;
}

abbrev result_of : Outcome Kernel → Kernel
result_of panics = full
result_of (returns k) = k

env_free-IsTable_example :
    IsTable (result_of (env_free 7 full)) (7 ∷ [])
    × ((j : ℕ) → j ≢ 7 → (result_of (env_free 7 full)).envs j ≡ full.envs j)
unfolding env_free kaddr pa2page page_decref
env_free-IsTable_example =
    env_free-IsTable 7 {k = full} (result_of (env_free 7 full)) [] full-IsTable (omega arith) refl
      refl
