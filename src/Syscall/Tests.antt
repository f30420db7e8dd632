-- ===== src/Syscall/Tests.antt =====
-- The theorems on system calls at a kernel where environment 3 runs on processor 0 and
-- environment 5, its child, waits for a message.
use jos_operating_system.Prelude.{
  ℕ, arith, inl, inr, ◌≡◌, refl, true, none, some, ◌==◌, if◌then◌else◌, returns, panics, ◌&&◌, ◌∷◌,
  range_from,
}
use jos_operating_system.Pmap.Walk.{slot}
use jos_operating_system.Pmap.Map.{add_entry}
use jos_operating_system.Env.{
  Kernel, ok, fail, bad_env, zeroed_env, no_registers, set_env, envid2env, env_init,
}
use jos_operating_system.Env.Alloc.{IsTable, env_init-IsTable}
use jos_operating_system.Env.Free.{utop}
use jos_operating_system.Env.Status
use jos_operating_system.Syscall.{sys_env_set_trapframe, sys_env_set_pgfault_upcall}
use jos_operating_system.Syscall.Ipc.{woken, message}
use jos_operating_system.Syscall.Rights.{Refused, envid2env-Refused, sys_env_set_trapframe_lem}

abbrev pair : Kernel
pair = record {
  npages = 8;
  boot_pml4e = 2;
  phys = record {
    pages = λ i. record { pp_link = none; pp_ref = 0 };
    page_free_list = none;
    word = λ i k. 0;
  };
  envs = λ i.
      if i == 3
      then record zeroed_env { env_id = 0x1003; env_status = Status.running; env_pml4e = some 6 }
      else if i == 5
      then record zeroed_env {
        env_id = 0x1005;
        env_parent_id = 0x1003;
        env_status = Status.not_runnable;
        env_pml4e = some 7;
        env_ipc_recving = true;
        env_ipc_dstva = utop;
      }
      else zeroed_env;
  env_free_list = none;
  cpu_env = λ c. if c == 0 then some 3 else none;
  env_counter = 0;
}

-- Pages 3, 4 and 5 are the tables below those of both environments; page 1 is at 0x1000 of both, and
-- environment 5 wants a page at 0x2000.
abbrev paging : Kernel
paging = record pair {
  phys = record (pair.phys) {
    pages = λ i. record { pp_link = none; pp_ref = 1 };
    word = λ i k.
        if (i == 6) && (k == 0)
        then 0x3007
        else if (i == 7) && (k == 0)
        then 0x3007
        else if (i == 3) && (k == 0)
        then 0x4007
        else if (i == 4) && (k == 0)
        then 0x5007
        else if (i == 5) && (k == 1)
        then 0x1007
        else 0;
  };
  envs = λ i. if i == 5 then record (pair.envs 5) { env_ipc_dstva = 0x2000 } else pair.envs i;
}

-- environment 3 has sent 42 to environment 5, with page 1
abbrev written : Kernel
written = set_env paging 5 (message 0x1003 42 (paging.envs 5))

abbrev marked : Kernel
marked = set_env written 5 (record (written.envs 5) { env_ipc_perm = 7 })

abbrev sent : Kernel
sent = (woken 5 (record marked { phys = add_entry 8 (slot 5 2) 1 7 (paging.phys) })).1

-- no environment has this identifier
nobody : envid2env pair 0 0x2005 true ≡ fail bad_env
unfolding envid2env
nobody = refl

child : envid2env pair 0 0x1005 true ≡ ok (some 5)
unfolding envid2env
child = refl

envid2env-Refused_example : Refused 0 0x2005 bad_env pair
envid2env-Refused_example =
    envid2env-Refused 0 0x2005 pair (omega arith, inr (inl (λ e. ground arith)))

sys_env_set_trapframe_example :
    (sys_env_set_trapframe 0 0x2005 no_registers pair ≡ panics)
    × ((v : ℕ) → sys_env_set_pgfault_upcall 0 0x2005 v pair ≡ returns (fail bad_env, pair))
sys_env_set_trapframe_example = sys_env_set_trapframe_lem 0 0x2005 no_registers bad_env pair nobody

-- the table that `env_init` leaves, with the caller's slot 9 not yet taken off it, and page 5 free
abbrev young : Kernel
young = record (env_init pair) {
  phys = record (pair.phys) { page_free_list = some 5 };
  cpu_env = λ c. if c == 0 then some 9 else none;
}

young-IsTable : IsTable young (0 ∷ range_from 1 1023)
unfolding env_init range_from
young-IsTable =
    let v = env_init-IsTable pair in
    record {
      chain = v.chain;
      distinct = v.distinct;
      inside = v.inside;
      free = v.free;
      used = v.used;
      indexed = v.indexed;
      small = v.small;
    }
