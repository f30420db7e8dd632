-- ===== src/Sched/Tests.antt =====
-- The theorems on the scheduler at a kernel where processor 0 runs environment 0, which yields to
-- environments 1 and 2.
use jos_operating_system.Prelude.{
  ℕ, ◌+◌, ◌<◌, ◌≡◌, refl, ◌≢◌, Option, none, some, arith, ap, sym, ◌==◌, ltb, if◌then◌else◌,
}
use mathlib.Core.Path.{subst}
use jos_operating_system.Pmap.{Phys}
use jos_operating_system.Env.{Kernel, zeroed_env, nenv}
use jos_operating_system.Env.Status
use jos_operating_system.Sched.{sched_yield, env_run, enters, sched_search}
use jos_operating_system.Sched.Choice.{env_run-Ran}
use jos_operating_system.Sched.Search.{IsRunnable}
use jos_operating_system.Sched.Wait.{start, yielded, after, Misses, Waits-lt}
use jos_operating_system.Sched.Exclusive.{
  IsExclusive, Leaves, sched_yield-IsExclusive, env_run_twice,
}

abbrev no_memory : Phys
no_memory = record {
  pages = λ i. record { pp_link = none; pp_ref = 0 };
  page_free_list = none;
  word = λ i j. 0;
}

abbrev with_envs : (ℕ → ℕ) → Option ℕ → Kernel
with_envs status cur = record {
  npages = 0;
  boot_pml4e = 0;
  phys = no_memory;
  envs = λ i. record zeroed_env { env_status = status i; env_id = 0x1000 + i };
  env_free_list = none;
  cpu_env = λ c. if c == 0 then cur else none;
  env_counter = 0;
}

abbrev three : Kernel
three =
    with_envs
      (λ i. if i == 0 then Status.running else if ltb i 3 then Status.runnable else Status.free)
      (some 0)

abbrev only_one : Kernel
only_one = with_envs (λ i. if i == 7 then Status.runnable else Status.free) (some 7)

abbrev empty : Kernel
empty = with_envs (λ i. Status.free) none

three-IsExclusive : IsExclusive three
three-IsExclusive = record { alone = λ a b i p q. ground arith; busy = λ a i p. ground arith }

sched_yield-IsExclusive_example : Leaves IsExclusive (sched_yield 0 three)
sched_yield-IsExclusive_example = sched_yield-IsExclusive 0 three-IsExclusive

first_round : sched_yield 0 three ≡ enters (env_run 0 1 (record three { env_counter = 1 }))
unfolding sched_yield sched_search
first_round = ground arith

entered_other : (env_run 0 1 (record three { env_counter = 1 })).cpu_env 0 ≢ some 2
entered_other e = ground (arith, (env_run-Ran 0 1 (record three { env_counter = 1 })).current)

Waits_example : 1 < nenv
Waits_example =
    Waits-lt 2 {n = 1} {k = three} {k' = env_run 0 1 (record three { env_counter = 1 })}
      (omega arith) (omega arith)
      (yielded 0 three (start three) ground arith ground arith (ap (λ o. after three o) first_round)
        (subst (Misses 0 2) (sym first_round) entered_other))

env_run_twice_example :
    (k' k'' : Kernel) × (sched_yield 0 only_one ≡ enters k')
    × IsRunnable k' 7
    × (sched_yield 1 k' ≡ enters k'')
    × (k''.cpu_env 0 ≡ some 7)
    × (k''.cpu_env 1 ≡ some 7)
env_run_twice_example =
    env_run_twice 0 1 7 only_one (ground arith) (omega arith) (omega arith) refl refl
      (λ e l r. ground arith)
