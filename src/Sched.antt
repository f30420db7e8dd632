-- ===== src/Sched.antt =====
-- The scheduler: `env_run` of kern/env.c, `sched_yield` and `sched_halt` of kern/sched.c.
-- The big kernel lock is held from the entry of the kernel until `env_run` or `sched_halt` gives
-- it back, so each call is one step on the kernel's state. `lcr3` and `iret` do not return.
pub mod Search
pub mod Choice
pub mod Idle
pub mod Wait
pub mod Exclusive
pub mod Destroy
mod Tests
use jos_operating_system.Prelude.{
  ℕ, zero, suc, ◌+◌, ◌%◌, ◌^◌, Bool, true, false, Option, none, some, ◌==◌, ◌||◌, if◌then◌else◌,
  update,
}
use jos_operating_system.Env.{Env, Kernel, set_env, is_curenv, nenv}
use jos_operating_system.Env.Status

-- `env_runs += 1` on a uint32_t, and the `env_cpunum` that `env_pop_tf` records
abbrev pub entered : ℕ → Env → Env
entered cpu e = record e { env_runs = (e.env_runs + 1) % 2 ^ 32; env_cpunum = cpu }

-- the environment that loses the processor
abbrev pub preempted : Env → Env
preempted e = record e {
  env_status = if e.env_status == Status.running then Status.runnable else e.env_status;
}

abbrev pub put_back : Option ℕ → (ℕ → Env) → ℕ → Env
put_back none envs = envs
put_back (some c) envs = update envs c (preempted (envs c))

-- The new state; the call enters the environment and does not return.
unfoldable pub env_run : ℕ → ℕ → Kernel → Kernel
env_run cpu i k =
    if is_curenv k cpu i
    then set_env k i (entered cpu (k.envs i))
    else (let envs = put_back (k.cpu_env cpu) k.envs in
        record k {
          envs = update envs i (entered cpu (record (envs i) { env_status = Status.running }));
          cpu_env = update k.cpu_env cpu (some i);
        })

-- Where a call of the scheduler ends: in an environment, in `hlt`, or in the monitor's loop.
pub data Next : Type 0 where
  enters : Kernel → Next
  halts : Kernel → Next
  monitors : Next

-- the first loop of `sched_halt`: does an environment exist that may run again?
abbrev pub is_alive : Env → Bool
is_alive e =
    (e.env_status == Status.runnable)
    || (e.env_status == Status.running)
    || (e.env_status == Status.dying)

pub any_alive : ℕ → ℕ → Kernel → Bool
any_alive zero i k = false
any_alive (suc n) i k = is_alive (k.envs i) || any_alive n (i + 1) k

unfoldable pub sched_halt : ℕ → Kernel → Next
sched_halt cpu k =
    if any_alive nenv 0 k
    then halts (record k { cpu_env = update k.cpu_env cpu none })
    else monitors

-- the slot that the loop of `sched_yield` looks at in its round `i`
abbrev pub turn : Kernel → ℕ → ℕ
turn k i = (k.env_counter + i) % 2 ^ 32 % nenv

-- the loop itself, over `n` rounds from `i` on: the first runnable environment
pub sched_search : ℕ → ℕ → Kernel → Option ℕ
sched_search zero i k = none
sched_search (suc n) i k =
    if (k.envs (turn k i)).env_status == Status.runnable
    then some (turn k i)
    else sched_search n (i + 1) k

unfoldable pub sched_yield : ℕ → Kernel → Next
sched_yield cpu k = elim (sched_search nenv 1 k) [
  | some j ↦ enters (env_run cpu j (record k { env_counter = j }))
  | none ↦ elim (k.cpu_env cpu) [
    | none ↦ sched_halt cpu k
    | some c ↦
        if (k.envs c).env_status == Status.running
        then enters (env_run cpu c k)
        else sched_halt cpu k
  ]
]
