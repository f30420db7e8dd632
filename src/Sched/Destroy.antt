-- ===== src/Sched/Destroy.antt =====
-- `env_destroy` of kern/env.c, which ends in the scheduler when an environment destroys itself.
use jos_operating_system.Prelude.{
  ℕ, none, ◌==◌, ◌&&◌, not, if◌then◌else◌, update, Outcome, returns, ◌>>=◌,
}
use jos_operating_system.Env.{Kernel, set_env, is_curenv}
use jos_operating_system.Env.Free.{env_free}
use jos_operating_system.Env.Status
use jos_operating_system.Sched.{Next, sched_yield}

-- How kernel code that may give up the processor ends: back in its caller, or in the scheduler.
pub data Ended (A : Type 0) : Type 0 where
  answers : A → Kernel → Ended A
  leaves : Next → Ended A

-- the end of `env_destroy`; the kernel has freed environment `i`
abbrev pub give_up : ℕ → ℕ → Kernel → Ended Unit
give_up cpu i k =
    if is_curenv k cpu i
    then leaves (sched_yield cpu (record k { cpu_env = update k.cpu_env cpu none }))
    else answers tt k

unfoldable pub env_destroy : ℕ → ℕ → Kernel → Outcome (Ended Unit)
env_destroy cpu i k =
    if ((k.envs i).env_status == Status.running) && not (is_curenv k cpu i)
    then returns (answers tt (set_env k i (record (k.envs i) { env_status = Status.dying })))
    else (env_free i k >>= λ k'. returns (give_up cpu i k'))
