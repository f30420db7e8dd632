-- ===== src/Syscall.antt =====
-- The system calls of kern/syscall.c on environments, their memory and messages between them.
-- `cpu` is the processor that runs the call; its `curenv` is not NULL. An `int` or `unsigned`
-- argument is its bit pattern, below 2 ^ 32, and a pointer is an address. Where the source would go
-- on with a NULL `struct Env *`, which a kernel page fault ends, the model panics.
pub mod Page
pub mod Ipc
pub mod Rights
pub mod Fork
mod Tests
use jos_operating_system.Prelude.{
  ℕ, ◌%◌, ◌^◌, Bool, true, false, Option, none, some, ◌==◌, ◌!=◌, leb, ltb, ◌||◌, if◌then◌else◌,
  Outcome, returns, panics, ◌>>=◌, bit_and, bit_or,
}
use jos_operating_system.Env.{
  Trapframe, Env, Kernel, Reply, ok, fail, Error, inval, set_env, cur_id, envid2env, env_alloc,
}
use jos_operating_system.Env.Status
use jos_operating_system.Sched.{sched_yield}
use jos_operating_system.Sched.Destroy.{Ended, answers, leaves, env_destroy}

-- the number that a call returns, or its error
abbrev pub Result : Type 0
Result = Outcome (Reply ℕ × Kernel)

-- `if (envid2env(...) != 0) return result;`, and the call behind it
abbrev pub on_env : Kernel → Reply (Option ℕ) → (ℕ → Result) → Result
on_env k (fail e) f = returns (fail e, k)
on_env k (ok none) f = panics
on_env k (ok (some i)) f = f i

module _ (cpu : ℕ) where
  -- the environment that `curenv` points to
  abbrev pub cur_env : Kernel → (ℕ → Result) → Result
  cur_env k f = on_env k (ok (k.cpu_env cpu)) f

  unfoldable pub sys_getenvid : Kernel → Result
  sys_getenvid k = returns (ok (cur_id k cpu), k)

  destroyed : Ended Unit → Ended (Reply ℕ)
  destroyed (answers u k) = answers (ok 0) k
  destroyed (leaves n) = leaves n

  unfoldable pub sys_env_destroy : ℕ → Kernel → Outcome (Ended (Reply ℕ))
  unfolding destroyed
  sys_env_destroy envid k = elim (envid2env k cpu envid true) [
    | fail e ↦ returns (answers (fail e) k)
    | ok none ↦ panics
    | ok (some i) ↦ env_destroy cpu i k >>= λ d. returns (destroyed d)
  ]

  unfoldable pub sys_yield : Kernel → Ended (Reply ℕ)
  sys_yield k = leaves (sched_yield cpu k)

  -- `env_alloc` has made the environment `j` for `curenv`, which is `c`
  forked : ℕ → Reply ℕ × Kernel → Reply ℕ × Kernel
  forked c (fail e, k) = (fail e, k)
  forked c (ok j, k) =
      let tf = record ((k.envs c).env_tf) { rax = 0 } in
      (
        ok (k.envs j).env_id,
        set_env k j (record (k.envs j) { env_status = Status.not_runnable; env_tf = tf }),
      )

  unfoldable pub sys_exofork : Kernel → Result
  unfolding forked
  sys_exofork k = cur_env k λ c. env_alloc (k.envs c).env_id k >>= λ made. returns (forked c made)

  -- The source's test of the status: any of the five states is let through.
  unfoldable pub sys_env_set_status : ℕ → ℕ → Kernel → Result
  sys_env_set_status envid status k = on_env k (envid2env k cpu envid true) λ i.
      if leb (2 ^ 31) status || ltb 4 status
      then returns (fail inval, k)
      else returns (ok 0, set_env k i (record (k.envs i) { env_status = status }))

  -- `tf->tf_cs |= 0x3; tf->tf_eflags |= FL_IF`; the frame lies in the caller's memory
  abbrev pub user_frame : Trapframe → Trapframe
  user_frame tf = record tf { cs = bit_or tf.cs 3; eflags = bit_or tf.eflags 0x200 }

  -- `result` is unsigned, so that `result < 0` is never true: after an error of `envid2env` the
  -- call goes on with the NULL that it stored. `tf` is not NULL here.
  unfoldable pub sys_env_set_trapframe : ℕ → Trapframe → Kernel → Result
  sys_env_set_trapframe envid tf k = elim (envid2env k cpu envid true) [
    | fail e ↦ panics
    | ok none ↦ panics
    | ok (some i) ↦ returns (ok 0, set_env k i (record (k.envs i) { env_tf = user_frame tf }))
  ]

  unfoldable pub sys_env_set_pgfault_upcall : ℕ → ℕ → Kernel → Result
  sys_env_set_pgfault_upcall envid func k =
      on_env k (envid2env k cpu envid true)
        λ i. returns (ok 0, set_env k i (record (k.envs i) { env_pgfault_upcall = func }))
