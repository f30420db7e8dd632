-- ===== src/Syscall/Fork.antt =====
-- `sys_exofork` makes a child that waits for its parent.
use jos_operating_system.Prelude.{ℕ, ◌<◌, ◌≤◌, ◌^◌, ◌≡◌, ◌≢◌, some, List, ◌∷◌, arith, returns, ap}
use jos_operating_system.Pmap.FreeList.{IsFreeList}
use jos_operating_system.Env.{Env, Kernel, ok, set_env, next_id}
use jos_operating_system.Env.Alloc.{IsTable, env_alloc_lem}
use jos_operating_system.Env.Status
use jos_operating_system.Syscall.{sys_exofork}

-- What `sys_exofork` of environment `c` has done with slot `j`.
pub record Forked (c j : ℕ) (k k' : Kernel) : Type 0 where
  pub waits : (k'.envs j).env_status ≡ Status.not_runnable
  pub parent : (k'.envs j).env_parent_id ≡ (k.envs c).env_id
  pub identity : (k'.envs j).env_id ≡ next_id (k.envs j).env_id j
  pub frame : (k'.envs j).env_tf ≡ record ((k.envs c).env_tf) { rax = 0 }
  pub others : (i : ℕ) → i ≢ j → k'.envs i ≡ k.envs i

-- `sys_exofork` with a free environment and a free page returns the new identifier of the first
-- free environment, which is then a child of the caller that is not runnable and has the caller's
-- registers, but for a 0 in %rax; no other environment changes. The caller is another environment
-- than that one.
pub sys_exofork_lem :
    (cpu c j pg : ℕ) {k : Kernel} (xs ps : List ℕ)
    → IsTable k (j ∷ xs)
    → k.cpu_env cpu ≡ some c
    → c ≢ j
    → IsFreeList k.phys (pg ∷ ps)
    → k.boot_pml4e ≢ pg
    → pg < k.npages
    → k.npages ≤ 2 ^ 32
    → (k' : Kernel) × (sys_exofork cpu k ≡ returns (ok (next_id (k.envs j).env_id j), k'))
      × Forked c j k k'
unfolding sys_exofork
sys_exofork_lem cpu c j pg {k} xs ps v cur ne pages apart inside small =
    let (m, made, table, created, own) =
      env_alloc_lem (k.envs c).env_id j pg xs ps v pages apart inside small in
    let same : m.envs c ≡ k.envs c = created.others c ne in
    (
      set_env m j (record (m.envs j) {
        env_status = Status.not_runnable;
        env_tf = record ((m.envs c).env_tf) { rax = 0 };
      }),
      ground (arith, cur, made, created.fresh),
      record {
        waits = ground arith;
        parent = ground (arith, created.parent);
        identity = ground (arith, created.fresh);
        frame = ground (arith, ap (λ (x : Env). x.env_tf) same);
        others = λ i n. ground (arith, created.others i n);
      },
    )
