-- ===== src/Syscall/Rights.antt =====
-- Which system calls an environment may make on which environments.
use jos_operating_system.Prelude.{
  ℕ, ◌%◌, ◌==◌, false, ◌≢◌, ◌⊎◌, inl, inr, ◌≡◌, true, some, arith, returns, panics, leb,
  if◌then◌else◌,
}
use jos_operating_system.Env.{
  Trapframe, Kernel, ok, fail, Error, inval, bad_env, nenv, cur_id, is_curenv, set_env, envid2env,
}
use jos_operating_system.Env.Status
use jos_operating_system.Sched.Destroy.{answers}
use jos_operating_system.Syscall.{
  sys_env_destroy, sys_env_set_status, sys_env_set_trapframe, sys_env_set_pgfault_upcall,
}
use jos_operating_system.Syscall.Page.{sys_page_alloc, sys_page_map, sys_page_unmap}

-- What the calls that act on an environment answer when the caller may not act on it.
pub record Refused (cpu envid : ℕ) (e : Error) (k : Kernel) : Type 0 where
  pub destroy : sys_env_destroy cpu envid k ≡ returns (answers (fail e) k)
  pub status : (v : ℕ) → sys_env_set_status cpu envid v k ≡ returns (fail e, k)
  pub upcall : (v : ℕ) → sys_env_set_pgfault_upcall cpu envid v k ≡ returns (fail e, k)
  pub alloc : (va perm : ℕ) → sys_page_alloc cpu envid va perm k ≡ returns (fail e, k)
  pub unmap : (va : ℕ) → sys_page_unmap cpu envid va k ≡ returns (fail e, k)
  pub map_from :
      (va dst dstva perm : ℕ) → sys_page_map cpu envid va dst dstva perm k ≡ returns (fail e, k)

-- The identifier is not 0, and its slot in the table is free, or has another identifier, or is neither
-- the caller's nor that of a child of the caller.
abbrev pub Foreign : ℕ → ℕ → Kernel → Type 0
Foreign cpu envid k =
    let e = k.envs (envid % nenv) in
    (envid ≢ 0)
    × ((e.env_status ≡ Status.free)
        ⊎ ((e.env_id ≢ envid)
            ⊎ ((k.cpu_env cpu ≢ some (envid % nenv)) × (e.env_parent_id ≢ cur_id k cpu))))

Foreign-fail :
    (cpu envid : ℕ) (k : Kernel) → Foreign cpu envid k → envid2env k cpu envid true ≡ fail bad_env
unfolding envid2env
Foreign-fail cpu envid k (ne, inl free) = ground (arith, free)
Foreign-fail cpu envid k (ne, inr (inl other)) = ground (arith, other)
Foreign-fail cpu envid k (ne, inr (inr (apart, orphan))) =
    let here : is_curenv k cpu (envid % nenv) ≡ false = ground (arith, apart) in
    let rest : ((k.envs (envid % nenv)).env_parent_id == cur_id k cpu) ≡ false =
      ground (arith, orphan) in
    ground (arith, here, rest)

-- For an identifier that is not 0, and whose slot of the table is free, has another identifier, or is
-- neither the caller's nor that of a child of the caller, the calls that destroy an environment, set its
-- status or its page fault entry, give it a fresh page, take a page from it or map one of its pages
-- elsewhere all return -E_BAD_ENV and change nothing. (The destination of `sys_page_map`, which is not
-- tested for the caller's rights, is not among them.)
pub envid2env-Refused :
    (cpu envid : ℕ) (k : Kernel) → Foreign cpu envid k → Refused cpu envid bad_env k
unfolding sys_env_destroy sys_env_set_status sys_env_set_pgfault_upcall sys_page_alloc
    sys_page_unmap sys_page_map
envid2env-Refused cpu envid k foreign =
    let bad = Foreign-fail cpu envid k foreign in
    record {
      destroy = ground (arith, bad);
      status = λ v. ground (arith, bad);
      upcall = λ v. ground (arith, bad);
      alloc = λ va perm. ground (arith, bad);
      unmap = λ va. ground (arith, bad);
      map_from = λ va dst dstva perm. ground (arith, bad);
    }

-- `sys_env_set_status` on an environment that the caller may act on sets any status from ENV_FREE
-- to ENV_NOT_RUNNABLE, and refuses every other number with -E_INVAL.
pub sys_env_set_status_lem :
    (cpu envid status i : ℕ) (k : Kernel)
    → envid2env k cpu envid true ≡ ok (some i)
    → sys_env_set_status cpu envid status k ≡ (
        if leb status Status.not_runnable
        then returns (ok 0, set_env k i (record (k.envs i) { env_status = status }))
        else returns (fail inval, k))
unfolding sys_env_set_status
sys_env_set_status_lem cpu envid status i k at = ground (arith, at)

-- `sys_env_set_trapframe` does not test for the error of `envid2env`: for an environment that the
-- caller may not act on it goes on with a NULL pointer, where the others return the error.
pub sys_env_set_trapframe_lem :
    (cpu envid : ℕ) (tf : Trapframe) (e : Error) (k : Kernel)
    → envid2env k cpu envid true ≡ fail e
    → (sys_env_set_trapframe cpu envid tf k ≡ panics)
      × ((v : ℕ) → sys_env_set_pgfault_upcall cpu envid v k ≡ returns (fail e, k))
unfolding sys_env_set_trapframe sys_env_set_pgfault_upcall
sys_env_set_trapframe_lem cpu envid tf e k bad = (ground (arith, bad), λ v. ground (arith, bad))
