-- ===== src/Syscall/Ipc.antt =====
-- Messages between environments: `sys_ipc_try_send` and `sys_ipc_recv` of kern/syscall.c.
pub mod Deliver
pub mod Sent
use jos_operating_system.Prelude.{
  ℕ, ◌%◌, Bool, true, false, Option, none, some, ◌==◌, ◌!=◌, leb, ltb, not, ◌||◌, ◌&&◌,
  if◌then◌else◌, Outcome, returns, panics, ◌>>=◌, bit_and, bit_or,
}
use jos_operating_system.Pmap.{Phys}
use jos_operating_system.Pmap.Walk.{Slot, pgsize, pte_p, pte_w, pte_u, load}
use jos_operating_system.Pmap.Map.{page_lookup}
use jos_operating_system.Env.{
  Env, Kernel, Reply, ok, fail, inval, bad_env, ipc_not_recv, set_env, cur_id, envid2env,
}
use jos_operating_system.Env.Free.{utop}
use jos_operating_system.Env.Status
use jos_operating_system.Sched.{sched_yield}
use jos_operating_system.Sched.Destroy.{Ended, answers, leaves}
use jos_operating_system.Syscall.{Result, on_env}
use jos_operating_system.Syscall.Page.{pte_syscall, sys_page_map}

abbrev pub is_none : Option (ℕ × Slot) → Bool
is_none none = true
is_none (some x) = false

-- the tests on the page that is to be sent; from UTOP on no page is sent
abbrev pub refused : ℕ → ℕ → Option (ℕ × Slot) → Phys → Bool
refused srcva perm none p = true
refused srcva perm (some (i, s)) p =
    let srcperm = bit_and (load p s) pte_syscall in
    (srcva % pgsize != 0)
    || (bit_and srcperm 5 != 5)
    || ((bit_and perm pte_w != 0) && (bit_and srcperm pte_w == 0))

-- the receiver's fields, before the page is mapped
abbrev pub message : ℕ → ℕ → Env → Env
message from value e = record e {
  env_ipc_recving = false;
  env_ipc_from = from;
  env_ipc_value = value;
}

-- the end of the call: the receiver is runnable
abbrev pub woken : ℕ → Kernel → Reply ℕ × Kernel
woken dst k = (ok 0, set_env k dst (record (k.envs dst) { env_status = Status.runnable }))

module _ (cpu : ℕ) where
  -- The fields set, the page mapped if both sides want that, and the receiver woken. The test
  -- `0 < sys_page_map(...)` is false for every error, so that its result does not matter.
  pub deliver : ℕ → ℕ → ℕ → ℕ → ℕ → Kernel → Result
  deliver src dst value srcva perm k =
      let from = (k.envs src).env_id in
      let m = set_env k dst (message from value (k.envs dst)) in
      let there = (k.envs dst).env_ipc_dstva in
      if ltb srcva utop && ltb there utop
      then (let n = set_env m dst (record (m.envs dst) { env_ipc_perm = perm }) in
          sys_page_map cpu from srcva (n.envs dst).env_id there perm n >>= λ r.
          returns (woken dst r.1))
      else returns (woken dst m)

  -- `sys_ipc_try_send` behind `page_lookup`. Without a page at an `srcva` from UTOP on the source reads
  -- the permissions through a pointer that was never set, which has no defined result: `panics` here.
  pub send_found : ℕ → ℕ → ℕ → ℕ → ℕ → ℕ → Kernel → Option (ℕ × Slot) × Phys → Result
  unfolding deliver
  send_found envid src dst value srcva perm k (found, p) =
      let k' = record k { phys = p } in
      if ltb srcva utop && refused srcva perm found p
      then returns (fail inval, k')
      else if is_none found
      then panics
      else if envid == cur_id k' cpu
      then panics
      else deliver src dst value srcva perm k'

  unfoldable pub sys_ipc_try_send : ℕ → ℕ → ℕ → ℕ → Kernel → Result
  unfolding send_found
  sys_ipc_try_send envid value srcva perm k = on_env k (envid2env k cpu envid false) λ dst.
      on_env k (envid2env k cpu 0 false) λ src.
        if not (k.envs dst).env_ipc_recving
        then returns (fail ipc_not_recv, k)
        else (page_lookup k.npages (k.envs src).env_pml4e srcva k.phys
            >>= send_found envid src dst value srcva (bit_or perm pte_p) k)

  -- `curenv` with what it waits for; an address from UTOP on leaves the one of an earlier call
  abbrev pub waiting : ℕ → Env → Env
  waiting dstva e = record e {
    env_ipc_dstva = if ltb dstva utop then dstva else e.env_ipc_dstva;
    env_ipc_recving = true;
    env_status = Status.not_runnable;
    env_tf = record (e.env_tf) { rax = 0 };
  }

  unfoldable pub sys_ipc_recv : ℕ → Kernel → Outcome (Ended (Reply ℕ))
  sys_ipc_recv dstva k = elim (envid2env k cpu 0 false) [
    | fail e ↦ returns (answers (fail bad_env) k)
    | ok none ↦ panics
    | ok (some i) ↦
        if ltb dstva utop && (dstva % pgsize != 0)
        then returns (answers (fail inval) k)
        else returns (leaves (sched_yield cpu (set_env k i (waiting dstva (k.envs i)))))
  ]
