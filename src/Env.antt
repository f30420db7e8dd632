-- ===== src/Env.antt =====
-- Environments: the data of inc/env.h and kern/env.c, and what the kernel keeps around them.
-- A `struct Env *` is the index of the environment in `envs`; the array has NENV entries and every
-- index below is reduced modulo NENV or comes from the free list. An identifier is the bit pattern
-- of an `envid_t`, below 2 ^ 32 and negative from 2 ^ 31 on.
pub mod Status
pub mod Ident
pub mod Vm
pub mod Alloc
pub mod Free
pub mod Destroy
mod Tests
use Status
use jos_operating_system.Prelude.{
  ℕ, ◌+◌, ◌-◌, ◌*◌, ◌/◌, ◌%◌, ◌^◌, Bool, true, false, Option, none, some, ◌==◌, ◌!=◌, leb, ltb, not,
  ◌&&◌, ◌||◌, if◌then◌else◌, update, Outcome, returns, panics, ◌>>=◌, bit_or, zero, suc,
}
use jos_operating_system.Pmap.{PageInfo, Phys, alloc_zero, set_page, ref_up, page_alloc}
use jos_operating_system.Pmap.Walk.{page2pa, pgsize, kaddr, store, slot}

abbrev pub nenv : ℕ
nenv = 1024

-- `enum EnvType`
pub data EnvType : Type 0 where
  user fs ns : EnvType

-- `struct Trapframe`: the registers that the kernel reads or writes, and the others by number
pub record Trapframe : Type 0 where
  pub rax : ℕ
  pub rip : ℕ
  pub rsp : ℕ
  pub cs : ℕ
  pub ss : ℕ
  pub ds : ℕ
  pub es : ℕ
  pub eflags : ℕ
  pub others : ℕ → ℕ

-- `struct Env`
pub record Env : Type 0 where
  pub env_tf : Trapframe
  pub env_link : Option ℕ
  pub env_id : ℕ
  pub env_parent_id : ℕ
  pub env_type : EnvType
  pub env_status : ℕ
  pub env_runs : ℕ
  pub env_cpunum : ℕ
  pub env_pml4e : Option ℕ
  pub env_cr3 : ℕ
  pub env_pgfault_upcall : ℕ
  pub env_ipc_recving : Bool
  pub env_ipc_dstva : ℕ
  pub env_ipc_value : ℕ
  pub env_ipc_from : ℕ
  pub env_ipc_perm : ℕ

-- The kernel's state: physical memory, the environments, `thiscpu->cpu_env` of each processor and
-- the `env_counter` of `sched_yield`. `npages` and `boot_pml4e` are set once at boot.
pub record Kernel : Type 0 where
  pub npages : ℕ
  pub boot_pml4e : ℕ
  pub phys : Phys
  pub envs : ℕ → Env
  pub env_free_list : Option ℕ
  pub cpu_env : ℕ → Option ℕ
  pub env_counter : ℕ

abbrev pub set_env : Kernel → ℕ → Env → Kernel
set_env k i e = record k { envs = update k.envs i e }

-- inc/error.h, without the sign; the kernel's part
pub data Error : Type 0 where
  bad_env inval no_mem no_free_env ipc_not_recv no_sys : Error

-- An `int` that is 0 or positive on success and -E_… on failure.
pub data Reply {ℓ} (A : Type ℓ) : Type ℓ where
  ok : A → Reply A
  fail : Error → Reply A

abbrev pub envx : ℕ → ℕ
envx envid = envid % nenv

-- `cpu` is the processor that runs the call, so `curenv` is `k.cpu_env cpu`.
module _ (k : Kernel) (cpu : ℕ) where
  abbrev pub is_curenv : ℕ → Bool
  is_curenv i = elim (k.cpu_env cpu) [ none ↦ false | some c ↦ c == i ]

  -- `curenv->env_id`; callers have a current environment
  abbrev pub cur_id : ℕ
  cur_id = elim (k.cpu_env cpu) [ none ↦ 0 | some c ↦ (k.envs c).env_id ]

  -- For identifier 0 the answer is `curenv`, also where that is NULL.
  unfoldable pub envid2env : ℕ → Bool → Reply (Option ℕ)
  envid2env envid checkperm =
      if envid == 0
      then ok (k.cpu_env cpu)
      else (let i = envx envid in
          let e = k.envs i in
          if (e.env_status == Status.free) || (e.env_id != envid)
          then fail bad_env
          else if checkperm && (not (is_curenv i) && (e.env_parent_id != cur_id))
          then fail bad_env
          else ok (some i))

-- UVPT's entry and the kernel's in a new PML4 page
abbrev pub uvpt_index : ℕ
uvpt_index = 2

pub vm_filled : ℕ → ℕ → Kernel → Kernel
vm_filled e i k =
    let info = k.phys.pages i in
    let counted = set_page k.phys i (record info { pp_ref = ref_up info.pp_ref }) in
    let shared = store counted (slot i 1) (counted.word k.boot_pml4e 1) in
    let cr3 = page2pa i in
    record k {
      phys = store shared (slot i uvpt_index) (bit_or cr3 7);
      envs = update k.envs e (record (k.envs e) { env_pml4e = some i; env_cr3 = cr3 });
    }

vm_made : ℕ → Kernel → Option ℕ × Phys → Outcome (Bool × Kernel)
vm_made e k (none, p) = returns (false, record k { phys = p })
vm_made e k (some i, p) =
    kaddr k.npages (page2pa i) >>= λ _. returns (true, vm_filled e i (record k { phys = p }))

-- false is -E_NO_MEM
unfoldable pub env_setup_vm : ℕ → Kernel → Outcome (Bool × Kernel)
unfolding vm_filled vm_made
env_setup_vm e k = vm_made e k (page_alloc alloc_zero k.phys)

-- the identifier of the next environment in slot `i`, whose last one was `old`
unfoldable pub next_id : ℕ → ℕ → ℕ
next_id old i =
    let sum = (old + 2 ^ 12) % 2 ^ 32 in
    let generation = sum / nenv * nenv in
    bit_or (if (generation == 0) || leb (2 ^ 31) generation then 2 ^ 12 else generation) i

abbrev pub no_registers : Trapframe
no_registers = record {
  rax = 0;
  rip = 0;
  rsp = 0;
  cs = 0;
  ss = 0;
  ds = 0;
  es = 0;
  eflags = 0;
  others = λ _. 0;
}

-- `memset(envs, 0, NENV * sizeof(struct Env))`, one entry
abbrev pub zeroed_env : Env
zeroed_env = record {
  env_tf = no_registers;
  env_link = none;
  env_id = 0;
  env_parent_id = 0;
  env_type = EnvType.user;
  env_status = Status.free;
  env_runs = 0;
  env_cpunum = 0;
  env_pml4e = none;
  env_cr3 = 0;
  env_pgfault_upcall = 0;
  env_ipc_recving = false;
  env_ipc_dstva = 0;
  env_ipc_value = 0;
  env_ipc_from = 0;
  env_ipc_perm = 0;
}

-- The links run in the order of the array, and the last one is NULL.
unfoldable pub env_init : Kernel → Kernel
env_init k = record k {
  envs = λ i. record zeroed_env { env_link = if i + 1 == nenv then none else some (i + 1) };
  env_free_list = some 0;
}

-- GD_UD | 3, GD_UT | 3, USTACKTOP and FL_IF
abbrev pub user_registers : Trapframe
user_registers = record no_registers {
  ds = 0x23;
  es = 0x23;
  ss = 0x23;
  rsp = 0xef7fe000;
  cs = 0x1b;
  eflags = 0x200;
}

-- the fields that `env_alloc` sets in slot `i`
env_filled : ℕ → ℕ → Env → Env
env_filled parent_id i e = record e {
  env_id = next_id e.env_id i;
  env_parent_id = parent_id;
  env_type = EnvType.user;
  env_status = Status.runnable;
  env_runs = 0;
  env_tf = user_registers;
  env_pgfault_upcall = 0;
  env_ipc_recving = false;
}

-- `env_alloc` behind the call of `env_setup_vm` for the first free slot
env_committed : ℕ → ℕ → Bool × Kernel → Reply ℕ × Kernel
env_committed parent_id i (false, k) = (fail no_mem, k)
env_committed parent_id i (true, k) = (
  ok i,
  record (set_env k i (env_filled parent_id i (k.envs i))) { env_free_list = (k.envs i).env_link },
)

unfoldable pub env_alloc : ℕ → Kernel → Outcome (Reply ℕ × Kernel)
unfolding env_filled env_committed
env_alloc parent_id k = elim k.env_free_list [
  | none ↦ returns (fail no_free_env, k)
  | some i ↦ env_setup_vm i k >>= λ made. returns (env_committed parent_id i made)
]
