-- ===== src/Syscall/Ipc/Sent.antt =====
-- What `sys_ipc_try_send` does on all of its ways, with or without a page.
use jos_operating_system.Prelude.{
  ℕ, ◌≡◌, ◌≢◌, refl, true, false, Option, none, some, arith, ◌==◌, ◌⊎◌, inl, inr, sym, ap, Outcome,
  returns, panics, ◌>>=◌, Bool-cases, ltb, ◌&&◌, bit_or, not, if◌then◌else◌,
}
use mathlib.Core.Path.{subst}
use jos_operating_system.Pmap.{Phys}
use jos_operating_system.Pmap.Walk.{Slot, pte_p}
use jos_operating_system.Pmap.Map.{page_lookup}
use jos_operating_system.Env.{
  Kernel, Reply, ok, fail, Error, inval, ipc_not_recv, cur_id, envid2env,
}
use jos_operating_system.Env.Free.{utop}
use jos_operating_system.Syscall.Page.Envs.{SameEnvs, on_env-cases}
use jos_operating_system.Syscall.Ipc.{send_found, refused, sys_ipc_try_send}
use jos_operating_system.Syscall.Ipc.Deliver.{Sent, Passed, deliver-Sent}

-- What a call of `sys_ipc_try_send` that ends has done: nothing to any environment, with an error,
-- or all that belongs to a message.
abbrev pub Outcomes : ℕ → ℕ → ℕ → ℕ → ℕ → Kernel → Reply ℕ → Kernel → Type 0
Outcomes cpu envid value srcva perm k r k' =
    ((e : Error) × (r ≡ fail e) × SameEnvs k k')
    ⊎ ((src dst : ℕ) × (r ≡ ok 0)
        × (k.cpu_env cpu ≡ some src)
        × (envid2env k cpu envid false ≡ ok (some dst))
        × ((k.envs dst).env_ipc_recving ≡ true)
        × Sent (k.envs src).env_id value dst k k'
        × ((found : ℕ × Slot) × (p : Phys) × (page_lookup k.npages (k.envs src).env_pml4e srcva
                k.phys
              ≡ returns (some found, p))
            × Passed cpu src dst srcva (bit_or perm pte_p) p k k'))

same_envs : {k : Kernel} {p : Phys} → SameEnvs k (record k { phys = p })
same_envs = record { envs = refl; cpu_env = refl }

found-Outcomes :
    (cpu envid src dst value srcva perm : ℕ) (k : Kernel) (o : Option (ℕ × Slot) × Phys)
    (r : Reply ℕ) (k' : Kernel)
    → k.cpu_env cpu ≡ some src
    → envid2env k cpu envid false ≡ ok (some dst)
    → (k.envs dst).env_ipc_recving ≡ true
    → page_lookup k.npages (k.envs src).env_pml4e srcva k.phys ≡ returns o
    → send_found cpu envid src dst value srcva (bit_or perm pte_p) k o ≡ returns (r, k')
    → Outcomes cpu envid value srcva perm k r k'
unfolding send_found
found-Outcomes cpu envid src dst value srcva perm k (none, p) r k' cur at waits looked e =
    let after : Kernel = record k { phys = p } in
    elim (Bool-cases (ltb srcva utop)) [
      | inl low ↦
          (let answer : Reply ℕ × Kernel = (fail inval, after) in
            let here : answer ≡ (r, k') = ground (arith, rw low at e) in
            inl
              (inval, ap (λ x. x.0) (sym here), subst (SameEnvs k) (ap (λ x. x.1) here) same_envs))
      | inr high ↦ absurd (ground (arith, rw high at e))
    ]
found-Outcomes cpu envid src dst value srcva perm k (some found, p) r k' cur at waits looked e =
    let after : Kernel = record k { phys = p } in
    elim (Bool-cases (ltb srcva utop && refused srcva (bit_or perm pte_p) (some found) p)) [
      | inl bad ↦
          (let answer : Reply ℕ × Kernel = (fail inval, after) in
            let here : answer ≡ (r, k') = ground (arith, rw bad at e) in
            inl
              (inval, ap (λ x. x.0) (sym here), subst (SameEnvs k) (ap (λ x. x.1) here) same_envs))
      | inr good ↦ elim (Bool-cases (envid == cur_id after cpu)) [
        | inl self ↦ absurd (ground (arith, rw (good, self) at e))
        | inr other ↦
            (let (done, s, passed) =
                deliver-Sent cpu src dst value srcva (bit_or perm pte_p) after r k'
                  (rw (good, other) at e) in
              inr (
                src,
                dst,
                done,
                cur,
                at,
                waits,
                record {
                  blocked = s.blocked;
                  sender = s.sender;
                  content = s.content;
                  runnable = s.runnable;
                  identity = s.identity;
                  others = s.others;
                  cpus = s.cpus;
                },
                (found, p, looked, record { alone = passed.alone; mapped = passed.mapped }),
              ))
      ]
    ]

looked-Outcomes :
    (cpu envid src dst value srcva perm : ℕ) (k : Kernel) (o : Outcome (Option (ℕ × Slot) × Phys))
    (r : Reply ℕ) (k' : Kernel)
    → k.cpu_env cpu ≡ some src
    → envid2env k cpu envid false ≡ ok (some dst)
    → (k.envs dst).env_ipc_recving ≡ true
    → page_lookup k.npages (k.envs src).env_pml4e srcva k.phys ≡ o
    → (o >>= send_found cpu envid src dst value srcva (bit_or perm pte_p) k) ≡ returns (r, k')
    → Outcomes cpu envid value srcva perm k r k'
looked-Outcomes cpu envid src dst value srcva perm k panics r k' cur at waits looked e =
    absurd (ground arith)
looked-Outcomes cpu envid src dst value srcva perm k (returns o) r k' cur at waits looked e =
    found-Outcomes cpu envid src dst value srcva perm k o r k' cur at waits looked e

failed :
    {k k' : Kernel} {r : Reply ℕ} (e : Error)
    → r ≡ fail e
    → k' ≡ k
    → (w : Error) × (r ≡ fail w) × SameEnvs k k'
failed e bad same =
    (e, bad, record { envs = ap (λ t. t.envs) same; cpu_env = ap (λ t. t.cpu_env) same })

receiving-Outcomes :
    (cpu envid src dst value srcva perm : ℕ) (k : Kernel) (r : Reply ℕ) (k' : Kernel)
    → k.cpu_env cpu ≡ some src
    → envid2env k cpu envid false ≡ ok (some dst)
    → (if not (k.envs dst).env_ipc_recving
        then returns (fail ipc_not_recv, k)
        else (page_lookup k.npages (k.envs src).env_pml4e srcva k.phys
            >>= send_found cpu envid src dst value srcva (bit_or perm pte_p) k))
      ≡ returns (r, k')
    → Outcomes cpu envid value srcva perm k r k'
receiving-Outcomes cpu envid src dst value srcva perm k r k' cur at e =
    elim (Bool-cases (k.envs dst).env_ipc_recving) [
      | inl waits ↦
          looked-Outcomes cpu envid src dst value srcva perm k
            (page_lookup k.npages (k.envs src).env_pml4e srcva k.phys) r k' cur at waits refl
            (rw waits at e)
      | inr busy ↦
          inl (failed ipc_not_recv (ground (arith, rw busy at e)) (ground (arith, rw busy at e)))
    ]

pub sys_ipc_try_send_lem :
    (cpu envid value srcva perm : ℕ) (k : Kernel) (r : Reply ℕ) (k' : Kernel)
    → sys_ipc_try_send cpu envid value srcva perm k ≡ returns (r, k')
    → Outcomes cpu envid value srcva perm k r k'
unfolding sys_ipc_try_send envid2env
sys_ipc_try_send_lem cpu envid value srcva perm k r k' e =
    elim (on_env-cases k (envid2env k cpu envid false) _ r k' e) [
      | inl (w, at, bad, same) ↦ inl (failed w bad same)
      | inr (dst, at, e1) ↦ elim (on_env-cases k (envid2env k cpu 0 false) _ r k' e1) [
        | inl (w, at', bad, same) ↦ inl (failed w bad same)
        | inr (src, at', e2) ↦
            receiving-Outcomes cpu envid src dst value srcva perm k r k' (ground arith) at e2
      ]
    ]

-- A message blocks the next one: after a successful `sys_ipc_try_send` to an identifier that is not
-- 0, a second one to it, from any processor with a current environment, finds no receiver waiting
-- and changes nothing, until the receiver asks for another message.
pub sys_ipc_try_send_twice :
    (cpu other sender envid value value' srcva srcva' perm perm' : ℕ) (k k' : Kernel)
    → envid ≢ 0
    → sys_ipc_try_send cpu envid value srcva perm k ≡ returns (ok 0, k')
    → k'.cpu_env other ≡ some sender
    → sys_ipc_try_send other envid value' srcva' perm' k' ≡ returns (fail ipc_not_recv, k')
unfolding sys_ipc_try_send envid2env
sys_ipc_try_send_twice cpu other sender envid value value' srcva srcva' perm perm' k k' ne e cur =
    elim (sys_ipc_try_send_lem cpu envid value srcva perm k (ok 0) k' e) [
      | inl (w, bad, same) ↦ absurd (ground (arith, bad))
      | inr (src, dst, done, own, at, waits, s, page) ↦
          ground (arith, at, cur, s.blocked, s.runnable, s.identity)
    ]
