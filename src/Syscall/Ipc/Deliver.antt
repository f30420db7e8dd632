-- ===== src/Syscall/Ipc/Deliver.antt =====
-- What the delivery of a message does to the environments and to memory.
use jos_operating_system.Prelude.{
  ℕ, ◌≡◌, ◌≢◌, refl, true, false, arith, inl, inr, sym, ◌∙◌, ap, returns, panics, ◌>>=◌, Bool-cases,
  ltb, ◌&&◌,
}
use mathlib.Core.Path.{subst}
use jos_operating_system.Pmap.{Phys}
use jos_operating_system.Env.{Env, Kernel, Reply, ok, set_env}
use jos_operating_system.Env.Free.{utop}
use jos_operating_system.Env.Status
use jos_operating_system.Syscall.{Result}
use jos_operating_system.Syscall.Page.{sys_page_map}
use jos_operating_system.Syscall.Page.Envs.{SameEnvs, sys_page_map-SameEnvs}
use jos_operating_system.Syscall.Ipc.{message, woken, deliver}

-- The message has arrived: `value` from the identifier `from`, at the environment `dst`.
pub record Sent (from value dst : ℕ) (k k' : Kernel) : Type 0 where
  pub blocked : (k'.envs dst).env_ipc_recving ≡ false
  pub sender : (k'.envs dst).env_ipc_from ≡ from
  pub content : (k'.envs dst).env_ipc_value ≡ value
  pub runnable : (k'.envs dst).env_status ≡ Status.runnable
  pub identity : (k'.envs dst).env_id ≡ (k.envs dst).env_id
  pub others : (j : ℕ) → j ≢ dst → k'.envs j ≡ k.envs j
  pub cpus : k'.cpu_env ≡ k.cpu_env

-- What the message does to memory and to the receiver's permissions, where `p` is the memory behind the
-- lookup of the page: nothing, if one of the sides gives an address from UTOP on; else they are `perm`,
-- and memory is what `sys_page_map` has made of it, whether that has mapped the page or failed.
pub record Passed (cpu src dst srcva perm : ℕ) (p : Phys) (k k' : Kernel) : Type 0 where
  pub alone :
      (ltb srcva utop && ltb (k.envs dst).env_ipc_dstva utop) ≡ false
      → (k'.phys ≡ p) × ((k'.envs dst).env_ipc_perm ≡ (k.envs dst).env_ipc_perm)
  pub mapped :
      (ltb srcva utop && ltb (k.envs dst).env_ipc_dstva utop) ≡ true
      → (m n : Kernel) × (q : Reply ℕ) × (m.phys ≡ p)
        × (sys_page_map cpu
              (k.envs src).env_id
              srcva
              (k.envs dst).env_id
              (k.envs dst).env_ipc_dstva
              perm
              m
            ≡ returns (q, n))
        × (k'.phys ≡ n.phys)
        × ((k'.envs dst).env_ipc_perm ≡ perm)

-- The receiver is marked runnable in a state where the fields have been set.
woken-Sent :
    (from value dst : ℕ) (e : Env) (k m : Kernel)
    → m.envs dst ≡ e
    → ((j : ℕ) → j ≢ dst → m.envs j ≡ k.envs j)
    → m.cpu_env ≡ k.cpu_env
    → e.env_ipc_recving ≡ false
    → e.env_ipc_from ≡ from
    → e.env_ipc_value ≡ value
    → e.env_id ≡ (k.envs dst).env_id
    → Sent from value dst k (woken dst m).1
woken-Sent from value dst e k m at others cpus a b c d = record {
  blocked = ground (arith, ap (λ (x : Env). x.env_ipc_recving) at);
  sender = ground (arith, ap (λ (x : Env). x.env_ipc_from) at);
  content = ground (arith, ap (λ (x : Env). x.env_ipc_value) at);
  runnable = ground arith;
  identity = ground (arith, ap (λ (x : Env). x.env_id) at);
  others = λ j ne. ground (arith, others j ne);
  cpus = cpus;
}

-- the kernel with the message's fields set, and with the permissions of a page as well
abbrev plain : ℕ → ℕ → ℕ → Kernel → Kernel
plain src dst value k = set_env k dst (message (k.envs src).env_id value (k.envs dst))

abbrev paged : ℕ → ℕ → ℕ → ℕ → Kernel → Kernel
paged src dst value perm k =
    let m = plain src dst value k in set_env m dst (record (m.envs dst) { env_ipc_perm = perm })

-- `sys_page_map` may have failed, or not: the message is there all the same.
mapped-Sent :
    (src dst value perm : ℕ) (k : Kernel) (o : Result) (r : Reply ℕ) (k' : Kernel)
    → ((q : Reply ℕ) (n : Kernel) → o ≡ returns (q, n) → SameEnvs (paged src dst value perm k) n)
    → (o >>= λ x. returns (woken dst x.1)) ≡ returns (r, k')
    → (r ≡ ok 0)
      × Sent (k.envs src).env_id value dst k k'
      × ((n : Kernel) × (q : Reply ℕ) × (o ≡ returns (q, n))
          × (k'.phys ≡ n.phys)
          × ((k'.envs dst).env_ipc_perm ≡ perm))
mapped-Sent src dst value perm k panics r k' same e = absurd (ground arith)
mapped-Sent src dst value perm k (returns (q, n)) r k' same e =
    let s = same q n refl in
    let here : woken dst n ≡ (r, k') = ground arith in
    let at : n.envs dst ≡ (paged src dst value perm k).envs dst = ap (λ f. f dst) s.envs in
    (
      ap (λ x. x.0) (sym here),
      subst (Sent (k.envs src).env_id value dst k) (ap (λ x. x.1) here) (
          woken-Sent (k.envs src).env_id value dst ((paged src dst value perm k).envs dst) k n at
            (λ j ne. ap (λ f. f j) s.envs ∙ ground arith) s.cpu_env ground arith ground arith ground
            arith ground arith),
      (
        n,
        q,
        refl,
        ap (λ x. x.1.phys) (sym here),
        ap (λ x. (x.1.envs dst).env_ipc_perm) (sym here)
            ∙ (ground (arith, ap (λ (x : Env). x.env_ipc_perm) at)),
      ),
    )

pub deliver-Sent :
    (cpu src dst value srcva perm : ℕ) (k : Kernel) (r : Reply ℕ) (k' : Kernel)
    → deliver cpu src dst value srcva perm k ≡ returns (r, k')
    → (r ≡ ok 0)
      × Sent (k.envs src).env_id value dst k k'
      × Passed cpu src dst srcva perm k.phys k k'
unfolding deliver
deliver-Sent cpu src dst value srcva perm k r k' e =
    elim (Bool-cases (ltb srcva utop && ltb (k.envs dst).env_ipc_dstva utop)) [
      | inl page ↦
          (let (done, s, (n, q, ran, memory, flags)) =
              mapped-Sent src dst value perm k _ r k'
                (λ q n done.
                  sys_page_map-SameEnvs cpu (k.envs src).env_id srcva
                    ((paged src dst value perm k).envs dst).env_id (k.envs dst).env_ipc_dstva perm
                    (paged src dst value perm k) q n done)
                (rw page at e) in
            let id : ((paged src dst value perm k).envs dst).env_id ≡ (k.envs dst).env_id =
              ground arith in
            (
              done,
              s,
              record {
                alone = λ h. absurd (ground (arith, page, h));
                mapped = λ h. (
                  paged src dst value perm k,
                  n,
                  q,
                  refl,
                  ap
                        (λ i.
                          sys_page_map cpu (k.envs src).env_id srcva i (k.envs dst).env_ipc_dstva
                            perm (paged src dst value perm k))
                        (sym id)
                      ∙ ran,
                  memory,
                  flags,
                );
              },
            ))
      | inr alone ↦
          (let here : woken dst (plain src dst value k) ≡ (r, k') = ground (arith, rw alone at e) in
            (
              ap (λ x. x.0) (sym here),
              subst (Sent (k.envs src).env_id value dst k) (ap (λ x. x.1) here) (
                  woken-Sent (k.envs src).env_id value dst ((plain src dst value k).envs dst) k
                    (plain src dst value k) refl (λ j ne. ground arith) refl ground arith ground
                    arith ground arith ground arith),
              record {
                alone = λ h. (
                  ap (λ x. x.1.phys) (sym here),
                  ap (λ x. (x.1.envs dst).env_ipc_perm) (sym here) ∙ ground arith,
                );
                mapped = λ h. absurd (ground (arith, alone, h));
              },
            ))
    ]
