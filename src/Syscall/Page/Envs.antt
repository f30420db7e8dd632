-- ===== src/Syscall/Page/Envs.antt =====
-- Mapping pages leaves the environments alone.
use jos_operating_system.Prelude.{
  ℕ, ◌≡◌, refl, bit_and, ◌==◌, ◌!=◌, ◌&&◌, panics, if◌then◌else◌, Bool, true, false, Option, none,
  some, arith, ◌⊎◌, inl, inr, sym, ap, Outcome, returns, Bool-cases, ◌>>=◌, ◌||◌,
}
use jos_operating_system.Pmap.{Phys}
use jos_operating_system.Pmap.Walk.{Slot, load, pte_w}
use jos_operating_system.Pmap.Map.{page_lookup, page_insert}
use jos_operating_system.Env.{Kernel, Reply, ok, fail, Error, inval, envid2env}
use jos_operating_system.Syscall.{Result, on_env}
use jos_operating_system.Syscall.Page.{sys_page_map, map_found, inserted, bad_perm, bad_va}

-- The environments and the processors are as they were; memory and its tables may not be.
pub record SameEnvs (k k' : Kernel) : Type 0 where
  pub envs : k'.envs ≡ k.envs
  pub cpu_env : k'.cpu_env ≡ k.cpu_env

-- A call either ended at once with the error of `envid2env`, or found its environment and went on.
pub on_env-cases :
    (k : Kernel) (x : Reply (Option ℕ)) (f : ℕ → Result) (r : Reply ℕ) (k' : Kernel)
    → on_env k x f ≡ returns (r, k')
    → ((e : Error) × (x ≡ fail e) × (r ≡ fail e) × (k' ≡ k))
      ⊎ ((i : ℕ) × (x ≡ ok (some i)) × (f i ≡ returns (r, k')))
on_env-cases k (fail e) f r k' h = inl (e, refl, ground arith, ground arith)
on_env-cases k (ok none) f r k' h = absurd (ground arith)
on_env-cases k (ok (some i)) f r k' h = inr (i, refl, h)

unchanged : {k k' : Kernel} → k' ≡ k → SameEnvs k k'
unchanged e = record { envs = ap (λ t. t.envs) e; cpu_env = ap (λ t. t.cpu_env) e }

inserted-SameEnvs :
    (k : Kernel) (q : Bool × Phys) (r : Reply ℕ) (k' : Kernel)
    → inserted k q ≡ (r, k')
    → SameEnvs k k'
unfolding inserted
inserted-SameEnvs k (true, p) r k' e = record {
  envs = ap (λ t. t.1.envs) (sym e);
  cpu_env = ap (λ t. t.1.cpu_env) (sym e);
}
inserted-SameEnvs k (false, p) r k' e = record {
  envs = ap (λ t. t.1.envs) (sym e);
  cpu_env = ap (λ t. t.1.cpu_env) (sym e);
}

insert-SameEnvs :
    (k : Kernel) (o : Outcome (Bool × Phys)) (r : Reply ℕ) (k' : Kernel)
    → (o >>= λ q. returns (inserted k q)) ≡ returns (r, k')
    → SameEnvs k k'
insert-SameEnvs k panics r k' e = absurd (ground arith)
insert-SameEnvs k (returns q) r k' e = inserted-SameEnvs k q r k' (ground arith)

map_found-SameEnvs :
    (k : Kernel) (root : Option ℕ) (dstva perm : ℕ) (o : Option (ℕ × Slot) × Phys) (r : Reply ℕ)
    (k' : Kernel)
    → map_found k root dstva perm o ≡ returns (r, k')
    → SameEnvs k k'
unfolding map_found
map_found-SameEnvs k root dstva perm (none, p) r k' e = record {
  envs = ground arith;
  cpu_env = ground arith;
}
map_found-SameEnvs k root dstva perm (some (pp, s), p) r k' e =
    elim (Bool-cases ((bit_and (load p s) pte_w == 0) && (bit_and perm pte_w != 0))) [
      | inl bad ↦ record { envs = ground (arith, bad); cpu_env = ground (arith, bad) }
      | inr good ↦
          insert-SameEnvs k (page_insert k.npages root (some pp) dstva perm p) r k' (rw good at e)
    ]

lookup-SameEnvs :
    (k : Kernel) (root : Option ℕ) (dstva perm : ℕ) (o : Outcome (Option (ℕ × Slot) × Phys))
    (r : Reply ℕ) (k' : Kernel)
    → (o >>= map_found k root dstva perm) ≡ returns (r, k')
    → SameEnvs k k'
lookup-SameEnvs k root dstva perm panics r k' e = absurd (ground arith)
lookup-SameEnvs k root dstva perm (returns q) r k' e = map_found-SameEnvs k root dstva perm q r k' e

map-SameEnvs :
    (srcva dstva perm : ℕ) (k : Kernel) (a b : Option ℕ) (r : Reply ℕ) (k' : Kernel)
    → (if bad_perm perm
        then returns (fail inval, k)
        else if bad_va dstva || bad_va srcva
        then returns (fail inval, k)
        else (page_lookup k.npages a srcva k.phys >>= map_found k b dstva perm))
      ≡ returns (r, k')
    → SameEnvs k k'
map-SameEnvs srcva dstva perm k a b r k' e = elim (Bool-cases (bad_perm perm)) [
  | inl bad ↦ unchanged (ground (arith, rw bad at e))
  | inr fine ↦ elim (Bool-cases (bad_va dstva || bad_va srcva)) [
    | inl bad ↦ unchanged (ground (arith, rw (fine, bad) at e))
    | inr good ↦
        lookup-SameEnvs k b dstva perm (page_lookup k.npages a srcva k.phys) r k'
          (rw (fine, good) at e)
  ]
]

pub sys_page_map-SameEnvs :
    (cpu src srcva dst dstva perm : ℕ) (k : Kernel) (r : Reply ℕ) (k' : Kernel)
    → sys_page_map cpu src srcva dst dstva perm k ≡ returns (r, k')
    → SameEnvs k k'
unfolding sys_page_map
sys_page_map-SameEnvs cpu src srcva dst dstva perm k r k' e =
    elim (on_env-cases k (envid2env k cpu src true) _ r k' e) [
      | inl (w, at, bad, same) ↦ unchanged same
      | inr (i, at, e1) ↦ elim (on_env-cases k (envid2env k cpu dst false) _ r k' e1) [
        | inl (w, at, bad, same) ↦ unchanged same
        | inr (j, at', e2) ↦
            map-SameEnvs srcva dstva perm k (k.envs i).env_pml4e (k.envs j).env_pml4e r k' e2
      ]
    ]
