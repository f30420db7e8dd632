-- ===== src/Env/Alloc.antt =====
-- The environment table that `env_init` sets up and `env_alloc` keeps.
use jos_operating_system.Prelude.{
  ℕ, zero, suc, ◌+◌, ◌<◌, ◌≤◌, ◌≡◌, refl, ◌≢◌, ◌⊎◌, inl, inr, ◌^◌, true, false, Option, none, some,
  List, [], ◌∷◌, arith, update, has, Distinct, returns, ◌>>=◌, sym, ◌∙◌, range_from, has-range_from,
  has-range_from_inside, range_from-Distinct,
}
use mathlib.Core.Path.{subst}
use jos_operating_system.Env.{
  Env, Kernel, ok, fail, no_mem, no_free_env, nenv, envx, next_id, env_init, env_setup_vm,
  env_filled, env_committed, env_alloc, vm_filled, set_env,
}
use jos_operating_system.Pmap.FreeList.{IsFreeList}
use jos_operating_system.Env.Status
use jos_operating_system.Env.Vm.{
  env_setup_vm-empty, with_vm, env_setup_vm-some, Private, with_vm-Private,
}
use jos_operating_system.Env.Ident.{Indexed, next_id_lem}

-- From `h` the links of the environments lead through `xs` and end in NULL.
abbrev pub Chain : (ℕ → Env) → Option ℕ → List ℕ → Type 0
Chain envs h [] = h ≡ none
Chain envs h (x ∷ xs) = (h ≡ some x) × Chain envs (envs x).env_link xs

pub record IsTable (k : Kernel) (xs : List ℕ) : Type 0 where
  pub chain : Chain k.envs k.env_free_list xs
  pub distinct : Distinct xs
  pub inside : (i : ℕ) → has i xs ≡ true → i < nenv
  pub free : (i : ℕ) → has i xs ≡ true → (k.envs i).env_status ≡ Status.free
  pub used : (i : ℕ) → i < nenv → has i xs ≡ false → (k.envs i).env_status ≢ Status.free
  pub indexed : Indexed k
  pub small : (i : ℕ) → (k.envs i).env_id < 2 ^ 31

Chain-init :
    (k : Kernel) (n i : ℕ)
    → i + suc n ≡ nenv
    → Chain (env_init k).envs (some i) (range_from i (suc n))
unfolding env_init range_from
Chain-init k zero i e = (refl, ground arith)
Chain-init k (suc n) i e =
    let next : ((env_init k).envs i).env_link ≡ some (suc i) = ground arith in
    (refl, rw next (Chain-init k n (suc i) (omega arith)))

-- After `env_init` every environment is free, in the order of the array.
pub env_init-IsTable : (k : Kernel) → IsTable (env_init k) (range_from 0 nenv)
unfolding env_init
env_init-IsTable k = record {
  chain = Chain-init k 1023 0 (omega arith);
  distinct = range_from-Distinct 0 nenv;
  inside = λ i h. omega (arith, has-range_from 0 nenv i);
  free = λ i h. refl;
  used = λ i h out. cc (sym (has-range_from_inside 0 nenv i (omega arith) (omega arith)) ∙ out);
  indexed = λ i h ne. absurd (ne refl);
  small = λ i. omega arith;
}

module _ (envs : ℕ → Env) (i : ℕ) (e : Env) where
  pub Chain-update :
      (h : Option ℕ) (xs : List ℕ)
      → has i xs ≡ false
      → Chain envs h xs
      → Chain (update envs i e) h xs
  Chain-update h [] out c = c
  Chain-update h (x ∷ xs) out c = ground (arith, Chain-update (envs x).env_link xs)

-- `env_alloc` with no free environment is -E_NO_FREE_ENV, and changes nothing.
env_alloc_full :
    (parent_id : ℕ) {k : Kernel}
    → IsTable k []
    → env_alloc parent_id k ≡ returns (fail no_free_env, k)
unfolding env_alloc
env_alloc_full parent_id v = ground (arith, v.chain)

env_alloc_at :
    (parent_id i : ℕ) (k : Kernel)
    → k.env_free_list ≡ some i
    → env_alloc parent_id k
      ≡ (env_setup_vm i k >>= λ made. returns (env_committed parent_id i made))
unfolding env_alloc
env_alloc_at parent_id i k e = ground arith

-- What `env_alloc` has done with slot `i`: its page tables are page `pg`, and it is a runnable
-- child of `parent_id` with an identifier for the slot that is positive as an `envid_t` and that the
-- slot did not have before; the other environments are as they were.
pub record Created (parent_id i pg : ℕ) (k k' : Kernel) : Type 0 where
  pub runnable : (k'.envs i).env_status ≡ Status.runnable
  pub parent : (k'.envs i).env_parent_id ≡ parent_id
  pub fresh : (k'.envs i).env_id ≡ next_id (k.envs i).env_id i
  pub other_id : (k'.envs i).env_id ≢ (k.envs i).env_id
  pub positive : 0 < (k'.envs i).env_id
  pub signed : (k'.envs i).env_id < 2 ^ 31
  pub index : envx (k'.envs i).env_id ≡ i
  pub tables : (k'.envs i).env_pml4e ≡ some pg
  pub silent : (k'.envs i).env_ipc_recving ≡ false
  pub others : (j : ℕ) → j ≢ i → k'.envs j ≡ k.envs j

abbrev created : ℕ → ℕ → ℕ → Kernel → Kernel
created parent_id i pg k =
    record (set_env (with_vm i pg k) i (env_filled parent_id i ((with_vm i pg k).envs i))) {
      env_free_list = ((with_vm i pg k).envs i).env_link;
    }

created-Created :
    (parent_id i pg : ℕ) (k : Kernel)
    → i < nenv
    → (k.envs i).env_id < 2 ^ 32
    → Created parent_id i pg k (created parent_id i pg k)
unfolding env_filled vm_filled
created-Created parent_id i pg k inside small =
    let id = next_id_lem (k.envs i).env_id i inside small in
    record {
      runnable = ground arith;
      parent = ground arith;
      fresh = ground arith;
      other_id = ground (arith, id);
      positive = ground (arith, id);
      signed = ground (arith, id);
      index = ground (arith, id);
      tables = ground arith;
      silent = ground arith;
      others = λ j ne. ground arith;
    }

created-Chain :
    (parent_id i pg : ℕ) (k : Kernel) (h : Option ℕ) (xs : List ℕ)
    → has i xs ≡ false
    → Chain k.envs h xs
    → Chain (created parent_id i pg k).envs h xs
unfolding env_filled vm_filled
created-Chain parent_id i pg k h xs out c =
    let inner = (with_vm i pg k).envs i in
    Chain-update (with_vm i pg k).envs i (env_filled parent_id i inner) h xs out
      (Chain-update k.envs i _ h xs out c)

created-IsTable :
    (parent_id i pg : ℕ) {k : Kernel} (xs : List ℕ)
    → IsTable k (i ∷ xs)
    → IsTable (created parent_id i pg k) xs
unfolding env_filled vm_filled
created-IsTable parent_id i pg {k} xs v =
    let back : ((with_vm i pg k).envs i).env_link ≡ (k.envs i).env_link = ground arith in
    let id =
      next_id_lem (k.envs i).env_id i (v.inside i (ground arith)) (omega (arith, v.small i)) in
    record {
      chain =
          subst (λ h. Chain (created parent_id i pg k).envs h xs) (sym back)
            (created-Chain parent_id i pg k (k.envs i).env_link xs v.distinct.0 v.chain.1);
      distinct = v.distinct.1;
      inside = λ j h. ground (arith, v.inside j);
      free = λ j h. ground (arith, v.free j, v.distinct);
      used = λ j h out. ground (arith, v.used j);
      indexed = λ j h ne. ground (arith, v.indexed j, id);
      small = λ j. ground (arith, v.small j, id);
    }

-- `env_alloc` on a well-formed table and free list with a free environment and a free page takes the
-- first of each; the page is not the kernel's own top table and lies inside a memory of at most 2^32
-- pages. The environment becomes a runnable child of `parent_id`, with an identifier that has the slot
-- for its index, is positive as an `envid_t` and is not the one that the slot had before; the other
-- environments are as they were, and the table stays well formed with one free environment less. The
-- page becomes its page tables: it is off the free list, has one reference, maps the kernel and itself
-- and nothing else, and no other page changes.
pub env_alloc_lem :
    (parent_id i pg : ℕ) {k : Kernel} (xs ps : List ℕ)
    → IsTable k (i ∷ xs)
    → IsFreeList k.phys (pg ∷ ps)
    → k.boot_pml4e ≢ pg
    → pg < k.npages
    → k.npages ≤ 2 ^ 32
    → (k' : Kernel) × (env_alloc parent_id k ≡ returns (ok i, k'))
      × IsTable k' xs
      × Created parent_id i pg k k'
      × Private pg ps k k'.phys
unfolding env_committed
env_alloc_lem parent_id i pg {k} xs ps v pages apart inside small = (
  created parent_id i pg k,
  rw (env_alloc_at parent_id i k v.chain.0, env_setup_vm-some i pg k pages.chain.0 inside small),
  created-IsTable parent_id i pg xs v,
  created-Created parent_id i pg k (v.inside i (ground arith)) (omega (arith, v.small i)),
  with_vm-Private i pg ps k pages apart,
)

-- `env_alloc` fails without a change to the kernel: with -E_NO_FREE_ENV exactly when no environment
-- is free, and else with -E_NO_MEM when no page is free.
pub env_alloc_fails :
    (parent_id : ℕ) {k : Kernel} (xs : List ℕ)
    → IsTable k xs
    → (xs ≡ []) ⊎ (k.phys.page_free_list ≡ none)
    → env_alloc parent_id k ≡ returns (fail (elim xs [ [] ↦ no_free_env | _ ∷ _ ↦ no_mem ]), k)
unfolding env_committed
env_alloc_fails parent_id [] v why = env_alloc_full parent_id v
env_alloc_fails parent_id {k} (x ∷ xs) v (inl e) = cc e
env_alloc_fails parent_id {k} (x ∷ xs) v (inr e) =
    rw (env_alloc_at parent_id x k v.chain.0, env_setup_vm-empty x k e)
