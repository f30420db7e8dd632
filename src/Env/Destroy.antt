-- ===== src/Env/Destroy.antt =====
-- What `env_free` leaves of an environment.
use jos_operating_system.Prelude.{
  ℕ, ◌<◌, ◌≡◌, ◌≢◌, refl, List, ◌∷◌, false, arith, has, Option-cases, inl, inr, returns,
  Outcome-cases, sym, Bool,
}
use mathlib.Core.Path.{subst}
use jos_operating_system.Env.{Kernel, nenv, envx, envid2env, fail, bad_env}
use jos_operating_system.Env.Free.{env_free, free_pages, freed_env, put_free}
use jos_operating_system.Env.Alloc.{Chain-update, IsTable}
use jos_operating_system.Pmap.{Phys}

-- what a successful `env_free` has done, but for the pages
env_free-put_free :
    (i : ℕ) (k k' : Kernel) → env_free i k ≡ returns k' → (p : Phys) × (k' ≡ put_free i k p)
unfolding env_free
env_free-put_free i k k' e = elim (Option-cases (k.envs i).env_pml4e) [
  | inl bare ↦ absurd (ground (arith, bare))
  | inr (root, at) ↦ (elim (Outcome-cases (free_pages k.npages root (k.envs i).env_cr3 k.phys)) [
    | inl stop ↦ absurd (ground (arith, at, stop))
    | inr (p, done) ↦ (p, ground (arith, at, done))
  ])
]

put_free-IsTable :
    (i : ℕ) (k : Kernel) (p : Phys) (xs : List ℕ)
    → IsTable k xs
    → i < nenv
    → has i xs ≡ false
    → IsTable (put_free i k p) (i ∷ xs)
put_free-IsTable i k p xs v inside out = record {
  chain = (
    refl,
    ground (
      arith,
      Chain-update k.envs i (freed_env k.env_free_list (k.envs i)) k.env_free_list xs out v.chain,
    ),
  );
  distinct = (out, v.distinct);
  inside = λ j h. ground (arith, v.inside j);
  free = λ j h. ground (arith, v.free j);
  used = λ j l h. ground (arith, v.used j);
  indexed = λ j l ne. ground (arith, v.indexed j);
  small = λ j. ground (arith, v.small j);
}

-- After `env_free` of an environment in use, it is the first free one: the table stays well formed,
-- and no other environment changes.
pub env_free-IsTable :
    (i : ℕ) {k : Kernel} (k' : Kernel) (xs : List ℕ)
    → IsTable k xs
    → i < nenv
    → has i xs ≡ false
    → env_free i k ≡ returns k'
    → IsTable k' (i ∷ xs) × ((j : ℕ) → j ≢ i → k'.envs j ≡ k.envs j)
env_free-IsTable i {k} k' xs v inside out e =
    let (p, same) = env_free-put_free i k k' e in
    subst (λ t. IsTable t (i ∷ xs) × ((j : ℕ) → j ≢ i → t.envs j ≡ k.envs j)) (sym same)
      (put_free-IsTable i k p xs v inside out, λ j ne. ground arith)

-- The identifier of a freed environment is refused, whoever asks.
pub envid2env-env_free :
    (i : ℕ) (k k' : Kernel) (cpu : ℕ) (checkperm : Bool)
    → env_free i k ≡ returns k'
    → (k.envs i).env_id ≢ 0
    → envx (k.envs i).env_id ≡ i
    → envid2env k' cpu (k.envs i).env_id checkperm ≡ fail bad_env
unfolding envid2env
envid2env-env_free i k k' cpu checkperm e pos at =
    let (p, same) = env_free-put_free i k k' e in rw same (ground (arith, at))
