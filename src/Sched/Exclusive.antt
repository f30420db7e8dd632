-- ===== src/Sched/Exclusive.antt =====
-- No two processors run one environment.
use jos_operating_system.Prelude.{
  ℕ, ◌<◌, ◌≡◌, refl, ◌≢◌, ◌⊎◌, inl, inr, Option, none, some, arith, ◌==◌, if◌then◌else◌, Bool-cases,
  ap, sym, ◌∙◌, update,
}
use native.Mathlib.Decide.{ℕ_discrete}
use mathlib.Core.Path.{subst}
use jos_operating_system.Env.{Env, Kernel, nenv}
use jos_operating_system.Env.Status
use jos_operating_system.Sched.{
  sched_search, sched_yield, sched_halt, env_run, Next, enters, halts, monitors, any_alive,
}
use jos_operating_system.Sched.Search.{IsRunnable, sched_search-some}
use jos_operating_system.Sched.Choice.{Ran, sched_yield-Chose}

-- No environment is current on two processors, and none that is current is ENV_RUNNABLE.
pub record IsExclusive (k : Kernel) : Type 0 where
  pub alone : (a b i : ℕ) → k.cpu_env a ≡ some i → k.cpu_env b ≡ some i → a ≡ b
  pub busy : (a i : ℕ) → k.cpu_env a ≡ some i → ¬ IsRunnable k i

env_run-IsExclusive :
    (cpu i : ℕ) {k : Kernel}
    → IsExclusive k
    → (k.cpu_env cpu ≡ some i) ⊎ IsRunnable k i
    → IsExclusive (env_run cpu i k)
unfolding env_run
env_run-IsExclusive cpu i {k} v why = record {
  alone = λ a b j p q. ground (arith, v.alone a b j, v.busy a i, v.busy b i);
  busy = λ a j p. ground (arith, v.busy a j, v.busy cpu j, v.alone a cpu j, v.busy a i);
}

-- the state in which a call of the scheduler leaves the kernel
abbrev pub Leaves : (Kernel → Type 0) → Next → Type 0
Leaves P (enters k) = P k
Leaves P (halts k) = P k
Leaves P monitors = Unit

with_counter-IsExclusive :
    (j : ℕ) {k : Kernel} → IsExclusive k → IsExclusive (record k { env_counter = j })
with_counter-IsExclusive j v = record { alone = v.alone; busy = v.busy }

halted-IsExclusive :
    (cpu : ℕ) {k : Kernel}
    → IsExclusive k
    → IsExclusive (record k { cpu_env = update k.cpu_env cpu none })
halted-IsExclusive cpu v = record {
  alone = λ a b j p q. ground (arith, v.alone a b j);
  busy = λ a j p. ground (arith, v.busy a j);
}

sched_halt-IsExclusive :
    (cpu : ℕ) {k : Kernel} → IsExclusive k → Leaves IsExclusive (sched_halt cpu k)
unfolding sched_halt
sched_halt-IsExclusive cpu {k} v = elim (Bool-cases (any_alive nenv 0 k)) [
  | inl e ↦ rw e (halted-IsExclusive cpu v)
  | inr e ↦ rw e tt
]

idle_end :
    (cpu : ℕ) {k : Kernel}
    → IsExclusive k
    → (o : Option ℕ) → k.cpu_env cpu ≡ o
    → Leaves IsExclusive (elim o [
      | none ↦ sched_halt cpu k
      | some c ↦
          if (k.envs c).env_status == Status.running
          then enters (env_run cpu c k)
          else sched_halt cpu k
    ])
idle_end cpu v none e = sched_halt-IsExclusive cpu v
idle_end cpu {k} v (some c) e = elim (Bool-cases ((k.envs c).env_status == Status.running)) [
  | inl r ↦ rw r (env_run-IsExclusive cpu c v (inl e))
  | inr r ↦ rw r (sched_halt-IsExclusive cpu v)
]

search_end :
    (cpu : ℕ) {k : Kernel}
    → IsExclusive k
    → (o : Option ℕ) → sched_search nenv 1 k ≡ o
    → Leaves IsExclusive (elim o [
      | some j ↦ enters (env_run cpu j (record k { env_counter = j }))
      | none ↦ elim (k.cpu_env cpu) [
        | none ↦ sched_halt cpu k
        | some c ↦
            if (k.envs c).env_status == Status.running
            then enters (env_run cpu c k)
            else sched_halt cpu k
      ]
    ])
search_end cpu {k} v none e = idle_end cpu v (k.cpu_env cpu) refl
search_end cpu {k} v (some j) e =
    let (d, lo, hi, f) = sched_search-some nenv 1 k j e in
    env_run-IsExclusive cpu j (with_counter-IsExclusive j v) (inr f.runnable)

-- `sched_yield` never lets two processors run one environment: if the current environments of all
-- processors are different and none of them is ENV_RUNNABLE, it leaves the kernel so.
pub sched_yield-IsExclusive :
    (cpu : ℕ) {k : Kernel} → IsExclusive k → Leaves IsExclusive (sched_yield cpu k)
unfolding sched_yield
sched_yield-IsExclusive cpu {k} v = search_end cpu v (sched_search nenv 1 k) refl

-- If the current environment of a processor is ENV_RUNNABLE, and the only environment that is, and
-- `env_counter` is below NENV, then `sched_yield` of that processor enters it and leaves it
-- ENV_RUNNABLE; `sched_yield` of another processor after that enters it as well, so that both run it.
pub env_run_twice :
    (a b i : ℕ) (k : Kernel)
    → a ≢ b
    → k.env_counter < nenv
    → i < nenv
    → k.cpu_env a ≡ some i
    → IsRunnable k i
    → ((e : ℕ) → e < nenv → IsRunnable k e → e ≡ i)
    → (k' k'' : Kernel) × (sched_yield a k ≡ enters k')
      × IsRunnable k' i
      × (sched_yield b k' ≡ enters k'')
      × (k''.cpu_env a ≡ some i)
      × (k''.cpu_env b ≡ some i)
env_run_twice a b i k ne hc hi cur r only =
    let (d, j, k', c) = sched_yield-Chose a i k hc hi r in
    let at : j ≡ i = only j (omega (arith, c.first.slot)) c.first.runnable in
    let still : IsRunnable k' i =
      subst (λ t. IsRunnable k' t) at (c.ran.kept (cur ∙ ap some (sym at)) ∙ c.first.runnable) in
    let (d', j', k'', c') = sched_yield-Chose b i k' (omega (arith, c.counter, at)) hi still in
    let at' : j' ≡ i = only_one j' j k' (omega (arith, c'.first.slot)) c.ran at c'.first.runnable in
    (
      k',
      k'',
      c.result,
      still,
      c'.result,
      c'.ran.cpus a ne ∙ c.ran.current ∙ ap some at,
      c'.ran.current ∙ ap some at',
    )
  where
    only_one :
        (j' j : ℕ) (k' : Kernel) → j' < nenv → Ran a j k k' → j ≡ i → IsRunnable k' j' → j' ≡ i
    only_one j' j k' h ran at r' = elim (ℕ_discrete j' i) [
      | yes same ↦ same
      | no other ↦ only j' h (
          ap (λ (x : Env). x.env_status)
            (sym (ran.others j' (λ q. other (q ∙ at)) (λ q. other (ground arith))))
          ∙ r')
    ]
