-- ===== src/Sched/Choice.antt =====
-- What `env_run` changes, and which environment `sched_yield` enters.
use jos_operating_system.Prelude.{
  ℕ, ◌+◌, ◌-◌, ◌%◌, ◌^◌, ◌<◌, ◌≤◌, ◌≡◌, ◌≢◌, inl, inr, none, some, arith, if◌then◌else◌,
  Option-cases, ap, ◌∙◌, ltb,
}
use jos_operating_system.Env.{Kernel, nenv}
use jos_operating_system.Env.Status
use jos_operating_system.Sched.{turn, sched_search, sched_yield, env_run, preempted, enters}
use jos_operating_system.Sched.Search.{IsRunnable, First, sched_search-some, sched_search-none}

-- The processor went from its current environment to `i`.
pub record Ran (cpu i : ℕ) (k k' : Kernel) : Type 0 where
  pub current : k'.cpu_env cpu ≡ some i
  pub runs : (k'.envs i).env_runs ≡ ((k.envs i).env_runs + 1) % 2 ^ 32
  pub switched : k.cpu_env cpu ≢ some i → (k'.envs i).env_status ≡ Status.running
  pub kept : k.cpu_env cpu ≡ some i → (k'.envs i).env_status ≡ (k.envs i).env_status
  pub preempted_lem : (c : ℕ) → c ≢ i → k.cpu_env cpu ≡ some c → k'.envs c ≡ preempted (k.envs c)
  pub others : (j : ℕ) → j ≢ i → k.cpu_env cpu ≢ some j → k'.envs j ≡ k.envs j
  pub cpus : (c : ℕ) → c ≢ cpu → k'.cpu_env c ≡ k.cpu_env c

-- `env_run` enters its environment: it is current on this processor and has run once more; on a
-- switch it is ENV_RUNNING, and the environment that was current is put back to ENV_RUNNABLE if
-- it was ENV_RUNNING; no other environment and no other processor changes.
pub env_run-Ran : (cpu i : ℕ) (k : Kernel) → Ran cpu i k (env_run cpu i k)
unfolding env_run
env_run-Ran cpu i k = record {
  current = ground arith;
  runs = ground arith;
  switched = λ ne. ground arith;
  kept = λ e. ground arith;
  preempted_lem = λ c ne e. ground arith;
  others = λ j ne out. ground arith;
  cpus = λ c ne. ground arith;
}

pub env_counter-env_run : (cpu i : ℕ) (k : Kernel) → (env_run cpu i k).env_counter ≡ k.env_counter
unfolding env_run
env_counter-env_run cpu i k = ground arith

-- rounds that the search takes from the counter to `e`
abbrev pub gap : Kernel → ℕ → ℕ
gap k e = if ltb k.env_counter e then e - k.env_counter else e + nenv - k.env_counter

pub turn-gap :
    (k : Kernel) (e : ℕ)
    → k.env_counter < nenv
    → e < nenv
    → (turn k (gap k e) ≡ e) × (1 ≤ gap k e) × (gap k e ≤ nenv)
turn-gap k e hc he = (ground arith, ground arith, ground arith)

search-finds :
    (k : Kernel) (e : ℕ)
    → k.env_counter < nenv
    → e < nenv
    → IsRunnable k e
    → sched_search nenv 1 k ≢ none
search-finds k e hc he r none_found =
    let (at, lo, hi) = turn-gap k e hc he in
    sched_search-none nenv 1 k none_found (gap k e) lo (omega arith)
      (ap (λ t. (k.envs t).env_status) at ∙ r)

yield-enters :
    (cpu j : ℕ) (k : Kernel)
    → sched_search nenv 1 k ≡ some j
    → sched_yield cpu k ≡ enters (env_run cpu j (record k { env_counter = j }))
unfolding sched_yield
yield-enters cpu j k e = ground arith

-- the first runnable environment in circular order, entered
pub record Chose (cpu : ℕ) (k : Kernel) (d j : ℕ) (k' : Kernel) : Type 0 where
  pub result : sched_yield cpu k ≡ enters k'
  pub first : First k 1 d j
  pub after : 1 ≤ d
  pub within : d ≤ nenv
  pub ran : Ran cpu j k k'
  pub counter : k'.env_counter ≡ j

chosen :
    (cpu j : ℕ) (k : Kernel)
    → sched_search nenv 1 k ≡ some j
    → (d : ℕ) × Chose cpu k d j (env_run cpu j (record k { env_counter = j }))
chosen cpu j k e =
    let (d, lo, hi, f) = sched_search-some nenv 1 k j e in
    let r = env_run-Ran cpu j (record k { env_counter = j }) in
    (
      d,
      record {
        result = yield-enters cpu j k e;
        first = f;
        after = lo;
        within = omega arith;
        ran = record {
          current = r.current;
          runs = r.runs;
          switched = r.switched;
          kept = r.kept;
          preempted_lem = r.preempted_lem;
          others = r.others;
          cpus = r.cpus;
        };
        counter = env_counter-env_run cpu j (record k { env_counter = j });
      },
    )

-- If some environment is runnable, `sched_yield` enters the first runnable one in circular order
-- after the one that it chose last, and remembers it.
pub sched_yield-Chose :
    (cpu e : ℕ) (k : Kernel)
    → k.env_counter < nenv
    → e < nenv
    → IsRunnable k e
    → (d j : ℕ) × (k' : Kernel) × Chose cpu k d j k'
sched_yield-Chose cpu e k hc he r = elim (Option-cases (sched_search nenv 1 k)) [
  | inl nothing ↦ absurd (search-finds k e hc he r nothing)
  | inr (j, found) ↦
      (let (d, c) = chosen cpu j k found in (d, j, env_run cpu j (record k { env_counter = j }), c))
]
