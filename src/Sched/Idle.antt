-- ===== src/Sched/Idle.antt =====
-- `sched_yield` and `sched_halt` when no environment is runnable.
use jos_operating_system.Prelude.{
  ℕ, zero, suc, ◌+◌, ◌<◌, ◌≤◌, ◌≡◌, refl, ◌≢◌, ◌↔◌, inl, inr, false, none, some, arith,
  if◌then◌else◌, Option-cases, update,
}
use native.Mathlib.Decide.{dec_lt}
use mathlib.Core.Path.{subst}
use jos_operating_system.Env.{Kernel, nenv}
use jos_operating_system.Env.Status
use jos_operating_system.Sched.{
  sched_search, sched_yield, sched_halt, env_run, enters, halts, monitors, is_alive, any_alive,
}
use jos_operating_system.Sched.Search.{IsRunnable, sched_search-some}
use jos_operating_system.Sched.Choice.{Ran, env_run-Ran}

any_alive-false :
    (n i : ℕ) (k : Kernel)
    → any_alive n i k ≡ false
    → (e : ℕ) → i ≤ e
    → e < i + n
    → is_alive (k.envs e) ≡ false
unfolding any_alive
any_alive-false zero i k h e lo hi = absurd (omega arith)
any_alive-false (suc n) i k h e lo hi = elim (dec_lt i e) [
  | yes after ↦ any_alive-false n (i + 1) k (ground arith) e (omega arith) (omega arith)
  | no here ↦
      (let same : i ≡ e = omega arith in
        subst (λ t. is_alive (k.envs t) ≡ false) same (ground arith))
]

any_alive_none :
    (n i : ℕ) (k : Kernel)
    → ((e : ℕ) → i ≤ e → e < i + n → is_alive (k.envs e) ≡ false)
    → any_alive n i k ≡ false
unfolding any_alive
any_alive_none zero i k h = refl
any_alive_none (suc n) i k h =
    rw (h i (omega arith) (omega arith))
      (any_alive_none n (i + 1) k (λ e lo hi. h e (omega arith) (omega arith)))

no_search : (k : Kernel) → ((e : ℕ) → e < nenv → ¬ IsRunnable k e) → sched_search nenv 1 k ≡ none
no_search k idle = elim (Option-cases (sched_search nenv 1 k)) [
  | inl nothing ↦ nothing
  | inr (j, found) ↦
      (let (d, lo, hi, f) = sched_search-some nenv 1 k j found in
        absurd (idle j (omega (arith, f.slot)) f.runnable))
]

-- With no runnable environment, `sched_yield` goes on with the current one if that is still
-- ENV_RUNNING.
pub sched_yield-stays :
    (cpu c : ℕ) (k : Kernel)
    → ((e : ℕ) → e < nenv → ¬ IsRunnable k e)
    → k.cpu_env cpu ≡ some c
    → (k.envs c).env_status ≡ Status.running
    → (k' : Kernel) × (sched_yield cpu k ≡ enters k') × Ran cpu c k k'
unfolding sched_yield
sched_yield-stays cpu c k idle e r =
    (env_run cpu c k, ground (arith, no_search k idle), env_run-Ran cpu c k)

-- What `sched_yield` does when there is nothing to run: if an environment is still running on
-- another processor or dying, this one has no environment any more and halts; else the monitor
-- takes over.
pub sched_yield_idle :
    (cpu : ℕ) (k : Kernel)
    → ((e : ℕ) → e < nenv → ¬ IsRunnable k e)
    → ((c : ℕ) → k.cpu_env cpu ≡ some c → (k.envs c).env_status ≢ Status.running)
    → sched_yield cpu k ≡ (
        if any_alive nenv 0 k
        then halts (record k { cpu_env = update k.cpu_env cpu none })
        else monitors)
unfolding sched_yield sched_halt
sched_yield_idle cpu k idle off = elim (Option-cases (k.cpu_env cpu)) [
  | inl nobody ↦ ground (arith, no_search k idle)
  | inr (c, e) ↦ ground (arith, no_search k idle, off c e)
]

monitors_only :
    (cpu : ℕ) (k : Kernel)
    → sched_yield cpu k ≡ monitors
    → (e : ℕ) → e < nenv
    → is_alive (k.envs e) ≡ false
unfolding sched_yield sched_halt
monitors_only cpu k m e he = any_alive-false nenv 0 k (ground arith) e (omega arith) (omega arith)

dead_monitors :
    (cpu : ℕ) (k : Kernel)
    → ((c : ℕ) → k.cpu_env cpu ≡ some c → c < nenv)
    → ((e : ℕ) → e < nenv → is_alive (k.envs e) ≡ false)
    → sched_yield cpu k ≡ monitors
dead_monitors cpu k inside dead = ground (
  arith,
  sched_yield_idle cpu k (λ e he r. ground (arith, dead e he))
      (λ c cur r. ground (arith, dead c (inside c cur))),
  any_alive_none nenv 0 k (λ e lo hi. dead e (omega arith)),
)

-- The kernel drops into the monitor exactly when every environment is free or not runnable.
pub sched_yield-monitors :
    (cpu : ℕ) (k : Kernel)
    → ((c : ℕ) → k.cpu_env cpu ≡ some c → c < nenv)
    → (sched_yield cpu k ≡ monitors) ↔ ((e : ℕ) → e < nenv → is_alive (k.envs e) ≡ false)
sched_yield-monitors cpu k inside = (monitors_only cpu k, dead_monitors cpu k inside)
