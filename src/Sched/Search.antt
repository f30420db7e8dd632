-- ===== src/Sched/Search.antt =====
-- The loop of `sched_yield`: the first runnable environment in circular order.
use jos_operating_system.Prelude.{
  ℕ, zero, suc, ◌+◌, ◌<◌, ◌≤◌, ◌≡◌, inl, inr, false, none, some, arith, ◌==◌, Bool-cases, ap,
}
use native.Mathlib.Decide.{dec_lt}
use jos_operating_system.Env.{Kernel}
use jos_operating_system.Env.Status
use jos_operating_system.Sched.{turn, sched_search}

abbrev pub IsRunnable : Kernel → ℕ → Type 0
IsRunnable k j = (k.envs j).env_status ≡ Status.runnable

-- `j` is the slot of round `d`, it is runnable, and no round from `i` up to `d` found one.
pub record First (k : Kernel) (i d j : ℕ) : Type 0 where
  pub slot : turn k d ≡ j
  pub runnable : IsRunnable k j
  pub none_before : (e : ℕ) → i ≤ e → e < d → ¬ IsRunnable k (turn k e)

-- Round `i` found nothing, and no round after it up to here did.
past_first :
    (k : Kernel) (i e : ℕ)
    → ((k.envs (turn k i)).env_status == Status.runnable) ≡ false
    → i ≤ e
    → (i + 1 ≤ e → ¬ IsRunnable k (turn k e))
    → ¬ IsRunnable k (turn k e)
past_first k i e idle lo later r = elim (dec_lt i e) [
  | yes after ↦ later (omega arith) r
  | no here ↦ (let same : e ≡ i = omega arith in absurd (ground (arith, ap (turn k) same)))
]

pub sched_search-some :
    (n i : ℕ) (k : Kernel) (j : ℕ)
    → sched_search n i k ≡ some j
    → (d : ℕ) × (i ≤ d) × (d < i + n) × First k i d j
unfolding sched_search
sched_search-some zero i k j h = cc
sched_search-some (suc n) i k j h =
    elim (Bool-cases ((k.envs (turn k i)).env_status == Status.runnable)) [
      | inl now ↦ (
        i,
        omega arith,
        omega arith,
        record {
          slot = ground arith;
          runnable = ground arith;
          none_before = λ e lo hi. absurd (omega arith);
        },
      )
      | inr later ↦
          (let (d, lo, hi, f) = sched_search-some n (i + 1) k j (ground arith) in
            (
              d,
              omega arith,
              omega arith,
              record {
                slot = f.slot;
                runnable = f.runnable;
                none_before = λ e lo' hi'. past_first k i e later lo' (λ m. f.none_before e m hi');
              },
            ))
    ]

pub sched_search-none :
    (n i : ℕ) (k : Kernel)
    → sched_search n i k ≡ none
    → (e : ℕ) → i ≤ e
    → e < i + n
    → ¬ IsRunnable k (turn k e)
unfolding sched_search
sched_search-none zero i k h e lo hi = absurd (omega arith)
sched_search-none (suc n) i k h e lo hi =
    past_first k i e (ground arith) lo
      (λ m. sched_search-none n (i + 1) k (ground arith) e m (omega arith))
