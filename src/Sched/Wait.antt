-- ===== src/Sched/Wait.antt =====
-- How long a runnable environment waits for its turn.
use jos_operating_system.Prelude.{
  ℕ, suc, ◌+◌, ◌<◌, ◌≤◌, ◌≡◌, refl, ◌≢◌, ◌⊎◌, inl, inr, some, arith, Option-cases, ap, sym, ◌∙◌,
}
use native.Mathlib.Decide.{dec_lt, ℕ_discrete}
use mathlib.Core.Path.{subst}
use jos_operating_system.Env.{Env, Kernel, nenv}
use jos_operating_system.Sched.{Next, turn, sched_yield, enters, halts, monitors}
use jos_operating_system.Sched.Search.{IsRunnable, First}
use jos_operating_system.Sched.Choice.{Ran, Chose, gap, turn-gap, sched_yield-Chose}

-- What a call of `sched_yield` does for the waiting environment `e`.
pub record Closer (cpu e : ℕ) (k k' : Kernel) : Type 0 where
  pub runnable : IsRunnable k' e
  pub counter : k'.env_counter < nenv
  pub nearer : gap k' e < gap k e

stays_runnable :
    (cpu e j : ℕ) (k k' : Kernel) → IsRunnable k e → Ran cpu j k k' → j ≢ e → IsRunnable k' e
stays_runnable cpu e j k k' r ran ne = elim (Option-cases (k.cpu_env cpu)) [
  | inl nobody ↦ ap (λ (x : Env). x.env_status) (ran.others e (λ q. ne (sym q)) (λ q. cc)) ∙ r
  | inr (c, cur) ↦ elim (ℕ_discrete c e) [
    | yes same ↦
        (ap (λ (x : Env). x.env_status) (ran.preempted_lem e (λ q. ne (sym q)) (cur ∙ ap some same))
          ∙ ground arith)
    | no apart ↦
        (ap (λ (x : Env). x.env_status) (ran.others e (λ q. ne (sym q)) (λ q. ground arith)) ∙ r)
  ]
]

-- The rounds up to the chosen one lie before the turn of `e`.
passed_over :
    (e d j : ℕ) (k : Kernel)
    → k.env_counter < nenv
    → e < nenv
    → IsRunnable k e
    → First k 1 d j
    → j ≢ e
    → d < gap k e
passed_over e d j k hc he r f ne = elim (dec_lt d (gap k e)) [
  | yes before ↦ before
  | no after ↦ elim (ℕ_discrete d (gap k e)) [
    | yes here ↦ absurd (ne (sym f.slot ∙ ap (turn k) here ∙ (turn-gap k e hc he).0))
    | no past ↦ absurd (
        f.none_before (gap k e) (turn-gap k e hc he).1 (omega arith)
          (ap (λ t. (k.envs t).env_status) (turn-gap k e hc he).0 ∙ r))
  ]
]

closer :
    (cpu e d j : ℕ) (k k' : Kernel)
    → k.env_counter < nenv
    → e < nenv
    → IsRunnable k e
    → Chose cpu k d j k'
    → j ≢ e
    → Closer cpu e k k'
closer cpu e d j k k' hc he r c ne =
    let before = passed_over e d j k hc he r c.first ne in
    record {
      runnable = stays_runnable cpu e j k k' r c.ran ne;
      counter = omega (arith, c.counter, c.first.slot);
      nearer = ground (arith, c.counter, c.first.slot, before);
    }

enters_inj : {k k' : Kernel} → enters k ≡ enters k' → k ≡ k'
enters_inj e = cc e

-- One call of `sched_yield` enters the runnable environment `e`, or brings its turn nearer.
pub sched_yield-Closer :
    (cpu e : ℕ) (k k' : Kernel)
    → k.env_counter < nenv
    → e < nenv
    → IsRunnable k e
    → sched_yield cpu k ≡ enters k'
    → (k'.cpu_env cpu ≡ some e) ⊎ Closer cpu e k k'
sched_yield-Closer cpu e k k' hc he r result =
    let (d, j, k'', c) = sched_yield-Chose cpu e k hc he r in
    let same : k'' ≡ k' = enters_inj (sym c.result ∙ result) in
    elim (ℕ_discrete j e) [
      | yes here ↦
          inl (subst (λ (x : Kernel). x.cpu_env cpu ≡ some e) same (c.ran.current ∙ ap some here))
      | no other ↦ inr (subst (λ x. Closer cpu e k x) same (closer cpu e d j k k'' hc he r c other))
    ]

-- The call did not enter `e`: it entered another environment, halted, or went into the monitor.
abbrev pub Misses : ℕ → ℕ → Next → Type 0
Misses cpu e (enters k) = k.cpu_env cpu ≢ some e
Misses cpu e (halts k) = Unit {0}
Misses cpu e monitors = Unit {0}

-- the kernel that a call leaves; the monitor does not return
abbrev pub after : Kernel → Next → Kernel
after m (enters k) = k
after m (halts k) = k
after m monitors = m

-- `n` calls of `sched_yield` on any processors, all that there were, however they ended, none of
-- which entered `e`; between them the kernel and the environments do what they like, as long as `e`
-- stays runnable and `env_counter`, which only `sched_yield` writes, is what it was.
pub data Waits (e : ℕ) : ℕ → Kernel → Kernel → Type 0 where
  start : (k : Kernel) → Waits e 0 k k
  yielded :
      {n : ℕ} {k m k' : Kernel} (cpu : ℕ) (m' : Kernel)
      → Waits e n k m
      → IsRunnable m' e
      → m'.env_counter ≡ m.env_counter
      → after m' (sched_yield cpu m') ≡ k'
      → Misses cpu e (sched_yield cpu m')
      → Waits e (suc n) k k'

record Waited (e n : ℕ) (k k' : Kernel) : Type 0 where
  counter : k'.env_counter < nenv
  total : gap k' e + n ≤ gap k e

Waits-total :
    (e : ℕ) {n : ℕ} {k k' : Kernel}
    → k.env_counter < nenv
    → e < nenv
    → Waits e n k k'
    → Waited e n k k'
Waits-total e hc he (start k) = record { counter = hc; total = omega arith }
Waits-total e {k} hc he (yielded {n} {m} {k'} cpu m' w r same result ne) =
    let before = Waits-total e hc he w in
    let here : m'.env_counter < nenv = omega (arith, same, before.counter) in
    let equal : gap m' e ≡ gap m e = rw same refl in
    let (d, j, k'', c) = sched_yield-Chose cpu e m' here he r in
    let left : k'' ≡ k' = sym (ap (λ o. after m' o) c.result) ∙ result in
    let entered : sched_yield cpu m' ≡ enters k' = c.result ∙ ap (λ x. enters x) left in
    elim (sched_yield-Closer cpu e m' k' here he r entered) [
      | inl now ↦ absurd ((subst (Misses cpu e) entered ne) now)
      | inr c ↦ record { counter = c.counter; total = omega (arith, c.nearer, before.total, equal) }
    ]

-- Where `env_counter` is below NENV at the start, fewer than NENV calls of `sched_yield` in a row,
-- made by any processors, fail to enter an environment of the table that is runnable at each of them,
-- whatever happens in between, as long as nothing else writes `env_counter`. A call that halts or goes
-- into the monitor counts as one that fails: no runnable environment starves.
pub Waits-lt :
    (e : ℕ) {n : ℕ} {k k' : Kernel} → k.env_counter < nenv → e < nenv → Waits e n k k' → n < nenv
Waits-lt e {n} {k} {k'} hc he w =
    let t = Waits-total e hc he w in
    omega (arith, t.total, turn-gap k e hc he, turn-gap k' e t.counter he)
